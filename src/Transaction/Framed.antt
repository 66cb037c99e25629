-- ===== src/Transaction/Framed.antt =====
-- The list of all transactions in a heap with the same links.
use concurrent_server.Common.{◌≡◌, ◌∙◌, ap, true, false, Option, List, [], ◌∷◌, arith}
use concurrent_server.Machine.{Ptr, trans_list, Transaction, Heap, write, at-write_ne}
use concurrent_server.Transaction.Dependents.{mem}
use concurrent_server.Transaction.Ring.{
  change, field_of, field_of-change, next_of, prev_of, IsPath, IsRing, mem-ne,
}

-- A path in a heap with the same links.
pub IsPath-same :
    (h h' : Heap Transaction) (p : Ptr) (ts : List Ptr) (q : Ptr)
    → IsPath h p ts q
    → ((a : Ptr) → mem a (p ∷ ts) ≡ true → next_of h' a ≡ next_of h a)
    → ((a : Ptr) → mem a ts ≡ true → prev_of h' a ≡ prev_of h a)
    → prev_of h' q ≡ prev_of h q
    → IsPath h' p ts q
IsPath-same h h' p [] q (forth, back) nexts prevs end = (nexts p (ground arith) ∙ forth, end ∙ back)
IsPath-same h h' p (t ∷ ts) q ((forth, back), rest) nexts prevs end = (
  (nexts p (ground arith) ∙ forth, prevs t (ground arith) ∙ back),
  IsPath-same h h' t ts q rest (λ a is. nexts a (ground arith)) (λ a is. prevs a (ground arith))
      end,
)

-- A change that keeps the links keeps the ring.
pub change-IsRing :
    (h : Heap Transaction) (p : Ptr) (g : Transaction → Transaction) (ts : List Ptr)
    → ((t : Transaction) → (g t).next ≡ t.next)
    → ((t : Transaction) → (g t).prev ≡ t.prev)
    → IsRing h ts
    → IsRing (change h p g) ts
change-IsRing h p g ts nexts prevs (path, distinct) = (
  IsPath-same h (change h p g) trans_list ts trans_list path
      (λ a _. field_of-change (λ t. t.next) h p g a nexts)
      (λ a _. field_of-change (λ t. t.prev) h p g a prevs)
      (field_of-change (λ t. t.prev) h p g trans_list prevs),
  distinct,
)

-- So does a cell that is not in it.
pub write-IsRing :
    (h : Heap Transaction) (p : Ptr) (c : Option Transaction) (ts : List Ptr)
    → mem p (trans_list ∷ ts) ≡ false
    → IsRing h ts
    → IsRing (write h p c) ts
write-IsRing h p c ts out (path, distinct) = (
  IsPath-same h (write h p c) trans_list ts trans_list path
      (λ a is.
        ap (field_of (λ t. t.next)) (at-write_ne h p a c (mem-ne a p (trans_list ∷ ts) is out)))
      (λ a is.
        ap (field_of (λ t. t.prev))
          (at-write_ne h p a c (mem-ne a p (trans_list ∷ ts) (ground arith) out)))
      (ap (field_of (λ t. t.prev)) (at-write_ne h p trans_list c (λ e. ground arith))),
  distinct,
)
