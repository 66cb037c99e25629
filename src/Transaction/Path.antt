-- ===== src/Transaction/Path.antt =====
-- Paths and lists of addresses in two parts, and a path without one of its cells.
use concurrent_server.Common.{
  ◌≡◌, ◌≢◌, refl, ◌∙◌, sym, true, false, ◌||◌, List, [], ◌∷◌, ◌++◌, arith,
}
use concurrent_server.Machine.{Ptr, Transaction, Heap}
use concurrent_server.Transaction.Dependents.{mem}
use concurrent_server.Transaction.Framed.{IsPath-same}
use concurrent_server.Transaction.Ring.{
  next_of, prev_of, Link, IsPath, AreDistinct, last_of, first_of, last_of-ne, mem-ne,
}

pub mem-append : (q : Ptr) (xs ys : List Ptr) → mem q (xs ++ ys) ≡ mem q xs || mem q ys
mem-append q [] ys = refl
mem-append q (t ∷ ts) ys = ground (arith, mem-append q ts ys)

pub first_of-ne : (ys : List Ptr) (q t : Ptr) → mem t ys ≡ false → t ≢ q → t ≢ first_of ys q
first_of-ne [] q t out ne = ne
first_of-ne (y ∷ ys) q t out ne = ground arith

-- A path without one of its cells, in a heap in which only the links next to that differ.
pub IsPath-remove :
    (h h' : Heap Transaction) (p : Ptr) (xs : List Ptr) (z : Ptr) (ys : List Ptr) (q : Ptr)
    → IsPath h p (xs ++ z ∷ ys) q
    → AreDistinct (p ∷ (xs ++ z ∷ ys))
    → mem q (xs ++ z ∷ ys) ≡ false
    → ((a : Ptr) → mem a (p ∷ (xs ++ ys)) ≡ true → a ≢ last_of p xs → next_of h' a ≡ next_of h a)
    → ((a : Ptr) → mem a (xs ++ ys) ≡ true → a ≢ first_of ys q → prev_of h' a ≡ prev_of h a)
    → (q ≢ first_of ys q → prev_of h' q ≡ prev_of h q)
    → Link h' (last_of p xs) (first_of ys q)
    → IsPath h' p (xs ++ ys) q
IsPath-remove h h' p [] z [] q path distinct out nexts prevs end link = link
IsPath-remove h h' p [] z (y ∷ ys) q (_, (_, rest)) (p_new, (z_new, (y_new, distinct))) out nexts
      prevs end link =
    (
      link,
      IsPath-same h h' y ys q rest
          (λ a is. nexts a (ground arith) (λ e. mem-ne a p (y ∷ ys) is (ground arith) e))
          (λ a is. prevs a (ground arith) (λ e. mem-ne a y ys is y_new e))
          (end (λ e. ground arith)),
    )
IsPath-remove h h' p (t ∷ ts) z ys q ((forth, back), rest) (p_new, (t_new, distinct)) out nexts
      prevs end link =
    let p_ne : p ≢ last_of t ts =
      λ e. last_of-ne t ts p (ground (arith, mem-append p ts (z ∷ ys))) (sym e) in
    let t_ne : t ≢ first_of ys q =
      first_of-ne ys q t (ground (arith, mem-append t ts (z ∷ ys))) (λ e. ground arith) in
    (
      (nexts p (ground arith) p_ne ∙ forth, prevs t (ground arith) t_ne ∙ back),
      IsPath-remove h h' t ts z ys q rest (t_new, distinct) (ground arith)
          (λ a is. nexts a (ground arith)) (λ a is. prevs a (ground arith)) end link,
    )

pub IsPath-split :
    (h : Heap Transaction) (p : Ptr) (xs : List Ptr) (z : Ptr) (ys : List Ptr) (q : Ptr)
    → IsPath h p (xs ++ z ∷ ys) q
    → IsPath h p xs z × IsPath h z ys q
IsPath-split h p [] z ys q (link, rest) = (link, rest)
IsPath-split h p (t ∷ ts) z ys q (link, rest) =
    let (left, right) = IsPath-split h t ts z ys q rest in ((link, left), right)

pub IsPath-first :
    (h : Heap Transaction) (p : Ptr) (ts : List Ptr) (q : Ptr)
    → IsPath h p ts q
    → Link h p (first_of ts q)
IsPath-first h p [] q link = link
IsPath-first h p (t ∷ ts) q (link, _) = link

pub AreDistinct-middle :
    (xs : List Ptr) (z : Ptr) (ys : List Ptr)
    → AreDistinct (xs ++ z ∷ ys)
    → (mem z xs ≡ false) × (mem z ys ≡ false) × AreDistinct (xs ++ ys)
AreDistinct-middle [] z ys (out, distinct) = (refl, out, distinct)
AreDistinct-middle (t ∷ ts) z ys (t_new, distinct) =
    let (left, right, rest) = AreDistinct-middle ts z ys distinct in
    let apart = mem-append t ts (z ∷ ys) in
    (ground arith, right, (mem-append t ts ys ∙ ground arith, rest))
