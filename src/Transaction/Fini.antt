-- ===== src/Transaction/Fini.antt =====
-- `trans_fini` gives back one reference to each transaction of the list.
use concurrent_server.Common.{
  ℕ, zero, suc, ◌-◌, ◌^◌, ◌≤◌, ◌<◌, ◌≡◌, ◌≢◌, refl, ◌∙◌, sym, ap, subst, true, false, Option, none,
  some, List, [], ◌∷◌, ◌++◌, arith, ◌==◌, if◌then◌else◌, length, Bool-cases, inl, inr,
}
use concurrent_server.Machine.{Ptr, null, trans_list, Transaction, Heap, Machine, at, ok, and_then}
use concurrent_server.Machine.Points.{load_transaction-ok}
use concurrent_server.Transaction.{trans_unref, fini_loop, trans_fini}
use concurrent_server.Transaction.Dependents.{mem, with_heap}
use concurrent_server.Transaction.Abort.{unreferenced, trans_unref-ok}
use concurrent_server.Transaction.Ring.{
  change, write-change, at-change_self, at-change_ne, field_of, field_of-cell, IsRing, first_of,
  mem-ne,
}
use concurrent_server.Transaction.Framed.{change-IsRing}
use concurrent_server.Transaction.Path.{IsPath-split, IsPath-first, mem-append, AreDistinct-middle}
use concurrent_server.Transaction.Destroy.{destroyed, field_of-destroyed, trans_unref-last}
use concurrent_server.Transaction.Count.{length-AreDistinct}

abbrev pub refs : Heap Transaction → Ptr → Option ℕ
refs h a = field_of (λ t. t.refcnt) (at h a)

abbrev pub depends_of : Heap Transaction → Ptr → Option Ptr
depends_of h a = field_of (λ t. t.depends) (at h a)

-- Transactions of the list, each with its number of references.
abbrev pub pointers : List (Ptr × ℕ) → List Ptr
pointers [] = []
pointers ((p, n) ∷ rs) = p ∷ pointers rs

-- Those with another reference.
abbrev pub survivors : List (Ptr × ℕ) → List Ptr
survivors [] = []
survivors ((p, n) ∷ rs) = if n == 1 then survivors rs else p ∷ survivors rs

-- The numbers are those of the heap, and on a transaction with one reference no other depends.
abbrev pub AreCounted : Heap Transaction → List (Ptr × ℕ) → Type 0
AreCounted h [] = Unit {0}
AreCounted h ((p, n) ∷ rs) =
    (refs h p ≡ some n)
    × (0 < n)
    × (n < 2 ^ 32)
    × (n ≡ 1 → depends_of h p ≡ some null)
    × AreCounted h rs

-- What is left of a number of references; a transaction without one is freed.
abbrev pub left : ℕ → Option ℕ
left n = if n == 1 then none else some (n - 1)

abbrev pub AreLeft : Heap Transaction → List (Ptr × ℕ) → Type 0
AreLeft h [] = Unit {0}
AreLeft h ((p, n) ∷ rs) = (refs h p ≡ left n) × AreLeft h rs

AreCounted-frame :
    (h h' : Heap Transaction) (rs : List (Ptr × ℕ))
    → ((a : Ptr)
        → mem a (pointers rs) ≡ true
        → (refs h' a ≡ refs h a) × (depends_of h' a ≡ depends_of h a))
    → AreCounted h rs
    → AreCounted h' rs
AreCounted-frame h h' [] same counted = tt
AreCounted-frame h h' ((p, n) ∷ rs) same (count, pos, small, alone, rest) =
    let (refs_p, depends_p) = same p (ground arith) in
    (
      refs_p ∙ count,
      pos,
      small,
      λ one. depends_p ∙ alone one,
      AreCounted-frame h h' rs (λ a is. same a (ground arith)) rest,
    )

-- The transactions of the list that are left in front of the loop.
abbrev keep : List Ptr → Ptr → ℕ → List Ptr
keep xs p n = if n == 1 then xs else xs ++ p ∷ []

append_assoc : (xs : List Ptr) (p : Ptr) (ys : List Ptr) → xs ++ p ∷ ys ≡ (xs ++ p ∷ []) ++ ys
append_assoc [] p ys = refl
append_assoc (x ∷ xs) p ys = ap (λ l. x ∷ l) (append_assoc xs p ys)

-- What one round does.
record Round (m : Machine) (h : Heap Transaction) (xs : List Ptr) (p : Ptr) (n : ℕ) (ys : List Ptr)
    : Type 0 where
  heap : Heap Transaction
  returns : trans_unref p (with_heap m h) ≡ ok tt (with_heap m heap)
  ring : IsRing heap (keep xs p n ++ ys)
  count : refs heap p ≡ left n
  frame : (a : Ptr) → a ≢ p → (refs heap a ≡ refs h a) × (depends_of heap a ≡ depends_of h a)

trans_unref-Round :
    (m : Machine) (h : Heap Transaction) (xs : List Ptr) (p : Ptr) (n : ℕ) (ys : List Ptr)
    {t : Transaction}
    → IsRing h (xs ++ p ∷ ys)
    → at h p ≡ some t
    → t.refcnt ≡ n
    → 0 < n
    → n < 2 ^ 32
    → (n ≡ 1 → depends_of h p ≡ some null)
    → Round m h xs p n ys
trans_unref-Round m h xs p n ys {t} ring held count pos small alone = elim (Bool-cases (n == 1)) [
  | inl one ↦
      let last : t.refcnt ≡ 1 = ground arith in
      let nobody : some t.depends ≡ some null =
        sym (ap (field_of (λ t. t.depends)) held) ∙ alone (ground arith) in
      let none_left : t.depends ≡ null = ground arith in
      let (returns, ring', gone) =
        trans_unref-last (with_heap m h) xs p ys ring held last none_left in
      record {
        heap = destroyed (with_heap m h) xs p ys ring held last none_left;
        returns = returns;
        ring = rw one ring';
        count = rw one (ap (field_of (λ t. t.refcnt)) gone);
        frame = λ a ne. (
          field_of-destroyed (with_heap m h) xs p ys ring held last none_left (λ t. t.refcnt) a ne
              (λ q t. refl) (λ q t. refl),
          field_of-destroyed (with_heap m h) xs p ys ring held last none_left (λ t. t.depends) a ne
              (λ q t. refl) (λ q t. refl),
        );
      }
  | inr many ↦ record {
    heap = change h p unreferenced;
    returns =
        trans_unref-ok (with_heap m h) p held (ground arith, ground arith)
        ∙ ap (λ g. ok tt (with_heap m g)) (write-change h p unreferenced held);
    ring = rw many (
        subst (IsRing (change h p unreferenced)) (append_assoc xs p ys)
          (change-IsRing h p unreferenced (xs ++ p ∷ ys) (λ t. refl) (λ t. refl) ring));
    count = rw many (
        ap (field_of (λ t. t.refcnt)) (at-change_self h p unreferenced held)
        ∙ ap some (ground arith));
    frame = λ a ne. (
      ap (field_of (λ t. t.refcnt)) (at-change_ne h p a unreferenced ne),
      ap (field_of (λ t. t.depends)) (at-change_ne h p a unreferenced ne),
    );
  }
]

keep-survivors :
    (xs : List Ptr) (p : Ptr) (n : ℕ) (rs : List (Ptr × ℕ))
    → keep xs p n ++ survivors rs ≡ xs ++ survivors ((p, n) ∷ rs)
keep-survivors xs p n rs = elim (Bool-cases (n == 1)) [
  | inl one ↦ rw one refl
  | inr many ↦ rw many (sym (append_assoc xs p (survivors rs)))
]

-- What the loop does.
record Finished (m : Machine) (h : Heap Transaction) (k : ℕ) (xs : List Ptr) (rs : List (Ptr × ℕ))
    : Type 0 where
  heap : Heap Transaction
  returns :
      fini_loop k (first_of (pointers rs) trans_list) (with_heap m h) ≡ ok tt (with_heap m heap)
  ring : IsRing heap (xs ++ survivors rs)
  counts : AreLeft heap rs
  frame : (a : Ptr) → mem a (pointers rs) ≡ false → refs heap a ≡ refs h a

fini_loop-Finished :
    (m : Machine) (h : Heap Transaction) (k : ℕ) (xs : List Ptr) (rs : List (Ptr × ℕ))
    → IsRing h (xs ++ pointers rs)
    → AreCounted h rs
    → length (pointers rs) < k
    → Finished m h k xs rs
unfolding fini_loop and_then
fini_loop-Finished m h zero xs rs ring counted fuel = absurd (omega arith)
fini_loop-Finished m h (suc k) xs [] ring counted fuel = record {
  heap = h;
  returns = refl;
  ring = ring;
  counts = tt;
  frame = λ a _. refl;
}
fini_loop-Finished m h (suc k) xs ((p, n) ∷ rs) ring (count, pos, small, alone, others) fuel =
    let ys : List Ptr = pointers rs in
    let (t, held, is_n) = field_of-cell (λ t. t.refcnt) (at h p) n count in
    let (_, right) = IsPath-split h trans_list xs p ys trans_list ring.0 in
    let (forth, _) = IsPath-first h p ys trans_list right in
    let both : some t.next ≡ some (first_of ys trans_list) =
      sym (ap (field_of (λ t. t.next)) held) ∙ forth in
    let next : t.next ≡ first_of ys trans_list = ground arith in
    let not_list : (p == trans_list) ≡ false =
      ground (arith, mem-append trans_list xs (p ∷ ys), ring.1.0) in
    let (_, p_new, _) = AreDistinct-middle xs p ys (ring.1.1) in
    let round = trans_unref-Round m h xs p n ys ring held is_n pos small alone in
    let rest =
      fini_loop-Finished m round.heap k (keep xs p n) rs round.ring
        (AreCounted-frame h round.heap rs (λ a is. round.frame a (mem-ne a p ys is p_new)) others)
        (omega arith) in
    record {
      heap = rest.heap;
      returns =
          rw (not_list, load_transaction-ok (with_heap m h) p held, round.returns, next)
            rest.returns;
      ring = subst (IsRing rest.heap) (keep-survivors xs p n rs) rest.ring;
      counts = (rest.frame p p_new ∙ round.count, rest.counts);
      frame = λ a out. rest.frame a (ground arith) ∙ (round.frame a (λ e. ground arith)).0;
    }

-- If the transactions of the list are allocated, have a reference each, and those with one alone
-- have no dependents, `trans_fini` returns: each has one reference less, those that had one alone are
-- freed, and the list has the others in their order.
pub trans_fini-IsRing :
    (m : Machine) (rs : List (Ptr × ℕ))
    → IsRing m.transactions (pointers rs)
    → AreCounted m.transactions rs
    → ((q : Ptr) → mem q (pointers rs) ≡ true → q < m.fresh)
    → (h : Heap Transaction) × (trans_fini m ≡ ok tt (with_heap m h))
      × AreLeft h rs
      × IsRing h (survivors rs)
unfolding trans_fini and_then
trans_fini-IsRing m rs ring counted below =
    let fuel : length (pointers rs) ≤ m.fresh =
      length-AreDistinct m.fresh (pointers rs) (ring.1.1) below in
    let done = fini_loop-Finished m m.transactions (suc m.fresh) [] rs ring counted (omega arith) in
    let (forth, _) = IsPath-first m.transactions trans_list (pointers rs) trans_list ring.0 in
    let (head, at_head, next) =
      field_of-cell (λ t. t.next) (at m.transactions trans_list) _ forth in
    (
      done.heap,
      rw (load_transaction-ok m trans_list at_head, next) done.returns,
      done.counts,
      done.ring,
    )
