-- ===== src/Transaction/Ring.antt =====
-- The circular list of all transactions: what its links are, and how they change.
use concurrent_server.Common.{
  ◌≡◌, ◌≢◌, refl, ◌∙◌, ap, sym, subst, fun_ext, true, false, Option, none, some, List, [], ◌∷◌,
  arith, ◌==◌, if◌then◌else◌, ==_ne, Bool-cases, inl, inr,
}
use native.Mathlib.Decide.{ℕ_discrete}
use concurrent_server.Machine.{
  Ptr, null, trans_list, Transaction, Heap, Machine, at, write, at-ne-null, ok, and_then,
}
use concurrent_server.Machine.Points.{load_transaction-ok, put_transaction-ok}
use concurrent_server.Transaction.{set_next, set_prev}
use concurrent_server.Transaction.Dependents.{mem, map_cell, with_heap}

abbrev pub linked_next : Ptr → Transaction → Transaction
linked_next q t = record t { next = q }

abbrev pub linked_prev : Ptr → Transaction → Transaction
linked_prev q t = record t { prev = q }

-- A change of one cell.
abbrev pub change : Heap Transaction → Ptr → (Transaction → Transaction) → Heap Transaction
change h p f a = if a == p then map_cell f (h a) else h a

pub write-change :
    (h : Heap Transaction) (p : Ptr) (f : Transaction → Transaction) {t : Transaction}
    → at h p ≡ some t
    → write h p (some (f t)) ≡ change h p f
unfolding at write
write-change h p f {t} e = fun_ext λ q. elim (Bool-cases (q == p)) [
  | inl is ↦ let held : h q ≡ some t = ground arith in rw (is, held) refl
  | inr not ↦ rw not refl
]

pub at-change_self :
    (h : Heap Transaction) (p : Ptr) (f : Transaction → Transaction) {t : Transaction}
    → at h p ≡ some t
    → at (change h p f) p ≡ some (f t)
unfolding at
at-change_self h p f {t} e =
    let held : h p ≡ some t = ground arith in
    let self : (p == p) ≡ true = ground arith in rw (==_ne _ _ (at-ne-null h p e), self, held) refl

pub at-change_ne :
    (h : Heap Transaction) (p q : Ptr) (f : Transaction → Transaction)
    → q ≢ p
    → at (change h p f) q ≡ at h q
unfolding at
at-change_ne h p q f ne = rw (==_ne _ _ ne) refl

module _ (m : Machine) (h : Heap Transaction) (p q : Ptr) {t : Transaction}
    (held : at h p ≡ some t) where
  pub set_next-ok : set_next p q (with_heap m h) ≡ ok tt (with_heap m (change h p (linked_next q)))
  unfolding and_then
  set_next-ok =
      rw
        (
          load_transaction-ok (with_heap m h) p held,
          put_transaction-ok (with_heap m h) p (some (linked_next q t)) held,
          write-change h p (linked_next q) held,
        )
        refl

  pub set_prev-ok : set_prev p q (with_heap m h) ≡ ok tt (with_heap m (change h p (linked_prev q)))
  unfolding and_then
  set_prev-ok =
      rw
        (
          load_transaction-ok (with_heap m h) p held,
          put_transaction-ok (with_heap m h) p (some (linked_prev q t)) held,
          write-change h p (linked_prev q) held,
        )
        refl

-- The links of a cell.
abbrev pub field_of : (Transaction → Ptr) → Option Transaction → Option Ptr
field_of f none = none
field_of f (some t) = some (f t)

abbrev pub next_of : Heap Transaction → Ptr → Option Ptr
next_of h p = field_of (λ t. t.next) (at h p)

abbrev pub prev_of : Heap Transaction → Ptr → Option Ptr
prev_of h p = field_of (λ t. t.prev) (at h p)

pub field_of-cell :
    (f : Transaction → Ptr) (o : Option Transaction) (q : Ptr)
    → field_of f o ≡ some q
    → (t : Transaction) × (o ≡ some t) × (f t ≡ q)
field_of-cell f none q e = absurd (cc)
field_of-cell f (some t) q e = (t, refl, ground arith)

abbrev pub Link : Heap Transaction → (p q : Ptr) → Type 0
Link h p q = (next_of h p ≡ some q) × (prev_of h q ≡ some p)

-- From `p` through `ts` to `q`, and back.
abbrev pub IsPath : Heap Transaction → (p : Ptr) → List Ptr → (q : Ptr) → Type 0
IsPath h p [] q = Link h p q
IsPath h p (t ∷ ts) q = Link h p t × IsPath h t ts q

abbrev pub AreDistinct : List Ptr → Type 0
AreDistinct [] = Unit {0}
AreDistinct (t ∷ ts) = (mem t ts ≡ false) × AreDistinct ts

-- The transactions of the list, each once, in their order behind the sentinel.
abbrev pub IsRing : Heap Transaction → List Ptr → Type 0
IsRing h ts = IsPath h trans_list ts trans_list × AreDistinct (trans_list ∷ ts)

abbrev pub last_of : Ptr → List Ptr → Ptr
last_of p [] = p
last_of p (t ∷ ts) = last_of t ts

abbrev pub first_of : List Ptr → Ptr → Ptr
first_of [] q = q
first_of (t ∷ ts) q = t

pub prev_of-last :
    (h : Heap Transaction) (p : Ptr) (ts : List Ptr) (q : Ptr)
    → IsPath h p ts q
    → prev_of h q ≡ some (last_of p ts)
prev_of-last h p [] q (_, back) = back
prev_of-last h p (t ∷ ts) q (_, rest) = prev_of-last h t ts q rest

pub mem-last_of : (p : Ptr) (ts : List Ptr) → mem (last_of p ts) (p ∷ ts) ≡ true
mem-last_of p [] = ground arith
mem-last_of p (t ∷ ts) = ground (arith, mem-last_of t ts)

pub last_of-ne : (p : Ptr) (ts : List Ptr) (z : Ptr) → mem z (p ∷ ts) ≡ false → last_of p ts ≢ z
last_of-ne p ts z out e =
    let is : mem z (p ∷ ts) ≡ true = subst (λ x. mem x (p ∷ ts) ≡ true) e (mem-last_of p ts) in cc

pub mem-ne : (a z : Ptr) (ts : List Ptr) → mem a ts ≡ true → mem z ts ≡ false → a ≢ z
mem-ne a z ts is out e =
    let no_longer : mem a ts ≡ false = subst (λ x. mem x ts ≡ false) (sym e) out in cc

field_of-map_cell :
    (f : Transaction → Ptr) (g : Transaction → Transaction) (o : Option Transaction)
    → ((t : Transaction) → f (g t) ≡ f t)
    → field_of f (map_cell g o) ≡ field_of f o
field_of-map_cell f g none same = refl
field_of-map_cell f g (some t) same = ap some (same t)

-- A change that keeps a field keeps it everywhere.
pub field_of-change :
    (f : Transaction → Ptr) (h : Heap Transaction) (p : Ptr) (g : Transaction → Transaction)
    (a : Ptr)
    → ((t : Transaction) → f (g t) ≡ f t)
    → field_of f (at (change h p g) a) ≡ field_of f (at h a)
unfolding at
field_of-change f h p g a same = elim (Bool-cases (a == null)) [
  | inl e ↦ rw e refl
  | inr ne ↦ elim (Bool-cases (a == p)) [
    | inl e ↦ rw (ne, e) (field_of-map_cell f g (h a) same)
    | inr e ↦ rw (ne, e) refl
  ]
]

-- A change frees nothing.
pub at-change :
    (h : Heap Transaction) (p q : Ptr) (f : Transaction → Transaction) {t : Transaction}
    → at h q ≡ some t
    → (t' : Transaction) × (at (change h p f) q ≡ some t')
at-change h p q f {t} e = elim (ℕ_discrete q p) [
  | yes same ↦ (f t, rw same (at-change_self h p f (rw (sym same) e)))
  | no ne ↦ (t, at-change_ne h p q f ne ∙ e)
]

pub next_of-last :
    (h : Heap Transaction) (p : Ptr) (ts : List Ptr) (q : Ptr)
    → IsPath h p ts q
    → next_of h (last_of p ts) ≡ some q
next_of-last h p [] q (forth, _) = forth
next_of-last h p (t ∷ ts) q (_, rest) = next_of-last h t ts q rest
