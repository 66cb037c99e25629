-- ===== src/Transaction/Dependents.antt =====
-- The dependency set of a transaction, and the loops of `trans_abort` and `trans_commit` over it.
use concurrent_server.Common.{
  ℕ, zero, suc, ◌+◌, ◌≤◌, ◌<◌, ◌≡◌, refl, ◌∙◌, ap, fun_ext, Bool, true, false, ◌||◌, Option, none,
  some, List, [], ◌∷◌, arith, ◌==◌, if◌then◌else◌, length, ==_ne, Bool-cases, inl, inr,
}
use concurrent_server.Machine.{
  Ptr, null, trans_aborted, Dependency, Transaction, Heap, Machine, at, write, at-ne-null,
  at-write_self, ok, and_then,
}
use concurrent_server.Machine.Points.{load_transaction-ok, load_dependency-ok, put_transaction-ok}
use concurrent_server.Transaction.{is_pending, sem_post, abort_dependents}
use concurrent_server.Transaction.Status.{trans_get_status-ok}

-- From `p` the `next` pointers lead through dependencies of the transactions `ts` to NULL. The
-- addresses grow, since a new dependency goes to the end.
abbrev pub IsDepends : Heap Dependency → (hi lo p : Ptr) → (ts : List Ptr) → Type 0
IsDepends h hi lo p [] = p ≡ null
IsDepends h hi lo p (t ∷ ts) =
    (lo ≤ p)
    × (p < hi)
    × ((n : Ptr) × (at h p ≡ some (record { trans = t; next = n })) × IsDepends h hi (suc p) n ts)

pub length-IsDepends :
    (h : Heap Dependency) (hi lo p : Ptr) (ts : List Ptr)
    → lo ≤ hi
    → IsDepends h hi lo p ts
    → lo + length ts ≤ hi
length-IsDepends h hi lo p [] le d = omega arith
length-IsDepends h hi lo p (t ∷ ts) le (above, below, (n, _, rest)) =
    omega (arith, length-IsDepends h hi (suc p) n ts)

abbrev pub mem : Ptr → List Ptr → Bool
mem q [] = false
mem q (t ∷ ts) = (q == t) || mem q ts

abbrev pub map_cell : (Transaction → Transaction) → Option Transaction → Option Transaction
map_cell f none = none
map_cell f (some t) = some (f t)

-- Each transaction of the list is allocated.
abbrev pub Alive : Heap Transaction → List Ptr → Type 0
Alive h ts = (q : Ptr) → mem q ts ≡ true → (t : Transaction) × (at h q ≡ some t)

-- A pending dependent is aborted, and its semaphore is posted.
abbrev pub cancel : Transaction → Transaction
cancel t = if is_pending t.status then record t { status = trans_aborted; sem = t.sem + 1 } else t

abbrev pub cancel_each : Heap Transaction → List Ptr → Heap Transaction
cancel_each h ts q = if mem q ts then map_cell cancel (h q) else h q

cancel-cancel : (t : Transaction) → cancel (cancel t) ≡ cancel t
cancel-cancel t = elim (Bool-cases (is_pending t.status)) [
  | inl e ↦ rw e refl
  | inr e ↦ rw e (rw e refl)
]

cancel-twice : (o : Option Transaction) → map_cell cancel (map_cell cancel o) ≡ map_cell cancel o
cancel-twice none = refl
cancel-twice (some t) = ap some (cancel-cancel t)

cancel-one_of_two :
    (a b : Bool) (o : Option Transaction)
    → (if b
        then map_cell cancel (if a || false then map_cell cancel o else o)
        else (if a || false then map_cell cancel o else o))
      ≡ (if a || b then map_cell cancel o else o)
cancel-one_of_two true true o = cancel-twice o
cancel-one_of_two true false o = refl
cancel-one_of_two false true o = refl
cancel-one_of_two false false o = refl

cancel_each-cons :
    (h : Heap Transaction) (t : Ptr) (ts : List Ptr)
    → cancel_each (cancel_each h (t ∷ [])) ts ≡ cancel_each h (t ∷ ts)
cancel_each-cons h t ts = fun_ext λ q. cancel-one_of_two (q == t) (mem q ts) (h q)

pub at-cancel_each :
    (h : Heap Transaction) (ts : List Ptr) (q : Ptr) {t : Transaction}
    → at h q ≡ some t
    → at (cancel_each h ts) q ≡ some (if mem q ts then cancel t else t)
unfolding at
at-cancel_each h ts q {t} e =
    let held : h q ≡ some t = ground arith in
    elim (Bool-cases (mem q ts)) [
      | inl is ↦ rw (==_ne _ _ (at-ne-null h q e), is, held) refl
      | inr not ↦ rw (==_ne _ _ (at-ne-null h q e), not, held) refl
    ]

Alive-tail :
    (h : Heap Transaction) (t : Ptr) (ts : List Ptr)
    → Alive h (t ∷ ts)
    → Alive (cancel_each h (t ∷ [])) ts
Alive-tail h t ts alive q is =
    let (v, e) = alive q (ground arith) in (_, at-cancel_each h (t ∷ []) q e)

-- What the body of the loop does to the heap.
cancelled :
    (h : Heap Transaction) (p : Ptr) {t : Transaction}
    → at h p ≡ some t
    → is_pending t.status ≡ true
    → write
        (write h p (some (record t { status = trans_aborted })))
        p
        (some (record t { status = trans_aborted; sem = t.sem + 1 }))
      ≡ cancel_each h (p ∷ [])
unfolding at write
cancelled h p {t} e s = fun_ext λ q. elim (Bool-cases (q == p)) [
  | inl is ↦ let held : h q ≡ some t = ground arith in rw (is, held, s) refl
  | inr not ↦ rw not refl
]

not_cancelled :
    (h : Heap Transaction) (p : Ptr) {t : Transaction}
    → at h p ≡ some t
    → is_pending t.status ≡ false
    → h ≡ cancel_each h (p ∷ [])
unfolding at
not_cancelled h p {t} e s = fun_ext λ q. elim (Bool-cases (q == p)) [
  | inl is ↦ let held : h q ≡ some t = ground arith in rw (is, held, s) refl
  | inr not ↦ rw not refl
]

abbrev pub with_heap : Machine → Heap Transaction → Machine
with_heap m h = record m { transactions = h }

pub abort_dependents-ok :
    (m : Machine) (h : Heap Transaction) (k lo p : ℕ) (ts : List Ptr)
    → IsDepends m.dependencies m.fresh lo p ts
    → Alive h ts
    → length ts < k
    → abort_dependents k p (with_heap m h) ≡ ok tt (with_heap m (cancel_each h ts))
unfolding abort_dependents sem_post and_then
abort_dependents-ok m h zero lo p ts d alive fuel = absurd (omega arith)
abort_dependents-ok m h (suc k) lo p [] d alive fuel = rw d refl
abort_dependents-ok m h (suc k) lo p (t ∷ ts) (_, _, (n, e, rest)) alive fuel =
    let (v, held) = alive t (ground arith) in
    let here : at m.dependencies p ≡ some (record { trans = t; next = n }) = e in
    let m1 : Machine = with_heap m h in
    let marked : Transaction = record v { status = trans_aborted } in
    let h2 : Heap Transaction = write h t (some marked) in
    let again : at h2 t ≡ some marked = at-write_self h t (some marked) (at-ne-null h t held) in
    let h3 : Heap Transaction = cancel_each h (t ∷ []) in
    let next : abort_dependents k n (with_heap m h3)
        ≡ ok tt (with_heap m (cancel_each h (t ∷ ts))) =
      abort_dependents-ok m h3 k (suc p) n ts rest (Alive-tail h t ts alive) (omega arith)
      ∙ ap (λ g. ok tt (with_heap m g)) (cancel_each-cons h t ts) in
    let ne : (p == null) ≡ false = ==_ne _ _ (at-ne-null m.dependencies p e) in
    elim (Bool-cases (is_pending v.status)) [
      | inl is ↦
          rw
            (
              ne,
              load_dependency-ok m1 p here,
              trans_get_status-ok m1 t held,
              is,
              load_transaction-ok m1 t held,
              put_transaction-ok m1 t (some marked) held,
              load_transaction-ok (with_heap m h2) t again,
              put_transaction-ok (with_heap m h2) t (some (record marked { sem = v.sem + 1 }))
                  again,
              cancelled h t held is,
            )
            next
      | inr not ↦
          rw (ne, load_dependency-ok m1 p here, trans_get_status-ok m1 t held, not)
            (ap (λ g. abort_dependents k n (with_heap m g)) (not_cancelled h t held not) ∙ next)
    ]
