-- ===== src/Transaction/Commit.antt =====
-- What `trans_commit` does behind its loop.
use concurrent_server.Common.{
  ℕ, zero, suc, ◌+◌, ◌<◌, ◌≡◌, refl, ◌∙◌, ap, fun_ext, Option, none, some, List, [], ◌∷◌, arith,
  ◌==◌, if◌then◌else◌, length, ==_ne, Bool-cases, inl, inr, dec32,
}
use concurrent_server.Machine.{
  Ptr, trans_committed, Transaction, Heap, Machine, at, write, at-ne-null, at-write_self,
  at-write_ne, ok, and_then,
}
use concurrent_server.Machine.Points.{load_transaction-ok, load_dependency-ok, put_transaction-ok}
use concurrent_server.Transaction.{sem_post, alert_dependents, finish_commit}
use concurrent_server.Transaction.Status.{trans_get_status-ok}
use concurrent_server.Transaction.Dependents.{
  IsDepends, length-IsDepends, map_cell, Alive, with_heap,
}
use concurrent_server.Transaction.Abort.{IsShared, unreferenced, trans_unref-ok}

-- How often a transaction stands in a dependency set.
abbrev pub count : Ptr → List Ptr → ℕ
count q [] = 0
count q (t ∷ ts) = (if q == t then 1 else 0) + count q ts

abbrev pub posted : ℕ → Transaction → Transaction
posted n t = record t { sem = t.sem + n }

abbrev pub post_each : Heap Transaction → List Ptr → Heap Transaction
post_each h ts q = map_cell (posted (count q ts)) (h q)

posted-sum :
    (a b : ℕ) (o : Option Transaction)
    → map_cell (posted b) (map_cell (posted (a + 0)) o) ≡ map_cell (posted (a + b)) o
posted-sum a b none = refl
posted-sum a b (some t) =
    let e : t.sem + (a + 0) + b ≡ t.sem + (a + b) = omega arith in
    ap (λ n. some (record t { sem = n })) e

posted-none : (o : Option Transaction) → o ≡ map_cell (posted 0) o
posted-none none = refl
posted-none (some t) =
    let e : t.sem ≡ t.sem + 0 = omega arith in ap (λ n. some (record t { sem = n })) e

post_each-cons :
    (h : Heap Transaction) (t : Ptr) (ts : List Ptr)
    → post_each (post_each h (t ∷ [])) ts ≡ post_each h (t ∷ ts)
post_each-cons h t ts = fun_ext λ q. posted-sum (if q == t then 1 else 0) (count q ts) (h q)

pub at-post_each :
    (h : Heap Transaction) (ts : List Ptr) (q : Ptr) {t : Transaction}
    → at h q ≡ some t
    → at (post_each h ts) q ≡ some (posted (count q ts) t)
unfolding at
at-post_each h ts q {t} e =
    let held : h q ≡ some t = ground arith in rw (==_ne _ _ (at-ne-null h q e), held) refl

Alive-post :
    (h : Heap Transaction) (t : Ptr) (ts : List Ptr)
    → Alive h (t ∷ ts)
    → Alive (post_each h (t ∷ [])) ts
Alive-post h t ts alive q is =
    let (v, e) = alive q (ground arith) in (_, at-post_each h (t ∷ []) q e)

write-posted :
    (h : Heap Transaction) (p : Ptr) {t : Transaction}
    → at h p ≡ some t
    → write h p (some (posted 1 t)) ≡ post_each h (p ∷ [])
unfolding at write
write-posted h p {t} e = fun_ext λ q. elim (Bool-cases (q == p)) [
  | inl is ↦ let held : h q ≡ some t = ground arith in rw (is, held) refl
  | inr not ↦ rw not (posted-none (h q))
]

alert_dependents-ok :
    (m : Machine) (h : Heap Transaction) (k lo p : ℕ) (ts : List Ptr)
    → IsDepends m.dependencies m.fresh lo p ts
    → Alive h ts
    → length ts < k
    → alert_dependents k p (with_heap m h) ≡ ok tt (with_heap m (post_each h ts))
unfolding alert_dependents sem_post and_then
alert_dependents-ok m h zero lo p ts d alive fuel = absurd (omega arith)
alert_dependents-ok m h (suc k) lo p [] d alive fuel =
    rw d (ap (λ g. ok tt (with_heap m g)) (fun_ext λ q. posted-none (h q)))
alert_dependents-ok m h (suc k) lo p (t ∷ ts) (_, _, (n, e, rest)) alive fuel =
    let (v, held) = alive t (ground arith) in
    let h1 : Heap Transaction = post_each h (t ∷ []) in
    let next : alert_dependents k n (with_heap m h1) ≡ ok tt (with_heap m (post_each h (t ∷ ts))) =
      alert_dependents-ok m h1 k (suc p) n ts rest (Alive-post h t ts alive) (omega arith)
      ∙ ap (λ g. ok tt (with_heap m g)) (post_each-cons h t ts) in
    rw
      (
        ==_ne _ _ (at-ne-null m.dependencies p e),
        load_dependency-ok (with_heap m h) p e,
        load_transaction-ok (with_heap m h) t held,
        put_transaction-ok (with_heap m h) t (some (posted 1 v)) held,
        write-posted h t held,
      )
      next

-- The heap after a commit: the transaction is committed and has one reference less, the semaphore of
-- a dependent is posted once for each of its dependencies.
abbrev pub committed_heap :
    Heap Transaction → (tp : Ptr) → Transaction → List Ptr → Heap Transaction
committed_heap h tp t ts q =
    if q == tp
    then some
        (record t { status = trans_committed; refcnt = dec32 t.refcnt; sem = t.sem + count tp ts })
    else post_each h ts q

module _ (m : Machine) (tp : Ptr) (ts : List Ptr) {t : Transaction}
    (held : at m.transactions tp ≡ some t) where
  abbrev marked : Transaction
  marked = record t { status = trans_committed }

  abbrev marked_heap : Heap Transaction
  marked_heap = write m.transactions tp (some marked)

  Alive-marked : Alive m.transactions ts → Alive marked_heap ts
  Alive-marked alive q is = elim (Bool-cases (q == tp)) [
    | inl e ↦
        let same : q ≡ tp = ground arith in
        (marked, rw same (at-write_self m.transactions tp _ (at-ne-null m.transactions tp held)))
    | inr ne ↦
        let (v, at_q) = alive q is in (v, at-write_ne m.transactions tp q _ (ground arith) ∙ at_q)
  ]

  final_heap :
      write (post_each marked_heap ts) tp (some (unreferenced (posted (count tp ts) marked)))
      ≡ committed_heap m.transactions tp t ts
  unfolding write
  final_heap = fun_ext λ q. elim (Bool-cases (q == tp)) [ inl e ↦ rw e refl | inr ne ↦ rw ne refl ]

  pub finish_commit-ok :
      IsShared t
      → IsDepends m.dependencies m.fresh 0 t.depends ts
      → Alive m.transactions ts
      → finish_commit tp m
        ≡ ok trans_committed (record m { transactions = committed_heap m.transactions tp t ts })
  unfolding finish_commit and_then
  finish_commit-ok shared depends alive =
      let m1 : Machine = with_heap m marked_heap in
      let m2 : Machine = with_heap m (post_each marked_heap ts) in
      let at_tp : at marked_heap tp ≡ some marked =
        at-write_self m.transactions tp _ (at-ne-null m.transactions tp held) in
      let again : at (post_each marked_heap ts) tp ≡ some (posted (count tp ts) marked) =
        at-post_each marked_heap ts tp at_tp in
      let fuel : length ts < suc m.fresh =
        omega
          (arith, length-IsDepends m.dependencies m.fresh 0 t.depends ts (omega arith) depends) in
      rw
        (
          load_transaction-ok m tp held,
          put_transaction-ok m tp (some marked) held,
          load_transaction-ok m1 tp at_tp,
          alert_dependents-ok m marked_heap (suc m.fresh) 0 t.depends ts depends
              (Alive-marked alive) fuel,
          trans_get_status-ok m2 tp again,
          trans_unref-ok m2 tp again shared,
          final_heap,
        )
        refl
