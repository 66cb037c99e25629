-- ===== src/Transaction/Abort.antt =====
-- What `trans_abort` does to the transaction and to those that depend on it.
use concurrent_server.Common.{
  ℕ, suc, ◌+◌, ◌*◌, ◌^◌, ◌<◌, ◌≡◌, refl, ◌∙◌, ap, fun_ext, false, some, List, arith, ◌==◌,
  if◌then◌else◌, length, Bool-cases, inl, inr, dec32,
}
use concurrent_server.Machine.{
  Ptr, trans_aborted, Transaction, Heap, Machine, at, write, at-ne-null, at-write_self, at-write_ne,
  ok, and_then,
}
use concurrent_server.Machine.Points.{load_transaction-ok, put_transaction-ok}
use concurrent_server.Transaction.{
  is_aborted, unref, unref_fuel, trans_unref, finish_abort, trans_abort,
}
use concurrent_server.Transaction.Status.{trans_get_status-ok}
use concurrent_server.Transaction.Dependents.{
  IsDepends, length-IsDepends, mem, Alive, cancel, cancel_each, at-cancel_each, with_heap,
  abort_dependents-ok,
}

-- Other references are left when one is given back.
abbrev pub IsShared : Transaction → Type 0
IsShared t = (1 < t.refcnt) × (t.refcnt < 2 ^ 32)

abbrev pub unreferenced : Transaction → Transaction
unreferenced t = record t { refcnt = dec32 t.refcnt }

dec32-IsShared : (t : Transaction) → IsShared t → (dec32 t.refcnt == 0) ≡ false
dec32-IsShared t (many, small) = ground arith

unref-ok :
    (m : Machine) (k : ℕ) (tp : Ptr) {t : Transaction}
    → at m.transactions tp ≡ some t
    → IsShared t
    → unref (suc k) tp m ≡ ok tt (with_heap m (write m.transactions tp (some (unreferenced t))))
unfolding unref and_then
unref-ok m k tp {t} held shared =
    let m1 : Machine = with_heap m (write m.transactions tp (some (unreferenced t))) in
    let again : at m1.transactions tp ≡ some (unreferenced t) =
      at-write_self m.transactions tp _ (at-ne-null m.transactions tp held) in
    rw
      (
        load_transaction-ok m tp held,
        load_transaction-ok m tp held,
        put_transaction-ok m tp (some (unreferenced t)) held,
        load_transaction-ok m1 tp again,
        dec32-IsShared t shared,
      )
      refl

pub trans_unref-ok :
    (m : Machine) (tp : Ptr) {t : Transaction}
    → at m.transactions tp ≡ some t
    → IsShared t
    → trans_unref tp m ≡ ok tt (with_heap m (write m.transactions tp (some (unreferenced t))))
unfolding trans_unref
trans_unref-ok m tp held shared =
    let fuel : unref_fuel m ≡ suc (4 * m.fresh + 3) = omega arith in
    rw fuel (unref-ok m _ tp held shared)

-- The heap after `trans_abort`: the transaction is aborted and has one reference less, its pending
-- dependents are aborted and their semaphores posted, all else is as before.
abbrev pub aborted_heap : Heap Transaction → (tp : Ptr) → Transaction → List Ptr → Heap Transaction
aborted_heap h tp t ts q =
    if q == tp
    then some (record t { status = trans_aborted; refcnt = dec32 t.refcnt })
    else cancel_each h ts q

module _ (m : Machine) (tp : Ptr) (ts : List Ptr) where
  cancelled-aborted :
      (t : Transaction) → t.status ≡ trans_aborted → (if mem tp ts then cancel t else t) ≡ t
  cancelled-aborted t s = elim (Bool-cases (mem tp ts)) [
    | inl e ↦ rw (e, s) refl
    | inr e ↦ rw e refl
  ]

  finish_abort-ok :
      (h : Heap Transaction) {t : Transaction}
      → at h tp ≡ some t
      → t.status ≡ trans_aborted
      → IsShared t
      → IsDepends m.dependencies m.fresh 0 t.depends ts
      → Alive h ts
      → finish_abort tp (with_heap m h)
        ≡ ok trans_aborted (with_heap m (write (cancel_each h ts) tp (some (unreferenced t))))
  unfolding finish_abort and_then
  finish_abort-ok h {t} held s shared depends alive =
      let again : at (cancel_each h ts) tp ≡ some t =
        at-cancel_each h ts tp held ∙ ap some (cancelled-aborted t s) in
      let fuel : length ts < suc m.fresh =
        omega
          (arith, length-IsDepends m.dependencies m.fresh 0 t.depends ts (omega arith) depends) in
      let m2 : Machine = with_heap m (cancel_each h ts) in
      rw
        (
          load_transaction-ok (with_heap m h) tp held,
          abort_dependents-ok m h (suc m.fresh) 0 t.depends ts depends alive fuel,
          trans_get_status-ok m2 tp again,
          trans_unref-ok m2 tp again shared,
          s,
        )
        refl

  Alive-mark :
      (h : Heap Transaction) {t : Transaction} (t' : Transaction)
      → at h tp ≡ some t
      → Alive h ts
      → Alive (write h tp (some t')) ts
  Alive-mark h t' held alive q is = elim (Bool-cases (q == tp)) [
    | inl e ↦
        let same : q ≡ tp = ground arith in
        (t', rw same (at-write_self h tp _ (at-ne-null h tp held)))
    | inr ne ↦ let (v, at_q) = alive q is in (v, at-write_ne h tp q _ (ground arith) ∙ at_q)
  ]

  marked_heap :
      (h : Heap Transaction) (t : Transaction)
      → write
          (cancel_each (write h tp (some (record t { status = trans_aborted }))) ts)
          tp
          (some (unreferenced (record t { status = trans_aborted })))
        ≡ aborted_heap h tp t ts
  unfolding write
  marked_heap h t =
      fun_ext λ q. elim (Bool-cases (q == tp)) [ inl e ↦ rw e refl | inr ne ↦ rw ne refl ]

  already_heap :
      (h : Heap Transaction) (t : Transaction)
      → t.status ≡ trans_aborted
      → write (cancel_each h ts) tp (some (unreferenced t)) ≡ aborted_heap h tp t ts
  unfolding write
  already_heap h t s =
      fun_ext λ q. elim (Bool-cases (q == tp)) [ inl e ↦ rw (e, ← s) refl | inr ne ↦ rw ne refl ]

-- If others hold references to the transaction and each dependent is allocated, `trans_abort`
-- returns TRANS_ABORTED, also for a committed transaction: the transaction is aborted and has one
-- reference less, each pending dependent is aborted and its semaphore posted once, and nothing
-- else is changed.
pub trans_abort-shared :
    (m : Machine) (tp : Ptr) (ts : List Ptr) {t : Transaction}
    → at m.transactions tp ≡ some t
    → IsShared t
    → IsDepends m.dependencies m.fresh 0 t.depends ts
    → Alive m.transactions ts
    → trans_abort tp m
      ≡ ok trans_aborted (record m { transactions = aborted_heap m.transactions tp t ts })
unfolding trans_abort and_then
trans_abort-shared m tp ts {t} held shared depends alive =
    let h : Heap Transaction = m.transactions in
    let marked : Transaction = record t { status = trans_aborted } in
    let h1 : Heap Transaction = write h tp (some marked) in
    let again : at h1 tp ≡ some marked = at-write_self h tp _ (at-ne-null h tp held) in
    elim (Bool-cases (is_aborted t.status)) [
      | inl is ↦
          let s : t.status ≡ trans_aborted = ground arith in
          rw
            (
              trans_get_status-ok m tp held,
              is,
              finish_abort-ok m tp ts h held s shared depends alive,
              already_heap m tp ts h t s,
            )
            refl
      | inr not ↦
          rw
            (
              trans_get_status-ok m tp held,
              not,
              load_transaction-ok m tp held,
              put_transaction-ok m tp (some marked) held,
              finish_abort-ok m tp ts h1 again refl shared depends
                  (Alive-mark m tp ts h marked held alive),
              marked_heap m tp ts h t,
            )
            refl
    ]
