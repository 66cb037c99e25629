-- ===== src/Transaction/Gone.antt =====
-- `trans_abort` and `trans_commit` by the holder of the last reference.
use concurrent_server.Common.{
  suc, ◌≡◌, refl, true, none, some, List, ◌∷◌, ◌++◌, arith, Bool-cases, inl, inr, ◌==◌,
}
use concurrent_server.Machine.{
  Cmd, trans_committed, Ptr, null, trans_aborted, Transaction, Heap, Machine, at, ok, and_then,
}
use concurrent_server.Machine.Points.{load_transaction-ok, put_transaction-ok}
use concurrent_server.Transaction.{
  trans_commit, commit_loop, finish_commit, alert_dependents, is_aborted, abort_dependents,
  finish_abort, trans_abort,
}
use concurrent_server.Transaction.Status.{trans_get_status-ok}
use concurrent_server.Transaction.Dependents.{with_heap}
use concurrent_server.Transaction.Ring.{change, write-change, at-change_self, IsRing}
use concurrent_server.Transaction.Framed.{change-IsRing}
use concurrent_server.Transaction.Destroy.{destroyed, trans_unref-last}

abbrev marked : Transaction → Transaction
marked t = record t { status = trans_aborted }

module _ (m : Machine) (xs : List Ptr) (tp : Ptr) (ys : List Ptr) where
  abort_dependents-none :
      (h : Heap Transaction) (t : Transaction)
      → (t.depends == null) ≡ true
      → abort_dependents (suc m.fresh) t.depends (with_heap m h) ≡ ok tt (with_heap m h)
  unfolding abort_dependents
  abort_dependents-none h t alone = rw alone refl

  finish_abort-last :
      (h : Heap Transaction) {t : Transaction}
      → IsRing h (xs ++ tp ∷ ys)
      → at h tp ≡ some t
      → t.status ≡ trans_aborted
      → t.refcnt ≡ 1
      → t.depends ≡ null
      → (h' : Heap Transaction) × (finish_abort tp (with_heap m h)
          ≡ ok trans_aborted (with_heap m h'))
        × IsRing h' (xs ++ ys)
        × (at h' tp ≡ none)
  unfolding finish_abort and_then
  finish_abort-last h {t} ring held s last alone =
      let (returned, ring', gone) =
        trans_unref-last (with_heap m h) xs tp ys ring held last alone in
      (
        destroyed (with_heap m h) xs tp ys ring held last alone,
        rw
            (
              load_transaction-ok (with_heap m h) tp held,
              abort_dependents-none h t (ground arith),
              trans_get_status-ok (with_heap m h) tp held,
              s,
              returned,
            )
            refl,
        ring',
        gone,
      )

  -- If the caller has the only reference to a transaction of the list, and none depends on it,
  -- `trans_abort` returns TRANS_ABORTED and frees the transaction: it is taken out of the list.
  pub trans_abort-last :
      {t : Transaction}
      → IsRing m.transactions (xs ++ tp ∷ ys)
      → at m.transactions tp ≡ some t
      → t.refcnt ≡ 1
      → t.depends ≡ null
      → (h' : Heap Transaction) × (trans_abort tp m ≡ ok trans_aborted (with_heap m h'))
        × IsRing h' (xs ++ ys)
        × (at h' tp ≡ none)
  unfolding trans_abort and_then
  trans_abort-last {t} ring held last alone = elim (Bool-cases (is_aborted t.status)) [
    | inl is ↦
        let s : t.status ≡ trans_aborted = ground arith in
        let (h', returned, ring', gone) = finish_abort-last m.transactions ring held s last alone in
        (h', rw (trans_get_status-ok m tp held, is, returned) refl, ring', gone)
    | inr not ↦
        let h1 = change m.transactions tp marked in
        let (h', returned, ring', gone) =
          finish_abort-last h1
            (change-IsRing m.transactions tp marked (xs ++ tp ∷ ys) (λ t. refl) (λ t. refl) ring)
            (at-change_self m.transactions tp marked held) refl last alone in
        (
          h',
          rw
              (
                trans_get_status-ok m tp held,
                not,
                load_transaction-ok m tp held,
                put_transaction-ok m tp (some (marked t)) held,
                write-change m.transactions tp marked held,
                returned,
              )
              refl,
          ring',
          gone,
        )
  ]

  abbrev done : Transaction → Transaction
  done t = record t { status = trans_committed }

  -- `trans_commit` of such a transaction that waits for no other returns TRANS_COMMITTED and frees
  -- it.
  pub trans_commit-last :
      (wait : Ptr → Cmd (Unit {0})) {t : Transaction}
      → IsRing m.transactions (xs ++ tp ∷ ys)
      → at m.transactions tp ≡ some t
      → t.refcnt ≡ 1
      → t.depends ≡ null
      → t.waitcnt ≡ 0
      → (h' : Heap Transaction) × (trans_commit wait tp m ≡ ok trans_committed (with_heap m h'))
        × IsRing h' (xs ++ ys)
        × (at h' tp ≡ none)
  unfolding trans_commit commit_loop finish_commit alert_dependents and_then
  trans_commit-last wait {t} ring held last alone free =
      let h1 = change m.transactions tp done in
      let at_tp : at h1 tp ≡ some (done t) = at-change_self m.transactions tp done held in
      let ring1 : IsRing h1 (xs ++ tp ∷ ys) =
        change-IsRing m.transactions tp done (xs ++ tp ∷ ys) (λ t. refl) (λ t. refl) ring in
      let (returned, ring', gone) =
        trans_unref-last (with_heap m h1) xs tp ys ring1 at_tp last alone in
      let no_wait : (t.waitcnt == 0) ≡ true = ground arith in
      let no_more : (t.depends == null) ≡ true = ground arith in
      (
        destroyed (with_heap m h1) xs tp ys ring1 at_tp last alone,
        rw
            (
              load_transaction-ok m tp held,
              load_transaction-ok m tp held,
              no_wait,
              load_transaction-ok m tp held,
              put_transaction-ok m tp (some (done t)) held,
              write-change m.transactions tp done held,
              load_transaction-ok (with_heap m h1) tp at_tp,
              no_more,
              trans_get_status-ok (with_heap m h1) tp at_tp,
              returned,
            )
            refl,
        ring',
        gone,
      )
