-- ===== src/Transaction/Destroy.antt =====
-- The last reference to a transaction is given back.
use concurrent_server.Common.{
  ap, ◌≢◌, ◌∙◌, ℕ, suc, ◌+◌, ◌*◌, ◌≡◌, refl, true, none, some, List, ◌∷◌, ◌++◌, arith, ◌==◌, dec32,
}
use concurrent_server.Machine.{
  at-write_ne, Ptr, null, Transaction, Heap, Machine, at, write, at-write_free, ok, and_then,
}
use concurrent_server.Machine.Points.{load_transaction-ok, put_transaction-ok}
use concurrent_server.Transaction.{unref, destroy, release, unref_fuel, trans_unref}
use concurrent_server.Transaction.Dependents.{with_heap}
use concurrent_server.Transaction.Ring.{
  field_of, linked_next, linked_prev, at-change_ne, change, write-change, at-change_self, IsRing,
}
use concurrent_server.Transaction.Abort.{unreferenced}
use concurrent_server.Transaction.Framed.{change-IsRing, write-IsRing}
use concurrent_server.Transaction.Remove.{
  field_of-removed, removed, at-removed, removed_out, remove_transaction_from_ll-IsRing,
}

module _ (m : Machine) (xs : List Ptr) (tp : Ptr) (ys : List Ptr) {t : Transaction}
    (ring : IsRing m.transactions (xs ++ tp ∷ ys)) (held : at m.transactions tp ≡ some t)
    (last : t.refcnt ≡ 1) (alone : t.depends ≡ null) where
  abbrev unused : Heap Transaction
  unused = change m.transactions tp unreferenced

  pub unused-IsRing : IsRing unused (xs ++ tp ∷ ys)
  unused-IsRing =
      change-IsRing m.transactions tp unreferenced (xs ++ tp ∷ ys) (λ t. refl) (λ t. refl) ring

  abbrev unlinked : Heap Transaction
  unlinked = removed m unused xs tp ys unused-IsRing

  -- The heap without the transaction.
  abbrev pub destroyed : Heap Transaction
  destroyed = write unlinked tp none

  -- What is no link and no count is kept elsewhere.
  pub field_of-destroyed :
      (f : Transaction → Ptr) (a : Ptr)
      → a ≢ tp
      → ((q : Ptr) (t : Transaction) → f (linked_next q t) ≡ f t)
      → ((q : Ptr) (t : Transaction) → f (linked_prev q t) ≡ f t)
      → field_of f (at destroyed a) ≡ field_of f (at m.transactions a)
  field_of-destroyed f a ne nexts prevs =
      ap (field_of f) (at-write_ne unlinked tp a none ne)
      ∙ (field_of-removed m unused xs tp ys unused-IsRing f a nexts prevs
          ∙ ap (field_of f) (at-change_ne m.transactions tp a unreferenced ne))

  abbrev unlinked_body : Transaction
  unlinked_body = record (unreferenced t) { next = null; prev = null }

  destroy-ok :
      (k : ℕ) → destroy (suc (suc k)) tp (with_heap m unused) ≡ ok tt (with_heap m destroyed)
  unfolding destroy release and_then
  destroy-ok k =
      let at_tp : at unlinked tp ≡ some unlinked_body =
        at-removed m unused xs tp ys unused-IsRing
          (at-change_self m.transactions tp unreferenced held) in
      rw
        (
          (remove_transaction_from_ll-IsRing m unused xs tp ys unused-IsRing).0,
          load_transaction-ok (with_heap m unlinked) tp at_tp,
          alone,
          put_transaction-ok (with_heap m unlinked) tp none at_tp,
        )
        refl

  unref-last : (k : ℕ) → unref (suc (suc (suc k))) tp m ≡ ok tt (with_heap m destroyed)
  unfolding unref and_then
  unref-last k =
      let at_tp : at unused tp ≡ some (unreferenced t) =
        at-change_self m.transactions tp unreferenced held in
      let no_more : (dec32 t.refcnt == 0) ≡ true = rw last refl in
      rw
        (
          load_transaction-ok m tp held,
          load_transaction-ok m tp held,
          put_transaction-ok m tp (some (unreferenced t)) held,
          write-change m.transactions tp unreferenced held,
          load_transaction-ok (with_heap m unused) tp at_tp,
          no_more,
        )
        (destroy-ok k)

  -- If the only reference to a transaction of the list is given back, and no transaction depends on
  -- it, `trans_unref` takes it out of the list and frees it.
  pub trans_unref-last :
      (trans_unref tp m ≡ ok tt (with_heap m destroyed))
      × IsRing destroyed (xs ++ ys)
      × (at destroyed tp ≡ none)
  unfolding trans_unref
  trans_unref-last =
      let fuel : unref_fuel m ≡ suc (suc (suc (4 * m.fresh + 1))) = omega arith in
      (
        rw fuel (unref-last (4 * m.fresh + 1)),
        write-IsRing unlinked tp none (xs ++ ys) (removed_out m unused xs tp ys unused-IsRing)
            (remove_transaction_from_ll-IsRing m unused xs tp ys unused-IsRing).1,
        at-write_free unlinked tp,
      )
