-- ===== src/Transaction/Create.antt =====
-- `trans_create` makes a pending transaction with the next id, at the end of the list.
use concurrent_server.Common.{
  ℕ, suc, ◌≡◌, ◌≢◌, refl, ◌∙◌, ap, sym, false, some, List, [], ◌∷◌, ◌++◌, arith,
}
use concurrent_server.Machine.{
  Ptr, null, trans_list, Transaction, Heap, Machine, at, write, ok, and_then,
}
use concurrent_server.Machine.Points.{load_transaction-ok, put_transaction-ok}
use concurrent_server.Transaction.Dependents.{mem, with_heap}
use concurrent_server.Common.{inc32}
use concurrent_server.Machine.{trans_pending, at-write_self, at-write_ne, new_transaction}
use concurrent_server.Transaction.{set_id, trans_create}
use concurrent_server.Transaction.Ring.{
  change, write-change, at-change_self, at-change_ne, IsRing, field_of, last_of,
}
use concurrent_server.Transaction.Framed.{change-IsRing, write-IsRing}
use concurrent_server.Transaction.Insert.{
  joined, at-joined, id-joined, add_transaction_to_ll-IsRing,
}

abbrev pub with_id : ℕ → Transaction → Transaction
with_id i t = record t { id = i }

abbrev blank : Transaction
blank = record {
  id = 0;
  refcnt = 1;
  status = trans_pending;
  depends = null;
  waitcnt = 0;
  sem = 0;
  next = null;
  prev = null;
}

set_id-ok :
    (m : Machine) (h : Heap Transaction) (p : Ptr) (i : ℕ) {t : Transaction}
    → at h p ≡ some t
    → set_id p i (with_heap m h) ≡ ok tt (with_heap m (change h p (with_id i)))
unfolding and_then
set_id-ok m h p i {t} held =
    rw
      (
        load_transaction-ok (with_heap m h) p held,
        put_transaction-ok (with_heap m h) p (some (with_id i t)) held,
        write-change h p (with_id i) held,
      )
      refl

module _ (m : Machine) (ts : List Ptr) {head : Transaction} (ring : IsRing m.transactions ts)
    (held : at m.transactions trans_list ≡ some head) (new : mem m.fresh (trans_list ∷ ts) ≡ false)
    (not_null : m.fresh ≢ null) where
  abbrev pub grown : Machine
  grown = record m { fresh = suc m.fresh }

  abbrev allocated : Heap Transaction
  allocated = write m.transactions m.fresh (some blank)

  abbrev named : Heap Transaction
  named = change allocated m.fresh (with_id head.id)

  abbrev numbered : Heap Transaction
  numbered = change named trans_list (with_id (inc32 head.id))

  not_sentinel : trans_list ≢ m.fresh
  not_sentinel e = ground arith

  pub at-numbered : at numbered m.fresh ≡ some (with_id head.id blank)
  at-numbered =
      at-change_ne named trans_list m.fresh _ (λ e. not_sentinel (sym e))
      ∙ at-change_self allocated m.fresh (with_id head.id)
          (at-write_self m.transactions m.fresh (some blank) not_null)

  head-allocated : at allocated trans_list ≡ some head
  head-allocated = at-write_ne m.transactions m.fresh trans_list (some blank) not_sentinel ∙ held

  head-named : at named trans_list ≡ some head
  head-named = at-change_ne allocated m.fresh trans_list _ not_sentinel ∙ head-allocated

  pub numbered-IsRing : IsRing numbered ts
  numbered-IsRing =
      change-IsRing named trans_list _ ts (λ t. refl) (λ t. refl)
        (change-IsRing allocated m.fresh _ ts (λ t. refl) (λ t. refl)
          (write-IsRing m.transactions m.fresh (some blank) ts new ring))

  abbrev pub created : Heap Transaction
  created = joined grown numbered m.fresh ts numbered-IsRing at-numbered new

  -- `trans_create` puts a pending transaction with one reference at the end of the list of all
  -- transactions. Its id is the number that the sentinel counts, and the sentinel counts on, modulo
  -- 2^32.
  pub trans_create-IsRing :
      (trans_create m ≡ ok m.fresh (with_heap grown created))
      × IsRing created (ts ++ m.fresh ∷ [])
      × (at created m.fresh
          ≡ some (record {
            id = head.id;
            refcnt = 1;
            status = trans_pending;
            depends = null;
            waitcnt = 0;
            sem = 0;
            next = trans_list;
            prev = last_of trans_list ts;
          }))
      × (field_of (λ t. t.id) (at created trans_list) ≡ some (inc32 head.id))
  unfolding trans_create new_transaction and_then
  trans_create-IsRing =
      let (added, ring') =
        add_transaction_to_ll-IsRing grown numbered m.fresh ts numbered-IsRing at-numbered new in
      (
        rw
            (
              load_transaction-ok (with_heap grown allocated) trans_list head-allocated,
              set_id-ok grown allocated m.fresh head.id
                  (at-write_self m.transactions m.fresh (some blank) not_null),
              set_id-ok grown named trans_list (inc32 head.id) head-named,
              added,
            )
            refl,
        ring',
        at-joined grown numbered m.fresh ts numbered-IsRing at-numbered new,
        id-joined grown numbered m.fresh ts numbered-IsRing at-numbered new trans_list
            ∙ ap (field_of (λ t. t.id))
                (at-change_self named trans_list (with_id (inc32 head.id)) head-named),
      )
