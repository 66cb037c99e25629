-- ===== src/Transaction/Remove.antt =====
-- `remove_transaction_from_LL` takes a transaction out of the list of all transactions.
use concurrent_server.Common.{
  ◌≡◌, ◌≢◌, refl, ◌∙◌, ap, sym, false, ◌||◌, some, List, ◌∷◌, ◌++◌, arith,
}
use concurrent_server.Machine.{Ptr, null, trans_list, Transaction, Heap, Machine, at, ok, and_then}
use concurrent_server.Machine.Points.{load_transaction-ok}
use concurrent_server.Transaction.{remove_transaction_from_ll}
use concurrent_server.Transaction.Dependents.{mem, with_heap}
use concurrent_server.Transaction.Ring.{
  linked_next, linked_prev, change, at-change_self, at-change_ne, set_next-ok, set_prev-ok,
  field_of, field_of-cell, field_of-change, next_of, prev_of, Link, AreDistinct, IsRing, last_of,
  first_of, prev_of-last, last_of-ne, mem-ne, next_of-last, at-change,
}
use concurrent_server.Transaction.Path.{
  mem-append, first_of-ne, IsPath-remove, IsPath-split, IsPath-first, AreDistinct-middle,
}

module _ (m : Machine) (h : Heap Transaction) (xs : List Ptr) (z : Ptr) (ys : List Ptr)
    (ring : IsRing h (xs ++ z ∷ ys)) where
  abbrev pub before : Ptr
  before = last_of trans_list xs

  abbrev pub behind : Ptr
  behind = first_of ys trans_list

  -- The heap after each of the four assignments.
  abbrev first : Heap Transaction
  first = change h before (linked_next behind)

  abbrev second : Heap Transaction
  second = change first behind (linked_prev before)

  abbrev third : Heap Transaction
  third = change second z (linked_next null)

  abbrev pub removed : Heap Transaction
  removed = change third z (linked_prev null)

  split :
      (t : Transaction) × (at h z ≡ some t)
      × (t.prev ≡ before)
      × (t.next ≡ behind)
      × ((u : Transaction) × (at h before ≡ some u))
      × ((w : Transaction) × (at h behind ≡ some w))
  split =
      let (left, right) = IsPath-split h trans_list xs z ys trans_list ring.0 in
      let (t, held, e_prev) =
        field_of-cell (λ t. t.prev) (at h z) before (prev_of-last h trans_list xs z left) in
      let (u, at_before, _) =
        field_of-cell (λ t. t.next) (at h before) z (next_of-last h trans_list xs z left) in
      let (forth, back) = IsPath-first h z ys trans_list right in
      let (w, at_behind, _) = field_of-cell (λ t. t.prev) (at h behind) z back in
      let both : some t.next ≡ some behind = sym (ap (field_of (λ t. t.next)) held) ∙ forth in
      (t, held, e_prev, ground arith, (u, at_before), (w, at_behind))

  apart : (mem z xs ≡ false) × (mem z ys ≡ false) × AreDistinct (xs ++ ys)
  apart = AreDistinct-middle xs z ys (ring.1.1)

  list_out : mem trans_list xs || mem trans_list (z ∷ ys) ≡ false
  list_out = sym (mem-append trans_list xs (z ∷ ys)) ∙ ring.1.0

  before_ne : before ≢ z
  before_ne = last_of-ne trans_list xs z (ground (arith, list_out, apart.0))

  behind_ne : z ≢ behind
  behind_ne = first_of-ne ys trans_list z (apart.1) (λ e. ground (arith, list_out))

  remove_transaction_from_ll-ok :
      remove_transaction_from_ll z (with_heap m h) ≡ ok tt (with_heap m removed)
  unfolding remove_transaction_from_ll and_then
  remove_transaction_from_ll-ok =
      let (t, held, e_prev, e_next, (_, at_before), (_, at_behind)) = split in
      let z_1 = at-change_ne h before z (linked_next behind) (λ e. before_ne (sym e)) ∙ held in
      let (_, behind_1) = at-change h before behind (linked_next behind) at_behind in
      let z_2 = at-change_ne first behind z (linked_prev before) behind_ne ∙ z_1 in
      rw
        (
          load_transaction-ok (with_heap m h) z held,
          e_prev,
          e_next,
          set_next-ok m h before behind at_before,
          load_transaction-ok (with_heap m first) z z_1,
          e_prev,
          e_next,
          set_prev-ok m first behind before behind_1,
          set_next-ok m second z null z_2,
          set_prev-ok m third z null (at-change_self second z (linked_next null) z_2),
        )
        refl

  pub at-removed :
      {t : Transaction}
      → at h z ≡ some t
      → at removed z ≡ some (record t { next = null; prev = null })
  at-removed held =
      let z_1 = at-change_ne h before z (linked_next behind) (λ e. before_ne (sym e)) ∙ held in
      let z_2 = at-change_ne first behind z (linked_prev before) behind_ne ∙ z_1 in
      at-change_self third z (linked_prev null) (at-change_self second z (linked_next null) z_2)

  -- What is no link is kept.
  pub field_of-removed :
      (f : Transaction → Ptr) (a : Ptr)
      → ((q : Ptr) (t : Transaction) → f (linked_next q t) ≡ f t)
      → ((q : Ptr) (t : Transaction) → f (linked_prev q t) ≡ f t)
      → field_of f (at removed a) ≡ field_of f (at h a)
  field_of-removed f a nexts prevs =
      field_of-change f third z (linked_prev null) a (prevs null)
      ∙ (field_of-change f second z (linked_next null) a (nexts null)
          ∙ (field_of-change f first behind (linked_prev before) a (prevs before)
              ∙ field_of-change f h before (linked_next behind) a (nexts behind)))

  next_of-removed : (a : Ptr) → a ≢ z → a ≢ before → next_of removed a ≡ next_of h a
  next_of-removed a not_z not_before =
      ap (field_of (λ t. t.next)) (
        at-change_ne third z a (linked_prev null) not_z
        ∙ at-change_ne second z a (linked_next null) not_z)
      ∙ (field_of-change (λ t. t.next) first behind (linked_prev before) a (λ t. refl)
          ∙ ap (field_of (λ t. t.next)) (at-change_ne h before a (linked_next behind) not_before))

  prev_of-removed : (a : Ptr) → a ≢ z → a ≢ behind → prev_of removed a ≡ prev_of h a
  prev_of-removed a not_z not_behind =
      ap (field_of (λ t. t.prev)) (
        at-change_ne third z a (linked_prev null) not_z
        ∙ (at-change_ne second z a (linked_next null) not_z
            ∙ at-change_ne first behind a (linked_prev before) not_behind))
      ∙ field_of-change (λ t. t.prev) h before (linked_next behind) a (λ t. refl)

  Link-removed : Link removed before behind
  Link-removed =
      let (_, _, _, _, (_, at_before), (_, at_behind)) = split in
      let (_, behind_1) = at-change h before behind (linked_next behind) at_behind in
      (
        ap (field_of (λ t. t.next)) (
              at-change_ne third z before (linked_prev null) before_ne
              ∙ at-change_ne second z before (linked_next null) before_ne)
            ∙ (field_of-change (λ t. t.next) first behind (linked_prev before) before (λ t. refl)
                ∙ ap (field_of (λ t. t.next))
                    (at-change_self h before (linked_next behind) at_before)),
        ap (field_of (λ t. t.prev)) (
            at-change_ne third z behind (linked_prev null) (λ e. behind_ne (sym e))
            ∙ (at-change_ne second z behind (linked_next null) (λ e. behind_ne (sym e))
                ∙ at-change_self first behind (linked_prev before) behind_1)),
      )

  pub removed_out : mem z (trans_list ∷ (xs ++ ys)) ≡ false
  removed_out = ground (arith, mem-append z xs ys, apart.0, apart.1, list_out)

  -- `remove_transaction_from_LL` takes its transaction out of the list, wherever it stands: the links
  -- lead through the others in their order, forth and back.
  pub remove_transaction_from_ll-IsRing :
      (remove_transaction_from_ll z (with_heap m h) ≡ ok tt (with_heap m removed))
      × IsRing removed (xs ++ ys)
  remove_transaction_from_ll-IsRing = (
    remove_transaction_from_ll-ok,
    (
      IsPath-remove h removed trans_list xs z ys trans_list ring.0 ring.1 ring.1.0
          (λ a is not_before.
            next_of-removed a (mem-ne a z (trans_list ∷ (xs ++ ys)) is removed_out) not_before)
          (λ a is not_behind.
            prev_of-removed a (mem-ne a z (trans_list ∷ (xs ++ ys)) (ground arith) removed_out)
              not_behind)
          (λ not_behind. prev_of-removed trans_list (λ e. ground (arith, list_out)) not_behind)
          Link-removed,
      (mem-append trans_list xs ys ∙ ground (arith, list_out), apart.2),
    ),
  )
