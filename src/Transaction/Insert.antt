-- ===== src/Transaction/Insert.antt =====
-- `add_transaction_to_LL` puts a transaction at the end of the list of all transactions.
use concurrent_server.Common.{
  ◌≡◌, ◌≢◌, refl, ◌∙◌, ap, sym, true, false, ◌||◌, some, List, [], ◌∷◌, ◌++◌, arith, ◌==◌,
}
use concurrent_server.Machine.{Ptr, trans_list, Transaction, Heap, Machine, at, ok, and_then}
use concurrent_server.Machine.Points.{load_transaction-ok}
use concurrent_server.Transaction.{add_transaction_to_ll}
use concurrent_server.Transaction.Dependents.{mem, with_heap}
use concurrent_server.Transaction.Ring.{
  linked_next, linked_prev, change, at-change_self, at-change_ne, set_next-ok, set_prev-ok,
  field_of, field_of-cell, field_of-change, next_of, prev_of, Link, IsPath, AreDistinct, IsRing,
  last_of, prev_of-last, last_of-ne, next_of-last, at-change, mem-ne,
}

-- A cell behind the last one of a path, in a heap in which only the links next to it differ.
IsPath-append :
    (h h' : Heap Transaction) (p : Ptr) (ts : List Ptr) (q z : Ptr)
    → IsPath h p ts q
    → AreDistinct (p ∷ ts)
    → ((a : Ptr) → mem a (p ∷ ts) ≡ true → a ≢ last_of p ts → next_of h' a ≡ next_of h a)
    → ((a : Ptr) → mem a ts ≡ true → prev_of h' a ≡ prev_of h a)
    → Link h' (last_of p ts) z
    → Link h' z q
    → IsPath h' p (ts ++ z ∷ []) q
IsPath-append h h' p [] q z path distinct nexts prevs before behind = (before, behind)
IsPath-append h h' p (t ∷ ts) q z ((forth, back), rest) (p_new, distinct) nexts prevs before
      behind =
    let p_ne : p ≢ last_of t ts = λ e. last_of-ne t ts p p_new (sym e) in
    (
      (nexts p (ground arith) p_ne ∙ forth, prevs t (ground arith) ∙ back),
      IsPath-append h h' t ts q z rest distinct (λ a is. nexts a (ground arith))
          (λ a is. prevs a (ground arith)) before behind,
    )

mem-append : (q z : Ptr) (ts : List Ptr) → mem q (ts ++ z ∷ []) ≡ mem q ts || (q == z)
mem-append q z [] = ground arith
mem-append q z (t ∷ ts) = ground (arith, mem-append q z ts)

AreDistinct-append :
    (ts : List Ptr) (z : Ptr) → AreDistinct ts → mem z ts ≡ false → AreDistinct (ts ++ z ∷ [])
AreDistinct-append [] z d new = (refl, tt)
AreDistinct-append (t ∷ ts) z (t_new, d) new =
    (mem-append t z ts ∙ ground arith, AreDistinct-append ts z d (ground arith))

module _ (m : Machine) (h : Heap Transaction) (z : Ptr) (ts : List Ptr) {t : Transaction}
    (ring : IsRing h ts) (held : at h z ≡ some t) (new : mem z (trans_list ∷ ts) ≡ false) where
  abbrev last : Ptr
  last = last_of trans_list ts

  -- The heap after each of the four assignments.
  abbrev first : Heap Transaction
  first = change h z (linked_next trans_list)

  abbrev second : Heap Transaction
  second = change first z (linked_prev last)

  abbrev third : Heap Transaction
  third = change second last (linked_next z)

  abbrev pub joined : Heap Transaction
  joined = change third trans_list (linked_prev z)

  not_sentinel : trans_list ≢ z
  not_sentinel e = ground arith

  not_last : last ≢ z
  not_last = last_of-ne trans_list ts z new

  add_transaction_to_ll-ok : add_transaction_to_ll z (with_heap m h) ≡ ok tt (with_heap m joined)
  unfolding add_transaction_to_ll and_then
  add_transaction_to_ll-ok =
      let (head, at_head, e) =
        field_of-cell (λ t. t.prev) (at h trans_list) last
          (prev_of-last h trans_list ts trans_list ring.0) in
      let (_, at_last, _) =
        field_of-cell (λ t. t.next) (at h last) trans_list
          (next_of-last h trans_list ts trans_list ring.0) in
      let head_1 : at first trans_list ≡ some head =
        at-change_ne h z trans_list _ not_sentinel ∙ at_head in
      let z_1 = at-change_self h z (linked_next trans_list) held in
      let last_2 =
        at-change_ne first z last (linked_prev last) not_last
        ∙ (at-change_ne h z last (linked_next trans_list) not_last ∙ at_last) in
      let head_2 : at second trans_list ≡ some head =
        at-change_ne first z trans_list _ not_sentinel ∙ head_1 in
      let (_, head_3) = at-change second last trans_list (linked_next z) head_2 in
      rw
        (
          set_next-ok m h z trans_list held,
          load_transaction-ok (with_heap m first) trans_list head_1,
          e,
          set_prev-ok m first z last z_1,
          set_next-ok m second last z last_2,
          set_prev-ok m third trans_list z head_3,
        )
        refl

  -- The links of the transaction, and what the others keep.
  pub at-joined : at joined z ≡ some (record t { next = trans_list; prev = last })
  at-joined =
      at-change_ne third trans_list z (linked_prev z) (λ e. not_sentinel (sym e))
      ∙ (at-change_ne second last z (linked_next z) (λ e. not_last (sym e))
          ∙ at-change_self first z (linked_prev last)
              (at-change_self h z (linked_next trans_list) held))

  pub id-joined : (a : Ptr) → field_of (λ t. t.id) (at joined a) ≡ field_of (λ t. t.id) (at h a)
  id-joined a =
      field_of-change (λ t. t.id) third trans_list (linked_prev z) a (λ t. refl)
      ∙ (field_of-change (λ t. t.id) second last (linked_next z) a (λ t. refl)
          ∙ (field_of-change (λ t. t.id) first z (linked_prev last) a (λ t. refl)
              ∙ field_of-change (λ t. t.id) h z (linked_next trans_list) a (λ t. refl)))

  next_of-joined : (a : Ptr) → a ≢ z → a ≢ last → next_of joined a ≡ next_of h a
  next_of-joined a not_z not_end =
      field_of-change (λ t. t.next) third trans_list (linked_prev z) a (λ t. refl)
      ∙ (ap (field_of (λ t. t.next)) (at-change_ne second last a (linked_next z) not_end)
          ∙ (field_of-change (λ t. t.next) first z (linked_prev last) a (λ t. refl)
              ∙ ap (field_of (λ t. t.next)) (at-change_ne h z a (linked_next trans_list) not_z)))

  prev_of-joined : (a : Ptr) → a ≢ z → a ≢ trans_list → prev_of joined a ≡ prev_of h a
  prev_of-joined a not_z not_list =
      ap (field_of (λ t. t.prev)) (at-change_ne third trans_list a (linked_prev z) not_list)
      ∙ (field_of-change (λ t. t.prev) second last (linked_next z) a (λ t. refl)
          ∙ (ap (field_of (λ t. t.prev)) (at-change_ne first z a (linked_prev last) not_z)
              ∙ field_of-change (λ t. t.prev) h z (linked_next trans_list) a (λ t. refl)))

  Link-before : Link joined last z
  Link-before =
      let (_, at_last, _) =
        field_of-cell (λ t. t.next) (at h last) trans_list
          (next_of-last h trans_list ts trans_list ring.0) in
      let last_2 =
        at-change_ne first z last (linked_prev last) not_last
        ∙ (at-change_ne h z last (linked_next trans_list) not_last ∙ at_last) in
      (
        field_of-change (λ t. t.next) third trans_list (linked_prev z) last (λ t. refl)
            ∙ ap (field_of (λ t. t.next)) (at-change_self second last (linked_next z) last_2),
        ap (field_of (λ t. t.prev))
              (at-change_ne third trans_list z (linked_prev z) (λ e. not_sentinel (sym e)))
            ∙ (field_of-change (λ t. t.prev) second last (linked_next z) z (λ t. refl)
                ∙ ap (field_of (λ t. t.prev)) (
                    at-change_self first z (linked_prev last)
                      (at-change_self h z (linked_next trans_list) held))),
      )

  Link-behind : Link joined z trans_list
  Link-behind =
      let (_, at_head, _) =
        field_of-cell (λ t. t.prev) (at h trans_list) last
          (prev_of-last h trans_list ts trans_list ring.0) in
      let (_, head_1) = at-change h z trans_list (linked_next trans_list) at_head in
      let (_, head_2) = at-change first z trans_list (linked_prev last) head_1 in
      let (_, head_3) = at-change second last trans_list (linked_next z) head_2 in
      (
        field_of-change (λ t. t.next) third trans_list (linked_prev z) z (λ t. refl)
            ∙ (ap (field_of (λ t. t.next))
                  (at-change_ne second last z (linked_next z) (λ e. not_last (sym e)))
                ∙ (field_of-change (λ t. t.next) first z (linked_prev last) z (λ t. refl)
                    ∙ ap (field_of (λ t. t.next))
                        (at-change_self h z (linked_next trans_list) held))),
        ap (field_of (λ t. t.prev)) (at-change_self third trans_list (linked_prev z) head_3),
      )

  -- On a list with the transactions `ts`, `add_transaction_to_LL` puts another one at the end, and the
  -- links lead through `ts` and it, forth and back.
  pub add_transaction_to_ll-IsRing :
      (add_transaction_to_ll z (with_heap m h) ≡ ok tt (with_heap m joined))
      × IsRing joined (ts ++ z ∷ [])
  add_transaction_to_ll-IsRing =
      let (path, (list_new, distinct)) = ring in
      (
        add_transaction_to_ll-ok,
        (
          IsPath-append h joined trans_list ts trans_list z path (list_new, distinct)
              (λ a is not_end. next_of-joined a (mem-ne a z (trans_list ∷ ts) is new) not_end)
              (λ a is.
                prev_of-joined a (mem-ne a z (trans_list ∷ ts) (ground arith) new)
                  (mem-ne a trans_list ts is list_new))
              Link-before Link-behind,
          (
            mem-append trans_list z ts ∙ ground (arith, not_sentinel),
            AreDistinct-append ts z distinct (ground arith),
          ),
        ),
      )
