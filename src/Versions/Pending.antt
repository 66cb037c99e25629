-- ===== src/Versions/Pending.antt =====
-- A version is appended behind a pending one of an earlier transaction.
use concurrent_server.Common.{
  ℕ, suc, ◌<◌, ◌≡◌, ◌≢◌, refl, sym, ◌∙◌, ap, true, false, some, List, ◌∷◌, arith, ==_ne, ltb, inc32,
}
use concurrent_server.Machine.{
  Ptr, null, trans_pending, Transaction, MapEntry, Machine, at, at-ne-null, at-write_self,
  at-write_ne, ok, and_then,
}
use concurrent_server.Machine.Points.{load_transaction-ok, load_version-ok}
use concurrent_server.Transaction.{is_pending}
use concurrent_server.Transaction.Status.{trans_get_status-ok}
use concurrent_server.Transaction.Depend.{depending, trans_add_dependency-first}
use concurrent_server.Versions.{add_after, append_pending, add_version}
use concurrent_server.Versions.Chain.{Cell, IsChain}
use concurrent_server.Versions.Last.{last_cell, last_cell-IsLast, IsLast, add_version-last}
use concurrent_server.Versions.Append.{appended, append_version-ok}

-- One more transaction to wait for.
abbrev pub waiting : Transaction → Transaction
waiting t = record t { waitcnt = inc32 t.waitcnt }

pub not_earlier : (a b : ℕ) → b < a → ltb a b ≡ false
not_earlier a b h = ground arith

module _ (m : Machine) (mp tp value : Ptr) {e : MapEntry} (c : Cell) (cs : List Cell)
    (entry : at m.entries mp ≡ some e) (chain : IsChain m 0 e.versions (c ∷ cs)) {t : Transaction}
    (caller : at m.transactions tp ≡ some t) where
  abbrev last : Cell
  last = last_cell c cs

  abbrev pub dependent_machine : Machine
  dependent_machine = depending m tp last.body.creator t last.owner

  -- If the last version is pending, and its creator is an earlier transaction without dependents,
  -- `add_version` enters the caller as a dependent of the creator, which gives it one more
  -- transaction to wait for, and returns a new version that is linked behind the last one.
  pub add_version-pending :
      last.owner.status ≡ trans_pending
      → last.owner.id < t.id
      → last.owner.depends ≡ null
      → add_version mp tp value m
        ≡ ok (suc m.fresh) (appended dependent_machine tp value (waiting t) last)
  unfolding add_after append_pending and_then
  add_version-pending s later alone =
      let creator : Ptr = last.body.creator in
      let pending : is_pending last.owner.status ≡ true = rw s refl in
      let is_last : IsLast m last = last_cell-IsLast m 0 e.versions c cs chain in
      let ne : tp ≢ creator = λ same.
        let two : some t ≡ some last.owner =
          sym caller ∙ (ap (λ p. at m.transactions p) same ∙ is_last.owner) in
        ground (arith, two) in
      let fresh_ne : m.fresh ≢ null = omega (arith, is_last.below) in
      let at_tp : at dependent_machine.transactions tp ≡ some (waiting t) =
        at-write_self _ tp _ (at-ne-null m.transactions tp caller) in
      let at_creator =
        at-write_ne _ tp creator _ (λ same. ne (sym same))
        ∙ at-write_self m.transactions creator _
            (at-ne-null m.transactions creator is_last.owner) in
      let behind : IsLast dependent_machine (record last {
        owner = record (last.owner) { refcnt = inc32 (last.owner).refcnt; depends = m.fresh };
      }) =
        record {
          body = is_last.body;
          owner = at_creator;
          end = is_last.end;
          below = omega (arith, is_last.below);
        } in
      rw
        (
          add_version-last m mp tp value c cs entry chain,
          load_version-ok m last.addr is_last.body,
          trans_get_status-ok m creator is_last.owner,
          pending,
          load_transaction-ok m creator is_last.owner,
          load_transaction-ok m tp caller,
          ==_ne (last.owner).id t.id (omega arith),
          load_transaction-ok m creator is_last.owner,
          load_transaction-ok m tp caller,
          not_earlier t.id (last.owner).id later,
          (trans_add_dependency-first m tp creator caller is_last.owner ne fresh_ne alone).0,
          append_version-ok dependent_machine tp value
              (record last {
                owner = record (last.owner) {
                  refcnt = inc32 (last.owner).refcnt;
                  depends = m.fresh;
                };
              })
              at_tp behind,
        )
        refl
