-- ===== src/Versions/Refine.antt =====
-- `add_version` against the history of a key.
use concurrent_server.Common.{
  suc, ◌+◌, ◌^◌, ◌<◌, ◌≡◌, ◌≢◌, refl, sym, subst, ◌∙◌, ap, ap₂, some, List, [], ◌∷◌, ◌++◌, arith,
  inl, inr,
}
use concurrent_server.Machine.{
  Ptr, null, trans_pending, trans_committed, Transaction, Blob, MapEntry, Machine, at, at-ne-null,
  at-write_self, at-write_ne,
}
use concurrent_server.Versions.Kept.{held_once, depending-AreKept}
use concurrent_server.Versions.Chain.{Cell, IsChain}
use concurrent_server.Versions.Last.{last_cell, last_cell-IsLast, IsLast, add_version-conflict}
use concurrent_server.Versions.Append.{
  new_body, appended, extend, extend-IsChain, new_version_after, referenced,
}
use concurrent_server.Versions.Append.{add_version-append}
use concurrent_server.Versions.First.{with_first, add_version-first}
use concurrent_server.Versions.Pending.{waiting, dependent_machine, add_version-pending}
use concurrent_server.Versions.Own.{Own, own_body, own_cell, overwritten, add_version-own_only}
use concurrent_server.Versions.Admit.{
  Admitted, Implements, Ready, no_version, behind_committed, behind_earlier, behind_aborted,
  behind_later, its_own, admit-behind_committed, admit-behind_earlier, admit-conflict, admit-own,
}
use concurrent_server.Versions.History.{
  Access, access_by, history, admit, reowned, reowned_each, last_cell-reowned_each, AreKept,
  reowned_each-IsChain, history-reowned_each, history-extend,
}

module _ (m : Machine) (mp tp value : Ptr) {e : MapEntry} {t : Transaction}
    (entry : at m.entries mp ≡ some e) (caller : at m.transactions tp ≡ some t) where
  abbrev me : Access
  me = access_by tp value t

  first-Admitted : IsChain m 0 e.versions [] → m.fresh ≢ null → Admitted m mp tp value t (me ∷ [])
  first-Admitted empty fresh_ne =
      let (returned, chain) = add_version-first m mp tp value entry empty caller fresh_ne in
      record {
        new = m.fresh;
        after = with_first m mp tp value e t;
        returned = returned;
        version = at-write_self m.versions m.fresh _ fresh_ne;
        list = record {
          entry = record e { versions = m.fresh };
          cells = record { addr = m.fresh; body = new_body tp value; owner = referenced t } ∷ [];
          held = at-write_self m.entries mp _ (at-ne-null m.entries mp entry);
          chain = chain;
          same = refl;
        };
        caller = referenced t;
        caller_after = at-write_self m.transactions tp _ (at-ne-null m.transactions tp caller);
        status = refl;
        value_after = refl;
      }

  module _ (c : Cell) (cs : List Cell) (chain : IsChain m 0 e.versions (c ∷ cs)) where
    committed-Admitted :
        (last_cell c cs).owner.status ≡ trans_committed
        → Admitted m mp tp value t (history (c ∷ cs) ++ me ∷ [])
    committed-Admitted s =
        let (m', done) = add_version-append m mp tp value c cs entry chain caller s in
        record {
          new = m.fresh;
          after = m';
          returned = done.returned;
          version = done.version;
          list = record {
            entry = e;
            cells = extend tp value m.fresh (referenced t) c cs;
            held = ap (λ h. at h mp) done.entries ∙ entry;
            chain = done.chain;
            same = history-extend m tp value m.fresh caller 0 e.versions c cs chain;
          };
          caller = referenced t;
          caller_after = done.caller;
          status = refl;
          value_after = ap (λ h. at h value) done.blobs;
        }

    pending-Admitted :
        (last_cell c cs).owner.status ≡ trans_pending
        → (last_cell c cs).owner.id < t.id
        → (last_cell c cs).owner.depends ≡ null
        → Admitted m mp tp value t (history (c ∷ cs) ++ me ∷ [])
    pending-Admitted s later alone =
        let last : Cell = last_cell c cs in
        let m1 : Machine = dependent_machine m mp tp value c cs entry chain caller in
        let is_last : IsLast m last = last_cell-IsLast m 0 e.versions c cs chain in
        let kept : AreKept m m1 = depending-AreKept m tp last.body.creator caller is_last.owner in
        let chain1 : IsChain m1 0 e.versions (reowned_each m1 (c ∷ cs)) =
          reowned_each-IsChain m m1 kept refl (omega arith) 0 e.versions (c ∷ cs) chain in
        let caller1 : at m1.transactions tp ≡ some (waiting t) =
          at-write_self _ tp _ (at-ne-null m.transactions tp caller) in
        let is : last_cell (reowned m1 c) (reowned_each m1 cs) ≡ reowned m1 last =
          last_cell-reowned_each m1 c cs in
        let is_last1 : IsLast m1 (reowned m1 last) =
          subst (IsLast m1) is
            (last_cell-IsLast m1 0 e.versions (reowned m1 c) (reowned_each m1 cs) chain1) in
        record {
          new = suc m.fresh;
          after = appended m1 tp value (waiting t) last;
          returned = add_version-pending m mp tp value c cs entry chain caller s later alone;
          version = new_version_after m1 tp value caller1 (reowned m1 last) is_last1;
          list = record {
            entry = e;
            cells =
                extend tp value (suc m.fresh) (referenced (waiting t)) (reowned m1 c)
                  (reowned_each m1 cs);
            held = entry;
            chain =
                extend-IsChain m1 tp value caller1 (reowned m1 last) is_last1 0 e.versions
                  (reowned m1 c) (reowned_each m1 cs) chain1 is;
            same =
                history-extend m1 tp value (suc m.fresh) caller1 0 e.versions (reowned m1 c)
                  (reowned_each m1 cs) chain1
                ∙ ap (λ h. h ++ me ∷ [])
                    (history-reowned_each m m1 kept refl (omega arith) 0 e.versions (c ∷ cs) chain);
          };
          caller = referenced (waiting t);
          caller_after = at-write_self m1.transactions tp _ (at-ne-null m1.transactions tp caller1);
          status = refl;
          value_after = refl;
        }

  own-Admitted :
      (c : Cell) (b : Blob)
      → IsChain m 0 e.versions (c ∷ [])
      → c.body.creator ≡ tp
      → t.status ≡ trans_pending
      → 0 < t.refcnt
      → t.refcnt + 1 < 2 ^ 32
      → at m.blobs c.body.blob ≡ some b
      → c.body.blob ≢ value
      → Admitted m mp tp value t (me ∷ [])
  own-Admitted c b (at_c, _, lt, hv, ht, end) own pending counted small blob other =
      let is : c.body ≡ own_body tp c.body.blob c.body.prev =
        ap₂ (λ p n. record (c.body) { creator = p; next = n }) own end in
      let held : Own m mp tp c.addr e c.body.blob c.body.prev t b = record {
        entry = entry;
        head = at_c;
        version = hv ∙ ap some is;
        below = lt;
        caller = caller;
        pending = pending;
        counted = counted;
        small = small;
        value = blob;
      } in
      let (returned, entry_after, chain, _) = add_version-own_only m mp tp c.addr held value in
      record {
        new = m.fresh;
        after = overwritten m mp tp c.addr held value;
        returned = returned;
        version = chain.3;
        list = record {
          entry = record e { versions = m.fresh };
          cells = own_cell m.fresh tp value null t ∷ [];
          held = entry_after;
          chain = chain;
          same = refl;
        };
        caller = t;
        caller_after = chain.4;
        status = refl;
        value_after = at-write_ne m.blobs c.body.blob value _ (λ same. other (sym same));
      }

-- If the version list of an entry is well formed, the caller is allocated, and the list is `Ready`
-- for it (which leaves out a list of several versions with its own at the end, a pending creator at
-- the end for which another waits already, and counters that wrap), then `add_version` does what the
-- history of the key says: where it admits the access, the list then stands for the history with it;
-- where it does not, the caller is aborted, the list is left alone and its last version returned.
pub add_version-refines :
    (m : Machine) (mp tp value : Ptr) {e : MapEntry} {t : Transaction} (cs : List Cell)
    → at m.entries mp ≡ some e
    → at m.transactions tp ≡ some t
    → IsChain m 0 e.versions cs
    → Ready m tp value t cs
    → Implements m mp tp value t cs (admit (access_by tp value t) (history cs))
add_version-refines m mp tp value {e} {t} _ entry caller chain (no_version fresh_ne) =
    first-Admitted m mp tp value entry caller chain fresh_ne
add_version-refines m mp tp value {e} {t} _ entry caller chain (behind_committed c cs s) =
    rw (admit-behind_committed (access_by tp value t) c cs s)
      (committed-Admitted m mp tp value entry caller c cs chain s)
add_version-refines m mp tp value {e} {t} _ entry caller chain (behind_earlier c cs s later alone) =
    rw (admit-behind_earlier (access_by tp value t) c cs s later)
      (pending-Admitted m mp tp value entry caller c cs chain s later alone)
add_version-refines m mp tp value {e} {t} _ entry caller chain (behind_aborted c cs s) =
    rw (admit-conflict (access_by tp value t) c cs (inl s))
      (add_version-conflict m mp tp value c cs entry chain caller (inl s))
add_version-refines m mp tp value {e} {t} _ entry caller chain (behind_later c cs s less) =
    rw (admit-conflict (access_by tp value t) c cs (inr (s, less)))
      (add_version-conflict m mp tp value c cs entry chain caller (inr (s, less)))
add_version-refines m mp tp value {e} {t} _ entry caller chain
      (its_own c b own pending counted small blob below other) =
    let same : c.owner ≡ t = held_once m.transactions c.body.creator tp (chain.4) caller own in
    rw
      (admit-own (access_by tp value t) c (ap (λ x. Transaction.status x) same ∙ pending)
        (ap (λ x. Transaction.id x) same))
      (own-Admitted m mp tp value entry caller c b chain own pending counted small blob other)
