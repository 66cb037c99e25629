-- ===== src/Versions/Own.antt =====
-- The only version of a map entry is overwritten by its own transaction.
use concurrent_server.Common.{
  ◌+◌, ◌^◌, ◌<◌, ◌≡◌, ◌≢◌, refl, ◌∙◌, ap, sym, true, none, some, [], ◌∷◌, arith, ◌==◌, inc32, dec32,
}
use concurrent_server.Machine.{
  Ptr, null, trans_pending, Transaction, Version, Blob, MapEntry, Machine, at, write, at-ne-null,
  at-write_self, at-write_ne, at-write_free, ok, and_then,
}
use concurrent_server.Machine.Points.{load_version-ok, put_version-ok, load_entry-ok, put_entry-ok}
use concurrent_server.Transaction.Abort.{unreferenced, trans_unref-ok}
use concurrent_server.Data.Release.{unreferenced_blob, blob_unref-ok}
use concurrent_server.Data.{version_dispose}
use concurrent_server.Versions.{reach_version, remove_version_from_ll, overwrite, add_version}
use concurrent_server.Versions.Chain.{Cell, IsChain}
use concurrent_server.Versions.Last.{add_version-own}
use concurrent_server.Versions.Append.{referenced, created, version_create-ok}

-- A version with no other behind it.
abbrev pub own_body : (tp blob prev : Ptr) → Version
own_body tp blob prev = record { creator = tp; blob = blob; next = null; prev = prev }

abbrev pub own_cell : (old tp blob prev : Ptr) → Transaction → Cell
own_cell old tp blob prev t = record { addr = old; body = own_body tp blob prev; owner = t }

-- The entry at `mp` has one version, at `old`, and its creator `tp` is pending.
pub record Own (m : Machine) (mp tp old : Ptr) (e : MapEntry) (blob prev : Ptr) (t : Transaction)
    (b : Blob) : Type 0 where
  pub entry : at m.entries mp ≡ some e
  pub head : e.versions ≡ old
  pub version : at m.versions old ≡ some (own_body tp blob prev)
  pub below : old < m.fresh
  pub caller : at m.transactions tp ≡ some t
  pub pending : t.status ≡ trans_pending
  pub counted : 0 < t.refcnt
  pub small : t.refcnt + 1 < 2 ^ 32
  pub value : at m.blobs blob ≡ some b

module _ (m : Machine) (mp tp old : Ptr) {e : MapEntry} {blob prev : Ptr} {t : Transaction}
    {b : Blob} (own : Own m mp tp old e blob prev t b) where
  abbrev body : Version
  body = own_body tp blob prev

  pub Own-IsChain : IsChain m 0 e.versions (own_cell old tp blob prev t ∷ [])
  Own-IsChain = (own.head, omega arith, own.below, own.version, own.caller, refl)

  -- Out of its list the version is as before.
  abbrev kept : Machine
  kept = record m { versions = write (write m.versions old (some body)) old (some body) }

  at-kept : at kept.versions old ≡ some body
  at-kept =
      at-write_self (write m.versions old (some body)) old (some body)
        (at-ne-null m.versions old own.version)

  remove-only : remove_version_from_ll old e.versions m ≡ ok old kept
  unfolding remove_version_from_ll reach_version and_then
  remove-only =
      let here : (e.versions == old) ≡ true = ground (arith, own.head) in
      let m1 : Machine = record m { versions = write m.versions old (some body) } in
      let again : at m1.versions old ≡ some body =
        at-write_self m.versions old (some body) (at-ne-null m.versions old own.version) in
      rw
        (
          here,
          own.head,
          load_version-ok m old own.version,
          load_version-ok m old own.version,
          put_version-ok m old (some body) own.version,
          load_version-ok m1 old again,
          put_version-ok m1 old (some body) again,
        )
        refl

  module _ (value : Ptr) where
    abbrev grown : Machine
    grown = record (created kept tp value t) {
      entries = write m.entries mp (some (record e { versions = m.fresh }));
    }

    -- The machine once the old version is disposed of.
    abbrev pub overwritten : Machine
    overwritten = record grown {
      versions = write grown.versions old none;
      transactions = write grown.transactions tp (some (unreferenced (referenced t)));
      blobs = write m.blobs blob (unreferenced_blob b);
    }

    old_ne : old ≢ m.fresh
    old_ne = omega (arith, own.below)

    at-grown : at grown.versions old ≡ some body
    at-grown = at-write_ne kept.versions m.fresh old _ old_ne ∙ at-kept

    at-tp : at grown.transactions tp ≡ some (referenced t)
    at-tp = at-write_self m.transactions tp _ (at-ne-null m.transactions tp own.caller)

    version_dispose-own : version_dispose old grown ≡ ok tt overwritten
    unfolding version_dispose and_then
    version_dispose-own =
        let m1 : Machine = record grown { blobs = write m.blobs blob (unreferenced_blob b) } in
        let m2 : Machine = record m1 {
          transactions = write grown.transactions tp (some (unreferenced (referenced t)));
        } in
        rw
          (
            load_version-ok grown old at-grown,
            blob_unref-ok grown blob own.value,
            trans_unref-ok m1 tp at-tp
                (omega (arith, own.counted, own.small), omega (arith, own.counted, own.small)),
            put_version-ok m2 old none at-grown,
          )
          refl

    overwrite-only : overwrite mp tp value old m ≡ ok m.fresh overwritten
    unfolding overwrite and_then
    overwrite-only =
        let here : (old == e.versions) ≡ true = ground (arith, own.head) in
        let m1 : Machine = created kept tp value t in
        rw
          (
            load_entry-ok m mp own.entry,
            remove-only,
            load_entry-ok kept mp own.entry,
            here,
            version_create-ok kept tp value own.caller,
            load_entry-ok m1 mp own.entry,
            put_entry-ok m1 mp (some (record e { versions = m.fresh })) own.entry,
            version_dispose-own,
          )
          refl

    same_count : unreferenced (referenced t) ≡ t
    same_count =
        let same : dec32 (inc32 t.refcnt) ≡ t.refcnt = omega (arith, own.small) in
        ap (λ n. record t { refcnt = n }) same

    -- If the only version of the entry is pending and the caller created it, `add_version` replaces
    -- it: it returns a new version with the value, which is then the only one, the old one is freed
    -- and gives the reference to its blob back, and the caller keeps its number of references.
    pub add_version-own_only :
        (add_version mp tp value m ≡ ok m.fresh overwritten)
        × (at overwritten.entries mp ≡ some (record e { versions = m.fresh }))
        × IsChain overwritten 0 m.fresh (own_cell m.fresh tp value null t ∷ [])
        × (at overwritten.versions old ≡ none)
    add_version-own_only = (
      add_version-own m mp tp value (own_cell old tp blob prev t) [] own.entry Own-IsChain
            own.caller own.pending refl
          ∙ overwrite-only,
      at-write_self m.entries mp _ (at-ne-null m.entries mp own.entry),
      (
        refl,
        omega arith,
        omega arith,
        at-write_ne grown.versions old m.fresh none (λ e. old_ne (sym e))
            ∙ at-write_self kept.versions m.fresh _ (omega (arith, own.below)),
        at-write_self grown.transactions tp _ (at-ne-null m.transactions tp own.caller)
            ∙ ap some same_count,
        refl,
      ),
      at-write_free grown.versions old,
    )
