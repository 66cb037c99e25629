-- ===== src/Versions/First.antt =====
-- The first version of a map entry.
use concurrent_server.Common.{◌≡◌, ◌≢◌, refl, true, some, [], ◌∷◌, arith, ◌==◌}
use concurrent_server.Machine.{
  Ptr, null, Transaction, MapEntry, Machine, at, write, at-ne-null, at-write_self, ok, and_then,
}
use concurrent_server.Machine.Points.{load_entry-ok, put_entry-ok}
use concurrent_server.Versions.{add_version}
use concurrent_server.Versions.Chain.{IsChain}
use concurrent_server.Versions.Append.{referenced, new_body, created, version_create-ok}

abbrev pub with_first : Machine → (mp tp value : Ptr) → MapEntry → Transaction → Machine
with_first m mp tp value e t = record (created m tp value t) {
  entries = write m.entries mp (some (record e { versions = m.fresh }));
}

-- If the entry has no version and addresses are not 0, `add_version` returns a new version with the
-- value, created by the caller, which is then the only one of the entry; the caller has one more
-- reference, and nothing else is changed.
pub add_version-first :
    (m : Machine) (mp tp value : Ptr) {e : MapEntry} {t : Transaction}
    → at m.entries mp ≡ some e
    → e.versions ≡ null
    → at m.transactions tp ≡ some t
    → m.fresh ≢ null
    → (add_version mp tp value m ≡ ok m.fresh (with_first m mp tp value e t))
      × IsChain
          (with_first m mp tp value e t)
          0
          m.fresh
          (record { addr = m.fresh; body = new_body tp value; owner = referenced t } ∷ [])
unfolding add_version and_then
add_version-first m mp tp value {e} {t} entry no_version caller fresh_ne =
    let m1 : Machine = created m tp value t in
    let is_null : (e.versions == null) ≡ true = rw no_version refl in
    (
      rw
          (
            load_entry-ok m mp entry,
            is_null,
            version_create-ok m tp value caller,
            load_entry-ok m1 mp entry,
            put_entry-ok m1 mp (some (record e { versions = m.fresh })) entry,
          )
          refl,
      (
        refl,
        omega arith,
        omega arith,
        at-write_self m.versions m.fresh _ fresh_ne,
        at-write_self m.transactions tp _ (at-ne-null m.transactions tp caller),
        refl,
      ),
    )
