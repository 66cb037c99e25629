-- ===== src/Store/Own.antt =====
-- A transaction reads what it wrote.
use concurrent_server.Common.{suc, ◌<◌, ◌≡◌, refl, ◌∙◌, some, [], ◌∷◌, arith}
use concurrent_server.Machine.{
  Ptr, null, trans_pending, Blob, Key, Transaction, MapEntry, Machine, at, at-write_self,
  at-write_ne, ok,
}
use concurrent_server.Data.Release.{disposed}
use concurrent_server.Entries.{find_map_entry}
use concurrent_server.Collect.{garbage_collect}
use concurrent_server.Collect.Clean.{collect-clean}
use concurrent_server.Versions.Own.{Own, own_cell, Own-IsChain, overwritten, add_version-own_only}
use concurrent_server.Store.{store_put, store_get}
use concurrent_server.Store.Copy.{IsWhole, copied, with_blob, latest_value-last}
use concurrent_server.Store.Access.{store_put-steps, store_get-steps}

module _ (m m1 : Machine) (mp tp key old : Ptr) {e : MapEntry} {blob prev : Ptr} {t : Transaction}
    {b : Blob} (found : find_map_entry key m ≡ ok mp m1)
    (own : Own m1 mp tp old e blob prev t b) where
  clean : garbage_collect mp m1 ≡ ok tt m1
  clean =
      collect-clean m1 mp (own_cell old tp blob prev t ∷ []) own.entry
        (Own-IsChain m1 mp tp old own) (ground (arith, own.pending)) (ground (arith, own.pending))

  pub store_put-own :
      (value : Ptr)
      → store_put tp key value m ≡ ok trans_pending (overwritten m1 mp tp old own value)
  store_put-own value =
      let (added, _, (_, _, _, _, caller, _), _) = add_version-own_only m1 mp tp old own value in
      store_put-steps m tp key value found clean added caller ∙ rw (own.pending) refl

  pub store_get-own :
      IsWhole b
      → blob < m1.fresh
      → (m' : Machine) × (store_get tp key m ≡ ok (trans_pending, m1.fresh) m')
        × (at m'.blobs m1.fresh ≡ some (copied b))
  store_get-own whole below =
      let m2 : Machine = with_blob m1 (copied b) in
      let own2 : Own m2 mp tp old e blob prev t b = record {
        entry = own.entry;
        head = own.head;
        version = own.version;
        below = omega (arith, own.below);
        caller = own.caller;
        pending = own.pending;
        counted = own.counted;
        small = own.small;
        value = at-write_ne m1.blobs m1.fresh blob _ (omega arith) ∙ own.value;
      } in
      let (added, _, (_, _, _, version, caller, _), _) =
        add_version-own_only m2 mp tp old own2 m1.fresh in
      (
        overwritten m2 mp tp old own2 m1.fresh,
        store_get-steps m tp key found clean
              (latest_value-last m1 mp (own_cell old tp blob prev t) [] own.entry
                (Own-IsChain m1 mp tp old own) own.value whole)
              added version caller
            ∙ rw (own.pending) refl,
        at-write_ne m2.blobs blob m1.fresh _ (omega arith)
            ∙ at-write_self m1.blobs m1.fresh _ (omega arith),
      )

-- If the only version of a key is pending and of the caller, `store_put` of a value returns
-- TRANS_PENDING, and if a key for the same entry is then given to `store_get`, that returns
-- TRANS_PENDING and a new blob with the size and the content of the value.
pub store_put-store_get :
    (m m1 : Machine) (mp tp key old : Ptr) {e : MapEntry} {blob prev : Ptr} {t : Transaction}
    {b : Blob}
    → find_map_entry key m ≡ ok mp m1
    → (own : Own m1 mp tp old e blob prev t b)
    → (value key2 : Ptr) (k : Key) (kb : Blob) {b2 : Blob}
    → find_map_entry key2 (overwritten m1 mp tp old own value)
      ≡ ok mp (disposed (overwritten m1 mp tp old own value) key2 k kb)
    → at (disposed (overwritten m1 mp tp old own value) key2 k kb).blobs value ≡ some b2
    → IsWhole b2
    → value < m1.fresh
    → (store_put tp key value m ≡ ok trans_pending (overwritten m1 mp tp old own value))
      × ((m' : Machine) × (store_get tp key2 (overwritten m1 mp tp old own value)
            ≡ ok (trans_pending, suc m1.fresh) m')
          × (at m'.blobs (suc m1.fresh) ≡ some (copied b2)))
store_put-store_get m m1 mp tp key old {e} {t} found own value key2 k kb {b2} again held whole
      below =
    let m2 : Machine = disposed (overwritten m1 mp tp old own value) key2 k kb in
    let (_, entry, (_, _, lt, version, caller, _), _) =
      add_version-own_only m1 mp tp old own value in
    let own2 : Own m2 mp tp m1.fresh (record e { versions = m1.fresh }) value null t b2 = record {
      entry = entry;
      head = refl;
      version = version;
      below = lt;
      caller = caller;
      pending = own.pending;
      counted = own.counted;
      small = own.small;
      value = held;
    } in
    (
      store_put-own m m1 mp tp key old found own value,
      store_get-own (overwritten m1 mp tp old own value) m2 mp tp key2 m1.fresh again own2 whole
          (omega arith),
    )
