-- ===== src/Store/Access.antt =====
-- `store_put` and `store_get` by their steps.
use concurrent_server.Common.{suc, ◌≡◌, refl, some, List, [], ◌∷◌, arith}
use concurrent_server.Machine.{Ptr, Blob, Version, Transaction, Machine, at, ok, and_then}
use concurrent_server.Machine.Points.{load_version-ok}
use concurrent_server.Transaction.Status.{trans_get_status-ok}
use concurrent_server.Entries.{find_map_entry}
use concurrent_server.Collect.{garbage_collect}
use concurrent_server.Versions.{add_version}
use concurrent_server.Versions.Chain.{Cell, IsChain}
use concurrent_server.Store.{latest_value, store_put, store_get}
use concurrent_server.Store.Copy.{with_blob}

pub store_put-steps :
    (m : Machine) (tp key value : Ptr) {mp v : Ptr} {m1 m2 : Machine} {t : Transaction}
    → find_map_entry key m ≡ ok mp m1
    → garbage_collect mp m1 ≡ ok tt m1
    → add_version mp tp value m1 ≡ ok v m2
    → at m2.transactions tp ≡ some t
    → store_put tp key value m ≡ ok t.status m2
unfolding store_put and_then
store_put-steps m tp key value {m2} found clean added caller =
    rw (found, clean, added, trans_get_status-ok m2 tp caller) refl

pub store_get-steps :
    (m : Machine) (tp key : Ptr) {mp value v : Ptr} {m1 m2 m3 : Machine} {t : Transaction}
    {b : Version}
    → find_map_entry key m ≡ ok mp m1
    → garbage_collect mp m1 ≡ ok tt m1
    → latest_value mp m1 ≡ ok value m2
    → add_version mp tp value m2 ≡ ok v m3
    → at m3.versions v ≡ some b
    → at m3.transactions tp ≡ some t
    → store_get tp key m ≡ ok (t.status, b.blob) m3
unfolding store_get and_then
store_get-steps m tp key {v} {m3} found clean latest added version caller =
    rw (found, clean, latest, added, load_version-ok m3 v version, trans_get_status-ok m3 tp caller)
      refl

-- More addresses may have been handed out.
pub IsChain-later :
    (m : Machine) (b : Blob) (lo p : Ptr) (cs : List Cell)
    → IsChain m lo p cs
    → IsChain (with_blob m b) lo p cs
IsChain-later m b lo p [] e = e
IsChain-later m b lo p (c ∷ cs) (at_c, le, lt, hv, ht, rest) =
    (at_c, le, omega arith, hv, ht, IsChain-later m b (suc c.addr) c.body.next cs rest)
