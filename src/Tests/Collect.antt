-- ===== src/Tests/Collect.antt =====
-- `garbage_collect` on two versions.
use concurrent_server.Common.{◌≡◌, refl, inr, some, [], ◌∷◌, arith}
use concurrent_server.Machine.{trans_pending, trans_committed, Machine, at, write, ok, fault}
use concurrent_server.Collect.{garbage_collect}
use concurrent_server.Collect.Clean.{collect-clean}
use concurrent_server.Collect.Dirty.{AllHeld, collect-dirty}
use concurrent_server.Versions.Chain.{IsChain}
use concurrent_server.Tests.World.{
  empty, value, first_cell, second_cell, two_versions, two_cells, two_versions-IsChain,
  two_versions-entry,
}

collect-clean_example :
    garbage_collect 5 (two_versions trans_committed trans_pending)
    ≡ ok tt (two_versions trans_committed trans_pending)
collect-clean_example =
    collect-clean (two_versions trans_committed trans_pending) 5
      (two_cells trans_committed trans_pending) (two_versions-entry trans_committed trans_pending)
      (two_versions-IsChain trans_committed trans_pending) refl (omega arith)

-- Two committed versions, each with its blob.
abbrev with_blobs : Machine
with_blobs = record (two_versions trans_committed trans_committed) {
  blobs = write (write empty 20 (some value)) 21 (some value);
}

with_blobs-IsChain : IsChain with_blobs 0 10 (two_cells trans_committed trans_committed)
unfolding at write
with_blobs-IsChain =
    (refl, omega arith, omega arith, refl, refl, (refl, omega arith, omega arith, refl, refl, refl))

with_blobs-AllHeld : AllHeld with_blobs (two_cells trans_committed trans_committed)
unfolding at write
with_blobs-AllHeld =
    ((value, refl), (omega arith, omega arith), ((value, refl), (omega arith, omega arith), tt))

collect-dirty_example : garbage_collect 5 with_blobs ≡ fault
collect-dirty_example =
    collect-dirty with_blobs 5 (first_cell trans_committed) (second_cell trans_committed ∷ [])
      (two_versions-entry trans_committed trans_committed) with_blobs-IsChain with_blobs-AllHeld
      refl (inr (omega arith))
