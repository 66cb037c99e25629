-- ===== src/Tests/Versions.antt =====
-- `add_version` behind two versions.
use concurrent_server.Common.{◌≡◌, refl, some, [], ◌∷◌, arith}
use concurrent_server.Machine.{fault, trans_pending, trans_committed, Machine, at, write}
use concurrent_server.Versions.{add_version}
use concurrent_server.Versions.Chain.{IsChain}
use concurrent_server.Versions.Admit.{Admitted, behind_earlier}
use concurrent_server.Versions.Refine.{add_version-refines}
use concurrent_server.Versions.Overwrite.{add_version-own_later}
use concurrent_server.Tests.World.{
  empty, value, transaction, two_versions, two_versions-entry, first_cell, second_cell,
  creator_at_3,
}

-- The last version has a blob.
abbrev with_blob : Machine
with_blob = record (two_versions trans_committed trans_pending) {
  blobs = write empty 21 (some value);
}

with_blob-value : at with_blob.blobs 21 ≡ some value
unfolding at write
with_blob-value = refl

with_blob-IsChain :
    IsChain with_blob 0 10 (first_cell trans_committed ∷ second_cell trans_pending ∷ [])
unfolding at write
with_blob-IsChain =
    (refl, omega arith, omega arith, refl, refl, (refl, omega arith, omega arith, refl, refl, refl))

add_version-own_later_example : add_version 5 3 40 with_blob ≡ fault
add_version-own_later_example =
    add_version-own_later with_blob 5 3 40 (first_cell trans_committed) (second_cell trans_pending)
      [] (two_versions-entry trans_committed trans_pending) with_blob-IsChain
      (creator_at_3 trans_committed trans_pending) refl refl (omega arith) (omega arith)
      with_blob-value

-- A third transaction, at 4.
abbrev three_transactions : Machine
three_transactions = record (two_versions trans_committed trans_pending) {
  transactions =
      write (two_versions trans_committed trans_pending).transactions 4
        (some (transaction 2 1 trans_pending));
}

three_transactions-IsChain :
    IsChain three_transactions 0 10 (first_cell trans_committed ∷ second_cell trans_pending ∷ [])
unfolding at write
three_transactions-IsChain =
    (refl, omega arith, omega arith, refl, refl, (refl, omega arith, omega arith, refl, refl, refl))

third_at_4 : at three_transactions.transactions 4 ≡ some (transaction 2 1 trans_pending)
unfolding at write
third_at_4 = refl

-- The third transaction writes behind the others.
add_version-refines_example : Admitted three_transactions 5 4 40 (transaction 2 1 trans_pending) (
    record { creator = 2; value = 20; status = trans_committed; id = 0 }
    ∷ record { creator = 3; value = 21; status = trans_pending; id = 1 }
    ∷ record { creator = 4; value = 40; status = trans_pending; id = 2 }
    ∷ [])
add_version-refines_example =
    add_version-refines three_transactions 5 4 40
      (first_cell trans_committed ∷ second_cell trans_pending ∷ [])
      (two_versions-entry trans_committed trans_pending) third_at_4 three_transactions-IsChain
      (behind_earlier (first_cell trans_committed) (second_cell trans_pending ∷ []) refl
        (omega arith) refl)
