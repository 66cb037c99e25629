-- ===== src/Tests/Simulations.antt =====
-- Two transactions, at 2 and at 3, as the code changes them and as the moves of their threads do.
use concurrent_server.Common.{zero, some_injective, ℕ, suc, ◌+◌, ◌<◌, ◌≡◌, refl, some, none, arith}
use concurrent_server.Machine.{Ptr, null, trans_pending, Machine, at, write}
use concurrent_server.Transaction.{sem_wait}
use concurrent_server.Transaction.System.{update, Shared, fresh_transactions}
use concurrent_server.Transaction.System.Code.{Sees, Shows}
use concurrent_server.Transaction.System.Code.Aborts.{Aborts}
use concurrent_server.Transaction.System.Code.Commits.{Commits, trans_commit-Commits}
use concurrent_server.Transaction.System.Code.Links.{Links, trans_add_dependency-Links}
use concurrent_server.Tests.World.{two_versions, transaction, empty}

abbrev addr : ℕ → Ptr
addr i = i + 2

abbrev unlinked : Machine
unlinked = two_versions trans_pending trans_pending

-- The transaction at 3 waits for the one at 2.
abbrev linked : Machine
linked = record unlinked {
  transactions =
      write (write empty 2 (some (record (transaction 0 3 trans_pending) { depends = 20 }))) 3
        (some (record (transaction 1 2 trans_pending) { waitcnt = 1 }));
  dependencies = write empty 20 (some (record { trans = 3; next = null }));
}

abbrev linked_fields : Shared
linked_fields = record fresh_transactions {
  depends = update (λ _. none) 0 (some 1);
  waitcnt = update (λ _. 0) 1 1;
}

unlinked-Sees : (i : ℕ) → i < 2 → Sees unlinked addr fresh_transactions i
unfolding at write
unlinked-Sees zero in_i = record {
  cell = transaction 0 2 trans_pending;
  held = refl;
  status = refl;
  waitcnt = refl;
  sem = refl;
  depends = refl;
}
unlinked-Sees (suc zero) in_i = record {
  cell = transaction 1 2 trans_pending;
  held = refl;
  status = refl;
  waitcnt = refl;
  sem = refl;
  depends = refl;
}
unlinked-Sees (suc (suc i)) in_i = absurd (omega arith)

unlinked-inside : (i u : ℕ) → i < 2 → fresh_transactions.depends i ≡ some u → u < 2
unlinked-inside i u in_i e = cc

addr-apart : (i j : ℕ) → i < 2 → j < 2 → addr i ≡ addr j → i ≡ j
addr-apart i j in_i in_j e = omega arith

abbrev unlinked-Shows : Shows unlinked addr 2 fresh_transactions
unlinked-Shows = record { sees = unlinked-Sees; apart = addr-apart; inside = unlinked-inside }

linked-Sees : (i : ℕ) → i < 2 → Sees linked addr linked_fields i
unfolding at write
linked-Sees zero in_i = record {
  cell = record (transaction 0 3 trans_pending) { depends = 20 };
  held = refl;
  status = refl;
  waitcnt = refl;
  sem = refl;
  depends = (omega arith, omega arith, (0, refl, refl));
}
linked-Sees (suc zero) in_i = record {
  cell = record (transaction 1 2 trans_pending) { waitcnt = 1 };
  held = refl;
  status = refl;
  waitcnt = refl;
  sem = refl;
  depends = refl;
}
linked-Sees (suc (suc i)) in_i = absurd (omega arith)

linked-inside : (i u : ℕ) → i < 2 → linked_fields.depends i ≡ some u → u < 2
linked-inside zero u in_i e = let same : 1 ≡ u = some_injective e in omega arith
linked-inside (suc i) u in_i e = ground arith

abbrev linked-Shows : Shows linked addr 2 linked_fields
linked-Shows = record { sees = linked-Sees; apart = addr-apart; inside = linked-inside }

trans_add_dependency-Links_example : Links unlinked addr 2 fresh_transactions 1 0
trans_add_dependency-Links_example =
    trans_add_dependency-Links unlinked addr 2 fresh_transactions unlinked-Shows 1 0 (omega arith)
      (omega arith) (omega arith) refl (omega arith) (omega arith)

trans_commit-Commits_example : Commits sem_wait linked addr 2 linked_fields 0
unfolding linked-Sees
trans_commit-Commits_example =
    trans_commit-Commits sem_wait linked addr 2 linked_fields linked-Shows 0 (omega arith) refl
      (omega arith, omega arith)
