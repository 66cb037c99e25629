-- ===== src/Tests/Conflicts.antt =====
-- A conflict at the key "A": the transaction at 2, of a later id, is pending, and the one at 3 has no
-- version yet.
use concurrent_server.Common.{ℕ, ◌≡◌, refl, some, inr, [], ◌∷◌, arith}
use concurrent_server.Machine.{null, trans_pending, Transaction, Heap, at, write, fault}
use concurrent_server.Versions.Chain.{Cell}
use concurrent_server.Store.{store_put, store_get}
use concurrent_server.Store.Conflict.{Contended, Sole, conflict-fault}
use concurrent_server.Tests.World.{empty, transaction, version}
use concurrent_server.Tests.World.{value}
use concurrent_server.Tests.Store.{store, behind, store-returned, entry}

abbrev linked : (id refcnt next prev : ℕ) → Transaction
linked i n q p = record (transaction i n trans_pending) { next = q; prev = p }

abbrev contended : Heap Transaction
contended =
    write (write (write empty 1 (some (linked 8 0 3 2))) 2 (some (linked 7 2 1 3))) 3
      (some (linked 6 1 2 1))

abbrev cell : Cell
cell = record { addr = 15; body = version 2 16 null; owner = linked 7 2 1 3 }

behind-Contended : Contended (behind contended) 5 entry cell [] 6
unfolding at write
behind-Contended = record {
  entry = refl;
  chain = (refl, omega arith, omega arith, refl, refl, refl);
  live = refl;
  few = omega arith;
  pending = refl;
  later = omega arith;
}

caller-Sole : Sole (behind contended) 3 (linked 6 1 2 1)
unfolding at write
caller-Sole = record {
  before = [];
  behind = 2 ∷ [];
  ring = (((refl, refl), ((refl, refl), (refl, refl))), (refl, (refl, (refl, tt))));
  held = refl;
  last = refl;
  alone = refl;
}

behind-value : at (behind contended).blobs 16 ≡ some value
unfolding at write
behind-value = refl

conflict-fault_example :
    (store_put 3 20 25 (store contended) ≡ fault) × (store_get 3 20 (store contended) ≡ fault)
conflict-fault_example =
    conflict-fault (store contended) (behind contended) 5 3 20 cell [] (store-returned contended)
      behind-Contended caller-Sole 25 behind-value (inr (66 ∷ [], refl, refl))
