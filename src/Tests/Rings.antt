-- ===== src/Tests/Rings.antt =====
-- The theorems on the list of all transactions at a list of the transactions at 2 and 3.
use concurrent_server.Common.{ℕ, ◌≡◌, refl, none, some, [], ◌∷◌, arith}
use concurrent_server.Machine.{trans_list, trans_pending, Transaction, Heap, Machine, at, write, ok}
use concurrent_server.Transaction.{trans_create, trans_unref}
use concurrent_server.Common.{true, ◌<◌, ◌==◌, List}
use concurrent_server.Machine.{Ptr}
use concurrent_server.Transaction.{trans_fini}
use concurrent_server.Transaction.Dependents.{mem, with_heap}
use concurrent_server.Transaction.Fini.{pointers, AreCounted, AreLeft, trans_fini-IsRing}
use concurrent_server.Registry.{ClientRegistry, creg_shutdown_all}
use concurrent_server.Store.{store_fini}
use concurrent_server.Main.{ended, terminate}
use concurrent_server.Main.Shutdown.{terminate-registered}
use concurrent_server.Transaction.Ring.{IsRing, field_of}
use concurrent_server.Transaction.Create.{created, grown, trans_create-IsRing}
use concurrent_server.Transaction.Destroy.{destroyed, trans_unref-last}
use concurrent_server.Tests.World.{empty, transaction}

abbrev linked : (id next prev : ℕ) → Transaction
linked i n p = record (transaction i 1 trans_pending) { next = n; prev = p }

-- The sentinel counts to 2.
abbrev rings : Heap Transaction
rings =
    write
      (write (write (write empty 1 (some (linked 2 2 3))) 2 (some (linked 0 3 1))) 3
        (some (linked 1 1 2)))
      4 (some (linked 9 0 0))

abbrev pub listed : Machine
listed = record {
  transactions = rings;
  dependencies = empty;
  blobs = empty;
  keys = empty;
  versions = empty;
  entries = empty;
  table = [];
  fresh = 30;
}

pub rings-IsRing : IsRing listed.transactions (2 ∷ 3 ∷ [])
unfolding at write
rings-IsRing = (((refl, refl), ((refl, refl), (refl, refl))), (refl, (refl, (refl, tt))))

pub at_head : at rings trans_list ≡ some (linked 2 2 3)
unfolding at write
at_head = refl

at_first : at rings 2 ≡ some (linked 0 3 1)
unfolding at write
at_first = refl

abbrev created_heap : Heap Transaction
created_heap = created listed (2 ∷ 3 ∷ []) rings-IsRing at_head refl (omega arith)

trans_create-IsRing_example :
    (trans_create listed
      ≡ ok 30 (
          with_heap
            (grown listed (2 ∷ 3 ∷ []) rings-IsRing at_head refl (omega arith))
            created_heap))
    × IsRing created_heap (2 ∷ 3 ∷ 30 ∷ [])
    × (at created_heap 30 ≡ some (linked 2 1 3))
    × (field_of (λ t. t.id) (at created_heap trans_list) ≡ some 3)
trans_create-IsRing_example =
    trans_create-IsRing listed (2 ∷ 3 ∷ []) rings-IsRing at_head refl (omega arith)

abbrev destroyed_heap : Heap Transaction
destroyed_heap = destroyed listed [] 2 (3 ∷ []) rings-IsRing at_first refl refl

trans_unref-last_example :
    (trans_unref 2 listed ≡ ok tt (with_heap listed destroyed_heap))
    × IsRing destroyed_heap (3 ∷ [])
    × (at destroyed_heap 2 ≡ none)
trans_unref-last_example = trans_unref-last listed [] 2 (3 ∷ []) rings-IsRing at_first refl refl

-- The sentinel again, and the transactions at 2 and 3, of which the second has another reference.
abbrev shared : Machine
shared = record listed {
  transactions =
      write (write (write empty 1 (some (linked 2 2 3))) 2 (some (linked 0 3 1))) 3
        (some (record (linked 1 1 2) { refcnt = 2 }));
}

abbrev counts : List (Ptr × ℕ)
counts = (2, 1) ∷ (3, 2) ∷ []

shared-IsRing : IsRing shared.transactions (pointers counts)
unfolding at write
shared-IsRing = (((refl, refl), ((refl, refl), (refl, refl))), (refl, (refl, (refl, tt))))

shared-AreCounted : AreCounted shared.transactions counts
unfolding at write
shared-AreCounted =
    (refl, omega arith, omega arith, (λ e. refl), (refl, omega arith, omega arith, (λ e. refl), tt))

below : (q : Ptr) → mem q (pointers counts) ≡ true → q < shared.fresh
below q is = ground arith

trans_fini-IsRing_example :
    (h : Heap Transaction) × (trans_fini shared ≡ ok tt (with_heap shared h))
    × AreLeft h counts
    × IsRing h (3 ∷ [])
trans_fini-IsRing_example = trans_fini-IsRing shared counts shared-IsRing shared-AreCounted below

-- A client is registered.
abbrev one_client : ClientRegistry
one_client = record { client_count = 1; client_fds = λ fd. fd == 4; wait_sem = 0 }

terminate-registered_example :
    (h : Heap Transaction) × (terminate 0 (record { registry = some one_client; machine = shared })
      ≡ ended 0 (creg_shutdown_all one_client).0 none (store_fini (with_heap shared h)))
    × AreLeft h counts
    × IsRing h (3 ∷ [])
terminate-registered_example =
    terminate-registered 0 one_client shared counts shared-IsRing shared-AreCounted below
