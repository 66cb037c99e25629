-- ===== src/Tests/Transactions.antt =====
-- The theorems on `trans_abort`, `trans_commit` and `trans_add_dependency` at a transaction at 2, on which the one at 3
-- depends.
use concurrent_server.Common.{ℕ, true, false, ◌≡◌, refl, some, List, [], ◌∷◌, arith}
use concurrent_server.Machine.{
  Ptr, null, TransStatus, trans_pending, trans_aborted, trans_committed, Transaction, Heap, Machine,
  at, write, ok, fault, and_then, load_transaction, put_transaction,
}
use concurrent_server.Transaction.{sem_wait, trans_add_dependency, trans_abort, trans_commit}
use concurrent_server.Transaction.Dependents.{Alive, IsDepends, with_heap}
use concurrent_server.Transaction.Depend.{trans_add_dependency-second}
use concurrent_server.Transaction.Abort.{aborted_heap, trans_abort-shared}
use concurrent_server.Transaction.Commit.{committed_heap}
use concurrent_server.Transaction.Waits.{
  Waits, counted, all_done, refused, woken, trans_commit-committed, trans_commit-refused,
}
use concurrent_server.Tests.World.{empty, transaction}

-- The semaphore of the transaction at 2 was posted once.
abbrev pub waiting_transaction : (waitcnt : ℕ) → TransStatus → Transaction
waiting_transaction n s = record (transaction 0 2 s) { depends = 12; waitcnt = n; sem = 1 }

abbrev pub dependent : Transaction
dependent = transaction 1 2 trans_pending

abbrev pub world : (waitcnt : ℕ) → TransStatus → Machine
world n s = record {
  transactions = write (write empty 2 (some (waiting_transaction n s))) 3 (some dependent);
  dependencies = write empty 12 (some (record { trans = 3; next = null }));
  blobs = empty;
  keys = empty;
  versions = empty;
  entries = empty;
  table = [];
  fresh = 30;
}

abbrev pub dependents : List Ptr
dependents = 3 ∷ []

pub dependents-Alive : (h : Heap Transaction) → at h 3 ≡ some dependent → Alive h dependents
dependents-Alive h e q is = let same : q ≡ 3 = ground arith in (dependent, rw same e)

pub world-IsDepends :
    (n : ℕ) (s : TransStatus) → IsDepends (world n s).dependencies 30 0 12 dependents
unfolding at write
world-IsDepends n s = (omega arith, omega arith, (null, refl, refl))

pub at_2 :
    (n : ℕ) (s : TransStatus) → at (world n s).transactions 2 ≡ some (waiting_transaction n s)
unfolding at write
at_2 n s = refl

pub at_3 : (n : ℕ) (s : TransStatus) → at (world n s).transactions 3 ≡ some dependent
unfolding at write
at_3 n s = refl

trans_abort-shared_example :
    trans_abort 2 (world 0 trans_pending)
    ≡ ok trans_aborted (
        with_heap (world 0 trans_pending) (
          aborted_heap
            (world 0 trans_pending).transactions
            2
            (waiting_transaction 0 trans_pending)
            dependents))
trans_abort-shared_example =
    trans_abort-shared (world 0 trans_pending) 2 dependents (at_2 0 trans_pending)
      (omega arith, omega arith) (world-IsDepends 0 trans_pending)
      (dependents-Alive _ (at_3 0 trans_pending))

-- The wait takes the post.
abbrev woken_transaction : TransStatus → Transaction
woken_transaction s = record (waiting_transaction 1 s) { sem = 0 }

abbrev after_wait : TransStatus → Machine
after_wait s = with_heap (world 1 s) (write (world 1 s).transactions 2 (some (woken_transaction s)))

sem_wait-world : (s : TransStatus) → sem_wait 2 (world 1 s) ≡ ok tt (after_wait s)
unfolding sem_wait load_transaction put_transaction and_then at write
sem_wait-world s = refl

after_wait-at_2 : (s : TransStatus) → at (after_wait s).transactions 2 ≡ some (woken_transaction s)
unfolding at write
after_wait-at_2 s = refl

abbrev behind : TransStatus → Machine
behind s = counted sem_wait 2 (after_wait s) (woken_transaction s)

abbrev behind_transaction : TransStatus → Transaction
behind_transaction s = record (woken_transaction s) { waitcnt = 0 }

behind-at_2 : (s : TransStatus) → at (behind s).transactions 2 ≡ some (behind_transaction s)
unfolding at write
behind-at_2 s = refl

behind-at_3 : (s : TransStatus) → at (behind s).transactions 3 ≡ some dependent
unfolding at write
behind-at_3 s = refl

sem_wait-Waits : Waits sem_wait 2 true 1 (world 1 trans_pending) (behind trans_pending)
sem_wait-Waits =
    woken
      (record {
        before = (_, at_2 1 trans_pending, refl);
        returns = sem_wait-world trans_pending;
        after = after_wait-at_2 trans_pending;
      })
      refl (all_done (behind-at_2 trans_pending) refl)

sem_wait-Waits_refused : Waits sem_wait 2 false 1 (world 1 trans_aborted) (behind trans_aborted)
sem_wait-Waits_refused =
    refused
      (record {
        before = (_, at_2 1 trans_aborted, refl);
        returns = sem_wait-world trans_aborted;
        after = after_wait-at_2 trans_aborted;
      })
      refl

trans_commit-committed_example :
    trans_commit sem_wait 2 (world 1 trans_pending)
    ≡ ok trans_committed (
        with_heap (behind trans_pending) (
          committed_heap
            (behind trans_pending).transactions
            2
            (behind_transaction trans_pending)
            dependents))
trans_commit-committed_example =
    trans_commit-committed sem_wait 2 dependents sem_wait-Waits (behind-at_2 trans_pending)
      (omega arith, omega arith) (world-IsDepends 1 trans_pending)
      (dependents-Alive _ (behind-at_3 trans_pending))

trans_commit-refused_example :
    trans_commit sem_wait 2 (world 1 trans_aborted)
    ≡ ok trans_aborted (
        with_heap (behind trans_aborted) (
          aborted_heap
            (behind trans_aborted).transactions
            2
            (behind_transaction trans_aborted)
            dependents))
trans_commit-refused_example =
    trans_commit-refused sem_wait 2 dependents sem_wait-Waits_refused (behind-at_2 trans_aborted)
      (omega arith, omega arith) (world-IsDepends 1 trans_aborted)
      (dependents-Alive _ (behind-at_3 trans_aborted))

trans_add_dependency-second_example : trans_add_dependency 3 2 (world 0 trans_pending) ≡ fault
trans_add_dependency-second_example =
    trans_add_dependency-second (world 0 trans_pending) 3 2 3 [] (at_2 0 trans_pending)
      (world-IsDepends 0 trans_pending)
