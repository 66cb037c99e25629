-- ===== src/Lib.antt =====
-- The Xacto server: a transactional object store that serves clients over TCP, each client by a
-- thread and one transaction of its own.
--
-- The parts, each with the file that models it:
--
-- - Machine: the structs of include/data.h, include/transaction.h and include/store.h on an
--   explicit heap, and `Cmd`, the commands over it. A command returns, or it is a fault: undefined
--   behaviour of the C program, such as an access to freed memory or through NULL. `malloc` never
--   fails and never returns an address twice. Machine/Points has what reads and writes do.
-- - Transaction: src/transaction.c, and from src/helper.c `trans_destroy` and the list of all
--   transactions. `unref`, `destroy` and `release` are the mutual recursion of `trans_unref`,
--   `trans_destroy` and its loop. `trans_commit` takes the call `P(&tp->sem)` as an argument;
--   Transaction/Waits says what it may do until each wait returns. Transaction/Ring is the circular
--   list of all transactions, and Insert, Remove, Create, Destroy and Fini are about the operations
--   on it.
-- - Transaction/System: the service threads, interleaved at their accesses to the fields of
--   transactions that they share. A `Move` is what one thread does between two of them, a
--   transaction is its id, and `Reachable` is what any order of moves leads to. A dependency goes
--   to an earlier transaction, as `add_version` has it. `leave` is the end of a thread whose
--   transaction another one has aborted, and `lose` the `trans_abort` of a committed transaction,
--   where the reply to the COMMIT cannot be sent; `Course` tells these ends apart.
--   Transaction/System/Code puts the functions of Transaction beside the moves: what a machine has
--   of the shared fields is `Shows`.
-- - Text: `string_to_int` and `hash` of src/helper.c, on the bytes of a buffer.
-- - Data: src/data.c, blobs, keys and versions.
-- - Entries, Versions, Collect: the other functions of src/helper.c: `find_map_entry` and the map
--   entries; `remove_version_from_LL` and `add_version`; `garbage_collect`. A loop of the C code is
--   a function on fuel, and a branch of a long function one of its own (`overwrite`,
--   `append_pending`, `drop_aborted`). Versions/History has the specification: a version list
--   stands for the accesses to its key, and `admit` says which further access it takes.
-- - Store: src/store.c, which calls all of these.
-- - Protocol: src/protocol.c. A packet is a record, in memory a list of 16 bytes; what `write` and
--   `read` move is given by a list of numbers, one for each call.
-- - Session, Server: src/server.c. A `Session` is the store and the registry with the bytes of one
--   connection; `xacto_client_service` runs on it, with a function for each case of the `switch`.
-- - Main: src/main.c, over lists of what `getopt` and `Accept` return. src/main.c has a branch for
--   a return of -1 from `Accept`, and so has the model; the `Accept` of src/csapp.c exits instead.
-- - Registry: src/client_registry.c. Registry/System interleaves service threads, known by their
--   descriptors, with the main thread; `creg_unregister` is two steps, since it tests the count
--   behind the mutex.
-- - Tests: each theorem at a concrete input.
--
-- Fuel: a loop over a linked list has as many rounds as addresses were handed out and one more. The
-- addresses grow along a version list (`IsChain`) and along a dependency set (`IsDepends`), so that
-- is enough (`length-IsChain`, `length-IsDepends`). The list of all transactions (`IsRing`) has
-- each address once, so it is no longer than the number of addresses (`length-AreDistinct`). The
-- service loop has a round for each call of `read`, of which each round takes one.
--
-- Not modelled: mutexes (every function runs to its end without another thread, but for the wait in
-- `trans_commit`, the steps of Registry/System and the moves of Transaction/System), debug output,
-- failure of `malloc`, SIGHUP at any other moment than a return of `Accept`, and src/csapp.c (a
-- copy of the support library of a textbook, which is a parameter or a POSIX semaphore where it is
-- called). What the service threads have done when `Accept` fails is a parameter of `main`.
pub mod Common
pub mod Machine
pub mod Transaction
pub mod Text
pub mod Data
pub mod Entries
pub mod Versions
pub mod Collect
pub mod Store
pub mod Session
pub mod Server
pub mod Main
pub mod Protocol
pub mod Registry
pub mod Tests
