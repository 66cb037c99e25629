-- ===== src/Main/Shutdown.antt =====
-- `terminate`, with clients that are still registered.
use concurrent_server.Common.{ℕ, ◌<◌, ◌≡◌, refl, true, none, some, List}
use concurrent_server.Machine.{Ptr, Heap, Transaction, Machine, and_then}
use concurrent_server.Registry.{ClientRegistry, creg_shutdown_all}
use concurrent_server.Registry.Shutdown.{wait-shutdown}
use concurrent_server.Transaction.Dependents.{mem, with_heap}
use concurrent_server.Transaction.Ring.{IsRing}
use concurrent_server.Transaction.Fini.{pointers, survivors, AreCounted, AreLeft, trans_fini-IsRing}
use concurrent_server.Store.{store_fini}
use concurrent_server.Main.{ended, terminate}

-- If the transactions are as `trans_fini` wants them, `terminate` shuts down the registered
-- descriptors and then, whatever number of clients is registered, frees the registry, takes a
-- reference from each transaction, frees those that had one alone, and goes on with `store_fini`.
pub terminate-registered :
    (status : ℕ) (cr : ClientRegistry) (m : Machine) (rs : List (Ptr × ℕ))
    → IsRing m.transactions (pointers rs)
    → AreCounted m.transactions rs
    → ((q : Ptr) → mem q (pointers rs) ≡ true → q < m.fresh)
    → (h : Heap Transaction) × (terminate status (record { registry = some cr; machine = m })
        ≡ ended status (creg_shutdown_all cr).0 none (store_fini (with_heap m h)))
      × AreLeft h rs
      × IsRing h (survivors rs)
unfolding terminate and_then
terminate-registered status cr m rs ring counted below =
    let (h, returned, left, ring') = trans_fini-IsRing m rs ring counted below in
    (h, rw (wait-shutdown cr, returned) refl, left, ring')
