-- ===== src/Registry/Shutdown.antt =====
-- `creg_shutdown_all`, and the wait that follows it in `terminate`.
use concurrent_server.Common.{
  ℕ, zero, suc, ◌+◌, ◌<◌, ◌≡◌, Bool, false, ◌&&◌, ◌||◌, some, List, [], ◌∷◌, arith, ◌==◌, ltb, leb,
}
use concurrent_server.Registry.{
  ClientRegistry, fd_setsize, shutdown_from, creg_shutdown_all, creg_wait_for_empty,
}

abbrev pub has : ℕ → List ℕ → Bool
has a [] = false
has a (x ∷ xs) = (a == x) || has a xs

has-shutdown_from :
    (left i : ℕ) (s : ℕ → Bool) (fd : ℕ)
    → has fd (shutdown_from left i s) ≡ (leb i fd && (ltb fd (i + left) && s fd))
unfolding shutdown_from
has-shutdown_from zero i s fd = ground arith
has-shutdown_from (suc left) i s fd = ground (arith, has-shutdown_from left (suc i) s fd)

-- `creg_shutdown_all` shuts down a descriptor exactly if it is in the registered set.
pub has-creg_shutdown_all :
    (cr : ClientRegistry) (fd : ℕ)
    → fd < fd_setsize
    → has fd (creg_shutdown_all cr).0 ≡ cr.client_fds fd
unfolding creg_shutdown_all
has-creg_shutdown_all cr fd h = ground (arith, has-shutdown_from fd_setsize 0 cr.client_fds fd)

-- After `creg_shutdown_all`, `creg_wait_for_empty` returns at once and leaves the registry as it
-- was before both calls, whatever number of clients is registered.
pub wait-shutdown : (cr : ClientRegistry) → creg_wait_for_empty (creg_shutdown_all cr).1 ≡ some cr
unfolding creg_wait_for_empty creg_shutdown_all
wait-shutdown cr = ground arith
