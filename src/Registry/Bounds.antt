-- ===== src/Registry/Bounds.antt =====
-- The counter of the registry and its descriptors stay within bounds.
use concurrent_server.Common.{ℕ, ◌≤◌, ◌<◌, ◌≡◌, true, arith}
use concurrent_server.Registry.{
  fd_setsize, creg_init, creg_register, unregister_locked, alert_if_empty, creg_wait_for_empty,
  creg_shutdown_all,
}
use concurrent_server.Registry.Family.{count-le, count-pos}
use concurrent_server.Registry.System.{
  System, Step, join, leave, close, terminate, wake, Reach, begin, later,
}
use concurrent_server.Registry.Invariant.{Inv, Reach-Inv}

abbrev AreBelow : System → Type 0
AreBelow s = (fd : ℕ) → s.registry.client_fds fd ≡ true → fd < fd_setsize

Step-AreBelow : {s t : System} → Step s t → AreBelow s → AreBelow t
unfolding creg_register unregister_locked alert_if_empty creg_wait_for_empty creg_shutdown_all
Step-AreBelow (join fd free e) below i = ground (arith, below i)
Step-AreBelow (leave fd at_fd e) below i = ground (arith, below i)
Step-AreBelow (close fd at_fd) below i = ground (arith, below i)
Step-AreBelow (terminate at_main) below i = below i
Step-AreBelow (wake at_main e) below i = ground (arith, below i)

Reach-AreBelow : {s : System} → Reach s → AreBelow s
unfolding creg_init
Reach-AreBelow begin i = λ e. cc
Reach-AreBelow (later r st) i = Step-AreBelow st (Reach-AreBelow r) i

-- In every reachable state `client_count` is at most FD_SETSIZE, and positive while a descriptor is
-- in the set, so that neither `client_count++` nor `client_count--` wraps round; a descriptor in the
-- set is below FD_SETSIZE.
pub Reach-bounds :
    {s : System}
    → Reach s
    → (s.registry.client_count ≤ fd_setsize)
      × ((fd : ℕ)
          → s.registry.client_fds fd ≡ true
          → (fd < fd_setsize) × (0 < s.registry.client_count))
Reach-bounds {s} r =
    let inv : Inv s = Reach-Inv r in
    (
      omega (arith, inv.number, count-le fd_setsize s.registry.client_fds),
      (λ fd is.
          let below : fd < fd_setsize = Reach-AreBelow r fd is in
          (
            below,
            omega (arith, inv.number, count-pos fd_setsize s.registry.client_fds fd below is),
          )),
    )
