-- ===== src/Tests/Runs.antt =====
-- Runs of the registry: a client joins and leaves.
use concurrent_server.Common.{ℕ, ◌-◌, ◌≤◌, ◌<◌, ◌≡◌, refl, true, some, arith}
use concurrent_server.Registry.{
  fd_setsize, creg_init, creg_register, unregister_locked, alert_if_empty, creg_wait_for_empty,
  creg_shutdown_all,
}
use concurrent_server.Registry.System.{
  System, Reach, begin, later, join, leave, close, terminate, absent,
}
use concurrent_server.Registry.Invariant.{Inv, Reach-Inv}
use concurrent_server.Registry.Bounds.{Reach-bounds}
use concurrent_server.Registry.Wakeup.{no_lost_wakeup}

abbrev served : (s : System) × Reach s
unfolding creg_init creg_register unregister_locked
served = (_, later (later begin (join 4 refl refl)) (leave 4 refl refl))

Reach-Inv_example : Inv served.0
Reach-Inv_example = Reach-Inv served.1

abbrev finished : (s : System) × Reach s
unfolding served alert_if_empty creg_shutdown_all
finished = (_, later (later served.1 (close 4 refl)) (terminate refl))

finished_absent : (fd : ℕ) → finished.0.pc fd ≡ absent
unfolding finished
finished_absent fd = ground arith

no_lost_wakeup_example :
    creg_wait_for_empty finished.0.registry
    ≡ some (record (finished.0.registry) { wait_sem = finished.0.registry.wait_sem - 1 })
unfolding finished
no_lost_wakeup_example = no_lost_wakeup finished.1 refl finished_absent (λ e. cc)

-- A client is at descriptor 4.
abbrev joined : (s : System) × Reach s
unfolding creg_init creg_register
joined = (_, later begin (join 4 refl refl))

Reach-bounds_example :
    (joined.0.registry.client_count ≤ fd_setsize)
    × ((fd : ℕ)
        → joined.0.registry.client_fds fd ≡ true
        → (fd < fd_setsize) × (0 < joined.0.registry.client_count))
Reach-bounds_example = Reach-bounds joined.1
