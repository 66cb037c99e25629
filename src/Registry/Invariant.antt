-- ===== src/Registry/Invariant.antt =====
-- What holds of the registry in every interleaving.
use concurrent_server.Common.{ℕ, ◌≡◌, refl, Bool, true, false, arith, sym}
use concurrent_server.Registry.{
  fd_setsize, creg_init, creg_register, unregister_locked, alert_if_empty, creg_wait_for_empty,
  creg_shutdown_all,
}
use concurrent_server.Registry.Family.{count, count-set_fd, count-le, count-empty}
use concurrent_server.Registry.System.{
  Pc, absent, serving, cleared, System, Step, join, leave, close, terminate, wake, start, Reach,
  begin, later,
}

abbrev pub is_serving : Pc → Bool
is_serving absent = false
is_serving serving = true
is_serving cleared = false

-- The set holds the descriptors of the threads that serve a client, and the count is the number of
-- those below FD_SETSIZE.
pub record Inv (s : System) : Type 0 where
  pub members : (fd : ℕ) → s.registry.client_fds fd ≡ is_serving (s.pc fd)
  pub number : s.registry.client_count ≡ count fd_setsize s.registry.client_fds

start-Inv : Inv start
unfolding creg_init
start-Inv = record { members = λ fd. refl; number = sym (count-empty fd_setsize) }

-- Each step of a thread keeps the invariant.
pub Step-Inv : {s t : System} → Step s t → Inv s → Inv t
unfolding creg_register unregister_locked alert_if_empty creg_wait_for_empty creg_shutdown_all
Step-Inv {s} (join fd free e) inv =
    let fds : ℕ → Bool = s.registry.client_fds in
    record {
      members = λ i. ground (arith, inv.members i);
      number = ground (
        arith,
        inv.members fd,
        inv.number,
        count-set_fd fd_setsize fds fd true,
        count-le fd_setsize fds,
      );
    }
Step-Inv {s} (leave fd at_fd e) inv =
    let fds : ℕ → Bool = s.registry.client_fds in
    record {
      members = λ i. ground (arith, inv.members i);
      number = ground (
        arith,
        inv.members fd,
        inv.number,
        count-set_fd fd_setsize fds fd false,
        count-le fd_setsize fds,
      );
    }
Step-Inv (close fd at_fd) inv = record {
  members = λ i. ground (arith, inv.members i, inv.members fd);
  number = ground (arith, inv.number);
}
Step-Inv (terminate at_main) inv = record { members = inv.members; number = inv.number }
Step-Inv (wake at_main e) inv = record {
  members = λ i. ground (arith, inv.members i);
  number = ground (arith, inv.number);
}

-- In every reachable state the registered set holds exactly the descriptors of the threads that
-- serve a client, and `client_count` is the number of elements of that set.
pub Reach-Inv : {s : System} → Reach s → Inv s
Reach-Inv begin = start-Inv
Reach-Inv (later r st) = Step-Inv st (Reach-Inv r)
