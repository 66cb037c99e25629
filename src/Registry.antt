-- ===== src/Registry.antt =====
-- src/client_registry.c. A function takes the registry and returns the new one; `none` is an access
-- outside the `fd_set`.
pub mod Family
pub mod System
pub mod Invariant
pub mod Bounds
pub mod Shutdown
pub mod Wakeup
use concurrent_server.Common.{
  ℕ, zero, suc, ◌+◌, ◌-◌, Bool, true, false, Option, none, some, List, [], ◌∷◌, ◌++◌, ◌==◌, ltb,
  if◌then◌else◌, inc32, dec32,
}

abbrev pub fd_setsize : ℕ
fd_setsize = 1024

-- `client_fds` says of each file descriptor whether it is in the set.
pub record ClientRegistry : Type 0 where
  pub client_count : ℕ
  pub client_fds : ℕ → Bool
  pub wait_sem : ℕ

unfoldable pub creg_init : ClientRegistry
creg_init = record { client_count = 0; client_fds = λ _. false; wait_sem = 0 }

-- `FD_SET` and `FD_CLR`.
abbrev pub set_fd : (ℕ → Bool) → ℕ → Bool → ℕ → Bool
set_fd s fd b i = if i == fd then b else s i

-- `V` and `P` on `wait_sem`; `none` where `P` does not return.
abbrev pub post : ClientRegistry → ClientRegistry
post cr = record cr { wait_sem = cr.wait_sem + 1 }

unfoldable pub creg_register : ClientRegistry → ℕ → Option ClientRegistry
creg_register cr fd =
    if ltb fd fd_setsize
    then some (record cr {
      client_fds = set_fd cr.client_fds fd true;
      client_count = inc32 cr.client_count;
    })
    else none

-- The part of `creg_unregister` under the mutex, and the part behind it.
unfoldable pub unregister_locked : ClientRegistry → ℕ → Option ClientRegistry
unregister_locked cr fd =
    if ltb fd fd_setsize
    then some (record cr {
      client_fds = set_fd cr.client_fds fd false;
      client_count = dec32 cr.client_count;
    })
    else none

unfoldable pub alert_if_empty : ClientRegistry → ClientRegistry
alert_if_empty cr = if cr.client_count == 0 then post cr else cr

unfoldable pub creg_unregister : ClientRegistry → ℕ → Option ClientRegistry
unfolding unregister_locked alert_if_empty
creg_unregister cr fd = elim (unregister_locked cr fd) [
  | none ↦ none
  | some cr' ↦ some (alert_if_empty cr')
]

unfoldable pub creg_wait_for_empty : ClientRegistry → Option ClientRegistry
creg_wait_for_empty cr =
    if cr.wait_sem == 0 then none else some (record cr { wait_sem = cr.wait_sem - 1 })

-- The descriptors from `i` on, `left` of them, for which `shutdown` is called.
pub shutdown_from : (left i : ℕ) → (ℕ → Bool) → List ℕ
shutdown_from zero i s = []
shutdown_from (suc left) i s =
    let rest = shutdown_from left (suc i) s in if s i then i ∷ rest else rest

-- The calls of `shutdown` in their order, and the registry after the alert.
unfoldable pub creg_shutdown_all : ClientRegistry → List ℕ × ClientRegistry
creg_shutdown_all cr = (shutdown_from fd_setsize 0 cr.client_fds, post cr)

-- `creg_fini` frees the registry: `none` is freed memory.
abbrev pub creg_fini : ClientRegistry → Option ClientRegistry
creg_fini cr = none
