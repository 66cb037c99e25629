-- ===== src/Registry/System.antt =====
-- Service threads and the main thread over one registry, interleaved in any order. A service
-- thread is known by its descriptor, which is free again once the thread has closed it.
use concurrent_server.Common.{ℕ, ◌≡◌, some, ◌==◌, if◌then◌else◌}
use concurrent_server.Registry.{
  ClientRegistry, creg_init, creg_register, unregister_locked, alert_if_empty, creg_wait_for_empty,
  creg_shutdown_all,
}

-- Where the thread of a descriptor stands: no thread, between `creg_register` and
-- `creg_unregister`, or in `creg_unregister` behind the mutex.
pub data Pc : Type 0 where
  absent serving cleared : Pc

-- The main thread accepts connections, waits in `terminate`, or is past the wait.
pub data MainPc : Type 0 where
  accepting awaiting finalizing : MainPc

pub record System : Type 0 where
  pub registry : ClientRegistry
  pub pc : ℕ → Pc
  pub main : MainPc

abbrev pub move : (ℕ → Pc) → ℕ → Pc → ℕ → Pc
move f fd p i = if i == fd then p else f i

pub data Step (s : System) : System → Type 0 where
  join :
      (fd : ℕ) {cr : ClientRegistry}
      → s.pc fd ≡ absent
      → creg_register s.registry fd ≡ some cr
      → Step s (record s { registry = cr; pc = move s.pc fd serving })
  leave :
      (fd : ℕ) {cr : ClientRegistry}
      → s.pc fd ≡ serving
      → unregister_locked s.registry fd ≡ some cr
      → Step s (record s { registry = cr; pc = move s.pc fd cleared })
  close :
      (fd : ℕ)
      → s.pc fd ≡ cleared
      → Step s (record s { registry = alert_if_empty s.registry; pc = move s.pc fd absent })
  terminate :
      s.main ≡ accepting
      → Step s (record s { registry = (creg_shutdown_all s.registry).1; main = awaiting })
  wake :
      {cr : ClientRegistry}
      → s.main ≡ awaiting
      → creg_wait_for_empty s.registry ≡ some cr
      → Step s (record s { registry = cr; main = finalizing })

abbrev pub start : System
start = record { registry = creg_init; pc = λ _. absent; main = accepting }

pub data Reach : System → Type 0 where
  begin : Reach start
  later : {s t : System} → Reach s → Step s t → Reach t
