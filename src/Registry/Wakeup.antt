-- ===== src/Registry/Wakeup.antt =====
-- The wait for the last client is not lost.
use concurrent_server.Common.{
  ℕ, ◌-◌, ◌<◌, ◌≡◌, refl, ◌≢◌, Bool, true, false, some, arith, ◌==◌, if◌then◌else◌, ◌⊎◌, inl, inr,
  Bool-cases,
}
use concurrent_server.Registry.{
  fd_setsize, creg_register, unregister_locked, alert_if_empty, creg_wait_for_empty,
  creg_shutdown_all,
}
use concurrent_server.Registry.Family.{count_member}
use concurrent_server.Registry.System.{
  absent, finalizing, System, Step, join, leave, close, terminate, wake, Reach, begin, later,
}
use concurrent_server.Registry.Invariant.{Inv, Reach-Inv}

-- Whether some thread registered a client in the course of the run.
abbrev pub is_join : {s t : System} → Step s t → Bool
is_join (join fd free e) = true
is_join (leave fd at_fd e) = false
is_join (close fd at_fd) = false
is_join (terminate at_main) = false
is_join (wake at_main e) = false

abbrev pub joined : {s : System} → Reach s → Bool
joined begin = false
joined (later r st) = if is_join st then true else joined r

-- A thread that is not done, an alert that is posted, or the main thread past its wait.
abbrev Awake : System → Type 0
Awake s = ((fd : ℕ) × (s.pc fd ≢ absent)) ⊎ ((0 < s.registry.wait_sem) ⊎ (s.main ≡ finalizing))

Step-Awake : {s t : System} (st : Step s t) → Inv s → (is_join st ≡ true) ⊎ Awake s → Awake t
unfolding creg_register unregister_locked alert_if_empty creg_wait_for_empty creg_shutdown_all
Step-Awake (join fd free e) inv h = inl (fd, ground arith)
Step-Awake (leave fd at_fd e) inv h = inl (fd, ground arith)
Step-Awake {s} (close fd at_fd) inv h = elim (Bool-cases (s.registry.client_count == 0)) [
  | inl empty ↦ inr (inl (ground arith))
  | inr some_left ↦
      let fds : ℕ → Bool = s.registry.client_fds in
      let (other, is_set) = count_member fd_setsize fds (ground (arith, inv.number)) in
      inl (other, ground (arith, inv.members other))
]
Step-Awake (terminate at_main) inv h = inr (inl (omega arith))
Step-Awake (wake at_main e) inv h = inr (inr refl)

Reach-Awake : {s : System} (r : Reach s) → joined r ≡ true → Awake s
Reach-Awake begin j = cc
Reach-Awake (later r st) j = elim (Bool-cases (is_join st)) [
  | inl now ↦ Step-Awake st (Reach-Inv r) (inl now)
  | inr before ↦ Step-Awake st (Reach-Inv r) (inr (Reach-Awake r (ground arith)))
]

-- Once some client was registered and every service thread is gone, the alert is posted, unless
-- the main thread is past its wait already: the wait cannot miss the last client.
pub no_lost_wakeup :
    {s : System} (r : Reach s)
    → joined r ≡ true
    → ((fd : ℕ) → s.pc fd ≡ absent)
    → s.main ≢ finalizing
    → creg_wait_for_empty s.registry
      ≡ some (record (s.registry) { wait_sem = s.registry.wait_sem - 1 })
unfolding creg_wait_for_empty
no_lost_wakeup {s} r j gone main = awake (Reach-Awake r j)
  where
    awake :
        Awake s
        → creg_wait_for_empty s.registry
          ≡ some (record (s.registry) { wait_sem = s.registry.wait_sem - 1 })
    awake (inl (fd, here)) = absurd (here (gone fd))
    awake (inr (inl posted)) = ground arith
    awake (inr (inr past)) = absurd (main past)
