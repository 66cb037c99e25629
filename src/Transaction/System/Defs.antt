-- ===== src/Transaction/System/Defs.antt =====
-- What holds of the transactions between two moves.
use concurrent_server.Common.{
  ℕ, ◌+◌, ◌<◌, ◌≡◌, Bool, true, false, not, ◌&&◌, Option, none, some, ◌==◌, ltb,
}
use concurrent_server.Machine.{TransStatus}
use concurrent_server.Transaction.{is_pending, is_committed, is_aborted}
use concurrent_server.Registry.Family.{weight, count}
use concurrent_server.Transaction.System.{
  Shared, Course, stopped, kept, withdrawn, Place, running, depending, counting, waiting, woken,
  alerting, replying, aborting, cancelling, posting, finished,
}

abbrev pub needs : Option ℕ → ℕ → Bool
needs none u = false
needs (some v) u = v == u

abbrev pub has_posted : Place → Bool
has_posted (replying b) = b
has_posted (aborting _ b) = b
has_posted (cancelling _ b _) = b
has_posted (posting _ b _) = b
has_posted (finished _ b) = b
has_posted _ = false

abbrev pub is_committing : Course → Bool
is_committing stopped = false
is_committing kept = true
is_committing withdrawn = true

-- The thread has set the status TRANS_COMMITTED.
abbrev pub has_committed : Place → Bool
has_committed alerting = true
has_committed (replying _) = true
has_committed (aborting c _) = is_committing c
has_committed (cancelling c _ _) = is_committing c
has_committed (posting c _ _) = is_committing c
has_committed (finished c _) = is_committing c
has_committed _ = false

abbrev pub is_withdrawing : Course → Bool
is_withdrawing stopped = false
is_withdrawing kept = false
is_withdrawing withdrawn = true

-- The thread could not send the reply to a COMMIT, and has called `trans_abort`.
abbrev pub has_withdrawn : Place → Bool
has_withdrawn (aborting c _) = is_withdrawing c
has_withdrawn (cancelling c _ _) = is_withdrawing c
has_withdrawn (posting c _ _) = is_withdrawing c
has_withdrawn (finished c _) = is_withdrawing c
has_withdrawn _ = false

-- `u` depends on `d`, which has not called `V` for it.
abbrev pub owes : Shared → (ℕ → Place) → (u d : ℕ) → Bool
owes m place u d = needs (m.depends d) u && not (has_posted (place d))

-- `d` has not committed, or not called `V`.
abbrev pub is_open : Place → Bool
is_open p = not (has_committed p && has_posted p)

abbrev pub is_counting : Place → Bool
is_counting counting = true
is_counting _ = false

abbrev pub is_woken : Place → Bool
is_woken woken = true
is_woken _ = false

-- The status is not set.
abbrev pub is_early : Place → Bool
is_early running = true
is_early (depending _) = true
is_early counting = true
is_early waiting = true
is_early woken = true
is_early _ = false

abbrev pub fits_course : Course → TransStatus → Bool
fits_course stopped s = is_aborted s
fits_course kept s = not (is_pending s)
fits_course withdrawn s = not (is_pending s)

-- `trans_abort` is on no course that keeps.
abbrev pub fits_abort : Course → TransStatus → Bool
fits_abort stopped s = is_aborted s
fits_abort kept s = false
fits_abort withdrawn s = not (is_pending s)

-- The status that a place allows.
abbrev pub fits : Place → TransStatus → Bool
fits alerting s = not (is_pending s)
fits (replying _) s = not (is_pending s)
fits (aborting c _) s = fits_abort c s
fits (cancelling c _ _) s = fits_abort c s
fits (posting c _ _) s = fits_abort c s
fits (finished c _) s = fits_course c s
fits _ s = not (is_committed s)

-- The dependent that `trans_abort` is at, and whether its status is set.
abbrev pub targets : Place → ℕ → Bool
targets (cancelling _ _ v) u = v == u
targets (posting _ _ v) u = v == u
targets _ u = false

abbrev pub strikes : Place → ℕ → Bool
strikes (posting _ _ v) u = v == u
strikes _ u = false

-- The creator of the last version has a smaller id.
abbrev pub sees : ℕ → Place → Bool
sees t (depending d) = ltb d t
sees t _ = true

abbrev pub has_some : Option ℕ → Bool
has_some none = false
has_some (some _) = true

-- What a pending transaction waits for is what was posted and what is owed; behind a transaction
-- that has not committed or not called `V`, none is committed, and one that has not set its status
-- has something to wait for.
pub record Inv (n : ℕ) (m : Shared) (place : ℕ → Place) : Type 0 where
  pub balance :
      (u : ℕ)
      → is_pending (m.status u) ≡ true
      → m.waitcnt u + weight (is_counting (place u))
        ≡ m.sem u + weight (is_woken (place u)) + count n (owes m place u)
  pub fitting : (u : ℕ) → fits (place u) (m.status u) ≡ true
  pub target : (d u : ℕ) → targets (place d) u ≡ true → needs (m.depends d) u ≡ true
  pub struck : (d u : ℕ) → strikes (place d) u ≡ true → is_pending (m.status u) ≡ false
  pub posted : (d : ℕ) → has_posted (place d) ≡ true → has_some (m.depends d) ≡ true
  pub told :
      (d u : ℕ)
      → needs (m.depends d) u ≡ true
      → has_committed (place d) ≡ false
      → has_posted (place d) ≡ true
      → is_pending (m.status u) ≡ false
  pub behind :
      (d u : ℕ)
      → needs (m.depends d) u ≡ true
      → is_open (place d) ≡ true
      → is_committed (m.status u) ≡ false
  pub held :
      (d u : ℕ)
      → needs (m.depends d) u ≡ true
      → is_open (place d) ≡ true
      → is_early (place u) ≡ true
      → 0 < m.waitcnt u + weight (is_counting (place u))
  pub below : (d u : ℕ) → needs (m.depends d) u ≡ true → (d < u) × (u < n)
  pub seen : (u : ℕ) → sees u (place u) ≡ true
