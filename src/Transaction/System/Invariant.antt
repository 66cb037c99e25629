-- ===== src/Transaction/System/Invariant.antt =====
-- Each move keeps what holds of the transactions.
use concurrent_server.Common.{ℕ, ◌+◌, ◌<◌, ◌≡◌, refl, true, false, none, some, arith, ◌==◌}
use concurrent_server.Transaction.{is_pending, is_committed, is_aborted}
use concurrent_server.Registry.Family.{weight, count, count-empty}
use concurrent_server.Transaction.System.{
  Shared, Place, running, update, Move, observe, link, leave, pass, take, resume, refuse, alert,
  alert_none, skip, inspect, cancel, post, fresh_transactions, Reachable, unmoved, moved,
}
use concurrent_server.Transaction.System.Defs.{
  needs, has_posted, has_committed, is_open, owes, is_counting, is_woken, is_early, fits, targets,
  strikes, sees, has_some, Inv,
}
use concurrent_server.Transaction.System.Balance.{
  needs-other, owed-waits, owed-same, owed-apart, owed-alert, owed-link,
}

-- The premise of a move.
abbrev pub Guard : {t : ℕ} {m m' : Shared} {p p' : Place} → Move t m p m' p' → Type 0
Guard {t} {m} (observe {d} less pending) = (d < t) × (is_pending (m.status d) ≡ true)
Guard {m} (link {d} free) = m.depends d ≡ none
Guard {t} {m} (leave dead) = is_aborted (m.status t) ≡ true
Guard {t} {m} (pass done) = m.waitcnt t ≡ 0
Guard {t} {m} (take waits posted) = (0 < m.waitcnt t) × (0 < m.sem t)
Guard {t} {m} (resume live) = is_aborted (m.status t) ≡ false
Guard {t} {m} (refuse dead) = is_aborted (m.status t) ≡ true
Guard {t} {m} (alert {u} on) = m.depends t ≡ some u
Guard {t} {m} (alert_none free) = m.depends t ≡ none
Guard {t} {m} (skip {u} on other) = (m.depends t ≡ some u) × (is_pending (m.status u) ≡ false)
Guard {t} {m} (inspect {u} on pending) = (m.depends t ≡ some u) × (is_pending (m.status u) ≡ true)
Guard _ = Unit

pub guard : {t : ℕ} {m m' : Shared} {p p' : Place} (mv : Move t m p m' p') → Guard mv
guard (observe less pending) = (less, pending)
guard (link free) = free
guard (leave dead) = dead
guard (pass done) = done
guard (take waits posted) = (waits, posted)
guard (resume live) = live
guard (refuse dead) = dead
guard (alert on) = on
guard (alert_none free) = free
guard (skip on other) = (on, other)
guard (inspect on pending) = (on, pending)
guard _ = tt

module _ {n : ℕ} {m : Shared} {place : ℕ → Place} (inv : Inv n m place) (t : ℕ) (lt : t < n) where
  Move-balance :
      {p p' : Place} {m' : Shared}
      → Move t m p m' p'
      → place t ≡ p
      → (u : ℕ) → is_pending (m'.status u) ≡ true
      → m'.waitcnt u + weight (is_counting (update place t p' u))
        ≡ m'.sem u
          + weight (is_woken (update place t p' u))
          + count n (owes m' (update place t p') u)
  Move-balance (link {d} free) here u pending = ground (
    arith,
    inv.balance u,
    inv.seen t,
    owed-link inv t lt {d = d} (ground (arith, inv.seen t)) free (ground arith) u,
  )
  Move-balance {m'} (alert {u = v} on) here u pending =
      ground (arith, inv.balance u, owed-alert inv t lt m' {u = v} (λ d. refl) on (ground arith) u)
  Move-balance {p'} {m'} (post {u = v}) here u pending =
      let on : needs (m.depends t) v ≡ true = ground (arith, inv.target t v) in
      let hit : is_pending (m.status v) ≡ false = ground (arith, inv.struck t v) in
      let apart : (v == u) ≡ false = ground arith in
      let free : needs (m.depends t) u ≡ false = needs-other (m.depends t) v u on apart in
      ground (arith, inv.balance u, owed-apart inv t lt m' p' u (λ d. refl) free)
  Move-balance {p'} {m'} mv here u pending = ground (
    arith,
    guard mv,
    inv.balance u,
    owed-same inv t lt m' p' (λ d. ground arith) (ground arith) u,
  )

  Move-fitting :
      {p p' : Place} {m' : Shared}
      → Move t m p m' p'
      → place t ≡ p
      → (u : ℕ) → fits (update place t p' u) (m'.status u) ≡ true
  Move-fitting (cancel {u = v}) here u = ground (arith, inv.fitting u)
  Move-fitting mv here u = ground (arith, guard mv, inv.fitting u)

  Move-target :
      {p p' : Place} {m' : Shared}
      → Move t m p m' p'
      → place t ≡ p
      → (d u : ℕ) → targets (update place t p' d) u ≡ true
      → needs (m'.depends d) u ≡ true
  Move-target (link free) here d u is = ground (arith, free, inv.target d u)
  Move-target mv here d u is = ground (arith, guard mv, inv.target d u, inv.target t u)

  Move-struck :
      {p p' : Place} {m' : Shared}
      → Move t m p m' p'
      → place t ≡ p
      → (d u : ℕ) → strikes (update place t p' d) u ≡ true
      → is_pending (m'.status u) ≡ false
  Move-struck (cancel {u = v}) here d u is = ground (arith, inv.struck d u)
  Move-struck mv here d u is = ground (arith, guard mv, inv.struck d u)

  Move-posted :
      {p p' : Place} {m' : Shared}
      → Move t m p m' p'
      → place t ≡ p
      → (d : ℕ) → has_posted (update place t p' d) ≡ true
      → has_some (m'.depends d) ≡ true
  Move-posted (post {u = v}) here d is = ground (arith, inv.posted d, inv.target t v)
  Move-posted mv here d is = ground (arith, guard mv, inv.posted d)

  Move-told :
      {p p' : Place} {m' : Shared}
      → Move t m p m' p'
      → place t ≡ p
      → (d u : ℕ) → needs (m'.depends d) u ≡ true
      → has_committed (update place t p' d) ≡ false
      → has_posted (update place t p' d) ≡ true
      → is_pending (m'.status u) ≡ false
  Move-told (link {d = e} free) here d u is unsettled posted =
      ground (arith, free, inv.told d u, inv.posted e, inv.posted d)
  Move-told (post {u = v}) here d u is unsettled posted =
      ground (arith, inv.told d u, inv.struck t u, inv.target t v)
  Move-told mv here d u is unsettled posted = ground (arith, guard mv, inv.told d u)

  Move-behind :
      {p p' : Place} {m' : Shared}
      → Move t m p m' p'
      → place t ≡ p
      → (d u : ℕ) → needs (m'.depends d) u ≡ true
      → is_open (update place t p' d) ≡ true
      → is_committed (m'.status u) ≡ false
  Move-behind (link free) here d u is unsettled =
      ground (arith, free, inv.behind d u, inv.fitting u)
  Move-behind (pass done) here d u is unsettled = ground (arith, done, inv.behind d u, inv.held d u)
  Move-behind mv here d u is unsettled = ground (arith, guard mv, inv.behind d u)

  Move-held :
      {p p' : Place} {m' : Shared}
      → Move t m p m' p'
      → place t ≡ p
      → (d u : ℕ) → needs (m'.depends d) u ≡ true
      → is_open (update place t p' d) ≡ true
      → is_early (update place t p' u) ≡ true
      → 0 < m'.waitcnt u + weight (is_counting (update place t p' u))
  Move-held (link free) here d u is unsettled early = ground (arith, free, inv.held d u)
  Move-held (resume live) here d u is unsettled early =
      ground (arith, live, inv.held d u, inv.behind d u, inv.told d u, owed-waits inv d u)
  Move-held mv here d u is unsettled early = ground (arith, guard mv, inv.held d u)

  Move-below :
      {p p' : Place} {m' : Shared}
      → Move t m p m' p'
      → place t ≡ p
      → (d u : ℕ) → needs (m'.depends d) u ≡ true
      → (d < u) × (u < n)
  Move-below (link {d = e} free) here d u is = ground (arith, inv.below d u, inv.seen t)
  Move-below mv here d u is = ground (arith, inv.below d u)

  Move-seen :
      {p p' : Place} {m' : Shared}
      → Move t m p m' p'
      → place t ≡ p
      → (u : ℕ) → sees u (update place t p' u) ≡ true
  Move-seen (observe less pending) here u = ground (arith, inv.seen u)
  Move-seen mv here u = ground (arith, inv.seen u)

  Move-Inv : {p' : Place} {m' : Shared} → Move t m (place t) m' p' → Inv n m' (update place t p')
  Move-Inv mv = record {
    balance = Move-balance mv refl;
    fitting = Move-fitting mv refl;
    target = Move-target mv refl;
    struck = Move-struck mv refl;
    posted = Move-posted mv refl;
    told = Move-told mv refl;
    behind = Move-behind mv refl;
    held = Move-held mv refl;
    below = Move-below mv refl;
    seen = Move-seen mv refl;
  }

start-Inv : (n : ℕ) → Inv n fresh_transactions (λ _. running)
start-Inv n = record {
  balance = λ u is. omega (arith, count-empty n);
  fitting = λ u. refl;
  target = λ d u is. cc;
  struck = λ d u is. cc;
  posted = λ d is. cc;
  told = λ d u is. cc;
  behind = λ d u is unsettled. cc;
  held = λ d u is. cc;
  below = λ d u is. cc;
  seen = λ u. refl;
}

pub Reachable-Inv : {n : ℕ} {m : Shared} {place : ℕ → Place} → Reachable n m place → Inv n m place
Reachable-Inv {n} unmoved = start-Inv n
Reachable-Inv (moved r t lt mv) = Move-Inv (Reachable-Inv r) t lt mv
