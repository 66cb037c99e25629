-- ===== src/Transaction/System/Isolation.antt =====
-- A transaction commits only behind those that it depends on.
use concurrent_server.Common.{ℕ, ◌≡◌, refl, true, false, some, arith, Bool-cases, inl, inr, ◌==◌}
use concurrent_server.Machine.{trans_committed}
use concurrent_server.Transaction.{is_committed}
use concurrent_server.Transaction.System.{
  Shared, Place, Move, update, cancel, unmoved, moved, Reachable,
}
use concurrent_server.Transaction.System.Defs.{
  has_posted, has_committed, has_withdrawn, is_open, Inv,
}
use concurrent_server.Transaction.System.Invariant.{guard, Reachable-Inv}

-- In every interleaving: if a transaction is committed, the thread of each transaction that it
-- depends on has set TRANS_COMMITTED and called `V`.
pub committed_behind :
    {n : ℕ} {m : Shared} {place : ℕ → Place} (d u : ℕ)
    → Reachable n m place
    → m.depends d ≡ some u
    → m.status u ≡ trans_committed
    → (has_committed (place d) ≡ true) × (has_posted (place d) ≡ true)
committed_behind {m} {place} d u r on done =
    let unsettled : is_open (place d) ≡ false = ground (arith, (Reachable-Inv r).behind d u) in
    (ground arith, ground arith)

-- A thread that has withdrawn does not take it back.
withdrawn-before :
    {t : ℕ} {m m' : Shared} {p p' : Place}
    → Move t m p m' p'
    → has_withdrawn p' ≡ false
    → has_withdrawn p ≡ false
withdrawn-before (cancel {u = v}) is = ground arith
withdrawn-before mv is = ground (arith, guard mv)

all_kept :
    {t : ℕ} {m m' : Shared} {p' : Place} (place : ℕ → Place)
    → Move t m (place t) m' p'
    → ((i : ℕ) → has_withdrawn (update place t p' i) ≡ false)
    → (i : ℕ) → has_withdrawn (place i) ≡ false
all_kept {t} place mv all i = elim (Bool-cases (i == t)) [
  | inl is ↦
      let same : i ≡ t = ground arith in rw same (withdrawn-before mv (ground (arith, all t)))
  | inr not ↦ ground (arith, all i)
]

module _ {n : ℕ} {m : Shared} {place : ℕ → Place} (inv : Inv n m place) (t : ℕ) where
  Move-kept :
      {p p' : Place} {m' : Shared}
      → Move t m p m' p'
      → place t ≡ p
      → has_withdrawn p' ≡ false
      → ((d : ℕ) → has_committed (place d) ≡ true → is_committed (m.status d) ≡ true)
      → (d : ℕ) → has_committed (update place t p' d) ≡ true
      → is_committed (m'.status d) ≡ true
  Move-kept (cancel {u = v}) here calm kept d is =
      ground (arith, kept d, inv.target t d, inv.behind t d, inv.fitting t)
  Move-kept mv here calm kept d is = ground (arith, guard mv, kept d)

Reachable-kept :
    {n : ℕ} {m : Shared} {place : ℕ → Place}
    → Reachable n m place
    → ((t : ℕ) → has_withdrawn (place t) ≡ false)
    → (d : ℕ) → has_committed (place d) ≡ true
    → is_committed (m.status d) ≡ true
Reachable-kept unmoved calm d is = cc
Reachable-kept (moved {place1} r t lt mv) calm d is =
    Move-kept (Reachable-Inv r) t mv refl (ground (arith, calm t))
      (Reachable-kept r (all_kept place1 mv calm)) d is

-- In every interleaving in which no thread has called `trans_abort` because the reply to a COMMIT
-- could not be sent: if a transaction is committed, each transaction that it depends on is committed.
pub committed_together :
    {n : ℕ} {m : Shared} {place : ℕ → Place} (d u : ℕ)
    → Reachable n m place
    → ((t : ℕ) → has_withdrawn (place t) ≡ false)
    → m.depends d ≡ some u
    → m.status u ≡ trans_committed
    → m.status d ≡ trans_committed
committed_together d u r calm on done =
    let (committed, _) = committed_behind d u r on done in
    ground (arith, Reachable-kept r calm d committed)
