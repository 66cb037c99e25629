-- ===== src/Transaction/System/Code.antt =====
-- What a machine shows of the fields that threads share, and the moves of one thread alone.
pub mod Aborted
pub mod Aborts
pub mod Commits
pub mod Links
use concurrent_server.Common.{
  ℕ, suc, ◌+◌, ◌<◌, ◌≡◌, ◌≢◌, refl, sym, subst, ◌∙◌, ap, Bool, true, false, ◌||◌, Option, none,
  some, List, [], ◌∷◌, arith, ◌==◌, if◌then◌else◌, Bool-cases, Option-cases, inl, inr, dec32, ==_ne,
  ==_refl,
}
use concurrent_server.Machine.{
  Ptr, null, trans_aborted, Transaction, Heap, Machine, at, at-ne-null, ok,
}
use concurrent_server.Transaction.{is_pending, trans_abort}
use concurrent_server.Transaction.Dependents.{IsDepends, mem, Alive, cancel_each, at-cancel_each}
use concurrent_server.Transaction.Dependents
use concurrent_server.Transaction.Abort.{IsShared, aborted_heap, trans_abort-shared}
use concurrent_server.Transaction.System.{
  update, Shared, Place, running, aborting, cancelling, posting, finished, Move, give_up,
  abort_none, skip, inspect, cancel, post,
}

-- The moves of one thread while no other moves.
pub data Alone (t : ℕ) : Shared → Place → Shared → Place → Type 0 where
  stay : {m : Shared} {p : Place} → Alone t m p m p
  go :
      {m1 m2 m3 : Shared} {p1 p2 p3 : Place}
      → Move t m1 p1 m2 p2
      → Alone t m2 p2 m3 p3
      → Alone t m1 p1 m3 p3

-- The addresses of the dependents of a transaction.
abbrev pub at_each : (ℕ → Ptr) → Option ℕ → List Ptr
at_each addr none = []
at_each addr (some u) = addr u ∷ []

-- What the machine has of the transaction `i` is what the threads share.
pub record Sees (m : Machine) (addr : ℕ → Ptr) (s : Shared) (i : ℕ) : Type 0 where
  pub cell : Transaction
  pub held : at m.transactions (addr i) ≡ some cell
  pub status : cell.status ≡ s.status i
  pub waitcnt : cell.waitcnt ≡ s.waitcnt i
  pub sem : cell.sem ≡ s.sem i
  pub depends : IsDepends m.dependencies m.fresh 0 cell.depends (at_each addr (s.depends i))

-- The first `n` transactions stand at `addr`, each at its own address, and so do their dependents.
pub record Shows (m : Machine) (addr : ℕ → Ptr) (n : ℕ) (s : Shared) : Type 0 where
  pub sees : (i : ℕ) → i < n → Sees m addr s i
  pub apart : (i j : ℕ) → i < n → j < n → addr i ≡ addr j → i ≡ j
  pub inside : (i u : ℕ) → i < n → s.depends i ≡ some u → u < n
