-- ===== src/Transaction/System/Code/Aborts.antt =====
-- `trans_abort` as moves of its thread.
use concurrent_server.Common.{ℕ, ◌+◌, ◌<◌, ◌≡◌, Bool, some}
use concurrent_server.Machine.{Ptr, trans_aborted, Machine, ok}
use concurrent_server.Transaction.{trans_abort}
use concurrent_server.Transaction.Abort.{IsShared}
use concurrent_server.Transaction.System.{update, Shared, running, stopped, finished}
use concurrent_server.Transaction.System.Code.{Alone, Sees, Shows}
use concurrent_server.Transaction.System.Code.Aborted.{marked, after}

-- `trans_abort` returns, and its thread made moves to the end that lead to what the machine shows.
pub record Aborts (m : Machine) (addr : ℕ → Ptr) (n : ℕ) (s : Shared) (i : ℕ) : Type 0 where
  pub after : Machine
  pub state : Shared
  pub posted : Bool
  pub returned : trans_abort (addr i) m ≡ ok trans_aborted after
  pub moves : Alone i s running state (finished stopped posted)
  pub shown : Shows after addr n state

module _ (m : Machine) (addr : ℕ → Ptr) (n : ℕ) (s : Shared) (shows : Shows m addr n s) (i : ℕ)
    (in_i : i < n) where
  abbrev cell_of : Sees m addr s i
  cell_of = shows.sees i in_i

  module _ (shared : IsShared cell_of.cell) where
    module _ (u : ℕ) (e : s.depends i ≡ some u) where
      abbrev struck : Shared
      struck = record s {
        status = update (marked m addr n s shows i in_i).status u trans_aborted;
        sem = update s.sem u (s.sem u + 1);
      }
