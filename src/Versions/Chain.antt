-- ===== src/Versions/Chain.antt =====
-- What a version list stands for: its cells in order, each with its creator.
use concurrent_server.Common.{
  ℕ, suc, ◌+◌, ◌≤◌, ◌<◌, ◌≡◌, Bool, false, ◌||◌, some, List, [], ◌∷◌, arith, if◌then◌else◌, length,
}
use concurrent_server.Machine.{Ptr, null, Transaction, Version, Machine, at}
use concurrent_server.Transaction.{is_committed, is_aborted}

pub record Cell : Type 0 where
  pub addr : Ptr
  pub body : Version
  pub owner : Transaction

-- From `p` the `next` pointers lead through `cells` to NULL. `malloc` returns growing addresses
-- and a version goes to the end of its list, so the addresses grow along it.
abbrev pub IsChain : Machine → (lo p : Ptr) → List Cell → Type 0
IsChain m lo p [] = p ≡ null
IsChain m lo p (c ∷ cs) =
    (p ≡ c.addr)
    × (lo ≤ c.addr)
    × (c.addr < m.fresh)
    × (at m.versions c.addr ≡ some c.body)
    × (at m.transactions c.body.creator ≡ some c.owner)
    × IsChain m (suc c.addr) c.body.next cs

pub length-IsChain :
    (m : Machine) (lo p : Ptr) (cs : List Cell)
    → lo ≤ m.fresh
    → IsChain m lo p cs
    → lo + length cs ≤ m.fresh
length-IsChain m lo p [] h ch = omega arith
length-IsChain m lo p (c ∷ cs) h ch = omega (arith, length-IsChain m (suc c.addr) c.body.next cs)

abbrev pub has_aborted : List Cell → Bool
has_aborted [] = false
has_aborted (c ∷ cs) = is_aborted c.owner.status || has_aborted cs

abbrev pub committed_count : List Cell → ℕ
committed_count [] = 0
committed_count (c ∷ cs) = (if is_committed c.owner.status then 1 else 0) + committed_count cs
