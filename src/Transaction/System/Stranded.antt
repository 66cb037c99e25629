-- ===== src/Transaction/System/Stranded.antt =====
-- A dependency that comes too late.
use concurrent_server.Common.{ℕ, ◌≡◌, ◌≢◌, refl, true, false, some, arith}
use concurrent_server.Machine.{trans_committed}
use concurrent_server.Transaction.System.{
  Shared, Course, stopped, kept, withdrawn, Place, finished, update, Move, link, Later, unmoved,
  moved, Reachable,
}
use concurrent_server.Transaction.System.Defs.{is_open}
use concurrent_server.Transaction.System.Invariant.{Reachable-Inv}

-- The thread of `d` has finished and called `V` for no transaction, but `u` depends on `d`.
abbrev pub Stranded : Shared → (ℕ → Place) → (d u : ℕ) → Type 0
Stranded m place d u = (m.depends d ≡ some u) × ((c : Course) × (place d ≡ finished c false))

Move-Stranded :
    {t : ℕ} {m m' : Shared} {p p' : Place} (place : ℕ → Place) (d u : ℕ)
    → Move t m p m' p'
    → place t ≡ p
    → Stranded m place d u
    → Stranded m' (update place t p') d u
Move-Stranded place d u (link free) here (on, (c, done)) = (ground arith, (c, ground arith))
Move-Stranded place d u mv here (on, (c, done)) = (ground arith, (c, ground arith))

Later-Stranded :
    {n : ℕ} {m : Shared} {place : ℕ → Place} {m' : Shared} {place' : ℕ → Place} (d u : ℕ)
    → Later n m place m' place'
    → Stranded m place d u
    → Stranded m' place' d u
Later-Stranded d u unmoved s = s
Later-Stranded d u (moved {place1} l t lt mv) s =
    Move-Stranded place1 d u mv refl (Later-Stranded d u l s)

Later-Later :
    {n : ℕ} {m0 : Shared} {place0 : ℕ → Place} {m : Shared} {place : ℕ → Place} {m' : Shared}
    {place' : ℕ → Place}
    → Later n m0 place0 m place
    → Later n m place m' place'
    → Later n m0 place0 m' place'
Later-Later r unmoved = r
Later-Later r (moved l t lt mv) = moved (Later-Later r l) t lt mv

unposted : (c : Course) → is_open (finished c false) ≡ true
unposted stopped = refl
unposted kept = refl
unposted withdrawn = refl

-- In every interleaving: if a transaction was linked to another one whose thread has finished
-- without a post for it, it is never committed, whatever moves follow, also where the other one is.
pub never_committed :
    {n : ℕ} {m m' : Shared} {place place' : ℕ → Place} (d u : ℕ)
    → Reachable n m place
    → Stranded m place d u
    → Later n m place m' place'
    → m'.status u ≢ trans_committed
never_committed {m'} {place'} d u r s l done =
    let inv = Reachable-Inv (Later-Later r l) in
    let (on, (c, finished_d)) = Later-Stranded d u l s in
    let unsettled : is_open (place' d) ≡ true = rw finished_d (unposted c) in
    ground (arith, on, inv.behind d u)
