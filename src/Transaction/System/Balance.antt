-- ===== src/Transaction/System/Balance.antt =====
-- What is owed, over a move.
use concurrent_server.Common.{ℕ, ◌+◌, ◌<◌, ◌≡◌, true, false, none, some, ◌==◌, arith, Option}
use concurrent_server.Transaction.{is_pending}
use concurrent_server.Registry.Family.{weight, count, count-pos}
use concurrent_server.Transaction.System.{Shared, Place, counting, replying, update}
use concurrent_server.Transaction.System.Defs.{needs, has_posted, owes, is_counting, is_woken, Inv}
use concurrent_server.Transaction.System.Family.{count_congr, count_change}

pub needs-other : (o : Option ℕ) (v u : ℕ) → needs o v ≡ true → (v == u) ≡ false → needs o u ≡ false
needs-other none v u is not = cc
needs-other (some w) v u is not = ground arith

module _ {n : ℕ} {m : Shared} {place : ℕ → Place} (inv : Inv n m place) where
  -- A pending transaction to which something is owed waits, also when it is woken.
  pub owed-waits :
      (d u : ℕ)
      → owes m place u d ≡ true
      → is_pending (m.status u) ≡ true
      → weight (is_woken (place u)) < m.waitcnt u + weight (is_counting (place u))
  owed-waits d u is pending =
      let (less, few) = inv.below d u (ground arith) in
      let small : d < n = omega arith in
      let some_owed : 0 < count n (owes m place u) = count-pos n (owes m place u) d small is in
      omega (arith, inv.balance u pending)

  module _ (t : ℕ) (lt : t < n) where
    -- A move that links nothing and posts nothing keeps what is owed.
    pub owed-same :
        (m' : Shared) (p' : Place)
        → ((d : ℕ) → m'.depends d ≡ m.depends d)
        → has_posted p' ≡ has_posted (place t)
        → (u : ℕ) → count n (owes m' (update place t p') u) ≡ count n (owes m place u)
    owed-same m' p' same posted u =
        count_congr n (owes m place u) (owes m' (update place t p') u)
          (λ d _. ground (arith, same d))

    -- So does any move of `t`, for a transaction that does not depend on it.
    pub owed-apart :
        (m' : Shared) (p' : Place) (u : ℕ)
        → ((d : ℕ) → m'.depends d ≡ m.depends d)
        → needs (m.depends t) u ≡ false
        → count n (owes m' (update place t p') u) ≡ count n (owes m place u)
    owed-apart m' p' u same apart =
        count_congr n (owes m place u) (owes m' (update place t p') u)
          (λ d _. ground (arith, same d))

    -- The post of `trans_commit` settles what `t` owes.
    pub owed-alert :
        (m' : Shared) {u : ℕ}
        → ((d : ℕ) → m'.depends d ≡ m.depends d)
        → m.depends t ≡ some u
        → has_posted (place t) ≡ false
        → (v : ℕ)
        → count n (owes m' (update place t (replying true)) v) + weight (u == v)
          ≡ count n (owes m place v)
    owed-alert m' {u} same at_t before v = ground (
      arith,
      same t,
      count_change n (owes m place v) (owes m' (update place t (replying true)) v) t lt
          (λ d ne. ground (arith, same d)),
    )

    -- A link adds what `d` owes.
    pub owed-link :
        {d : ℕ}
        → d < n
        → m.depends d ≡ none
        → has_posted (place t) ≡ false
        → (v : ℕ)
        → count n
            (owes (record m { depends = update m.depends d (some t) }) (update place t counting) v)
          ≡ count n (owes m place v) + weight (t == v)
    owed-link {d} small free before v = ground (
      arith,
      inv.posted d,
      count_change n (owes m place v)
          (owes (record m { depends = update m.depends d (some t) }) (update place t counting) v) d
          small (λ i ne. ground arith),
    )
