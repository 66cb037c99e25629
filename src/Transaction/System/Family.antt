-- ===== src/Transaction/System/Family.antt =====
-- How many of the first `n` transactions have a property.
use concurrent_server.Common.{ℕ, zero, suc, ◌+◌, ◌<◌, ◌≡◌, ◌≢◌, refl, Bool, arith}
use native.Mathlib.Decide.{dec_lt}
use concurrent_server.Registry.Family.{weight, count}

pub count_congr : (n : ℕ) (f g : ℕ → Bool) → ((i : ℕ) → i < n → g i ≡ f i) → count n g ≡ count n f
unfolding count
count_congr zero f g same = refl
count_congr (suc n) f g same =
    ground (arith, count_congr n f g (λ i lt. same i (omega arith)), same n)

-- A family that is another one but at `d`.
pub count_change :
    (n : ℕ) (f g : ℕ → Bool) (d : ℕ)
    → d < n
    → ((i : ℕ) → i ≢ d → g i ≡ f i)
    → count n g + weight (f d) ≡ count n f + weight (g d)
unfolding count
count_change zero f g d lt same = absurd (omega arith)
count_change (suc n) f g d lt same = elim (dec_lt d n) [
  | yes below ↦ ground (arith, count_change n f g d below same, same n)
  | no last ↦
      let here : d ≡ n = omega arith in
      ground (arith, count_congr n f g (λ i lt. same i (λ e. omega arith)))
]
