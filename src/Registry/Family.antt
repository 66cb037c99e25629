-- ===== src/Registry/Family.antt =====
-- How many of the first `n` descriptors are in a set.
use concurrent_server.Common.{
  ℕ, zero, suc, ◌+◌, ◌≤◌, ◌<◌, ◌≡◌, refl, Bool, true, false, arith, if◌then◌else◌, Bool-cases, inl,
  inr,
}
use native.Mathlib.Decide.{dec_lt}
use concurrent_server.Registry.{set_fd}

abbrev pub weight : Bool → ℕ
weight b = if b then 1 else 0

unfoldable pub count : ℕ → (ℕ → Bool) → ℕ
count zero s = 0
count (suc n) s = count n s + weight (s n)

count-set_fd_ge :
    (n : ℕ) (s : ℕ → Bool) (fd : ℕ) (b : Bool) → n ≤ fd → count n (set_fd s fd b) ≡ count n s
unfolding count
count-set_fd_ge zero s fd b h = refl
count-set_fd_ge (suc n) s fd b h = ground (arith, count-set_fd_ge n s fd b)

pub count-set_fd :
    (n : ℕ) (s : ℕ → Bool) (fd : ℕ) (b : Bool)
    → fd < n
    → count n (set_fd s fd b) + weight (s fd) ≡ count n s + weight b
unfolding count
count-set_fd zero s fd b h = absurd (omega arith)
count-set_fd (suc n) s fd b h = elim (dec_lt fd n) [
  | yes below ↦ ground (arith, count-set_fd n s fd b below)
  | no last ↦ ground (arith, count-set_fd_ge n s fd b)
]

pub count-le : (n : ℕ) (s : ℕ → Bool) → count n s ≤ n
unfolding count
count-le zero s = omega arith
count-le (suc n) s = ground (arith, count-le n s)

pub count-empty : (n : ℕ) → count n (λ _. false) ≡ 0
unfolding count
count-empty zero = refl
count-empty (suc n) = omega (arith, count-empty n)

pub count_member : (n : ℕ) (s : ℕ → Bool) → 0 < count n s → (fd : ℕ) × (s fd ≡ true)
unfolding count
count_member zero s h = absurd (omega arith)
count_member (suc n) s h = elim (Bool-cases (s n)) [
  | inl here ↦ (n, here)
  | inr on ↦ count_member n s (ground arith)
]

pub count-pos : (n : ℕ) (s : ℕ → Bool) (fd : ℕ) → fd < n → s fd ≡ true → 0 < count n s
unfolding count
count-pos zero s fd h e = absurd (omega arith)
count-pos (suc n) s fd h e = elim (dec_lt fd n) [
  | yes below ↦ omega (arith, count-pos n s fd below e)
  | no last ↦ let same : fd ≡ n = omega arith in ground arith
]
