-- ===== src/Text/Hash.antt =====
-- What `hash` computes.
use concurrent_server.Common.{
  ℕ, ◌+◌, ◌%◌, ◌<◌, ◌≡◌, refl, Bool, false, ◌||◌, none, some, List, [], ◌∷◌, ◌++◌, arith, ◌==◌, ap,
  ◌∙◌,
}
use concurrent_server.Text.{num_buckets, hash_step, hash_from, hash}

abbrev pub sum : List ℕ → ℕ
sum [] = 0
sum (c ∷ cs) = c + sum cs

abbrev pub has_nul : List ℕ → Bool
has_nul [] = false
has_nul (c ∷ cs) = (c == 0) || has_nul cs

hash_step-mod : (h c : ℕ) → hash_step h c % 8 ≡ (h + c) % 8
hash_step-mod h c = ground arith

hash_from-sum :
    (h : ℕ) (s r : List ℕ)
    → has_nul s ≡ false
    → hash_from h (s ++ 0 ∷ r) ≡ some ((h + sum s) % num_buckets)
unfolding hash_from
hash_from-sum h [] r e = ap some (omega arith)
hash_from-sum h (c ∷ cs) r e =
    let nz : (c == 0) ≡ false = ground arith in
    rw nz (
      hash_from-sum (hash_step h c) cs r (ground arith)
      ∙ ap some (omega (arith, hash_step-mod h c)))

-- On a key with a NUL, `hash` is 5 plus the sum of the bytes before the first NUL, modulo 8.
pub hash-sum :
    (s r : List ℕ) → has_nul s ≡ false → hash (s ++ 0 ∷ r) ≡ some ((5 + sum s) % num_buckets)
unfolding hash
hash-sum s r e = hash_from-sum 5381 s r e ∙ ap some (omega arith)

hash_from-none : (h : ℕ) (s : List ℕ) → has_nul s ≡ false → hash_from h s ≡ none
unfolding hash_from
hash_from-none h [] e = refl
hash_from-none h (c ∷ cs) e =
    let nz : (c == 0) ≡ false = ground arith in
    rw nz (hash_from-none (hash_step h c) cs (ground arith))

-- On a key without a NUL, `hash` reads past the end of the buffer.
pub hash-none : (s : List ℕ) → has_nul s ≡ false → hash s ≡ none
unfolding hash
hash-none s e = hash_from-none 5381 s e

hash_from-lt : (h : ℕ) (s : List ℕ) (b : ℕ) → hash_from h s ≡ some b → b < num_buckets
unfolding hash_from
hash_from-lt h [] b e = cc
hash_from-lt h (c ∷ cs) b e = ground (arith, hash_from-lt (hash_step h c) cs b)

-- The bucket is always inside the table.
pub hash-lt : (s : List ℕ) (b : ℕ) → hash s ≡ some b → b < num_buckets
unfolding hash
hash-lt s b e = hash_from-lt 5381 s b e
