-- ===== src/Text/Decimal.antt =====
-- What `string_to_int` computes: the value of a decimal numeral, if it fits `int`.
use concurrent_server.Common.{
  ℕ, suc, ◌+◌, ◌-◌, ◌*◌, ◌^◌, ◌≤◌, ◌≡◌, Bool, true, false, ◌&&◌, List, [], ◌∷◌, ◌++◌, arith, ltb,
  if◌then◌else◌, length, Bool-cases, inl, inr, ◌∙◌, ◌≢◌,
}
use native.Mathlib.Nat.{pow-suc, one-le-pow}
use concurrent_server.Text.{
  Parsed, minus_one, number, undefined, is_digit, int_max, string_to_int_from, string_to_int,
}

abbrev pub all_digits : List ℕ → Bool
all_digits [] = true
all_digits (c ∷ cs) = is_digit c && all_digits cs

-- Digit by digit, each weighed by its power of ten.
abbrev pub value : List ℕ → ℕ
value [] = 0
value (c ∷ cs) = (c - b'0') * 10 ^ length cs + value cs

abbrev in_int : ℕ → Parsed
in_int n = if ltb int_max n then undefined else number n

horner : (acc d k v : ℕ) → acc * 10 ^ suc k + (d * 10 ^ k + v) ≡ (acc * 10 + d) * 10 ^ k + v
horner acc d k v = rw (pow-suc 10 k) (omega arith)

le-scale : (n k v : ℕ) → n ≤ n * 10 ^ k + v
le-scale n k v = let pos : 1 ≤ 10 ^ k = one-le-pow k 10 (omega arith) in grind arith

string_to_int_from-value :
    (acc : ℕ) (s r : List ℕ)
    → acc ≤ int_max
    → all_digits s ≡ true
    → string_to_int_from acc (s ++ 0 ∷ r) ≡ in_int (acc * 10 ^ length s + value s)
unfolding string_to_int_from
string_to_int_from-value acc [] r h d = ground arith
string_to_int_from-value acc (c ∷ cs) r h d =
    let n : ℕ = acc * 10 + (c - b'0') in
    rw (horner acc (c - b'0') (length cs) (value cs)) (elim (Bool-cases (ltb int_max n)) [
      | inl over ↦ ground (arith, le-scale n (length cs) (value cs))
      | inr fits ↦ ground (arith, string_to_int_from-value n cs r (ground arith) (ground arith))
    ])

-- A string of digits gives its decimal value; where that exceeds INT_MAX, the computation
-- overflows.
pub string_to_int-value :
    (s r : List ℕ) → all_digits s ≡ true → string_to_int (s ++ 0 ∷ r) ≡ in_int (value s)
unfolding string_to_int
string_to_int-value s r d = string_to_int_from-value 0 s r (omega arith) d ∙ ground arith

string_to_int_from-minus_one :
    (acc : ℕ) (s r : List ℕ) (c : ℕ)
    → acc ≤ int_max
    → all_digits s ≡ true
    → acc * 10 ^ length s + value s ≤ int_max
    → c ≢ 0
    → is_digit c ≡ false
    → string_to_int_from acc (s ++ c ∷ r) ≡ minus_one
unfolding string_to_int_from
string_to_int_from-minus_one acc [] r c h d fits nz bad = ground arith
string_to_int_from-minus_one acc (b ∷ bs) r c h d fits nz bad =
    let n : ℕ = acc * 10 + (b - b'0') in
    let e : n * 10 ^ length bs + value bs ≤ int_max =
      omega (arith, horner acc (b - b'0') (length bs) (value bs)) in
    let small : n ≤ int_max = omega (arith, le-scale n (length bs) (value bs)) in
    ground (arith, string_to_int_from-minus_one n bs r c small (ground arith) e nz bad)

-- Where the first character that is no digit is not the NUL, the result is -1, if the digits before
-- it fit `int`.
pub string_to_int-minus_one :
    (s r : List ℕ) (c : ℕ)
    → all_digits s ≡ true
    → value s ≤ int_max
    → c ≢ 0
    → is_digit c ≡ false
    → string_to_int (s ++ c ∷ r) ≡ minus_one
unfolding string_to_int
string_to_int-minus_one s r c d fits nz bad =
    string_to_int_from-minus_one 0 s r c (omega arith) d (omega arith) nz bad
