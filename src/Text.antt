-- ===== src/Text.antt =====
-- `string_to_int` and `hash` of src/helper.c, on the bytes of a buffer. A buffer is the list of the
-- bytes that were allocated, so a walk that meets no NUL reads past its end.
pub mod Hash
pub mod Decimal
use concurrent_server.Common.{
  ℕ, ◌+◌, ◌-◌, ◌*◌, ◌%◌, ◌^◌, Bool, ◌&&◌, Option, none, some, List, [], ◌∷◌, ◌==◌, ltb, leb,
  if◌then◌else◌,
}

-- What `string_to_int` returns: -1, a number, or undefined behaviour (a read past the end of the
-- buffer, an overflow of `int`).
pub data Parsed : Type 0 where
  minus_one : Parsed
  number : ℕ → Parsed
  undefined : Parsed

abbrev pub is_digit : ℕ → Bool
is_digit c = leb b'0' c && leb c b'9'

abbrev pub int_max : ℕ
int_max = 2 ^ 31 - 1

-- `acc` is `number`. Neither `number *= 10` nor `number += digit` may leave the range of `int`.
unfoldable pub string_to_int_from : ℕ → List ℕ → Parsed
string_to_int_from acc [] = undefined
string_to_int_from acc (c ∷ cs) =
    let rest = string_to_int_from (acc * 10 + (c - b'0')) cs in
    if c == 0
    then number acc
    else if is_digit c
    then (if ltb int_max (acc * 10 + (c - b'0')) then undefined else rest)
    else minus_one

unfoldable pub string_to_int : List ℕ → Parsed
unfolding string_to_int_from
string_to_int s = string_to_int_from 0 s

abbrev pub num_buckets : ℕ
num_buckets = 8

-- A `char` is signed: a byte from 128 on is extended by ones to the 64 bits of `unsigned long`.
abbrev pub extend : ℕ → ℕ
extend c = if ltb c 128 then c else c + (2 ^ 64 - 256)

abbrev pub hash_step : ℕ → ℕ → ℕ
hash_step h c = ((h * 2 ^ 5) % 2 ^ 64 + h + extend c) % 2 ^ 64

-- `none` where the walk leaves the buffer before it meets a NUL.
unfoldable pub hash_from : ℕ → List ℕ → Option ℕ
hash_from h [] = none
hash_from h (c ∷ cs) =
    let rest = hash_from (hash_step h c) cs in if c == 0 then some (h % num_buckets) else rest

unfoldable pub hash : List ℕ → Option ℕ
unfolding hash_from
hash s = hash_from 5381 s
