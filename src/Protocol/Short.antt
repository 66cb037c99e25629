-- ===== src/Protocol/Short.antt =====
-- What a transfer in several calls does.
use Prim.Native.Nat.{min}
use concurrent_server.Common.{ℕ, ◌+◌, ◌-◌, ◌<◌, ◌≡◌, some, List, [], ◌∷◌, ◌++◌, map, arith, take}
use mathlib.Core.List.{append-nil, append_assoc}
use concurrent_server.Protocol.{done, write_loop}

-- The same start of the buffer, once for each call.
abbrev pub stutter : (buf : List ℕ) → List ℕ → List ℕ
stutter buf [] = []
stutter buf (k ∷ ks) = take k buf ++ stutter buf ks

abbrev pub total : List ℕ → ℕ
total [] = 0
total (k ∷ ks) = k + total ks

abbrev pub AllPositive : List ℕ → Type 0
AllPositive [] = Unit
AllPositive (k ∷ ks) = (0 < k) × AllPositive ks

write_loop-from :
    (buf sent : List ℕ) (ks : List ℕ)
    → AllPositive ks
    → write_loop buf (total ks) sent (map some ks) ≡ done (sent ++ stutter buf ks) []
unfolding write_loop
write_loop-from buf sent [] pos = rw append-nil
write_loop-from buf sent (k ∷ ks) pos =
    let e : min k (k + total ks) ≡ k = omega arith in
    let z : k + total ks - k ≡ total ks = omega arith in
    rw (e, z, write_loop-from buf (sent ++ take k buf) ks (pos.1), append_assoc) (ground arith)

-- When the calls of `write` move the `n` bytes in several pieces, the loop ends with success, and
-- each piece is one from the start of the buffer.
pub write_loop-stutter :
    (buf : List ℕ) (n : ℕ) (ks : List ℕ)
    → AllPositive ks
    → total ks ≡ n
    → write_loop buf n [] (map some ks) ≡ done (stutter buf ks) []
write_loop-stutter buf n ks pos e = rw (← e) (write_loop-from buf [] ks pos)
