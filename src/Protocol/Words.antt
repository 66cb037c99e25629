-- ===== src/Protocol/Words.antt =====
-- Byte order: the conversions of a 32-bit number undo one another.
use concurrent_server.Common.{ℕ, ◌/◌, ◌%◌, ◌^◌, ◌<◌, ◌≡◌, refl, arith}
use concurrent_server.Protocol.{u32_of, htonl, ntohl, positive_int}

pub u32_of-bytes :
    (n : ℕ)
    → n < 2 ^ 32
    → u32_of (n % 256) (n / 256 % 256) (n / 65536 % 256) (n / 16777216 % 256) ≡ n
u32_of-bytes n h = omega arith

pub htonl-lt : (n : ℕ) → htonl n < 2 ^ 32
unfolding htonl
htonl-lt n = omega arith

pub ntohl-htonl : (n : ℕ) → n < 2 ^ 32 → ntohl (htonl n) ≡ n
unfolding ntohl
ntohl-htonl n h = omega arith

pub htonl-pos : (n : ℕ) → 0 < n → n < 2 ^ 32 → 0 < htonl n
unfolding htonl
htonl-pos n p h = omega arith

pub htonl-zero : htonl 0 ≡ 0
unfolding htonl
htonl-zero = refl

pub positive_int-small : (n : ℕ) → n < 2 ^ 31 → positive_int n ≡ n
positive_int-small n h = ground arith
