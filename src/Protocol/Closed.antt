-- ===== src/Protocol/Closed.antt =====
-- `proto_recv_packet` at the end of the stream.
use Prim.Native.Nat.{min}
use concurrent_server.Common.{
  ℕ, zero, suc, ◌/◌, ◌%◌, ◌<◌, ◌≡◌, refl, Bool, false, Option, none, some, List, [], ◌∷◌, arith,
  take,
}
use concurrent_server.Protocol.{
  Packet, Schedule, sizeof_packet, image, u32_of, failed, read_loop, broken, recv_header,
  proto_recv_packet,
}

take-nil : (n : ℕ) → take {A = ℕ} n [] ≡ []
take-nil zero = refl
take-nil (suc n) = refl

-- At the end of the stream no call of `read` gives a byte.
read_loop-closed :
    (buf : List ℕ) (n : ℕ) (x : Option ℕ) (ks : Schedule)
    → 0 < n
    → read_loop buf n [] (x ∷ ks) ≡ failed (buf, []) ks
unfolding read_loop
read_loop-closed buf n none ks pos = ground arith
read_loop-closed buf n (some k) ks pos = rw (take-nil (min k n)) (ground arith)

-- A word that is read from its four bytes.
abbrev word : ℕ → ℕ
word n = u32_of (n % 256) (n / 256 % 256) (n / 65536 % 256) (n / 16777216 % 256)

-- The packet as it lies in its storage.
abbrev pub stored : Packet → Packet
stored p = record p {
  size = word p.size;
  timestamp_sec = word p.timestamp_sec;
  timestamp_nsec = word p.timestamp_nsec;
}

pub proto_recv_packet-closed :
    (pkt : Packet) (datap : Bool) (x : Option ℕ) (ks : Schedule)
    → proto_recv_packet pkt datap [] (x ∷ ks) ≡ broken (stored pkt) false [] ks
unfolding proto_recv_packet recv_header
proto_recv_packet-closed pkt datap x ks =
    rw (read_loop-closed (image pkt) sizeof_packet x ks (omega arith)) refl
