-- ===== src/Protocol/Complete.antt =====
-- Packets over a connection on which every call moves all that it is asked to.
use Prim.Native.Nat.{min}
use concurrent_server.Common.{
  ltb, ℕ, zero, suc, ◌+◌, ◌-◌, ◌%◌, ◌^◌, ◌≤◌, ◌<◌, ◌≡◌, refl, Bool, true, false, none, some, List,
  [], ◌∷◌, ◌++◌, arith, length, take, take-all, drop, lt→ltb, take-length_append,
  drop-length_append, replicate, ◌∙◌,
}
use concurrent_server.Protocol.{
  Packet, sizeof_packet, image, to_network, htonl, Schedule, done, write_loop, proto_send_packet,
  overwrite, read_loop, received, null_datap, recv_header, recv_body, proto_recv_packet,
}
use concurrent_server.Protocol.Words.{
  htonl-zero, positive_int-small, u32_of-bytes, htonl-lt, ntohl-htonl, htonl-pos,
}

write_loop-zero : (buf sent : List ℕ) (ks : Schedule) → write_loop buf 0 sent ks ≡ done sent ks
unfolding write_loop
write_loop-zero buf sent [] = refl
write_loop-zero buf sent (none ∷ ks) = refl
write_loop-zero buf sent (some k ∷ ks) = refl

pub write_loop-full :
    (buf : List ℕ) (n : ℕ) (sent : List ℕ) (k : ℕ) (ks : Schedule)
    → 0 < n
    → n ≤ k
    → write_loop buf n sent (some k ∷ ks) ≡ done (sent ++ take n buf) ks
unfolding write_loop
write_loop-full buf n sent k ks pos le =
    let e : min k n ≡ n = omega arith in
    let z : n - n ≡ 0 = omega arith in
    rw (e, z, write_loop-zero buf (sent ++ take n buf) ks) (ground arith)

read_loop-zero :
    (buf stream : List ℕ) (ks : Schedule) → read_loop buf 0 stream ks ≡ done (buf, stream) ks
unfolding read_loop
read_loop-zero buf stream [] = refl
read_loop-zero buf stream (none ∷ ks) = refl
read_loop-zero buf stream (some k ∷ ks) = refl

pub read_loop-full :
    (buf xs rest : List ℕ) (k : ℕ) (ks : Schedule)
    → 0 < length xs
    → length xs ≤ k
    → read_loop buf (length xs) (xs ++ rest) (some k ∷ ks) ≡ done (overwrite xs buf, rest) ks
unfolding read_loop
read_loop-full buf xs rest k ks pos le =
    let e : min k (length xs) ≡ length xs = omega arith in
    let z : length xs - length xs ≡ 0 = omega arith in
    rw
      (
        e,
        take-length_append xs rest,
        drop-length_append xs rest,
        z,
        read_loop-zero (overwrite xs buf) rest ks,
      )
      (ground arith)

drop-replicate {ℓ} : {A : Type ℓ} (n : ℕ) (a : A) → drop n (replicate (suc n) a) ≡ a ∷ []
drop-replicate zero a = refl
drop-replicate (suc n) a = drop-replicate n a

-- The same, where the size is known by an equation.
read_loop-sized :
    (buf xs rest : List ℕ) (n k : ℕ) (ks : Schedule)
    → length xs ≡ n
    → 0 < n
    → n ≤ k
    → read_loop buf n (xs ++ rest) (some k ∷ ks) ≡ done (overwrite xs buf, rest) ks
read_loop-sized buf xs rest n k ks e pos le =
    rw (← e) (read_loop-full buf xs rest k ks (omega arith) (omega arith))

-- The fields of a packet as the struct holds them.
pub record IsPacket (p : Packet) : Type 0 where
  pub size : p.size < 2 ^ 32
  pub timestamp_sec : p.timestamp_sec < 2 ^ 32
  pub timestamp_nsec : p.timestamp_nsec < 2 ^ 32

module _ (pkt : Packet) (ok : IsPacket pkt) where
  -- With a payload of the size that the header states, not empty and below 2^31, and calls of
  -- `write` that move all they are given, the header in network byte order and then the payload are
  -- sent.
  pub proto_send_packet-payload :
      (payload : List ℕ) (k l : ℕ) (ks : Schedule)
      → length payload ≡ pkt.size
      → 0 < pkt.size
      → pkt.size < 2 ^ 31
      → sizeof_packet ≤ k
      → pkt.size ≤ l
      → proto_send_packet pkt payload (some k ∷ some l ∷ ks)
        ≡ done (image (to_network pkt) ++ payload) ks
  unfolding proto_send_packet
  proto_send_packet-payload payload k l ks len pos small hk hl =
      let net_pos = lt→ltb _ _ (htonl-pos pkt.size pos ok.size) in
      rw (
        write_loop-full (image (to_network pkt)) sizeof_packet [] k (some l ∷ ks) (omega arith) hk,
        net_pos,
        ntohl-htonl pkt.size ok.size,
        positive_int-small pkt.size small,
        write_loop-full payload pkt.size (image (to_network pkt)) l ks pos hl,
        take-all payload pkt.size len,
      )

  pub proto_send_packet-empty :
      (payload : List ℕ) (k : ℕ) (ks : Schedule)
      → pkt.size ≡ 0
      → sizeof_packet ≤ k
      → proto_send_packet pkt payload (some k ∷ ks) ≡ done (image (to_network pkt)) ks
  unfolding proto_send_packet
  proto_send_packet-empty payload k ks zero_size hk =
      rw (write_loop-full (image (to_network pkt)) sizeof_packet [] k ks (omega arith) hk)
        (rw (zero_size, htonl-zero))

  pub recv_header-image :
      (old : Packet) (datap : Bool) (stream : List ℕ) (ks : Schedule)
      → recv_header datap (done (overwrite (image (to_network pkt)) (image old), stream) ks)
        ≡ recv_body datap pkt stream ks
  unfolding recv_header
  recv_header-image old datap stream ks = rw (
    u32_of-bytes (htonl pkt.size) (htonl-lt pkt.size),
    u32_of-bytes (htonl pkt.timestamp_sec) (htonl-lt pkt.timestamp_sec),
    u32_of-bytes (htonl pkt.timestamp_nsec) (htonl-lt pkt.timestamp_nsec),
    ntohl-htonl pkt.size ok.size,
    ntohl-htonl pkt.timestamp_sec ok.timestamp_sec,
    ntohl-htonl pkt.timestamp_nsec ok.timestamp_nsec,
  )

  pub proto_recv_packet-empty :
      (old : Packet) (datap : Bool) (rest : List ℕ) (k : ℕ) (ks : Schedule)
      → pkt.size ≡ 0
      → sizeof_packet ≤ k
      → proto_recv_packet old datap (image (to_network pkt) ++ rest) (some k ∷ ks)
        ≡ received pkt none rest ks
  unfolding proto_recv_packet recv_body
  proto_recv_packet-empty old datap rest k ks zero_size hk =
      let none_follows : ltb 0 pkt.size ≡ false = ground arith in
      rw (read_loop-full (image old) (image (to_network pkt)) rest k ks (omega arith) hk)
        (recv_header-image old datap rest ks ∙ rw none_follows refl)

  buffer-payload :
      (payload : List ℕ)
      → length payload ≡ pkt.size
      → pkt.size < 2 ^ 31
      → overwrite payload (replicate ((pkt.size + 1) % 2 ^ 32) 0) ≡ payload ++ 0 ∷ []
  buffer-payload payload len small =
      let e : (pkt.size + 1) % 2 ^ 32 ≡ suc pkt.size = omega arith in
      rw (e, len, drop-replicate {A = ℕ} pkt.size 0)

  recv_body-payload :
      (payload rest : List ℕ) (l : ℕ) (ks : Schedule)
      → length payload ≡ pkt.size
      → 0 < pkt.size
      → pkt.size < 2 ^ 31
      → pkt.size ≤ l
      → recv_body true pkt (payload ++ rest) (some l ∷ ks)
        ≡ received pkt (some (payload ++ 0 ∷ [])) rest ks
  unfolding recv_body
  recv_body-payload payload rest l ks len pos small hl = rw (
    lt→ltb _ _ pos,
    positive_int-small pkt.size small,
    read_loop-sized (replicate ((pkt.size + 1) % 2 ^ 32) 0) payload rest pkt.size l ks len pos hl,
    buffer-payload payload len small,
  )

  -- From a header in network byte order and a payload of the size that it states, not empty and
  -- below 2^31, `proto_recv_packet` gets the packet and the payload with a NUL behind it, if the
  -- calls of `read` move all they are asked for; the bytes behind them stay in the stream.
  pub proto_recv_packet-payload :
      (old : Packet) (payload rest : List ℕ) (k l : ℕ) (ks : Schedule)
      → length payload ≡ pkt.size
      → 0 < pkt.size
      → pkt.size < 2 ^ 31
      → sizeof_packet ≤ k
      → pkt.size ≤ l
      → proto_recv_packet old true
          (image (to_network pkt) ++ (payload ++ rest))
          (some k ∷ some l ∷ ks)
        ≡ received pkt (some (payload ++ 0 ∷ [])) rest ks
  unfolding proto_recv_packet
  proto_recv_packet-payload old payload rest k l ks len pos small hk hl =
      rw
        (read_loop-full (image old) (image (to_network pkt)) (payload ++ rest) k (some l ∷ ks)
          (omega arith) hk)
        (recv_header-image old true (payload ++ rest) (some l ∷ ks)
          ∙ recv_body-payload payload rest l ks len pos small hl)

  -- From a header in network byte order that states a payload, `proto_recv_packet` with NULL for
  -- `datap` stores through that pointer, if one call of `read` moves the whole header.
  pub proto_recv_packet-null_datap :
      (old : Packet) (rest : List ℕ) (k : ℕ) (ks : Schedule)
      → 0 < pkt.size
      → sizeof_packet ≤ k
      → proto_recv_packet old false (image (to_network pkt) ++ rest) (some k ∷ ks) ≡ null_datap
  unfolding proto_recv_packet recv_body
  proto_recv_packet-null_datap old rest k ks pos hk =
      rw (read_loop-full (image old) (image (to_network pkt)) rest k ks (omega arith) hk)
        (recv_header-image old false rest ks ∙ rw (lt→ltb _ _ pos) refl)
