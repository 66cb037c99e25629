-- ===== src/Protocol/Broken.antt =====
-- A connection that ends between the header of a packet and its payload.
use concurrent_server.Common.{
  ℕ, ◌^◌, ◌≤◌, ◌<◌, ◌≡◌, refl, ◌∙◌, true, false, none, some, List, ◌∷◌, ◌++◌, arith, lt→ltb, ◌==◌,
}
use concurrent_server.Protocol.{
  Packet, Schedule, sizeof_packet, image, to_network, read_loop, recv_body, broken,
  proto_recv_packet,
}
use concurrent_server.Protocol.Words.{positive_int-small}
use concurrent_server.Protocol.Complete.{IsPacket, read_loop-full, recv_header-image}

module _ (pkt : Packet) (is : IsPacket pkt) (pos : 0 < pkt.size) (small : pkt.size < 2 ^ 31) where
  recv_body-broken :
      (rest : List ℕ) (ks : Schedule)
      → recv_body true pkt rest (none ∷ ks) ≡ broken pkt true rest ks
  unfolding recv_body read_loop
  recv_body-broken rest ks =
      let not_zero : (pkt.size == 0) ≡ false = ground arith in
      rw (lt→ltb _ _ pos, positive_int-small pkt.size small, not_zero) refl

  -- The header is read, and the payload is not.
  pub proto_recv_packet-broken :
      (old : Packet) (rest : List ℕ) (k : ℕ) (ks : Schedule)
      → sizeof_packet ≤ k
      → proto_recv_packet old true (image (to_network pkt) ++ rest) (some k ∷ none ∷ ks)
        ≡ broken pkt true rest ks
  unfolding proto_recv_packet
  proto_recv_packet-broken old rest k ks hk =
      rw (read_loop-full (image old) (image (to_network pkt)) rest k (none ∷ ks) (omega arith) hk)
        (recv_header-image pkt is old true rest (none ∷ ks) ∙ recv_body-broken rest ks)
