-- ===== src/Server/Request.antt =====
-- The data packets of a request, and the key that is made of the first one.
use concurrent_server.Common.{
  ℕ, suc, ◌+◌, ◌%◌, ◌^◌, ◌≤◌, ◌<◌, ◌≡◌, ◌≢◌, refl, true, some, List, [], ◌∷◌, ◌++◌, arith, length,
}
use concurrent_server.Machine.{Ptr, null, Cmd, Machine, write, at-write_self, ok, and_then, new_key}
use concurrent_server.Machine.Points.{load_blob-ok}
use concurrent_server.Text.{hash}
use concurrent_server.Data.{blob_hash, key_create}
use concurrent_server.Registry.{ClientRegistry}
use concurrent_server.Protocol.{Packet, Schedule, sizeof_packet, image, to_network, xacto_reply_pkt}
use concurrent_server.Protocol.Complete.{
  IsPacket, proto_recv_packet-payload, proto_send_packet-empty,
}
use concurrent_server.Session.{returned, recv, send, packet_type, and_serve}
use concurrent_server.Server.{send_reply, stamp}
use concurrent_server.Server.Commit.{serving}
use concurrent_server.Server.Key.{payload_body, with_payload}

-- A packet with its payload, not empty and below 2^31 bytes, and two calls of `read` or `write`
-- that move the whole of it.
pub record IsData (pkt : Packet) (payload : List ℕ) (k l : ℕ) : Type 0 where
  pub is : IsPacket pkt
  pub length : length payload ≡ pkt.size
  pub pos : 0 < pkt.size
  pub small : pkt.size < 2 ^ 31
  pub header : sizeof_packet ≤ k
  pub body : pkt.size ≤ l

module _ (cr : ClientRegistry) (sent : List ℕ) (ws : Schedule) (ticks : ℕ) where
  pub recv-data :
      (m : Machine) (pkt old : Packet) (payload rest : List ℕ) (k l : ℕ) (ks : Schedule)
      → IsData pkt payload k l
      → recv true (
          serving m cr
            (image (to_network pkt) ++ (payload ++ rest))
            (some k ∷ some l ∷ ks)
            sent
            ws
            old
            ticks)
        ≡ returned (some (some (payload ++ 0 ∷ []))) (serving m cr rest ks sent ws pkt ticks)
  unfolding recv
  recv-data m pkt old payload rest k l ks d =
      rw
        (proto_recv_packet-payload pkt d.is old payload rest k l ks d.length d.pos d.small d.header
          d.body)
        refl

-- The machine with a blob of the payload and a key of that.
abbrev pub with_key : Machine → List ℕ → (size bucket : ℕ) → Machine
with_key m payload n i = record (with_payload m payload n) {
  keys = write m.keys (suc m.fresh) (some (record { hash = i; blob = m.fresh }));
  fresh = suc (suc m.fresh);
}

pub key_create-payload :
    (m : Machine) (payload : List ℕ) (n i : ℕ)
    → m.fresh ≢ null
    → hash payload ≡ some i
    → key_create m.fresh (with_payload m payload n) ≡ ok (suc m.fresh) (with_key m payload n i)
unfolding key_create blob_hash new_key and_then
key_create-payload m payload n i fresh_ne hashed =
    rw
      (
        load_blob-ok (with_payload m payload n) m.fresh
            (at-write_self m.blobs m.fresh (some (payload_body payload n)) fresh_ne),
        hashed,
      )
      refl

module _ (clock : ℕ → ℕ × ℕ) where
  -- The reply to a PUT or a GET.
  abbrev pub reply_packet : (ticks : ℕ) → Packet
  reply_packet ticks = record {
    type = packet_type xacto_reply_pkt;
    status = 0;
    null = 0;
    pad = 0;
    size = 0;
    timestamp_sec = (clock ticks).0 % 2 ^ 32;
    timestamp_nsec = (clock ticks).1 % 2 ^ 32;
  }

  reply_packet-IsPacket : (ticks : ℕ) → IsPacket (reply_packet ticks)
  reply_packet-IsPacket ticks = record {
    size = omega arith;
    timestamp_sec = omega arith;
    timestamp_nsec = omega arith;
  }

  module _ (wait : Ptr → Cmd (Unit {0})) where
    pub send_reply-ok :
        (m : Machine) (cr : ClientRegistry) (stream : List ℕ) (ks : Schedule) (sent : List ℕ)
        (w : ℕ) (ws : Schedule) (old : Packet) (ticks : ℕ)
        → sizeof_packet ≤ w
        → send_reply clock wait 0 (serving m cr stream ks sent (some w ∷ ws) old ticks)
          ≡ returned true (
              serving m cr stream ks
                (sent ++ image (to_network (reply_packet ticks)))
                ws
                (to_network (reply_packet ticks))
                (ticks + 1))
    unfolding send_reply stamp send and_serve
    send_reply-ok m cr stream ks sent w ws old ticks hw =
        rw
          (proto_send_packet-empty (reply_packet ticks) (reply_packet-IsPacket ticks) [] w ws refl
            hw)
          refl
