-- ===== src/Server/Answer.antt =====
-- What is sent for a GET: a reply, and a data packet with the content of a blob.
use concurrent_server.Common.{
  Option-cases, ℕ, ◌+◌, ◌%◌, ◌^◌, ◌≤◌, ◌<◌, ◌≡◌, refl, ◌∙◌, ap, true, Option, some, none, List, [],
  ◌∷◌, ◌++◌, arith, length, inl, inr,
}
use concurrent_server.Machine.{Ptr, Cmd, trans_pending, Blob, Machine, at}
use concurrent_server.Machine.Points.{load_blob-ok}
use concurrent_server.Store.Copy.{IsWhole}
use concurrent_server.Registry.{ClientRegistry}
use concurrent_server.Protocol.{Packet, Schedule, sizeof_packet, image, to_network, xacto_data_pkt}
use concurrent_server.Protocol.Complete.{
  IsPacket, proto_send_packet-payload, proto_send_packet-empty,
}
use concurrent_server.Session.{returned, and_serve, run, send, packet_type}
use concurrent_server.Server.{send_value, send_data, stamp}
use concurrent_server.Server.Commit.{serving}
use concurrent_server.Server.Request.{reply_packet, send_reply-ok}

abbrev pub null_of : Option (List ℕ) → ℕ
null_of none = 1
null_of (some xs) = 0

abbrev pub bytes_of : Option (List ℕ) → List ℕ
bytes_of none = []
bytes_of (some xs) = xs

pub sized-IsWhole : (b : Blob) → b.size ≡ length (bytes_of b.content) → IsWhole b
sized-IsWhole b size = elim (Option-cases b.content) [
  | inl empty ↦ inl empty
  | inr (xs, full) ↦ inr (xs, full, size ∙ ap (λ c. length (bytes_of c)) full)
]

-- The calls of `write` that a data packet takes.
abbrev pub calls_of : Option (List ℕ) → (k l : ℕ) → Schedule → Schedule
calls_of none k l ws = some k ∷ ws
calls_of (some xs) k l ws = some k ∷ some l ∷ ws

-- The content has bytes, below 2^31 of them, and the second call takes them all; or it is NULL.
abbrev pub CanSend : Option (List ℕ) → ℕ → Type 0
CanSend none l = Unit {0}
CanSend (some xs) l = (0 < length xs) × (length xs < 2 ^ 31) × (length xs ≤ l)

module _ (clock : ℕ → ℕ × ℕ) where
  -- The data packet of a GET.
  abbrev pub data_packet : (ticks : ℕ) → Option (List ℕ) → Packet
  data_packet ticks content = record {
    type = packet_type xacto_data_pkt;
    status = 0;
    null = null_of content;
    pad = 0;
    size = length (bytes_of content);
    timestamp_sec = (clock ticks).0 % 2 ^ 32;
    timestamp_nsec = (clock ticks).1 % 2 ^ 32;
  }

  -- All that was sent once the content of a blob is, too.
  abbrev pub answered : (sent : List ℕ) (ticks : ℕ) → Option (List ℕ) → List ℕ
  answered sent ticks content =
      (sent ++ image (to_network (reply_packet clock ticks)))
      ++ (image (to_network (data_packet (ticks + 1) content)) ++ bytes_of content)

  data_packet-IsPacket :
      (ticks : ℕ) (content : Option (List ℕ)) (l : ℕ)
      → CanSend content l
      → IsPacket (data_packet ticks content)
  data_packet-IsPacket ticks none l can = record {
    size = omega arith;
    timestamp_sec = omega arith;
    timestamp_nsec = omega arith;
  }
  data_packet-IsPacket ticks (some xs) l (pos, small, fits) = record {
    size = omega arith;
    timestamp_sec = omega arith;
    timestamp_nsec = omega arith;
  }

  module _ (wait : Ptr → Cmd (Unit {0})) (m : Machine) (cr : ClientRegistry) (stream : List ℕ)
      (ks : Schedule) (w l : ℕ) (ws : Schedule) (big : sizeof_packet ≤ w) where
    send_data-ok :
        (sent : List ℕ) (old : Packet) (ticks : ℕ) (content : Option (List ℕ))
        → CanSend content l
        → send_data clock wait
            (length (bytes_of content))
            content
            (serving m cr stream ks sent (calls_of content w l ws) old ticks)
          ≡ returned true (
              serving m cr stream ks
                (sent ++ (image (to_network (data_packet ticks content)) ++ bytes_of content))
                ws
                (to_network (data_packet ticks content))
                (ticks + 1))
    unfolding send_data stamp send and_serve
    send_data-ok sent old ticks none can =
        rw
          (proto_send_packet-empty (data_packet ticks none) (data_packet-IsPacket ticks none l can)
            [] w ws refl big)
          refl
    send_data-ok sent old ticks (some xs) (pos, small, fits) =
        rw
          (proto_send_packet-payload (data_packet ticks (some xs))
            (data_packet-IsPacket ticks (some xs) l (pos, small, fits)) xs w l ws refl pos small big
            fits)
          refl

    pub send_value-ok :
        (tp value : Ptr) (b : Blob) (sent : List ℕ) (w' : ℕ) (old : Packet) (ticks : ℕ)
        → at m.blobs value ≡ some b
        → b.size ≡ length (bytes_of b.content)
        → CanSend b.content l
        → sizeof_packet ≤ w'
        → send_value clock wait tp trans_pending value
            (serving m cr stream ks sent (some w' ∷ calls_of b.content w l ws) old ticks)
          ≡ returned trans_pending (
              serving m cr stream ks
                (answered sent ticks b.content)
                ws
                (to_network (data_packet (ticks + 1) b.content))
                (ticks + 1 + 1))
    unfolding send_value run and_serve
    send_value-ok tp value b sent w' old ticks held size can hw =
        rw
          (
            load_blob-ok m value held,
            send_reply-ok clock wait m cr stream ks sent w' (calls_of b.content w l ws) old ticks
                hw,
            size,
            send_data-ok (sent ++ image (to_network (reply_packet clock ticks)))
                (to_network (reply_packet clock ticks)) (ticks + 1) b.content can,
          )
          refl
