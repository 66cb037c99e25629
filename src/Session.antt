-- ===== src/Session.antt =====
-- What a service thread of src/server.c works on, and its calls of the other parts. A call does
-- not return where `read` or `write` has no further entry in its list.
use concurrent_server.Common.{ℕ, Bool, true, false, ◌||◌, Option, none, some, List, ◌++◌}
use concurrent_server.Machine.{
  Ptr, TransStatus, trans_pending, trans_committed, trans_aborted, Machine, Run, Cmd, ok, fault,
  blocked, out_of_fuel,
}
use concurrent_server.Transaction.{trans_abort}
use concurrent_server.Data.{blob_create}
use concurrent_server.Registry.{ClientRegistry}
use concurrent_server.Protocol.{
  Packet, PacketType, xacto_no_pkt, xacto_put_pkt, xacto_get_pkt, xacto_data_pkt, xacto_commit_pkt,
  xacto_reply_pkt, to_network, Schedule, Transfer, done, failed, waiting, proto_send_packet,
  Received, received, broken, pending, null_datap, proto_recv_packet,
}

abbrev pub packet_type : PacketType → ℕ
packet_type xacto_no_pkt = 0
packet_type xacto_put_pkt = 1
packet_type xacto_get_pkt = 2
packet_type xacto_data_pkt = 3
packet_type xacto_commit_pkt = 4
packet_type xacto_reply_pkt = 5

abbrev pub trans_status : TransStatus → ℕ
trans_status trans_pending = 0
trans_status trans_committed = 1
trans_status trans_aborted = 2

-- What the thread works on: the store, the registry, the bytes that are still to arrive and those
-- that were sent, what `read` and `write` will move, the local `pkt`, and whether `datap` was
-- freed by `proto_recv_packet`. `ticks` counts the calls of `clock_gettime`.
pub record Session : Type 0 where
  pub machine : Machine
  pub registry : ClientRegistry
  pub stream : List ℕ
  pub reads : Schedule
  pub sent : List ℕ
  pub writes : Schedule
  pub pkt : Packet
  pub datap_freed : Bool
  pub ticks : ℕ

-- `undefined` is undefined behaviour, `hangs` a call that does not return, `spent` a loop that has
-- used up its rounds.
pub data Outcome (A : Type 0) : Type 0 where
  returned : A → Session → Outcome A
  undefined hangs spent : Outcome A

abbrev pub Serve : Type 0 → Type 0
Serve A = Session → Outcome A

module _ {A B : Type 0} where
  unfoldable pub and_serve : Outcome A → (A → Serve B) → Outcome B
  and_serve (returned a s) k = k a s
  and_serve undefined k = undefined
  and_serve hangs k = hangs
  and_serve spent k = spent

  infixl 5 ◌>>=◌ ◌>>◌
  abbrev pub ◌>>=◌ : Serve A → (A → Serve B) → Serve B
  c >>= k = λ s. and_serve (c s) k

  abbrev pub ◌>>◌ : Serve A → Serve B → Serve B
  c >> d = c >>= λ _. d

-- A command on the store.
abbrev pub run_result : {A : Type 0} → Session → Run A → Outcome A
run_result s (ok a m) = returned a (record s { machine = m })
run_result s fault = undefined
run_result s blocked = hangs
run_result s out_of_fuel = spent

unfoldable pub run : {A : Type 0} → Cmd A → Serve A
run c s = run_result s (c s.machine)

abbrev pub zero_packet : Packet
zero_packet = record {
  type = 0;
  status = 0;
  null = 0;
  pad = 0;
  size = 0;
  timestamp_sec = 0;
  timestamp_nsec = 0;
}

-- `memset(&pkt, 0, sizeof(XACTO_PACKET))`.
abbrev pub clear_packet : Serve (Unit {0})
clear_packet s = returned tt (record s { pkt = zero_packet })

-- `proto_recv_packet`: `none` is the result -1, `some` has the payload.
abbrev pub recv_result : Session → Received → Outcome (Option (Option (List ℕ)))
recv_result s (received pkt payload stream ks) =
    returned (some payload) (record s { pkt = pkt; stream = stream; reads = ks })
recv_result s (broken pkt freed stream ks) =
    returned none
      (record s { pkt = pkt; stream = stream; reads = ks; datap_freed = s.datap_freed || freed })
recv_result s pending = hangs
recv_result s null_datap = undefined

unfoldable pub recv : (datap : Bool) → Serve (Option (Option (List ℕ)))
recv datap s = recv_result s (proto_recv_packet s.pkt datap s.stream s.reads)

-- `proto_send_packet`: `true` is the result 0. It leaves the packet in network byte order.
abbrev pub send_result : Session → Transfer (List ℕ) → Outcome Bool
send_result s (done bytes ks) =
    returned true (record s { pkt = to_network s.pkt; sent = s.sent ++ bytes; writes = ks })
send_result s (failed bytes ks) =
    returned false (record s { pkt = to_network s.pkt; sent = s.sent ++ bytes; writes = ks })
send_result s (waiting _) = hangs

unfoldable pub send : (payload : List ℕ) → Serve Bool
send payload s = send_result s (proto_send_packet s.pkt payload s.writes)

-- The blob of a payload that was received.
abbrev pub payload_blob : Option (List ℕ) → Serve Ptr
payload_blob payload s = run (blob_create payload s.pkt.size) s

abbrev pub abort : Ptr → Serve TransStatus
abort tp = run (trans_abort tp)
