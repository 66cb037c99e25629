-- ===== src/Server/Closed.antt =====
-- What the service thread does when the client has closed the connection.
use concurrent_server.Common.{
  ℕ, suc, ◌+◌, ◌%◌, ◌^◌, ◌≤◌, ◌≡◌, refl, false, Option, none, some, List, [], ◌∷◌, ◌++◌, arith,
}
use concurrent_server.Machine.{Ptr, Cmd, trans_pending, trans_aborted, Transaction, Machine, at}
use concurrent_server.Transaction.Dependents.{IsDepends, Alive}
use concurrent_server.Transaction.Abort.{IsShared, aborted_heap, trans_abort-shared}
use concurrent_server.Registry.{ClientRegistry, creg_unregister}
use concurrent_server.Protocol.{Packet, xacto_reply_pkt, Schedule, sizeof_packet, image, to_network}
use concurrent_server.Protocol.Closed.{stored, proto_recv_packet-closed}
use concurrent_server.Protocol.Complete.{IsPacket, proto_send_packet-empty}
use concurrent_server.Session.{
  Session, returned, and_serve, run, recv, send, packet_type, trans_status,
}
use concurrent_server.Server.{stamp, send_reply, service_loop, end_service}

-- A session at the end of its stream, with `datap` allocated.
abbrev pub closed :
    Machine
    → ClientRegistry
    → (reads : Schedule) → (sent : List ℕ) → (writes : Schedule) → Packet
    → (ticks : ℕ) → Session
closed m cr reads sent writes pkt ticks = record {
  machine = m;
  registry = cr;
  stream = [];
  reads = reads;
  sent = sent;
  writes = writes;
  pkt = pkt;
  datap_freed = false;
  ticks = ticks;
}

recv-closed :
    (m : Machine) (cr : ClientRegistry) (x : Option ℕ) (reads : Schedule) (sent : List ℕ)
    (writes : Schedule) (pkt : Packet) (ticks : ℕ)
    → recv false (closed m cr (x ∷ reads) sent writes pkt ticks)
      ≡ returned none (closed m cr reads sent writes (stored pkt) ticks)
unfolding recv
recv-closed m cr x reads sent writes pkt ticks =
    rw (proto_recv_packet-closed pkt false x reads) refl

module _ (clock : ℕ → ℕ × ℕ) (wait : Ptr → Cmd (Unit {0})) where
  -- The reply with the status of an aborted transaction.
  abbrev pub abort_packet : (ticks : ℕ) → Packet
  abort_packet ticks = record {
    type = packet_type xacto_reply_pkt;
    status = trans_status trans_aborted;
    null = 0;
    pad = 0;
    size = 0;
    timestamp_sec = (clock ticks).0 % 2 ^ 32;
    timestamp_nsec = (clock ticks).1 % 2 ^ 32;
  }

  pub abort_packet-IsPacket : (ticks : ℕ) → IsPacket (abort_packet ticks)
  abort_packet-IsPacket ticks = record {
    size = omega arith;
    timestamp_sec = omega arith;
    timestamp_nsec = omega arith;
  }

  module _ (m : Machine) (cr : ClientRegistry) (reads : Schedule) (sent : List ℕ) (pkt : Packet)
      (ticks : ℕ) where
    service_loop-closed :
        (n : ℕ) (x y : Option ℕ) (writes : Schedule) (tp : Ptr) (ts : List Ptr) {t : Transaction}
        → at m.transactions tp ≡ some t
        → IsShared t
        → IsDepends m.dependencies m.fresh 0 t.depends ts
        → Alive m.transactions ts
        → service_loop clock wait
            (suc n)
            tp
            trans_pending
            (closed m cr (x ∷ y ∷ reads) sent writes pkt ticks)
          ≡ returned trans_aborted (
              closed
                (record m { transactions = aborted_heap m.transactions tp t ts })
                cr
                reads
                sent
                writes
                (stored (stored pkt))
                ticks)
    unfolding service_loop and_serve run
    service_loop-closed n x y writes tp ts held shared depends alive =
        rw
          (
            recv-closed m cr x (y ∷ reads) sent writes pkt ticks,
            recv-closed m cr y reads sent writes (stored pkt) ticks,
            trans_abort-shared m tp ts held shared depends alive,
          )
          refl

    end_service-aborted :
        (w : ℕ) (writes : Schedule) (connfd : ℕ) (cr' : ClientRegistry)
        → sizeof_packet ≤ w
        → creg_unregister cr connfd ≡ some cr'
        → end_service clock wait connfd trans_aborted
            (closed m cr reads sent (some w ∷ writes) pkt ticks)
          ≡ returned tt (
              closed m cr' reads
                (sent ++ image (to_network (abort_packet ticks)))
                writes
                (to_network (abort_packet ticks))
                (ticks + 1))
    unfolding end_service send_reply stamp send and_serve
    end_service-aborted w writes connfd cr' big gone =
        rw
          (
            proto_send_packet-empty (abort_packet ticks) (abort_packet-IsPacket ticks) [] w writes
                refl big,
            gone,
          )
          refl

  -- When the client has closed the connection, others hold references to the transaction, its
  -- dependents are allocated, and the next `write` moves a whole packet, the loop and what follows
  -- it return: the transaction and its pending dependents are aborted, a reply with the status
  -- TRANS_ABORTED and the time is sent, and the descriptor is unregistered.
  pub service_loop-end_service :
      (m : Machine) (cr cr' : ClientRegistry) (reads : Schedule) (sent : List ℕ) (pkt : Packet)
      (ticks n : ℕ) (x y : Option ℕ) (w : ℕ) (writes : Schedule) (tp : Ptr) (ts : List Ptr)
      (connfd : ℕ) {t : Transaction}
      → at m.transactions tp ≡ some t
      → IsShared t
      → IsDepends m.dependencies m.fresh 0 t.depends ts
      → Alive m.transactions ts
      → sizeof_packet ≤ w
      → creg_unregister cr connfd ≡ some cr'
      → and_serve
          (service_loop clock wait
            (suc n)
            tp
            trans_pending
            (closed m cr (x ∷ y ∷ reads) sent (some w ∷ writes) pkt ticks))
          (end_service clock wait connfd)
        ≡ returned tt (
            closed
              (record m { transactions = aborted_heap m.transactions tp t ts })
              cr'
              reads
              (sent ++ image (to_network (abort_packet ticks)))
              writes
              (to_network (abort_packet ticks))
              (ticks + 1))
  unfolding and_serve
  service_loop-end_service m cr cr' reads sent pkt ticks n x y w writes tp ts connfd {t} held shared
        depends alive big gone =
      let m' : Machine = record m { transactions = aborted_heap m.transactions tp t ts } in
      rw
        (service_loop-closed m cr reads sent pkt ticks n x y (some w ∷ writes) tp ts held shared
          depends alive)
        (end_service-aborted m' cr reads sent (stored (stored pkt)) ticks w writes connfd cr' big
          gone)
