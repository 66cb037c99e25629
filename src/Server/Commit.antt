-- ===== src/Server/Commit.antt =====
-- A client whose first packet is a COMMIT.
use concurrent_server.Common.{
  ℕ, suc, ◌+◌, ◌%◌, ◌^◌, ◌≤◌, ◌≡◌, ◌≢◌, refl, ap, subst, true, false, none, some, List, [], ◌∷◌,
  ◌++◌, arith, length, ◌==◌,
}
use concurrent_server.Machine.{
  Ptr, null, trans_list, Cmd, trans_pending, trans_committed, Transaction, Heap, Machine, at, ok,
}
use concurrent_server.Transaction.{trans_commit}
use concurrent_server.Transaction.Status.{trans_get_status-ok}
use concurrent_server.Transaction.Dependents.{mem, with_heap}
use concurrent_server.Transaction.Ring.{IsRing}
use concurrent_server.Transaction.Create.{grown, created, trans_create-IsRing}
use concurrent_server.Transaction.Gone.{trans_commit-last}
use concurrent_server.Registry.{ClientRegistry, creg_register, creg_unregister}
use concurrent_server.Protocol.{
  Packet, xacto_put_pkt, xacto_get_pkt, xacto_commit_pkt, xacto_reply_pkt, Schedule, sizeof_packet,
  image, to_network,
}
use concurrent_server.Protocol.Complete.{IsPacket, proto_send_packet-empty, proto_recv_packet-empty}
use concurrent_server.Session.{
  Session, returned, and_serve, run, recv, send, packet_type, trans_status, zero_packet,
}
use concurrent_server.Server.{
  stamp, send_reply, reply, handle_commit, handle, service_loop, end_service, xacto_client_service,
}

-- A session with `datap` allocated.
abbrev pub serving :
    Machine
    → ClientRegistry
    → (stream : List ℕ) (reads : Schedule) (sent : List ℕ) (writes : Schedule) → Packet
    → (ticks : ℕ) → Session
serving m cr stream reads sent writes pkt ticks = record {
  machine = m;
  registry = cr;
  stream = stream;
  reads = reads;
  sent = sent;
  writes = writes;
  pkt = pkt;
  datap_freed = false;
  ticks = ticks;
}

append_nil : (ts : List Ptr) → ts ++ [] ≡ ts
append_nil [] = refl
append_nil (t ∷ ts) = ap (λ l. t ∷ l) (append_nil ts)

module _ (clock : ℕ → ℕ × ℕ) (wait : Ptr → Cmd (Unit {0})) where
  -- The reply with the status of a committed transaction.
  abbrev pub commit_packet : (ticks : ℕ) → Packet
  commit_packet ticks = record {
    type = packet_type xacto_reply_pkt;
    status = trans_status trans_committed;
    null = 0;
    pad = 0;
    size = 0;
    timestamp_sec = (clock ticks).0 % 2 ^ 32;
    timestamp_nsec = (clock ticks).1 % 2 ^ 32;
  }

  commit_packet-IsPacket : (ticks : ℕ) → IsPacket (commit_packet ticks)
  commit_packet-IsPacket ticks = record {
    size = omega arith;
    timestamp_sec = omega arith;
    timestamp_nsec = omega arith;
  }

  module _ (cr : ClientRegistry) (rest : List ℕ) (ks : Schedule) (sent : List ℕ) (w : ℕ)
      (ws : Schedule) (ticks : ℕ) (big : sizeof_packet ≤ w) where
    abbrev replied : Machine → Session
    replied m =
        serving m cr rest ks (sent ++ image (to_network (commit_packet ticks))) ws
          (to_network (commit_packet ticks)) (ticks + 1)

    handle-commit :
        (m m' : Machine) (tp : Ptr) (pkt : Packet)
        → pkt.type ≡ packet_type xacto_commit_pkt
        → trans_commit wait tp m ≡ ok trans_committed m'
        → handle clock wait tp trans_pending (serving m cr rest ks sent (some w ∷ ws) pkt ticks)
          ≡ returned trans_committed (replied m')
    unfolding handle handle_commit reply send_reply stamp send run and_serve
    handle-commit m m' tp pkt type committed =
        let no_put : (pkt.type == packet_type xacto_put_pkt) ≡ false = rw type refl in
        let no_get : (pkt.type == packet_type xacto_get_pkt) ≡ false = rw type refl in
        let is : (pkt.type == packet_type xacto_commit_pkt) ≡ true = rw type refl in
        rw
          (
            no_put,
            no_get,
            is,
            committed,
            proto_send_packet-empty (commit_packet ticks) (commit_packet-IsPacket ticks) [] w ws
                refl big,
          )
          refl

    -- One round of the loop takes the packet, and the next one ends it.
    service_loop-commit :
        (n : ℕ) (m m' : Machine) (tp : Ptr) (old pkt : Packet) (k : ℕ)
        → IsPacket pkt
        → pkt.type ≡ packet_type xacto_commit_pkt
        → pkt.size ≡ 0
        → sizeof_packet ≤ k
        → trans_commit wait tp m ≡ ok trans_committed m'
        → service_loop clock wait (suc (suc n)) tp trans_pending (
            serving m cr
              (image (to_network pkt) ++ rest)
              (some k ∷ ks)
              sent
              (some w ∷ ws)
              old
              ticks)
          ≡ returned trans_committed (replied m')
    unfolding service_loop recv and_serve
    service_loop-commit n m m' tp old pkt k is type no_payload hk committed =
        rw
          (
            proto_recv_packet-empty pkt is old false rest k ks no_payload hk,
            handle-commit m m' tp pkt type committed,
          )
          refl

  -- If the first packet of a client is a COMMIT, `read` and `write` move whole packets, and the list
  -- of all transactions is well formed, `xacto_client_service` returns: a transaction was made,
  -- committed, taken out of the list again and freed, the reply with the status TRANS_COMMITTED was
  -- sent, the descriptor was registered and unregistered, and the rest of the stream was not read.
  pub xacto_client_service-commit :
      (m : Machine) (ts : List Ptr) (cr cr1 cr2 : ClientRegistry) (connfd : ℕ) (pkt old : Packet)
      (rest : List ℕ) (k w : ℕ) (ks : Schedule) (sent : List ℕ) (ws : Schedule) (ticks : ℕ)
      {head : Transaction}
      → IsRing m.transactions ts
      → at m.transactions trans_list ≡ some head
      → mem m.fresh (trans_list ∷ ts) ≡ false
      → m.fresh ≢ null
      → creg_register cr connfd ≡ some cr1
      → creg_unregister cr1 connfd ≡ some cr2
      → IsPacket pkt
      → pkt.type ≡ packet_type xacto_commit_pkt
      → pkt.size ≡ 0
      → sizeof_packet ≤ k
      → sizeof_packet ≤ w
      → (h : Heap Transaction) × (xacto_client_service clock wait connfd (
            serving m cr
              (image (to_network pkt) ++ rest)
              (some k ∷ ks)
              sent
              (some w ∷ ws)
              old
              ticks)
          ≡ returned tt (
              serving
                (record m { transactions = h; fresh = suc m.fresh })
                cr2
                rest
                ks
                (sent ++ image (to_network (commit_packet ticks)))
                ws
                (to_network (commit_packet ticks))
                (ticks + 1)))
        × IsRing h ts
        × (at h m.fresh ≡ none)
  unfolding xacto_client_service end_service run and_serve
  xacto_client_service-commit m ts cr cr1 cr2 connfd pkt old rest k w ks sent ws ticks {head} ring
        held new not_null registered unregistered is type no_payload hk hw =
      let (made, ring', at_new, _) = trans_create-IsRing m ts ring held new not_null in
      let m1 : Machine =
        with_heap (grown m ts ring held new not_null) (created m ts ring held new not_null) in
      let (h, committed, ring'', gone) =
        trans_commit-last m1 ts m.fresh [] wait ring' at_new refl refl refl in
      (
        h,
        rw
            (
              registered,
              made,
              trans_get_status-ok m1 m.fresh at_new,
              service_loop-commit cr1 rest ks sent w ws ticks hw (length ks) m1 (with_heap m1 h)
                  m.fresh zero_packet pkt k is type no_payload hk committed,
              unregistered,
            )
            refl,
        subst (IsRing h) (append_nil ts) ring'',
        gone,
      )
