-- ===== src/Server/Lost.antt =====
-- A client whose first packet is a COMMIT, and who does not get the reply.
use concurrent_server.Common.{
  ℕ, suc, ◌≤◌, ◌≡◌, ◌≢◌, refl, false, none, some, List, ◌∷◌, ◌++◌, length, ◌==◌, true, [],
}
use concurrent_server.Machine.{
  Ptr, null, trans_list, Cmd, trans_pending, trans_committed, Transaction, Machine, at, ok, fault,
}
use concurrent_server.Transaction.{trans_commit, trans_abort}
use concurrent_server.Transaction.Status.{trans_get_status-ok, trans_abort-freed}
use concurrent_server.Transaction.Dependents.{mem, with_heap}
use concurrent_server.Transaction.Ring.{IsRing}
use concurrent_server.Transaction.Create.{grown, created, trans_create-IsRing}
use concurrent_server.Transaction.Gone.{trans_commit-last}
use concurrent_server.Registry.{ClientRegistry, creg_register}
use concurrent_server.Protocol.{
  Packet, xacto_put_pkt, xacto_get_pkt, xacto_commit_pkt, Schedule, sizeof_packet, image,
  to_network, write_loop, failed, proto_send_packet,
}
use concurrent_server.Protocol.Complete.{IsPacket, proto_recv_packet-empty}
use concurrent_server.Session.{undefined, and_serve, run, recv, send, packet_type, zero_packet}
use concurrent_server.Server.{
  stamp, send_reply, reply, handle_commit, handle, service_loop, xacto_client_service,
}
use concurrent_server.Server.Commit.{serving}

proto_send_packet-failed :
    (pkt : Packet) (payload : List ℕ) (ks : Schedule)
    → proto_send_packet pkt payload (none ∷ ks) ≡ failed [] ks
unfolding proto_send_packet write_loop
proto_send_packet-failed pkt payload ks = refl

module _ (clock : ℕ → ℕ × ℕ) (wait : Ptr → Cmd (Unit {0})) where
  module _ (cr : ClientRegistry) (rest : List ℕ) (ks : Schedule) (sent : List ℕ) (ws : Schedule)
      (ticks : ℕ) (m m' : Machine) (tp : Ptr) (pkt : Packet)
      (type : pkt.type ≡ packet_type xacto_commit_pkt)
      (committed : trans_commit wait tp m ≡ ok trans_committed m')
      (freed : trans_abort tp m' ≡ fault) where
    handle-lost :
        handle clock wait tp trans_pending (serving m cr rest ks sent (none ∷ ws) pkt ticks)
        ≡ undefined
    unfolding handle handle_commit reply send_reply stamp send run and_serve
    handle-lost =
        let no_put : (pkt.type == packet_type xacto_put_pkt) ≡ false = rw type refl in
        let no_get : (pkt.type == packet_type xacto_get_pkt) ≡ false = rw type refl in
        let is : (pkt.type == packet_type xacto_commit_pkt) ≡ true = rw type refl in
        rw (no_put, no_get, is, committed, proto_send_packet-failed, freed) refl

    service_loop-lost :
        (n : ℕ) (old : Packet) (k : ℕ)
        → IsPacket pkt
        → pkt.size ≡ 0
        → sizeof_packet ≤ k
        → service_loop clock wait
            (suc n)
            tp
            trans_pending
            (serving m cr (image (to_network pkt) ++ rest) (some k ∷ ks) sent (none ∷ ws) old ticks)
          ≡ undefined
    unfolding service_loop recv and_serve
    service_loop-lost n old k is no_payload hk =
        rw (proto_recv_packet-empty pkt is old false rest k ks no_payload hk, handle-lost) refl

  -- If the first packet of a client is a COMMIT and the list of all transactions is well formed, but
  -- `write` fails on the reply, `xacto_client_service` is undefined behaviour: it aborts the
  -- transaction that `trans_commit` has freed.
  pub xacto_client_service-lost :
      (m : Machine) (ts : List Ptr) (cr cr1 : ClientRegistry) (connfd : ℕ) (pkt old : Packet)
      (rest : List ℕ) (k : ℕ) (ks : Schedule) (sent : List ℕ) (ws : Schedule) (ticks : ℕ)
      {head : Transaction}
      → IsRing m.transactions ts
      → at m.transactions trans_list ≡ some head
      → mem m.fresh (trans_list ∷ ts) ≡ false
      → m.fresh ≢ null
      → creg_register cr connfd ≡ some cr1
      → IsPacket pkt
      → pkt.type ≡ packet_type xacto_commit_pkt
      → pkt.size ≡ 0
      → sizeof_packet ≤ k
      → xacto_client_service clock wait connfd
          (serving m cr (image (to_network pkt) ++ rest) (some k ∷ ks) sent (none ∷ ws) old ticks)
        ≡ undefined
  unfolding xacto_client_service run and_serve
  xacto_client_service-lost m ts cr cr1 connfd pkt old rest k ks sent ws ticks ring held new
        not_null registered is type no_payload hk =
      let (made, ring', at_new, _) = trans_create-IsRing m ts ring held new not_null in
      let m1 : Machine =
        with_heap (grown m ts ring held new not_null) (created m ts ring held new not_null) in
      let (h, committed, _, gone) =
        trans_commit-last m1 ts m.fresh [] wait ring' at_new refl refl refl in
      rw
        (
          registered,
          made,
          trans_get_status-ok m1 m.fresh at_new,
          service_loop-lost cr1 rest ks sent ws ticks m1 (with_heap m1 h) m.fresh pkt type committed
              (trans_abort-freed (with_heap m1 h) m.fresh gone) (suc (length ks)) zero_packet k is
              no_payload hk,
        )
        refl
