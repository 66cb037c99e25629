-- ===== src/Server/Broken.antt =====
-- A client whose connection ends between the header and the payload of a key.
use concurrent_server.Common.{
  ℕ, suc, ◌^◌, ◌≤◌, ◌<◌, ◌≡◌, ◌≢◌, refl, true, false, none, some, List, ◌∷◌, ◌++◌, length, ◌==◌, [],
}
use concurrent_server.Machine.{
  Ptr, null, trans_list, Cmd, trans_pending, trans_aborted, Transaction, Machine, at, ok,
}
use concurrent_server.Transaction.{trans_abort}
use concurrent_server.Transaction.Status.{trans_get_status-ok}
use concurrent_server.Transaction.Dependents.{mem, with_heap}
use concurrent_server.Transaction.Ring.{IsRing}
use concurrent_server.Transaction.Create.{grown, created, trans_create-IsRing}
use concurrent_server.Transaction.Gone.{trans_abort-last}
use concurrent_server.Registry.{ClientRegistry, creg_register}
use concurrent_server.Protocol.{Packet, xacto_put_pkt, Schedule, sizeof_packet, image, to_network}
use concurrent_server.Protocol.Broken.{proto_recv_packet-broken}
use concurrent_server.Protocol.Complete.{IsPacket, proto_recv_packet-empty, proto_send_packet-empty}
use concurrent_server.Session.{
  Session, returned, undefined, and_serve, run, recv, send, packet_type, zero_packet,
}
use concurrent_server.Server.{
  stamp, send_reply, handle_put, handle, service_loop, end_service, xacto_client_service,
}
use concurrent_server.Server.Closed.{abort_packet, abort_packet-IsPacket}
use concurrent_server.Server.Commit.{serving}

module _ (clock : ℕ → ℕ × ℕ) (wait : Ptr → Cmd (Unit {0})) where
  -- A session whose `datap` was freed.
  abbrev freed :
      Machine
      → ClientRegistry
      → (stream : List ℕ) (reads : Schedule) (sent : List ℕ) (writes : Schedule) → Packet
      → (ticks : ℕ) → Session
  freed m cr stream reads sent writes pkt ticks =
      record (serving m cr stream reads sent writes pkt ticks) { datap_freed = true }

  module _ (cr : ClientRegistry) (rest : List ℕ) (ks : Schedule) (sent : List ℕ) (w : ℕ)
      (ws : Schedule) (ticks : ℕ) where
    end_service-freed :
        (m : Machine) (connfd : ℕ) (pkt : Packet)
        → sizeof_packet ≤ w
        → end_service clock wait connfd trans_aborted
            (freed m cr rest ks sent (some w ∷ ws) pkt ticks)
          ≡ undefined
    unfolding end_service send_reply stamp send and_serve
    end_service-freed m connfd pkt big =
        rw
          (proto_send_packet-empty (abort_packet clock wait ticks)
            (abort_packet-IsPacket clock wait ticks) [] w ws refl big)
          refl

    module _ (put key : Packet) (is_put : IsPacket put) (is_key : IsPacket key)
        (type : put.type ≡ packet_type xacto_put_pkt) (no_payload : put.size ≡ 0)
        (pos : 0 < key.size) (small : key.size < 2 ^ 31) (k l : ℕ) (hk : sizeof_packet ≤ k)
        (hl : sizeof_packet ≤ l) where
      handle-broken :
          (m m' : Machine) (tp : Ptr)
          → trans_abort tp m ≡ ok trans_aborted m'
          → handle clock wait tp trans_pending (
              serving m cr
                (image (to_network key) ++ rest)
                (some l ∷ none ∷ ks)
                sent
                (some w ∷ ws)
                put
                ticks)
            ≡ returned trans_aborted (freed m' cr rest ks sent (some w ∷ ws) key ticks)
      unfolding handle handle_put recv run and_serve
      handle-broken m m' tp aborted =
          let is : (put.type == packet_type xacto_put_pkt) ≡ true = rw type refl in
          rw (is, proto_recv_packet-broken key is_key pos small zero_packet rest l ks hl, aborted)
            refl

      service_loop-broken :
          (n : ℕ) (m m' : Machine) (tp : Ptr) (old : Packet)
          → trans_abort tp m ≡ ok trans_aborted m'
          → service_loop clock wait (suc (suc n)) tp trans_pending (
              serving m cr
                (image (to_network put) ++ (image (to_network key) ++ rest))
                (some k ∷ some l ∷ none ∷ ks)
                sent
                (some w ∷ ws)
                old
                ticks)
            ≡ returned trans_aborted (freed m' cr rest ks sent (some w ∷ ws) key ticks)
      unfolding service_loop recv and_serve
      service_loop-broken n m m' tp old aborted =
          rw
            (
              proto_recv_packet-empty put is_put old false (image (to_network key) ++ rest) k
                  (some l ∷ none ∷ ks) no_payload hk,
              handle-broken m m' tp aborted,
            )
            refl

  -- If a client sends a PUT and the header of a key with a payload below 2^31 bytes, `read` then
  -- fails, and the list of all transactions is well formed, `xacto_client_service` is undefined
  -- behaviour: it frees `datap`, which `proto_recv_packet` has freed.
  pub xacto_client_service-broken :
      (m : Machine) (ts : List Ptr) (cr cr1 : ClientRegistry) (connfd : ℕ) (put key old : Packet)
      (rest : List ℕ) (k l w : ℕ) (ks : Schedule) (sent : List ℕ) (ws : Schedule) (ticks : ℕ)
      {head : Transaction}
      → IsRing m.transactions ts
      → at m.transactions trans_list ≡ some head
      → mem m.fresh (trans_list ∷ ts) ≡ false
      → m.fresh ≢ null
      → creg_register cr connfd ≡ some cr1
      → IsPacket put
      → IsPacket key
      → put.type ≡ packet_type xacto_put_pkt
      → put.size ≡ 0
      → 0 < key.size
      → key.size < 2 ^ 31
      → sizeof_packet ≤ k
      → sizeof_packet ≤ l
      → sizeof_packet ≤ w
      → xacto_client_service clock wait connfd (
          serving m cr
            (image (to_network put) ++ (image (to_network key) ++ rest))
            (some k ∷ some l ∷ none ∷ ks)
            sent
            (some w ∷ ws)
            old
            ticks)
        ≡ undefined
  unfolding xacto_client_service run and_serve
  xacto_client_service-broken m ts cr cr1 connfd put key old rest k l w ks sent ws ticks ring held
        new not_null registered is_put is_key type no_payload pos small hk hl hw =
      let (made, ring', at_new, _) = trans_create-IsRing m ts ring held new not_null in
      let m1 : Machine =
        with_heap (grown m ts ring held new not_null) (created m ts ring held new not_null) in
      let (h, aborted, _, _) = trans_abort-last m1 ts m.fresh [] ring' at_new refl refl in
      rw
        (
          registered,
          made,
          trans_get_status-ok m1 m.fresh at_new,
          service_loop-broken cr1 rest ks sent w ws ticks put key is_put is_key type no_payload pos
              small k l hk hl (suc (suc (length ks))) m1 (with_heap m1 h) m.fresh zero_packet
              aborted,
          end_service-freed cr1 rest ks sent w ws ticks (with_heap m1 h) connfd key hw,
        )
        refl
