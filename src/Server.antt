-- ===== src/Server.antt =====
-- `xacto_client_service` of src/server.c, for one client: what the other threads do between two
-- calls is not part of a run, but for the wait of `trans_commit`, which is a parameter, as is the
-- time that the calls of `clock_gettime` give.
pub mod Closed
pub mod Commit
pub mod Lost
pub mod Key
pub mod Request
pub mod Put
pub mod Answer
pub mod Get
pub mod Broken
use concurrent_server.Common.{
  ℕ, zero, suc, ◌+◌, ◌%◌, ◌^◌, Bool, true, false, Option, none, some, List, [], ◌==◌, if◌then◌else◌,
  length,
}
use concurrent_server.Machine.{
  Ptr, null, TransStatus, trans_committed, trans_aborted, Cmd, load_blob,
}
use concurrent_server.Transaction.{
  is_pending, is_aborted, trans_create, trans_get_status, trans_commit,
}
use concurrent_server.Data.{key_create}
use concurrent_server.Store.{store_put, store_get}
use concurrent_server.Registry.{ClientRegistry, creg_register, creg_unregister}
use concurrent_server.Protocol.{
  xacto_put_pkt, xacto_get_pkt, xacto_data_pkt, xacto_commit_pkt, xacto_reply_pkt,
}
use concurrent_server.Session.{
  packet_type, trans_status, spent, Session, Outcome, returned, undefined, Serve, ◌>>=◌, ◌>>◌, run,
  clear_packet, recv, send, payload_blob, abort,
}

module _ (clock : ℕ → ℕ × ℕ) (wait : Ptr → Cmd (Unit {0})) where
  -- A packet with the time, filled in from zero.
  unfoldable pub stamp : (type status null size : ℕ) → Serve (Unit {0})
  stamp type status null size s = returned tt (record s {
    pkt = record {
      type = type;
      status = status;
      null = null;
      pad = 0;
      size = size;
      timestamp_sec = (clock s.ticks).0 % 2 ^ 32;
      timestamp_nsec = (clock s.ticks).1 % 2 ^ 32;
    };
    ticks = s.ticks + 1;
  })

  -- The reply header, whose payload is empty.
  unfoldable pub send_reply : (status : ℕ) → Serve Bool
  send_reply status = do stamp (packet_type xacto_reply_pkt) status 0 0; send []

  -- A reply behind which the request is done, with `status` as the new `current_status`.
  unfoldable pub reply : (tp : Ptr) (status : TransStatus) (code : ℕ) → Serve TransStatus
  reply tp status code = do sent ← send_reply code; if sent then returned status else abort tp

  unfoldable pub handle_put : Ptr → Serve TransStatus
  handle_put tp = do
    clear_packet
    key_data ← recv true
    elim key_data [
      | none ↦ abort tp
      | some key_payload ↦ do
        key_blob ← payload_blob key_payload
        key ← run (key_create key_blob)
        clear_packet
        data_read ← recv true
        elim data_read [
          | none ↦ abort tp
          | some payload ↦ do
            value ← payload_blob payload
            status ← run (store_put tp key value)
            if is_aborted status then returned status else reply tp status 0
        ]
    ]

  -- The data packet behind the reply to a GET; NULL content has no bytes.
  unfoldable pub send_data : (size : ℕ) (content : Option (List ℕ)) → Serve Bool
  send_data size none = do stamp (packet_type xacto_data_pkt) 0 1 0; send []
  send_data size (some bytes) = do stamp (packet_type xacto_data_pkt) 0 0 size; send bytes

  unfoldable pub send_value : (tp : Ptr) (status : TransStatus) (value : Ptr) → Serve TransStatus
  send_value tp status value = do
    b ← run (load_blob value)
    reply_sent ← send_reply 0
    if reply_sent
        then (do
          data_sent ← send_data b.size b.content
          if data_sent then returned status else abort tp)
        else abort tp

  unfoldable pub handle_get : Ptr → Serve TransStatus
  handle_get tp = do
    clear_packet
    key_data ← recv true
    elim key_data [
      | none ↦ abort tp
      | some key_payload ↦ do
        key_blob ← payload_blob key_payload
        key ← run (key_create key_blob)
        (status, value) ← run (store_get tp key)
        if is_aborted status then returned status else send_value tp status value
    ]

  unfoldable pub handle_commit : Ptr → Serve TransStatus
  handle_commit tp = do
    status ← run (trans_commit wait tp)
    if is_aborted status then returned status else reply tp status (trans_status trans_committed)

  -- The `switch` on the type of the packet; another type is ignored.
  unfoldable pub handle : (tp : Ptr) → TransStatus → Serve TransStatus
  handle tp status s =
      if s.pkt.type == packet_type xacto_put_pkt
      then handle_put tp s
      else if s.pkt.type == packet_type xacto_get_pkt
      then handle_get tp s
      else if s.pkt.type == packet_type xacto_commit_pkt
      then handle_commit tp s
      else returned status s

  -- Where the packet could not be received, the call is made once more; if that succeeds, its packet
  -- is passed over and the loop goes on.
  abbrev pub receive_again : (tp : Ptr) (go_on : Serve TransStatus) → Serve TransStatus
  receive_again tp go_on = do again ← recv false; elim again [ none ↦ abort tp | some _ ↦ go_on ]

  unfoldable pub service_loop : (fuel : ℕ) (tp : Ptr) → TransStatus → Serve TransStatus
  service_loop zero tp status = λ _. spent
  service_loop (suc k) tp status =
      if is_pending status
      then (do
        header ← recv false
        elim header [
          | some _ ↦ do status' ← handle tp status; service_loop k tp status'
          | none ↦ receive_again tp (service_loop k tp status)
        ])
      else returned status

  abbrev pub registry_result : Session → Option ClientRegistry → Outcome (Unit {0})
  registry_result s none = undefined
  registry_result s (some registry) = returned tt (record s { registry = registry })

  abbrev pub on_registry :
      (ClientRegistry → ℕ → Option ClientRegistry) → (connfd : ℕ) → Serve (Unit {0})
  on_registry f connfd s = registry_result s (f s.registry connfd)

  -- `free(datap)`, when `proto_recv_packet` may have freed it.
  abbrev pub free_datap : Serve (Unit {0})
  free_datap s = if s.datap_freed then undefined else returned tt s

  -- Behind the loop.
  unfoldable pub end_service : (connfd : ℕ) → TransStatus → Serve (Unit {0})
  end_service connfd status = do
    if is_aborted status
        then (do send_reply (trans_status trans_aborted); returned tt)
        else returned tt
    free_datap
    on_registry creg_unregister connfd

  -- Each round of the loop takes a call of `read` at least.
  unfoldable pub xacto_client_service : (connfd : ℕ) → Serve (Unit {0})
  xacto_client_service connfd = do
    on_registry creg_register connfd
    tp ← run trans_create
    clear_packet
    status ← run (trans_get_status tp)
    status ← (λ s. service_loop (suc (length s.reads)) tp status s)
    end_service connfd status
