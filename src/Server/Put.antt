-- ===== src/Server/Put.antt =====
-- A PUT that the history of its key admits.
use concurrent_server.Common.{
  ℕ, suc, ◌+◌, ◌≤◌, ◌≡◌, ◌≢◌, refl, subst, ◌∙◌, ap, true, some, List, ◌∷◌, ◌++◌, arith, ◌==◌,
}
use concurrent_server.Machine.{
  Ptr, null, Cmd, trans_pending, Transaction, MapEntry, Machine, at, write, at-write_self, ok,
}
use concurrent_server.Text.{hash}
use concurrent_server.Entries.Bucket.{Slot}
use concurrent_server.Entries.Find.{Found}
use concurrent_server.Versions.Chain.{Cell}
use concurrent_server.Versions.History.{Access, access_by, history, admit}
use concurrent_server.Versions.Admit.{StandsFor}
use concurrent_server.Store.{store_put}
use concurrent_server.Store.Refine.{Standing, Stored, PutImplements, store_put-refines}
use concurrent_server.Registry.{ClientRegistry}
use concurrent_server.Protocol.{Packet, Schedule, sizeof_packet, image, to_network, xacto_put_pkt}
use concurrent_server.Session.{returned, and_serve, run, packet_type, zero_packet}
use concurrent_server.Server.{handle, handle_put, reply}
use concurrent_server.Server.Commit.{serving}
use concurrent_server.Server.Key.{payload_body, with_payload, blob_create-payload}
use concurrent_server.Server.Request.{
  IsData, recv-data, with_key, key_create-payload, reply_packet, send_reply-ok,
}

module _ (clock : ℕ → ℕ × ℕ) (wait : Ptr → Cmd (Unit {0})) (cr : ClientRegistry) (sent : List ℕ)
    (ticks : ℕ) (tp : Ptr) where
  module _ (m : Machine) (kp vp : Packet) (key value : List ℕ) (k l k' l' i w : ℕ)
      (key_data : IsData kp key k l) (value_data : IsData vp value k' l')
      (fresh_ne : m.fresh ≢ null) (hashed : hash key ≡ some i) (big : sizeof_packet ≤ w)
      (rest : List ℕ) (ks ws : Schedule) where
    -- The machine once the key and the value have arrived.
    abbrev pub requested : Machine
    requested = with_payload (with_key m key kp.size i) value vp.size

    abbrev pub stream : List ℕ
    stream = image (to_network kp) ++ (key ++ (image (to_network vp) ++ (value ++ rest)))

    handle_put-stored :
        (m' : Machine) (old : Packet)
        → store_put tp (suc m.fresh) (suc (suc m.fresh)) requested ≡ ok trans_pending m'
        → handle_put clock wait tp (
            serving m cr stream
              (some k ∷ some l ∷ some k' ∷ some l' ∷ ks)
              sent
              (some w ∷ ws)
              old
              ticks)
          ≡ returned trans_pending (
              serving m' cr rest ks
                (sent ++ image (to_network (reply_packet clock ticks)))
                ws
                (to_network (reply_packet clock ticks))
                (ticks + 1))
    unfolding handle_put reply run and_serve
    handle_put-stored m' old stored =
        rw
          (
            recv-data cr sent (some w ∷ ws) ticks m kp zero_packet key
                (image (to_network vp) ++ (value ++ rest)) k l (some k' ∷ some l' ∷ ks) key_data,
            blob_create-payload m key kp.size key_data.length,
            key_create-payload m key kp.size i fresh_ne hashed,
            recv-data cr sent (some w ∷ ws) ticks (with_key m key kp.size i) vp zero_packet value
                rest k' l' ks value_data,
            blob_create-payload (with_key m key kp.size i) value vp.size value_data.length,
            stored,
            send_reply-ok clock wait m' cr rest ks sent w ws vp ticks big,
          )
          refl

    -- If a client sends a PUT with a key that has a NUL and with a value, `read` and `write` move
    -- whole packets, the list of the key has nothing to collect and the caller, which is pending,
    -- may write to it, and the history of the key admits the access, then the request is answered
    -- with a reply and TRANS_PENDING is the status of the session; the list stands for the history
    -- with the access, and the blob of that has the bytes of the value.
    pub handle-put :
        (old : Packet) (j : ℕ) {ys : List ℕ} {ss : List Slot}
        (found : Found requested j (suc m.fresh) ys ss) {e : MapEntry} {t : Transaction}
        (cs : List Cell) {h : List Access}
        → old.type ≡ packet_type xacto_put_pkt
        → Standing found.machine found.entry tp (suc (suc m.fresh)) e t cs
        → t.status ≡ trans_pending
        → admit (access_by tp (suc (suc m.fresh)) t) (history cs) ≡ some h
        → (m' : Machine) × (handle clock wait tp trans_pending (
              serving m cr stream
                (some k ∷ some l ∷ some k' ∷ some l' ∷ ks)
                sent
                (some w ∷ ws)
                old
                ticks)
            ≡ returned trans_pending (
                serving m' cr rest ks
                  (sent ++ image (to_network (reply_packet clock ticks)))
                  ws
                  (to_network (reply_packet clock ticks))
                  (ticks + 1)))
          × StandsFor m' found.entry h
          × (at m'.blobs (suc (suc m.fresh)) ≡ some (payload_body value vp.size))
    unfolding handle
    handle-put old j found {t} cs {h} type standing pending admitted =
        let is : (old.type == packet_type xacto_put_pkt) ≡ true = rw type refl in
        let done : Stored requested found.machine found.entry tp (suc m.fresh) (suc (suc m.fresh)) t
            h =
          subst
            (PutImplements requested found.machine found.entry tp (suc m.fresh) (suc (suc m.fresh))
              t)
            admitted
            (store_put-refines requested tp (suc m.fresh) j found (suc (suc m.fresh)) cs
              standing) in
        let stored : store_put tp (suc m.fresh) (suc (suc m.fresh)) requested
            ≡ ok trans_pending done.after =
          done.returned ∙ ap (λ s. ok s done.after) pending in
        (
          done.after,
          rw is (handle_put-stored done.after old stored),
          done.list,
          done.value_after
              ∙ found.blobs (suc (suc m.fresh)) (record { hash = i; blob = m.fresh })
                  (at-write_self m.keys (suc m.fresh) _ (omega arith)) (omega arith)
              ∙ at-write_self (write m.blobs m.fresh (some (payload_body key kp.size)))
                  (suc (suc m.fresh)) _ (omega arith),
        )
