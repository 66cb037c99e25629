-- ===== src/Server/Get.antt =====
-- A GET that the history of its key admits.
use concurrent_server.Common.{
  ℕ, suc, ◌+◌, ◌≤◌, ◌≡◌, ◌≢◌, refl, subst, ◌∙◌, ap, true, false, some, List, ◌∷◌, ◌++◌, ◌==◌,
  length,
}
use concurrent_server.Machine.{
  Ptr, null, Cmd, trans_pending, Blob, Transaction, MapEntry, Machine, at, ok,
}
use concurrent_server.Text.{hash}
use concurrent_server.Entries.Bucket.{Slot}
use concurrent_server.Entries.Find.{Found}
use concurrent_server.Versions.Chain.{Cell}
use concurrent_server.Versions.History.{Access, access_by, history, admit}
use concurrent_server.Versions.Admit.{StandsFor}
use concurrent_server.Store.{store_get}
use concurrent_server.Store.Copy.{IsWhole, copied}
use concurrent_server.Store.Refine.{Standing}
use concurrent_server.Store.Fetch.{Fetched, GetImplements, latest_blob, store_get-refines}
use concurrent_server.Registry.{ClientRegistry}
use concurrent_server.Protocol.{
  Packet, Schedule, sizeof_packet, image, to_network, xacto_put_pkt, xacto_get_pkt,
}
use concurrent_server.Session.{returned, and_serve, run, packet_type, zero_packet}
use concurrent_server.Server.{handle, handle_get}
use concurrent_server.Server.Commit.{serving}
use concurrent_server.Server.Key.{blob_create-payload}
use concurrent_server.Server.Request.{IsData, recv-data, with_key, key_create-payload}
use concurrent_server.Server.Answer.{
  bytes_of, sized-IsWhole, calls_of, CanSend, data_packet, answered, send_value-ok,
}

module _ (clock : ℕ → ℕ × ℕ) (wait : Ptr → Cmd (Unit {0})) (cr : ClientRegistry) (sent : List ℕ)
    (ticks : ℕ) (tp : Ptr) where
  module _ (m : Machine) (kp : Packet) (key : List ℕ) (k l i w w' l' : ℕ)
      (key_data : IsData kp key k l) (fresh_ne : m.fresh ≢ null) (hashed : hash key ≡ some i)
      (big : sizeof_packet ≤ w) (big' : sizeof_packet ≤ w') (rest : List ℕ) (ks ws : Schedule) where
    -- The machine once the key has arrived.
    abbrev pub asked : Machine
    asked = with_key m key kp.size i

    handle_get-fetched :
        (m' : Machine) (value : Ptr) (b : Blob) (old : Packet)
        → store_get tp (suc m.fresh) asked ≡ ok (trans_pending, value) m'
        → at m'.blobs value ≡ some b
        → b.size ≡ length (bytes_of b.content)
        → CanSend b.content l'
        → handle_get clock wait tp (
            serving m cr
              (image (to_network kp) ++ (key ++ rest))
              (some k ∷ some l ∷ ks)
              sent
              (some w ∷ calls_of b.content w' l' ws)
              old
              ticks)
          ≡ returned trans_pending (
              serving m' cr rest ks
                (answered clock sent ticks b.content)
                ws
                (to_network (data_packet clock (ticks + 1) b.content))
                (ticks + 1 + 1))
    unfolding handle_get run and_serve
    handle_get-fetched m' value b old fetched held size can =
        rw
          (
            recv-data cr sent (some w ∷ calls_of b.content w' l' ws) ticks m kp zero_packet key rest
                k l ks key_data,
            blob_create-payload m key kp.size key_data.length,
            key_create-payload m key kp.size i fresh_ne hashed,
            fetched,
            send_value-ok clock wait m' cr rest ks w' l' ws big' tp value b sent w kp ticks held
                size can big,
          )
          refl

    -- If a client sends a GET with a key that has a NUL, `read` and `write` move whole packets, the
    -- list of the key has nothing to collect and the caller, which is pending, may write to it, the
    -- blob of the last version, of NULL where there is none, has its size and below 2^31 bytes, and
    -- the history of the key admits the access, then a reply and a data packet with the content of
    -- that blob are sent, TRANS_PENDING is the status of the session, and the list stands for the
    -- history with the access.
    pub handle-get :
        (old : Packet) (j : ℕ) {ys : List ℕ} {ss : List Slot}
        (found : Found asked j (suc m.fresh) ys ss) {e : MapEntry} {t : Transaction} {b : Blob}
        (cs : List Cell) {h : List Access}
        → old.type ≡ packet_type xacto_get_pkt
        → Standing found.machine found.entry tp found.machine.fresh e t cs
        → t.status ≡ trans_pending
        → latest_blob found.machine cs ≡ some b
        → b.size ≡ length (bytes_of b.content)
        → CanSend b.content l'
        → found.machine.fresh ≢ null
        → admit (access_by tp found.machine.fresh t) (history cs) ≡ some h
        → (m' : Machine) × (handle clock wait tp trans_pending (
              serving m cr
                (image (to_network kp) ++ (key ++ rest))
                (some k ∷ some l ∷ ks)
                sent
                (some w ∷ calls_of b.content w' l' ws)
                old
                ticks)
            ≡ returned trans_pending (
                serving m' cr rest ks
                  (answered clock sent ticks b.content)
                  ws
                  (to_network (data_packet clock (ticks + 1) b.content))
                  (ticks + 1 + 1)))
          × StandsFor m' found.entry h
    unfolding handle
    handle-get old j found {t} {b} cs {h} type standing pending latest size can ne admitted =
        let m1 : Machine = found.machine in
        let no_put : (old.type == packet_type xacto_put_pkt) ≡ false = rw type refl in
        let is : (old.type == packet_type xacto_get_pkt) ≡ true = rw type refl in
        let whole : IsWhole b = sized-IsWhole b size in
        let done : Fetched asked found.entry tp (suc m.fresh) m1.fresh t b h =
          subst (GetImplements asked m1 found.entry tp (suc m.fresh) m1.fresh t b cs) admitted
            (store_get-refines asked tp (suc m.fresh) j found cs standing latest whole ne) in
        let fetched : store_get tp (suc m.fresh) asked ≡ ok (trans_pending, m1.fresh) done.after =
          done.returned ∙ ap (λ s. ok (s, m1.fresh) done.after) pending in
        (
          done.after,
          rw (no_put, is)
              (handle_get-fetched done.after m1.fresh (copied b) old fetched done.copy size can),
          done.list,
        )
