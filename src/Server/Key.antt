-- ===== src/Server/Key.antt =====
-- A client whose key has no NUL byte.
use concurrent_server.Common.{
  ℕ, suc, ◌^◌, ◌≤◌, ◌<◌, ◌≡◌, ◌≢◌, refl, ap, Bool, true, false, ◌||◌, none, some, List, [], ◌∷◌,
  ◌++◌, arith, length, take-length_append, ◌==◌, leb,
}
use concurrent_server.Machine.{
  Ptr, null, Cmd, Blob, Machine, write, at-write_self, ok, fault, and_then, new_blob,
}
use concurrent_server.Machine.Points.{load_blob-ok}
use concurrent_server.Text.{hash, hash_from, hash_step}
use concurrent_server.Data.{blob_create, blob_hash, key_create, copy}
use concurrent_server.Registry.{ClientRegistry}
use concurrent_server.Protocol.{Packet, Schedule, sizeof_packet, image, to_network}
use concurrent_server.Protocol.Complete.{IsPacket, proto_recv_packet-payload}
use concurrent_server.Session.{undefined, and_serve, run, recv, zero_packet}
use concurrent_server.Server.{handle_put, handle_get}
use concurrent_server.Server.Commit.{serving}

abbrev pub has_nul : List ℕ → Bool
has_nul [] = false
has_nul (c ∷ cs) = (c == 0) || has_nul cs

hash_from-unterminated : (h : ℕ) (cs : List ℕ) → has_nul cs ≡ false → hash_from h cs ≡ none
unfolding hash_from
hash_from-unterminated h [] no_nul = refl
hash_from-unterminated h (c ∷ cs) no_nul =
    let not_nul : (c == 0) ≡ false = ground arith in
    rw not_nul (hash_from-unterminated (hash_step h c) cs (ground arith))

length-nul : (payload : List ℕ) → length (payload ++ 0 ∷ []) ≡ suc (length payload)
length-nul [] = refl
length-nul (c ∷ cs) = ap suc (length-nul cs)

pub copy-payload :
    (payload : List ℕ) (n : ℕ) → length payload ≡ n → copy (payload ++ 0 ∷ []) n ≡ some payload
copy-payload payload n len =
    let fits : leb (length payload) (length (payload ++ 0 ∷ [])) ≡ true =
      ground (arith, length-nul payload) in
    rw (← len, fits, take-length_append payload (0 ∷ [])) refl

abbrev pub payload_body : List ℕ → ℕ → Blob
payload_body payload n = record {
  refcnt = 1;
  size = n;
  content = some payload;
  prefix = some payload;
}

abbrev pub with_payload : Machine → List ℕ → ℕ → Machine
with_payload m payload n = record m {
  blobs = write m.blobs m.fresh (some (payload_body payload n));
  fresh = suc m.fresh;
}

pub blob_create-payload :
    (m : Machine) (payload : List ℕ) (n : ℕ)
    → length payload ≡ n
    → blob_create (some (payload ++ 0 ∷ [])) n m ≡ ok m.fresh (with_payload m payload n)
unfolding blob_create new_blob
blob_create-payload m payload n len = rw (copy-payload payload n len) refl

key_create-unterminated :
    (m : Machine) (payload : List ℕ) (n : ℕ)
    → m.fresh ≢ null
    → has_nul payload ≡ false
    → key_create m.fresh (with_payload m payload n) ≡ fault
unfolding key_create blob_hash hash and_then
key_create-unterminated m payload n fresh_ne no_nul =
    rw
      (
        load_blob-ok (with_payload m payload n) m.fresh
            (at-write_self m.blobs m.fresh (some (payload_body payload n)) fresh_ne),
        hash_from-unterminated 5381 payload no_nul,
      )
      refl

module _ (clock : ℕ → ℕ × ℕ) (wait : Ptr → Cmd (Unit {0})) where
  -- If a packet with a payload that has no NUL byte, not empty and below 2^31 bytes, comes for a key,
  -- and `read` moves whole packets, then `handle_put` and `handle_get` are undefined behaviour: the
  -- hash of the key is taken up to a NUL byte, and the buffer of the blob has no byte behind the
  -- payload.
  pub handle-unterminated :
      (m : Machine) (cr : ClientRegistry) (pkt old : Packet) (payload rest : List ℕ) (k l : ℕ)
      (ks : Schedule) (sent : List ℕ) (ws : Schedule) (ticks : ℕ) (tp : Ptr)
      → IsPacket pkt
      → length payload ≡ pkt.size
      → 0 < pkt.size
      → pkt.size < 2 ^ 31
      → sizeof_packet ≤ k
      → pkt.size ≤ l
      → m.fresh ≢ null
      → has_nul payload ≡ false
      → (handle_put clock wait tp (
            serving m cr
              (image (to_network pkt) ++ (payload ++ rest))
              (some k ∷ some l ∷ ks)
              sent
              ws
              old
              ticks)
          ≡ undefined)
        × (handle_get clock wait tp (
              serving m cr
                (image (to_network pkt) ++ (payload ++ rest))
                (some k ∷ some l ∷ ks)
                sent
                ws
                old
                ticks)
            ≡ undefined)
  unfolding handle_put handle_get recv run and_serve
  handle-unterminated m cr pkt old payload rest k l ks sent ws ticks tp is len pos small hk hl
        fresh_ne no_nul =
      (
        rw
            (
              proto_recv_packet-payload pkt is zero_packet payload rest k l ks len pos small hk hl,
              blob_create-payload m payload pkt.size len,
              key_create-unterminated m payload pkt.size fresh_ne no_nul,
            )
            refl,
        rw
            (
              proto_recv_packet-payload pkt is zero_packet payload rest k l ks len pos small hk hl,
              blob_create-payload m payload pkt.size len,
              key_create-unterminated m payload pkt.size fresh_ne no_nul,
            )
            refl,
      )
