-- ===== src/Tests/Requests.antt =====
-- A PUT and a GET of the key "A", whose entry at 5 has a committed version with the value "B".
use concurrent_server.Common.{
  ◌<◌, ℕ, ◌≡◌, ◌≢◌, ◌∙◌, refl, ap, some, List, [], ◌∷◌, ◌++◌, arith, some_injective,
}
use concurrent_server.Machine.{
  Blob, Heap, trans_pending, trans_committed, Key, Machine, at, at-write_ne, write, ok,
}
use concurrent_server.Transaction.{sem_wait}
use concurrent_server.Text.Hash.{hash-sum}
use concurrent_server.Data.Release.{disposed}
use concurrent_server.Entries.{find_map_entry}
use concurrent_server.Entries.Bucket.{IsKey, IsBucket}
use concurrent_server.Entries.Find.{Found, disposed-IsBucket, find_map_entry-found}
use concurrent_server.Versions.History.{Access}
use concurrent_server.Versions.Admit.{StandsFor, behind_committed}
use concurrent_server.Store.Refine.{Standing}
use concurrent_server.Registry.{creg_init}
use concurrent_server.Protocol.{Packet, image, to_network}
use concurrent_server.Session.{returned}
use concurrent_server.Server.{handle}
use concurrent_server.Server.Commit.{serving}
use concurrent_server.Server.Key.{payload_body}
use concurrent_server.Server.Request.{IsData, with_key, reply_packet}
use concurrent_server.Server.Put.{handle-put}
use concurrent_server.Server.Answer.{data_packet}
use concurrent_server.Server.Get.{handle-get}
use concurrent_server.Tests.Entries.{text_blob}
use concurrent_server.Tests.World.{value}
use concurrent_server.Tests.Store.{old_key, slot, text, entry, store, settled, caller, cell}

abbrev clock : ℕ → ℕ × ℕ
clock n = (1700000000, n)

abbrev header : (type size : ℕ) → Packet
header type size = record {
  type = type;
  status = 0;
  null = 0;
  pad = 0;
  size = size;
  timestamp_sec = 7;
  timestamp_nsec = 8;
}

key-IsData : IsData (header 3 2) text 16 2
key-IsData = record {
  is = record { size = omega arith; timestamp_sec = omega arith; timestamp_nsec = omega arith };
  length = refl;
  pos = omega arith;
  small = omega arith;
  header = omega arith;
  body = omega arith;
}

value-IsData : IsData (header 3 1) (67 ∷ []) 16 1
value-IsData = record {
  is = record { size = omega arith; timestamp_sec = omega arith; timestamp_nsec = omega arith };
  length = refl;
  pos = omega arith;
  small = omega arith;
  header = omega arith;
  body = omega arith;
}

abbrev made_key : Key
made_key = record { hash = 6; blob = 30 }

-- The store with the key that the request has made, and any blobs.
abbrev made : Heap Blob → ℕ → Machine
made b n = record (with_key (store settled) text 2 6) { blobs = b; fresh = n }

module _ (b : Heap Blob) (n : ℕ) (new : at b 30 ≡ some (text_blob 65))
    (old : at b 11 ≡ some (text_blob 65)) (big : 20 < n) where
  old_key-IsKey : IsKey (made b n) 6 10 old_key text
  unfolding at write
  old_key-IsKey = record {
    held = refl;
    hash = refl;
    blob = record { blob = text_blob 65; held = old; content = refl; size = refl };
  }

  made_key-IsKey : IsKey (made b n) 6 31 made_key text
  unfolding at write
  made_key-IsKey = record {
    held = refl;
    hash = refl;
    blob = record { blob = text_blob 65; held = new; content = refl; size = refl };
  }

  made-IsBucket : IsBucket (made b n) 6 0 5 (slot ∷ [])
  unfolding at write
  made-IsBucket = (refl, omega arith, omega arith, refl, old_key-IsKey, refl)

  abbrev searched : Machine
  searched = disposed (made b n) 31 made_key (text_blob 65)

  searched-IsBucket : IsBucket searched 6 0 5 (slot ∷ [])
  searched-IsBucket =
      disposed-IsBucket (made b n) 6 0 5 31 made_key (text_blob 65) (slot ∷ [])
        (omega arith, omega arith, tt) made-IsBucket

  searched-returned : find_map_entry 31 (made b n) ≡ ok 5 searched
  unfolding made_key-IsKey
  searched-returned =
      find_map_entry-found (made b n) 6 31 made_key-IsKey refl (slot ∷ []) made-IsBucket
        ((λ e. cc), tt) refl

  searched-blobs :
      (a : ℕ) (k : Key) → at (made b n).keys 31 ≡ some k → a ≢ k.blob → at searched.blobs a ≡ at b a
  unfolding at write
  searched-blobs a k held ne =
      let same : made_key ≡ k = some_injective held in
      let ne' : a ≢ 30 = λ e. ne (e ∙ ap (λ x. Key.blob x) same) in at-write_ne b 30 a _ ne'

  abbrev found : Found (made b n) 6 31 text (slot ∷ [])
  found = record {
    entry = 5;
    machine = searched;
    head = 5;
    slots = slot ∷ [];
    returned = searched-returned;
    table = refl;
    bucket = searched-IsBucket;
    searched = refl;
    others = λ j ne. refl;
    versions = refl;
    transactions = refl;
    blobs = searched-blobs;
  }

  searched-Standing : (v : ℕ) → Standing searched 5 3 v entry caller (cell ∷ [])
  unfolding at write
  searched-Standing v = record {
    entry = refl;
    chain = (refl, omega arith, omega arith, refl, refl, refl);
    live = refl;
    few = omega arith;
    caller = refl;
    ready = behind_committed cell [] refl;
  }

-- The history of the key once the caller has accessed it with the blob at `v`.
abbrev accessed : ℕ → List Access
accessed v =
    record { creator = 2; value = 16; status = trans_committed; id = 0 }
    ∷ record { creator = 3; value = v; status = trans_pending; id = 1 }
    ∷ []

-- The blobs behind the key and the value of a PUT, and behind the key of a GET.
abbrev put_blobs : Heap Blob
put_blobs =
    write (write (store settled).blobs 30 (some (payload_body text 2))) 32
      (some (payload_body (67 ∷ []) 1))

abbrev get_blobs : Heap Blob
get_blobs = write (store settled).blobs 30 (some (payload_body text 2))

blobs-new : (at put_blobs 30 ≡ some (text_blob 65)) × (at get_blobs 30 ≡ some (text_blob 65))
unfolding at write
blobs-new = (refl, refl)

blobs-old : (at put_blobs 11 ≡ some (text_blob 65)) × (at get_blobs 11 ≡ some (text_blob 65))
unfolding at write
blobs-old = (refl, refl)

value_found :
    at (searched get_blobs 32 (blobs-new.1) (blobs-old.1) (omega arith)).blobs 16 ≡ some value
unfolding at write
value_found = refl

handle-put_example :
    (m' : Machine) × (handle clock sem_wait 3 trans_pending (
        serving
          (store settled)
          creg_init
          (image (to_network (header 3 2))
            ++ (text ++ (image (to_network (header 3 1)) ++ (67 ∷ [] ++ []))))
          (some 16 ∷ some 2 ∷ some 16 ∷ some 1 ∷ [])
          []
          (some 16 ∷ [])
          (header 1 0)
          3)
      ≡ returned trans_pending (
          serving m' creg_init [] []
            (image (to_network (reply_packet clock 3)))
            []
            (to_network (reply_packet clock 3))
            4))
    × StandsFor m' 5 (accessed 32)
    × (at m'.blobs 32 ≡ some (payload_body (67 ∷ []) 1))
handle-put_example =
    handle-put clock sem_wait creg_init [] 3 3 (store settled) (header 3 2) (header 3 1) text
      (67 ∷ []) 16 2 16 1 6 16 key-IsData value-IsData (omega arith) (hash-sum (65 ∷ []) [] refl)
      (omega arith) [] [] [] (header 1 0) 6
      (found put_blobs 33 (blobs-new.0) (blobs-old.0) (omega arith)) (cell ∷ []) refl
      (searched-Standing put_blobs 33 (blobs-new.0) (blobs-old.0) (omega arith) 32) refl refl

handle-get_example :
    (m' : Machine) × (handle clock sem_wait 3 trans_pending (
        serving
          (store settled)
          creg_init
          (image (to_network (header 3 2)) ++ (text ++ []))
          (some 16 ∷ some 2 ∷ [])
          []
          (some 16 ∷ some 16 ∷ some 1 ∷ [])
          (header 2 0)
          3)
      ≡ returned trans_pending (
          serving m' creg_init [] []
            (image (to_network (reply_packet clock 3))
              ++ (image (to_network (data_packet clock 4 (some (66 ∷ [])))) ++ (66 ∷ [])))
            []
            (to_network (data_packet clock 4 (some (66 ∷ []))))
            5))
    × StandsFor m' 5 (accessed 32)
handle-get_example =
    handle-get clock sem_wait creg_init [] 3 3 (store settled) (header 3 2) text 16 2 6 16 16 1
      key-IsData (omega arith) (hash-sum (65 ∷ []) [] refl) (omega arith) (omega arith) [] [] []
      (header 2 0) 6 (found get_blobs 32 (blobs-new.1) (blobs-old.1) (omega arith)) (cell ∷ []) refl
      (searched-Standing get_blobs 32 (blobs-new.1) (blobs-old.1) (omega arith) 32) refl value_found
      refl (omega arith, omega arith, omega arith) (omega arith) refl
