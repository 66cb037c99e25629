-- ===== src/Tests/Store.antt =====
-- `store_put` and `store_get` at the key "A", whose entry at 5 has a committed version.
use concurrent_server.Common.{
  some_injective, ap, ◌≢◌, ◌∙◌, ℕ, ◌≡◌, refl, some, inr, List, [], ◌∷◌, arith,
}
use concurrent_server.Machine.{
  Ptr, null, trans_pending, trans_committed, Transaction, Blob, Key, MapEntry, Heap, Machine, at,
  at-write_ne, write, ok,
}
use concurrent_server.Data.Release.{disposed}
use concurrent_server.Entries.{find_map_entry}
use concurrent_server.Entries.Bucket.{Slot, IsKey, IsBucket}
use concurrent_server.Entries.Find.{Found, find_map_entry-found}
use concurrent_server.Versions.Chain.{Cell}
use concurrent_server.Versions.History.{Access}
use concurrent_server.Versions.Admit.{behind_committed}
use concurrent_server.Store.Refine.{Standing, Stored, store_put-refines}
use concurrent_server.Store.Fetch.{Fetched, store_get-refines}
use concurrent_server.Tests.World.{value, empty, transaction, version}
use concurrent_server.Tests.Entries.{text_blob}

abbrev pub old_key : Key
old_key = record { hash = 6; blob = 11 }

abbrev pub new_key : Key
new_key = record { hash = 6; blob = 21 }

-- A value for a further PUT, and a key for a further operation.
abbrev pub new_value : Blob
new_value = record { refcnt = 1; size = 1; content = some (67 ∷ []); prefix = some (67 ∷ []) }

abbrev pub next_key : Key
next_key = record { hash = 6; blob = 23 }

abbrev pub entry : MapEntry
entry = record { key = 10; versions = 15; next = null }

-- The caller is the transaction at 3.
abbrev pub caller : Transaction
caller = transaction 1 1 trans_pending

-- A store over any transactions.
abbrev pub store : Heap Transaction → Machine
store h = record {
  transactions = h;
  dependencies = empty;
  blobs =
      write
        (write
          (write (write (write empty 11 (some (text_blob 65))) 21 (some (text_blob 65))) 23
            (some (text_blob 65)))
          16 (some value))
        24 (some new_value);
  keys = write (write (write empty 10 (some old_key)) 20 (some new_key)) 22 (some next_key);
  versions = write empty 15 (some (version 2 16 null));
  entries = write empty 5 (some entry);
  table = null ∷ null ∷ null ∷ null ∷ null ∷ null ∷ 5 ∷ null ∷ [];
  fresh = 30;
}

abbrev pub settled : Heap Transaction
settled = write (write empty 2 (some (transaction 0 2 trans_committed))) 3 (some caller)

abbrev pub slot : Slot
slot = record { addr = 5; body = entry; key = old_key; content = 65 ∷ 0 ∷ [] }

abbrev pub text : List ℕ
text = 65 ∷ 0 ∷ []

old_key-IsKey : (h : Heap Transaction) → IsKey (store h) 6 10 old_key text
unfolding at write
old_key-IsKey h = record {
  held = refl;
  hash = refl;
  blob = record { blob = text_blob 65; held = refl; content = refl; size = refl };
}

abbrev pub new_key-IsKey : (h : Heap Transaction) → IsKey (store h) 6 20 new_key text
unfolding at write
new_key-IsKey h = record {
  held = refl;
  hash = refl;
  blob = record { blob = text_blob 65; held = refl; content = refl; size = refl };
}

abbrev pub behind : Heap Transaction → Machine
behind h = disposed (store h) 20 new_key (text_blob 65)

behind-IsBucket : (h : Heap Transaction) → IsBucket (behind h) 6 0 5 (slot ∷ [])
unfolding at write
behind-IsBucket h = (
  refl,
  omega arith,
  omega arith,
  refl,
  record {
    held = refl;
    hash = refl;
    blob = record { blob = text_blob 65; held = refl; content = refl; size = refl };
  },
  refl,
)

store-IsBucket : (h : Heap Transaction) → IsBucket (store h) 6 0 5 (slot ∷ [])
unfolding at write
store-IsBucket h = (refl, omega arith, omega arith, refl, old_key-IsKey h, refl)

pub store-returned : (h : Heap Transaction) → find_map_entry 20 (store h) ≡ ok 5 (behind h)
unfolding new_key-IsKey
store-returned h =
    find_map_entry-found (store h) 6 20 (new_key-IsKey h) refl (slot ∷ []) (store-IsBucket h)
      ((λ e. cc), tt) refl

behind-blobs :
    (a : ℕ) (k : Key)
    → at (store settled).keys 20 ≡ some k
    → a ≢ k.blob
    → at (behind settled).blobs a ≡ at (store settled).blobs a
unfolding at write
behind-blobs a k held ne =
    let same : new_key ≡ k = some_injective held in
    let ne' : a ≢ 21 = λ e. ne (e ∙ ap (λ x. Key.blob x) same) in
    at-write_ne (store settled).blobs 21 a _ ne'

abbrev found : Found (store settled) 6 20 text (slot ∷ [])
found = record {
  entry = 5;
  machine = behind settled;
  head = 5;
  slots = slot ∷ [];
  returned = store-returned settled;
  table = refl;
  bucket = behind-IsBucket settled;
  searched = refl;
  others = λ j ne. refl;
  versions = refl;
  transactions = refl;
  blobs = behind-blobs;
}

abbrev pub cell : Cell
cell = record { addr = 15; body = version 2 16 null; owner = transaction 0 2 trans_committed }

behind-Standing : (v : Ptr) → Standing (behind settled) 5 3 v entry caller (cell ∷ [])
unfolding at write
behind-Standing v = record {
  entry = refl;
  chain = (refl, omega arith, omega arith, refl, refl, refl);
  live = refl;
  few = omega arith;
  caller = refl;
  ready = behind_committed cell [] refl;
}

behind-value : at (behind settled).blobs 16 ≡ some value
unfolding at write
behind-value = refl

-- The history of the key once the caller has accessed it with the blob at `v`.
abbrev accessed : Ptr → List Access
accessed v =
    record { creator = 2; value = 16; status = trans_committed; id = 0 }
    ∷ record { creator = 3; value = v; status = trans_pending; id = 1 }
    ∷ []

store_put-refines_example : Stored (store settled) (behind settled) 5 3 20 25 caller (accessed 25)
store_put-refines_example =
    store_put-refines (store settled) 3 20 6 found 25 (cell ∷ []) (behind-Standing 25)

store_get-refines_example : Fetched (store settled) 5 3 20 30 caller value (accessed 30)
store_get-refines_example =
    store_get-refines (store settled) 3 20 6 found (cell ∷ []) (behind-Standing 30) behind-value
      (inr (66 ∷ [], refl, refl)) (omega arith)
