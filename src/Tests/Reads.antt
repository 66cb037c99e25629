-- ===== src/Tests/Reads.antt =====
-- The transaction at 2 writes the key "A", for which it created the only version, and reads it.
use concurrent_server.Common.{◌≡◌, refl, some, inr, [], ◌∷◌, arith}
use concurrent_server.Machine.{null, trans_pending, Transaction, Heap, Machine, at, write, ok}
use concurrent_server.Data.Release.{disposed}
use concurrent_server.Entries.{find_map_entry}
use concurrent_server.Entries.Bucket.{Slot, IsKey, IsBucket}
use concurrent_server.Entries.Find.{find_map_entry-found}
use concurrent_server.Versions.Own.{Own, overwritten}
use concurrent_server.Store.{store_put, store_get}
use concurrent_server.Store.Copy.{copied}
use concurrent_server.Store.Own.{store_put-store_get}
use concurrent_server.Tests.World.{empty, transaction}
use concurrent_server.Tests.Entries.{text_blob}
use concurrent_server.Tests.World.{value}
use concurrent_server.Tests.Store.{
  store, behind, store-returned, new_value, next_key, old_key, text, entry,
}

abbrev writer : Transaction
writer = transaction 0 2 trans_pending

abbrev writing : Heap Transaction
writing = write empty 2 (some writer)

abbrev writer-Own : Own (behind writing) 5 2 15 entry 16 null writer value
unfolding at write
writer-Own = record {
  entry = refl;
  head = refl;
  version = refl;
  below = omega arith;
  caller = refl;
  pending = refl;
  counted = omega arith;
  small = omega arith;
  value = refl;
}

abbrev written : Machine
written = overwritten (behind writing) 5 2 15 writer-Own 24

abbrev next_key-IsKey : IsKey written 6 22 next_key text
unfolding at write
next_key-IsKey = record {
  held = refl;
  hash = refl;
  blob = record { blob = text_blob 65; held = refl; content = refl; size = refl };
}

abbrev written_slot : Slot
written_slot = record {
  addr = 5;
  body = record entry { versions = 30 };
  key = old_key;
  content = text;
}

written-IsBucket : IsBucket written 6 0 5 (written_slot ∷ [])
unfolding at write
written-IsBucket = (
  refl,
  omega arith,
  omega arith,
  refl,
  record {
    held = refl;
    hash = refl;
    blob = record { blob = text_blob 65; held = refl; content = refl; size = refl };
  },
  refl,
)

written-returned : find_map_entry 22 written ≡ ok 5 (disposed written 22 next_key (text_blob 65))
unfolding next_key-IsKey
written-returned =
    find_map_entry-found written 6 22 next_key-IsKey refl (written_slot ∷ []) written-IsBucket
      ((λ e. cc), tt) refl

written-value : at (disposed written 22 next_key (text_blob 65)).blobs 24 ≡ some new_value
unfolding at write
written-value = refl

store_put-store_get_example :
    (store_put 2 20 24 (store writing) ≡ ok trans_pending written)
    × ((m' : Machine) × (store_get 2 22 written ≡ ok (trans_pending, 31) m')
        × (at m'.blobs 31 ≡ some (copied new_value)))
store_put-store_get_example =
    store_put-store_get (store writing) (behind writing) 5 2 20 15 (store-returned writing)
      writer-Own 24 22 next_key (text_blob 65) written-returned written-value
      (inr (67 ∷ [], refl, refl)) (omega arith)
