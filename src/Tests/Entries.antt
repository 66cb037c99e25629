-- ===== src/Tests/Entries.antt =====
-- The bucket of the keys "A" and "I", with an entry for "A" at 5.
use concurrent_server.Common.{ℕ, some, [], ◌∷◌}
use concurrent_server.Machine.{null, Blob, Key, MapEntry, Machine, write}
use concurrent_server.Entries.Bucket.{Slot}
use concurrent_server.Tests.World.{empty}

abbrev pub text_blob : ℕ → Blob
text_blob c = record {
  refcnt = 1;
  size = 2;
  content = some (c ∷ 0 ∷ []);
  prefix = some (c ∷ 0 ∷ []);
}

abbrev key_a : Key
key_a = record { hash = 6; blob = 11 }

abbrev key_i : Key
key_i = record { hash = 6; blob = 21 }

abbrev entry_a : MapEntry
entry_a = record { key = 10; versions = null; next = null }

abbrev store : Machine
store = record {
  transactions = empty;
  dependencies = empty;
  blobs = write (write empty 11 (some (text_blob 65))) 21 (some (text_blob 73));
  keys = write (write empty 10 (some key_a)) 20 (some key_i);
  versions = empty;
  entries = write empty 5 (some entry_a);
  table = null ∷ null ∷ null ∷ null ∷ null ∷ null ∷ 5 ∷ null ∷ [];
  fresh = 30;
}

abbrev slot_a : Slot
slot_a = record { addr = 5; body = entry_a; key = key_a; content = 65 ∷ 0 ∷ [] }
