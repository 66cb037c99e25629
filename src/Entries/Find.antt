-- ===== src/Entries/Find.antt =====
-- `find_map_entry` against a search of the keys of a bucket in order.
use concurrent_server.Common.{
  ℕ, suc, ◌<◌, ◌≡◌, ◌≢◌, refl, ◌∙◌, Option, none, some, List, [], ◌∷◌, arith, if◌then◌else◌, length,
  get_elem?,
}
use concurrent_server.Machine.{at, Ptr, Key, Blob, Machine, at-write_ne, ok, and_then}
use concurrent_server.Machine.Points.{load_key-ok}
use concurrent_server.Data.Release.{disposed, key_dispose-ok}
use concurrent_server.Entries.{find_map_entry, settle}
use concurrent_server.Entries.Bucket.{
  Slot, IsKey, IsBucket, length-IsBucket, AllComparable, equal, lookup, find_key-lookup,
}
use concurrent_server.Entries.Append.{load_bucket-ok}

-- The bucket as its contents with their entries, in order.
abbrev pub View : Type 0
View = List (List ℕ × Ptr)

abbrev pub view : List Slot → View
view [] = []
view (s ∷ ss) = (s.content, s.addr) ∷ view ss

-- The first entry with a content; where there is none, a new one at the end.
abbrev pub find_or_add : (new : Ptr) → List ℕ → View → Ptr × View
find_or_add new ys [] = (new, (ys, new) ∷ [])
find_or_add new ys (e ∷ es) =
    let rest = find_or_add new ys es in if equal e.0 ys then (e.1, e ∷ es) else (rest.0, e ∷ rest.1)

-- No key of the bucket is the one at `kp` or shares its blob.
abbrev pub IsApart : (kp blob : Ptr) → List Slot → Type 0
IsApart kp blob [] = Unit {0}
IsApart kp blob (s ∷ ss) = (s.body.key ≢ kp) × (s.key.blob ≢ blob) × IsApart kp blob ss

pub disposed-IsBucket :
    (m : Machine) (i lo p kp : Ptr) (k : Key) (b : Blob) (ss : List Slot)
    → IsApart kp k.blob ss
    → IsBucket m i lo p ss
    → IsBucket (disposed m kp k b) i lo p ss
disposed-IsBucket m i lo p kp k b [] apart end = end
disposed-IsBucket m i lo p kp k b (s ∷ ss) (key_ne, blob_ne, apart)
      (at_s, le, lt, held, key, rest) =
    (
      at_s,
      le,
      lt,
      held,
      record {
        held = at-write_ne m.keys kp s.body.key none key_ne ∙ key.held;
        hash = key.hash;
        blob = record {
          blob = key.blob.blob;
          held = at-write_ne m.blobs k.blob s.key.blob _ blob_ne ∙ key.blob.held;
          content = key.blob.content;
          size = key.blob.size;
        };
      },
      disposed-IsBucket m i (suc s.addr) s.body.next kp k b ss apart rest,
    )

-- What `find_map_entry` returns in bucket `i`: an entry and a machine in which the bucket is as
-- `find_or_add` says. Other buckets, versions, transactions and the blobs of other keys are as
-- before.
pub record Found (m : Machine) (i kp : Ptr) (ys : List ℕ) (ss : List Slot) : Type 0 where
  pub entry : Ptr
  pub machine : Machine
  pub head : Ptr
  pub slots : List Slot
  pub returned : find_map_entry kp m ≡ ok entry machine
  pub table : get_elem? machine.table i ≡ some head
  pub bucket : IsBucket machine i 0 head slots
  pub searched : (entry, view slots) ≡ find_or_add m.fresh ys (view ss)
  pub others : (j : ℕ) → j ≢ i → get_elem? machine.table j ≡ get_elem? m.table j
  pub versions : machine.versions ≡ m.versions
  pub transactions : machine.transactions ≡ m.transactions
  pub blobs :
      (a : Ptr) (k : Key) → at m.keys kp ≡ some k → a ≢ k.blob → at machine.blobs a ≡ at m.blobs a

module _ (m : Machine) (i kp : Ptr) {k : Key} {ys : List ℕ} (hk : IsKey m i kp k ys) {head : Ptr}
    (bucket : get_elem? m.table i ≡ some head) (ss : List Slot) (slots : IsBucket m i 0 head ss)
    (comparable : AllComparable ss ys) where
  module _ {r : Option Ptr} (result : lookup ys ss ≡ r) where
    fuel : length ss < suc m.fresh
    fuel = omega (arith, length-IsBucket m i 0 head ss (omega arith) slots)

    find_map_entry-lookup : find_map_entry kp m ≡ settle kp r m
    unfolding find_map_entry and_then
    find_map_entry-lookup =
        rw
          (
            load_key-ok m kp hk.held,
            load_bucket-ok m i kp hk bucket,
            find_key-lookup m (suc m.fresh) i 0 head kp k ys ss hk slots comparable fuel,
            result,
          )
          refl

  pub find_map_entry-found :
      {a : Ptr} → lookup ys ss ≡ some a → find_map_entry kp m ≡ ok a (disposed m kp k hk.blob.blob)
  unfolding and_then
  find_map_entry-found result =
      find_map_entry-lookup result ∙ rw (key_dispose-ok m kp hk.held hk.blob.held) refl
