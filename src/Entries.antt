-- ===== src/Entries.antt =====
-- Of src/helper.c, the functions on map entries: creation, destruction, and the search of a bucket
-- for a key. The loops run over linked lists, with as many rounds as addresses were handed out.
pub mod Bucket
pub mod Append
pub mod Find
use concurrent_server.Common.{ℕ, zero, suc, Option, none, some, ◌==◌, if◌then◌else◌, get_elem?, set}
use concurrent_server.Machine.{
  Ptr, null, Cmd, fault, out_of_fuel, pure, ◌>>=◌, ◌>>◌, load_key, load_version, load_entry,
  put_entry, new_entry,
}
use concurrent_server.Data.{key_dispose, key_compare, version_dispose}

-- The buckets of `the_map`. An index outside the array is a fault.
abbrev pub load_bucket : ℕ → Cmd Ptr
load_bucket i m = elim (get_elem? m.table i) [ none ↦ fault | some p ↦ pure p m ]

abbrev pub set_bucket : ℕ → Ptr → Cmd (Unit {0})
set_bucket i p m = pure tt (record m { table = set m.table i p })

abbrev pub set_entry_next : Ptr → Ptr → Cmd (Unit {0})
set_entry_next p q = do e ← load_entry p; put_entry p (some (record e { next = q }))

unfoldable pub map_entry_create : Ptr → Cmd Ptr
map_entry_create kp = new_entry (record { key = kp; versions = null; next = null })

unfoldable pub dispose_versions : ℕ → Ptr → Cmd (Unit {0})
dispose_versions zero p = λ _. out_of_fuel
dispose_versions (suc k) p =
    if p == null
    then pure tt
    else do v ← load_version p; version_dispose p; dispose_versions k v.next

unfoldable pub map_entry_destroy : Ptr → Cmd (Unit {0})
map_entry_destroy mp = do
  e ← load_entry mp
  (λ m. dispose_versions (suc m.fresh) e.versions m)
  e ← load_entry mp
  key_dispose e.key
  put_entry mp none

unfoldable pub destroy_bucket : ℕ → Ptr → Cmd (Unit {0})
destroy_bucket zero p = λ _. out_of_fuel
destroy_bucket (suc k) p =
    if p == null then pure tt else do e ← load_entry p; map_entry_destroy p; destroy_bucket k e.next

-- The search of a bucket: `some` of the first entry whose key is equal to `kp`.
unfoldable pub find_key : ℕ → Ptr → Ptr → Cmd (Option Ptr)
find_key zero kp p = λ _. out_of_fuel
find_key (suc k) kp p = if p == null then pure none else do
  e ← load_entry p
  same ← key_compare e.key kp
  if same then pure (some p) else find_key k kp e.next

unfoldable pub last_entry : ℕ → Ptr → Cmd Ptr
last_entry zero p = λ _. out_of_fuel
last_entry (suc k) p = do e ← load_entry p; if e.next == null then pure p else last_entry k e.next

-- The key was not found: a new entry at the end of its bucket.
unfoldable pub append_entry : Ptr → Cmd Ptr
append_entry kp = do
  k ← load_key kp
  head ← load_bucket k.hash
  if head == null
      then (do e ← map_entry_create kp; set_bucket k.hash e; load_bucket k.hash)
      else (do
        last ← (λ m. last_entry (suc m.fresh) head m)
        e ← map_entry_create kp
        set_entry_next last e
        pure e)

-- What follows the search, by its result.
abbrev pub settle : Ptr → Option Ptr → Cmd Ptr
settle kp none = append_entry kp
settle kp (some e) = key_dispose kp >>= λ _. pure e

unfoldable pub find_map_entry : Ptr → Cmd Ptr
find_map_entry kp = do
  k ← load_key kp
  head ← load_bucket k.hash
  found ← (λ m. find_key (suc m.fresh) kp head m)
  settle kp found
