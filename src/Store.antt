-- ===== src/Store.antt =====
-- src/store.c. Each function runs to its end without another thread: all but the calls between
-- the critical sections of `store_put` and `store_get` run under the mutex of the map.
pub mod Copy
pub mod Access
pub mod Conflict
pub mod Own
pub mod Refine
pub mod Fetch
use concurrent_server.Common.{suc, none, List, [], ◌∷◌, ◌==◌, if◌then◌else◌, replicate}
use concurrent_server.Machine.{
  Ptr, null, TransStatus, Cmd, pure, ◌>>=◌, ◌>>◌, load_blob, load_version, load_entry,
}
use concurrent_server.Text.{num_buckets}
use concurrent_server.Transaction.{trans_get_status}
use concurrent_server.Data.{blob_create}
use concurrent_server.Entries.{destroy_bucket, find_map_entry}
use concurrent_server.Versions.{last_version, add_version}
use concurrent_server.Collect.{garbage_collect}

unfoldable pub store_init : Cmd (Unit {0})
store_init m = pure tt (record m { table = replicate num_buckets null })

unfoldable pub destroy_buckets : List Ptr → Cmd (Unit {0})
destroy_buckets [] = pure tt
destroy_buckets (p ∷ ps) = do (λ m. destroy_bucket (suc m.fresh) p m); destroy_buckets ps

unfoldable pub store_fini : Cmd (Unit {0})
store_fini = do (λ m. destroy_buckets m.table m); (λ m. pure tt (record m { table = [] }))

unfoldable pub store_put : (tp key value : Ptr) → Cmd TransStatus
store_put tp key value = do
  mp ← find_map_entry key
  garbage_collect mp
  add_version mp tp value
  trans_get_status tp

-- A copy of the latest value of a map entry.
unfoldable pub latest_value : Ptr → Cmd Ptr
latest_value mp = do
  e ← load_entry mp
  if e.versions == null then blob_create none 0 else (do
    last ← (λ m. last_version (suc m.fresh) e.versions m)
    v ← load_version last
    b ← load_blob v.blob
    blob_create b.content b.size)

-- The status, and the blob that `*valuep` is set to.
unfoldable pub store_get : (tp key : Ptr) → Cmd (TransStatus × Ptr)
store_get tp key = do
  mp ← find_map_entry key
  garbage_collect mp
  value ← latest_value mp
  vp ← add_version mp tp value
  v ← load_version vp
  s ← trans_get_status tp
  pure (s, v.blob)
