-- ===== src/Versions.antt =====
-- Of src/helper.c, `remove_version_from_LL` and `add_version`.
pub mod Append
pub mod First
pub mod Pending
pub mod Chain
pub mod Last
pub mod Overwrite
pub mod Own
pub mod History
pub mod Admit
pub mod Kept
pub mod Refine
use concurrent_server.Common.{ℕ, zero, suc, some, ◌==◌, ltb, if◌then◌else◌}
use concurrent_server.Machine.{
  Ptr, null, Cmd, out_of_fuel, pure, ◌>>=◌, ◌>>◌, load_transaction, load_version, load_entry,
  put_version, put_entry,
}
use concurrent_server.Transaction.{
  is_pending, is_aborted, trans_get_status, trans_abort, trans_add_dependency,
}
use concurrent_server.Data.{version_create, version_dispose}

abbrev pub set_versions : Ptr → Ptr → Cmd (Unit {0})
set_versions p q = do e ← load_entry p; put_entry p (some (record e { versions = q }))

abbrev pub set_version_next : Ptr → Ptr → Cmd (Unit {0})
set_version_next p q = do v ← load_version p; put_version p (some (record v { next = q }))

-- The walk of `remove_version_from_LL` stops at `vp` itself, not before it.
unfoldable pub reach_version : ℕ → Ptr → Ptr → Cmd Ptr
reach_version zero vp p = λ _. out_of_fuel
reach_version (suc k) vp p =
    if p == vp then pure p else do v ← load_version p; reach_version k vp v.next

unfoldable pub remove_version_from_ll : (vp head : Ptr) → Cmd Ptr
remove_version_from_ll vp head = do
  prev_ptr ← (λ m. reach_version (suc m.fresh) vp head m)
  v ← load_version vp
  set_version_next prev_ptr v.next
  set_version_next vp null
  pure prev_ptr

unfoldable pub last_version : ℕ → Ptr → Cmd Ptr
last_version zero p = λ _. out_of_fuel
last_version (suc k) p = do
  v ← load_version p
  if v.next == null then pure p else last_version k v.next

-- The last version is pending and of the same transaction: it is overwritten.
unfoldable pub overwrite : (mp tp value last : Ptr) → Cmd Ptr
overwrite mp tp value last = do
  e ← load_entry mp
  index_ptr ← remove_version_from_ll last e.versions
  e ← load_entry mp
  if index_ptr == e.versions
      then (do new ← version_create tp value; set_versions mp new; version_dispose last; pure new)
      else (do
        new ← version_create tp value
        set_version_next index_ptr new
        version_dispose last
        v ← load_version index_ptr
        pure v.next)

unfoldable pub append_version : (tp value last : Ptr) → Cmd Ptr
append_version tp value last = do
  new ← version_create tp value
  set_version_next last new
  v ← load_version last
  pure v.next

-- The last version is pending and of another transaction.
unfoldable pub append_pending : (tp value last creator : Ptr) → Cmd Ptr
append_pending tp value last creator = do
  c ← load_transaction creator
  t ← load_transaction tp
  if ltb t.id c.id
      then (do trans_abort tp; pure last)
      else (do trans_add_dependency tp creator; append_version tp value last)

-- After the walk to the last version. The status of its creator is one of three, so one of the
-- three branches is taken.
unfoldable pub add_after : (mp tp value last : Ptr) → Cmd Ptr
add_after mp tp value last = do
  v ← load_version last
  s ← trans_get_status v.creator
  if is_pending s
      then (do
        c ← load_transaction v.creator
        t ← load_transaction tp
        if c.id == t.id then overwrite mp tp value last else append_pending tp value last v.creator)
      else (if is_aborted s then (do trans_abort tp; pure last) else append_version tp value last)

unfoldable pub add_version : (mp tp value : Ptr) → Cmd Ptr
add_version mp tp value = do
  e ← load_entry mp
  if e.versions == null
      then (do new ← version_create tp value; set_versions mp new; pure new)
      else (do last ← (λ m. last_version (suc m.fresh) e.versions m); add_after mp tp value last)
