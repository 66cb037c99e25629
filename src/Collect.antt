-- ===== src/Collect.antt =====
-- `garbage_collect` of src/helper.c.
pub mod Clean
pub mod Dirty
use concurrent_server.Common.{ℕ, zero, suc, ◌==◌, if◌then◌else◌}
use concurrent_server.Machine.{
  Ptr, null, Cmd, out_of_fuel, pure, ◌>>=◌, ◌>>◌, load_version, load_entry,
}
use concurrent_server.Transaction.{is_committed, is_aborted, trans_get_status, trans_abort}
use concurrent_server.Data.{version_dispose}
use concurrent_server.Versions.{set_versions, remove_version_from_ll}

-- An aborted version at the head of the list: the new head's successor is aborted with it.
unfoldable pub drop_aborted_head : (mp index_ptr : Ptr) → Cmd (Unit {0})
drop_aborted_head mp index_ptr = do
  v ← load_version index_ptr
  set_versions mp v.next
  if v.next == null then pure tt else (do
    head ← load_version v.next
    if head.next == null
        then pure tt
        else (do second ← load_version head.next; trans_abort second.creator; pure tt))
  version_dispose index_ptr

-- An aborted version behind the head; the result is the new `index_ptr`.
unfoldable pub drop_aborted : (mp temp : Ptr) → Cmd Ptr
drop_aborted mp temp = do
  e ← load_entry mp
  index_ptr ← remove_version_from_ll temp e.versions
  v ← load_version index_ptr
  if v.next == null
      then pure tt
      else (do second ← load_version v.next; trans_abort second.creator; pure tt)
  version_dispose temp
  pure index_ptr

-- The body of the first loop at version `i`: the new `index_ptr` and `recent`.
unfoldable pub visit : (mp : Ptr) (i recent : ℕ) (index_ptr : Ptr) → Cmd (Ptr × ℕ)
visit mp i recent index_ptr = do
  v ← load_version index_ptr
  if v.creator == null then pure (index_ptr, recent) else (do
    s ← trans_get_status v.creator
    e ← load_entry mp
    if is_aborted s
        then (if index_ptr == e.versions
            then (do drop_aborted_head mp index_ptr; pure (index_ptr, recent))
            else (do p ← drop_aborted mp index_ptr; pure (p, recent)))
        else (if is_committed s then pure (index_ptr, i) else pure (index_ptr, recent)))

unfoldable pub abort_loop : (fuel : ℕ) (mp : Ptr) (i recent : ℕ) (index_ptr : Ptr) → Cmd ℕ
abort_loop zero mp i recent p = λ _. out_of_fuel
abort_loop (suc k) mp i recent p = if p == null then pure recent else (do
  (p', recent') ← visit mp i recent p
  v ← load_version p'
  abort_loop k mp (suc i) recent' v.next)

-- A committed version that is not the most recent one; the result is the new `index_ptr`.
unfoldable pub drop_committed : (mp p : Ptr) → Cmd Ptr
drop_committed mp p = do
  v ← load_version p
  e ← load_entry mp
  if p == e.versions
      then (do set_versions mp v.next; version_dispose p; pure p)
      else (do p' ← remove_version_from_ll p e.versions; version_dispose p; pure p')

-- The second loop: `left` is `recent - i`.
unfoldable pub commit_loop : (left : ℕ) (mp index_ptr : Ptr) → Cmd (Unit {0})
commit_loop zero mp p = pure tt
commit_loop (suc left) mp p = do
  v ← load_version p
  s ← trans_get_status v.creator
  p' ← (if is_committed s then drop_committed mp p else pure p)
  v ← load_version p'
  commit_loop left mp v.next

unfoldable pub garbage_collect : Ptr → Cmd (Unit {0})
garbage_collect mp = do
  e ← load_entry mp
  if e.versions == null then pure tt else (do
    recent ← (λ m. abort_loop (suc m.fresh) mp 0 0 e.versions m)
    e ← load_entry mp
    commit_loop recent mp e.versions)
