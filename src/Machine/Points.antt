-- ===== src/Machine/Points.antt =====
-- A read or a write through a pointer to an allocated cell returns.
use concurrent_server.Common.{◌≡◌, Option, some}
use concurrent_server.Machine.{
  Ptr, Transaction, Dependency, Blob, Key, Version, MapEntry, Machine, at, write, ok,
  load_transaction, load_dependency, load_blob, load_key, load_version, load_entry, put_transaction,
  put_dependency, put_blob, put_key, put_version, put_entry,
}

module _ (m : Machine) (p : Ptr) where
  pub load_transaction-ok :
      {v : Transaction} → at m.transactions p ≡ some v → load_transaction p m ≡ ok v m
  unfolding load_transaction
  load_transaction-ok e = rw e

  pub load_dependency-ok :
      {v : Dependency} → at m.dependencies p ≡ some v → load_dependency p m ≡ ok v m
  unfolding load_dependency
  load_dependency-ok e = rw e

  pub load_blob-ok : {v : Blob} → at m.blobs p ≡ some v → load_blob p m ≡ ok v m
  unfolding load_blob
  load_blob-ok e = rw e

  pub load_key-ok : {v : Key} → at m.keys p ≡ some v → load_key p m ≡ ok v m
  unfolding load_key
  load_key-ok e = rw e

  pub load_version-ok : {v : Version} → at m.versions p ≡ some v → load_version p m ≡ ok v m
  unfolding load_version
  load_version-ok e = rw e

  pub load_entry-ok : {v : MapEntry} → at m.entries p ≡ some v → load_entry p m ≡ ok v m
  unfolding load_entry
  load_entry-ok e = rw e

  pub put_transaction-ok :
      {v : Transaction} (c : Option Transaction)
      → at m.transactions p ≡ some v
      → put_transaction p c m ≡ ok tt (record m { transactions = write m.transactions p c })
  unfolding put_transaction
  put_transaction-ok c e = rw e

  pub put_dependency-ok :
      {v : Dependency} (c : Option Dependency)
      → at m.dependencies p ≡ some v
      → put_dependency p c m ≡ ok tt (record m { dependencies = write m.dependencies p c })
  unfolding put_dependency
  put_dependency-ok c e = rw e

  pub put_blob-ok :
      {v : Blob} (c : Option Blob)
      → at m.blobs p ≡ some v
      → put_blob p c m ≡ ok tt (record m { blobs = write m.blobs p c })
  unfolding put_blob
  put_blob-ok c e = rw e

  pub put_key-ok :
      {v : Key} (c : Option Key)
      → at m.keys p ≡ some v
      → put_key p c m ≡ ok tt (record m { keys = write m.keys p c })
  unfolding put_key
  put_key-ok c e = rw e

  pub put_version-ok :
      {v : Version} (c : Option Version)
      → at m.versions p ≡ some v
      → put_version p c m ≡ ok tt (record m { versions = write m.versions p c })
  unfolding put_version
  put_version-ok c e = rw e

  pub put_entry-ok :
      {v : MapEntry} (c : Option MapEntry)
      → at m.entries p ≡ some v
      → put_entry p c m ≡ ok tt (record m { entries = write m.entries p c })
  unfolding put_entry
  put_entry-ok c e = rw e
