-- ===== src/Data/Freed.antt =====
-- `version_dispose` returns and leaves no version at the address.
use concurrent_server.Common.{◌≡◌, refl, none, some}
use concurrent_server.Machine.{
  Ptr, fault, Version, Transaction, Blob, Machine, at, write, load_version, at-write_free, ok,
  and_then,
}
use concurrent_server.Machine.Points.{load_version-ok, put_version-ok}
use concurrent_server.Transaction.Abort.{IsShared, unreferenced, trans_unref-ok}
use concurrent_server.Data.{version_dispose}
use concurrent_server.Data.Release.{unreferenced_blob, blob_unref-ok}

abbrev pub Freed : Ptr → Machine → Type 0
Freed p m = at m.versions p ≡ none

-- The machine once a version is disposed of.
abbrev pub without_version : Machine → Ptr → Version → Transaction → Blob → Machine
without_version m p v t b = record m {
  versions = write m.versions p none;
  transactions = write m.transactions v.creator (some (unreferenced t));
  blobs = write m.blobs v.blob (unreferenced_blob b);
}

pub version_dispose-ok :
    (m : Machine) (p : Ptr) {v : Version} {t : Transaction} {b : Blob}
    → at m.versions p ≡ some v
    → at m.transactions v.creator ≡ some t
    → IsShared t
    → at m.blobs v.blob ≡ some b
    → version_dispose p m ≡ ok tt (without_version m p v t b)
unfolding version_dispose and_then
version_dispose-ok m p {v} {t} {b} held creator shared blob =
    let m1 : Machine = record m { blobs = write m.blobs v.blob (unreferenced_blob b) } in
    let m2 : Machine = record m1 {
      transactions = write m.transactions v.creator (some (unreferenced t));
    } in
    rw
      (
        load_version-ok m p held,
        blob_unref-ok m v.blob blob,
        trans_unref-ok m1 v.creator creator shared,
        put_version-ok m2 p none held,
      )
      refl

pub load_version-Freed : (p : Ptr) (m : Machine) → Freed p m → load_version p m ≡ fault
unfolding load_version
load_version-Freed p m e = rw e

-- A version that was disposed of is read.
pub load_version-disposed :
    (m : Machine) (p : Ptr) (v : Version) (t : Transaction) (b : Blob)
    → load_version p (without_version m p v t b) ≡ fault
load_version-disposed m p v t b =
    load_version-Freed p (without_version m p v t b) (at-write_free m.versions p)
