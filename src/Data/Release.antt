-- ===== src/Data/Release.antt =====
-- `blob_unref` and `key_dispose`: one reference is given back, and the last one frees the blob.
use concurrent_server.Common.{
  ◌≡◌, refl, Option, none, some, ◌==◌, if◌then◌else◌, dec32, ==_ne, Bool-cases, inl, inr,
}
use concurrent_server.Machine.{
  Ptr, Blob, Key, Machine, at, write, write-twice, at-ne-null, at-write_self, ok, and_then,
}
use concurrent_server.Machine.Points.{load_key-ok, load_blob-ok, put_key-ok, put_blob-ok}
use concurrent_server.Data.{blob_unref, key_dispose}

-- What is left of a blob with one reference less.
abbrev pub unreferenced_blob : Blob → Option Blob
unreferenced_blob b =
    if dec32 b.refcnt == 0 then none else some (record b { refcnt = dec32 b.refcnt })

pub blob_unref-ok :
    (m : Machine) (p : Ptr) {b : Blob}
    → at m.blobs p ≡ some b
    → blob_unref p m ≡ ok tt (record m { blobs = write m.blobs p (unreferenced_blob b) })
unfolding blob_unref and_then
blob_unref-ok m p {b} held =
    let less : Blob = record b { refcnt = dec32 b.refcnt } in
    let m1 : Machine = record m { blobs = write m.blobs p (some less) } in
    let again : at m1.blobs p ≡ some less = at-write_self m.blobs p _ (at-ne-null m.blobs p held) in
    rw
      (
        ==_ne _ _ (at-ne-null m.blobs p held),
        load_blob-ok m p held,
        put_blob-ok m p (some less) held,
        load_blob-ok m1 p again,
      )
      (elim (Bool-cases (dec32 b.refcnt == 0)) [
        | inl e ↦ rw (e, put_blob-ok m1 p none again, write-twice m.blobs p (some less) none) refl
        | inr e ↦ rw e refl
      ])

-- The machine without the key, and with one reference less to its blob.
abbrev pub disposed : Machine → (kp : Ptr) → Key → Blob → Machine
disposed m kp k b = record m {
  keys = write m.keys kp none;
  blobs = write m.blobs k.blob (unreferenced_blob b);
}

-- `key_dispose` frees the key and gives one reference to its blob back, which frees the blob if it
-- was the last one.
pub key_dispose-ok :
    (m : Machine) (kp : Ptr) {k : Key} {b : Blob}
    → at m.keys kp ≡ some k
    → at m.blobs k.blob ≡ some b
    → key_dispose kp m ≡ ok tt (disposed m kp k b)
unfolding key_dispose and_then
key_dispose-ok m kp {k} {b} held blob =
    rw
      (
        load_key-ok m kp held,
        blob_unref-ok m k.blob blob,
        put_key-ok (record m { blobs = write m.blobs k.blob (unreferenced_blob b) }) kp none held,
      )
      refl
