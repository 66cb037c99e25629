-- ===== src/Store/Copy.antt =====
-- The copy of a blob that `store_get` makes.
use concurrent_server.Common.{
  ℕ, suc, ◌<◌, ◌≡◌, ◌≢◌, refl, ◌⊎◌, inl, inr, none, some, List, ◌∷◌, arith, length, take-all, ==_ne,
}
use concurrent_server.Machine.{
  Ptr, null, Blob, MapEntry, Machine, at, write, at-ne-null, ok, and_then, new_blob,
}
use concurrent_server.Machine.Points.{load_blob-ok, load_version-ok, load_entry-ok}
use concurrent_server.Data.{blob_create, copy}
use concurrent_server.Versions.Chain.{Cell, IsChain, length-IsChain}
use concurrent_server.Versions.Last.{last_cell, last_version-ok, IsLast, last_cell-IsLast}
use concurrent_server.Store.{latest_value}

-- The content is NULL, or the buffer has the size of the blob.
abbrev pub IsWhole : Blob → Type 0
IsWhole b = (b.content ≡ none) ⊎ ((xs : List ℕ) × (b.content ≡ some xs) × (b.size ≡ length xs))

abbrev pub copied : Blob → Blob
copied b = record { refcnt = 1; size = b.size; content = b.content; prefix = b.content }

abbrev pub with_blob : Machine → Blob → Machine
with_blob m b = record m { blobs = write m.blobs m.fresh (some b); fresh = suc m.fresh }

copy-all : (xs : List ℕ) (n : ℕ) → n ≡ length xs → copy xs n ≡ some xs
copy-all xs n e = ground (arith, take-all xs n)

pub blob_create-copied :
    (m : Machine) (b : Blob)
    → IsWhole b
    → blob_create b.content b.size m ≡ ok m.fresh (with_blob m (copied b))
unfolding blob_create new_blob
blob_create-copied m b (inl e) = rw e refl
blob_create-copied m b (inr (xs, e, size)) = rw (e, copy-all xs b.size size) refl

-- The copy of the blob of the last version.
pub latest_value-last :
    (m : Machine) (mp : Ptr) {e : MapEntry} (c : Cell) (cs : List Cell) {b : Blob}
    → at m.entries mp ≡ some e
    → IsChain m 0 e.versions (c ∷ cs)
    → at m.blobs (last_cell c cs).body.blob ≡ some b
    → IsWhole b
    → latest_value mp m ≡ ok m.fresh (with_blob m (copied b))
unfolding latest_value and_then
latest_value-last m mp {e} c cs {b} entry chain blob whole =
    let last : Cell = last_cell c cs in
    let is_last : IsLast m last = last_cell-IsLast m 0 e.versions c cs chain in
    let ne : e.versions ≢ null = rw (chain.0) (at-ne-null m.versions c.addr (chain.3)) in
    let fuel : length cs < suc m.fresh =
      omega (arith, length-IsChain m 0 e.versions (c ∷ cs) (omega arith) chain) in
    rw
      (
        load_entry-ok m mp entry,
        ==_ne _ _ ne,
        last_version-ok m (suc m.fresh) 0 e.versions c cs chain fuel,
        load_version-ok m last.addr is_last.body,
        load_blob-ok m last.body.blob blob,
      )
      (blob_create-copied m b whole)
