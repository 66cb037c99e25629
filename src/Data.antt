-- ===== src/Data.antt =====
-- src/data.c: blobs, keys and versions. A read past the end of a buffer is a fault.
pub mod Compare
pub mod Freed
pub mod Release
use concurrent_server.Common.{
  ℕ, zero, suc, Bool, true, false, ◌&&◌, Option, none, some, List, [], ◌∷◌, ◌==◌, leb,
  if◌then◌else◌, inc32, dec32, take, length,
}
use concurrent_server.Machine.{
  Ptr, null, Cmd, fault, pure, ◌>>=◌, ◌>>◌, load_blob, load_key, load_version, put_blob, put_key,
  put_version, new_blob, new_key, new_version,
}
use concurrent_server.Text.{hash}
use concurrent_server.Transaction.{trans_ref, trans_unref}

-- `memcpy` of `size` bytes out of a buffer.
abbrev pub copy : List ℕ → ℕ → Option (List ℕ)
copy content size = if leb size (length content) then some (take size content) else none

abbrev pub blob_of : (size : ℕ) → Option (List ℕ) → Cmd Ptr
blob_of size none = λ _. fault
blob_of size (some bytes) =
    new_blob (record { refcnt = 1; size = size; content = some bytes; prefix = some bytes })

unfoldable pub blob_create : Option (List ℕ) → ℕ → Cmd Ptr
blob_create none size = new_blob (record { refcnt = 1; size = size; content = none; prefix = none })
blob_create (some content) size = blob_of size (copy content size)

unfoldable pub blob_ref : Ptr → Cmd Ptr
blob_ref bp =
    if bp == null
    then pure null
    else do b ← load_blob bp; put_blob bp (some (record b { refcnt = inc32 b.refcnt })); pure bp

unfoldable pub blob_unref : Ptr → Cmd (Unit {0})
blob_unref bp = if bp == null then pure tt else do
  b ← load_blob bp
  put_blob bp (some (record b { refcnt = dec32 b.refcnt }))
  b ← load_blob bp
  if b.refcnt == 0 then put_blob bp none else pure tt

-- A byte that is the same or not, in front of what `memcmp` finds behind it.
abbrev pub and_byte : Bool → Option Bool → Option Bool
and_byte same none = none
and_byte same (some rest) = some (same && rest)

-- `memcmp(x, y, n) == 0`. `none` is undefined behaviour: one of the buffers has fewer than `n` bytes,
-- wherever the first difference is.
unfoldable pub memcmp_zero : List ℕ → List ℕ → ℕ → Option Bool
memcmp_zero xs ys zero = some true
memcmp_zero [] ys (suc n) = none
memcmp_zero (x ∷ xs) [] (suc n) = none
memcmp_zero (x ∷ xs) (y ∷ ys) (suc n) = and_byte (x == y) (memcmp_zero xs ys n)

-- What is read through `content`; NULL is a fault.
abbrev pub content_of : Ptr → Cmd (List ℕ)
content_of bp = do b ← load_blob bp; elim b.content [ none ↦ λ _. fault | some c ↦ pure c ]

abbrev pub checked : {A : Type 0} → Option A → Cmd A
checked none = λ _. fault
checked (some a) = pure a

-- `true` is the result 0, `false` the result -1.
unfoldable pub blob_compare : (bp1 bp2 : Ptr) → Cmd Bool
blob_compare bp1 bp2 = do
  b1 ← load_blob bp1
  b2 ← load_blob bp2
  c1 ← content_of bp1
  c2 ← content_of bp2
  same ← checked (memcmp_zero c1 c2 b1.size)
  if same then checked (memcmp_zero c1 c2 b2.size) else pure false

unfoldable pub blob_hash : Ptr → Cmd ℕ
blob_hash bp = do c ← content_of bp; checked (hash c)

unfoldable pub key_create : Ptr → Cmd Ptr
key_create bp = do h ← blob_hash bp; new_key (record { hash = h; blob = bp })

unfoldable pub key_dispose : Ptr → Cmd (Unit {0})
key_dispose kp = do k ← load_key kp; blob_unref k.blob; put_key kp none

unfoldable pub key_compare : (kp1 kp2 : Ptr) → Cmd Bool
key_compare kp1 kp2 = do
  k1 ← load_key kp1
  k2 ← load_key kp2
  same ← blob_compare k1.blob k2.blob
  pure (same && (k1.hash == k2.hash))

unfoldable pub version_create : (tp bp : Ptr) → Cmd Ptr
version_create tp bp = do
  v ← new_version (record { creator = tp; blob = bp; next = null; prev = null })
  if tp == null then pure v else (trans_ref tp >>= λ _. pure v)

unfoldable pub version_dispose : Ptr → Cmd (Unit {0})
version_dispose vp = do
  v ← load_version vp
  blob_unref v.blob
  trans_unref v.creator
  put_version vp none
