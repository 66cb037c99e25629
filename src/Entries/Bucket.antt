-- ===== src/Entries/Bucket.antt =====
-- What a bucket of the map stands for, and the search of it for a key.
use concurrent_server.Common.{
  leb, ℕ, zero, suc, ◌+◌, ◌≤◌, ◌<◌, ◌≡◌, ◌≢◌, refl, ap, Bool, true, false, ◌&&◌, Option, none, some,
  List, [], ◌∷◌, arith, ◌==◌, if◌then◌else◌, length, ==_ne, ==_refl, Bool-cases, inl, inr,
}
use concurrent_server.Machine.{Ptr, null, Key, MapEntry, Machine, at, at-ne-null, ok, and_then}
use concurrent_server.Machine.Points.{load_key-ok, load_entry-ok}
use concurrent_server.Data.{key_compare}
use concurrent_server.Data.Compare.{compare_contents, HasContent, blob_compare-contents}
use concurrent_server.Entries.{find_key}

-- Two contents, byte by byte.
abbrev pub equal : (xs ys : List ℕ) → Bool
equal [] [] = true
equal [] (y ∷ ys) = false
equal (x ∷ xs) [] = false
equal (x ∷ xs) (y ∷ ys) = (x == y) && equal xs ys

-- The key of an entry can be compared to another key: it has no more bytes, and is no proper prefix.
-- So can keys with the same number of bytes; else `memcmp` may read past the end of a buffer.
abbrev pub AreComparable : (xs ys : List ℕ) → Type 0
AreComparable xs ys = compare_contents xs ys ≢ none

-- A map entry with its key and the content of that.
pub record Slot : Type 0 where
  pub addr : Ptr
  pub body : MapEntry
  pub key : Key
  pub content : List ℕ

-- The key at a pointer, whose content has the hash of the bucket.
pub record IsKey (m : Machine) (i : ℕ) (kp : Ptr) (k : Key) (xs : List ℕ) : Type 0 where
  pub held : at m.keys kp ≡ some k
  pub hash : k.hash ≡ i
  pub blob : HasContent m k.blob xs

-- From `p` the `next` pointers lead through `ss` to NULL, at growing addresses.
abbrev pub IsBucket : Machine → (i lo p : Ptr) → List Slot → Type 0
IsBucket m i lo p [] = p ≡ null
IsBucket m i lo p (s ∷ ss) =
    (p ≡ s.addr)
    × (lo ≤ s.addr)
    × (s.addr < m.fresh)
    × (at m.entries s.addr ≡ some s.body)
    × IsKey m i s.body.key s.key s.content
    × IsBucket m i (suc s.addr) s.body.next ss

pub length-IsBucket :
    (m : Machine) (i lo p : Ptr) (ss : List Slot)
    → lo ≤ m.fresh
    → IsBucket m i lo p ss
    → lo + length ss ≤ m.fresh
length-IsBucket m i lo p [] h b = omega arith
length-IsBucket m i lo p (s ∷ ss) h b =
    omega (arith, length-IsBucket m i (suc s.addr) s.body.next ss)

-- Each key of the bucket can be compared to a content.
abbrev pub AllComparable : List Slot → List ℕ → Type 0
AllComparable [] ys = Unit {0}
AllComparable (s ∷ ss) ys = AreComparable s.content ys × AllComparable ss ys

-- The first entry with a content.
abbrev pub lookup : List ℕ → List Slot → Option Ptr
lookup ys [] = none
lookup ys (s ∷ ss) = let rest = lookup ys ss in if equal s.content ys then some s.addr else rest

compare_contents-equal :
    (xs ys : List ℕ) → AreComparable xs ys → compare_contents xs ys ≡ some (equal xs ys)
compare_contents-equal [] [] h = refl
compare_contents-equal [] (y ∷ ys) h = absurd (h refl)
compare_contents-equal (x ∷ xs) [] h = absurd (h refl)
compare_contents-equal (x ∷ xs) (y ∷ ys) h = elim (Bool-cases (x == y)) [
  | inl e ↦ rw e (compare_contents-equal xs ys (λ no. h (rw e no)))
  | inr e ↦ elim (Bool-cases (leb (length xs) (length ys))) [
    | inl le ↦ rw (e, le) refl
    | inr gt ↦ absurd (h (rw (e, gt) refl))
  ]
]

pub key_compare-equal :
    (m : Machine) (i p kp : Ptr) (k1 k2 : Key) (xs ys : List ℕ)
    → IsKey m i p k1 xs
    → IsKey m i kp k2 ys
    → AreComparable xs ys
    → key_compare p kp m ≡ ok (equal xs ys) m
unfolding key_compare and_then
key_compare-equal m i p kp k1 k2 xs ys h1 h2 comparable =
    let same : (k1.hash == k2.hash) ≡ true = rw (h1.hash, h2.hash) (==_refl i) in
    rw
      (
        load_key-ok m p h1.held,
        load_key-ok m kp h2.held,
        blob_compare-contents m k1.blob k2.blob xs ys h1.blob h2.blob,
        compare_contents-equal xs ys comparable,
        same,
      )
      (ap (λ b. ok b m) (ground arith))

pub find_key-lookup :
    (m : Machine) (k i lo p kp : ℕ) (key : Key) (ys : List ℕ) (ss : List Slot)
    → IsKey m i kp key ys
    → IsBucket m i lo p ss
    → AllComparable ss ys
    → length ss < k
    → find_key k kp p m ≡ ok (lookup ys ss) m
unfolding find_key and_then
find_key-lookup m zero i lo p kp key ys ss hk b c fuel = absurd (omega arith)
find_key-lookup m (suc k) i lo p kp key ys [] hk b c fuel = rw b refl
find_key-lookup m (suc k) i lo p kp key ys (s ∷ ss) hk (at_s, _, _, held, hs, rest) (c, cs) fuel =
    let next =
      find_key-lookup m k i (suc s.addr) s.body.next kp key ys ss hk rest cs (omega arith) in
    rw
      (
        at_s,
        ==_ne _ _ (at-ne-null m.entries s.addr held),
        load_entry-ok m s.addr held,
        key_compare-equal m i s.body.key kp s.key key s.content ys hs hk c,
      )
      (elim (Bool-cases (equal s.content ys)) [ inl e ↦ rw e refl | inr e ↦ rw e next ])
