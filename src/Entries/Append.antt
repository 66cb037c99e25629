-- ===== src/Entries/Append.antt =====
-- A new entry at the end of a bucket.
use concurrent_server.Common.{
  ℕ, zero, suc, ◌<◌, ◌≡◌, ◌≢◌, refl, ◌∙◌, ap, some, List, [], ◌∷◌, arith, length, ==_ne, get_elem?,
  set, get_elem?-set_self,
}
use concurrent_server.Machine.{
  Ptr, null, Key, MapEntry, Machine, at, write, at-ne-null, at-write_self, at-write_ne, ok,
  and_then, new_entry,
}
use concurrent_server.Machine.Points.{load_key-ok, load_entry-ok, put_entry-ok}
use concurrent_server.Entries.{load_bucket, last_entry, map_entry_create, append_entry}
use concurrent_server.Entries.Bucket.{Slot, IsKey, IsBucket, length-IsBucket}

abbrev pub last_slot : Slot → List Slot → Slot
last_slot s [] = s
last_slot s (d ∷ ds) = last_slot d ds

pub record IsLast (m : Machine) (s : Slot) : Type 0 where
  pub held : at m.entries s.addr ≡ some s.body
  pub end : s.body.next ≡ null
  pub below : s.addr < m.fresh

pub last_slot-IsLast :
    (m : Machine) (i lo p : Ptr) (s : Slot) (ss : List Slot)
    → IsBucket m i lo p (s ∷ ss)
    → IsLast m (last_slot s ss)
last_slot-IsLast m i lo p s [] (_, _, below, held, _, end) = record {
  held = held;
  end = end;
  below = below;
}
last_slot-IsLast m i lo p s (d ∷ ds) (_, _, _, _, _, rest) =
    last_slot-IsLast m i (suc s.addr) s.body.next d ds rest

last_slot-gt :
    (m : Machine) (i lo p : Ptr) (s d : Slot) (ds : List Slot)
    → IsBucket m i lo p (s ∷ d ∷ ds)
    → s.addr < (last_slot d ds).addr
last_slot-gt m i lo p s d [] (_, _, _, _, _, rest) = rest.1
last_slot-gt m i lo p s d (b ∷ bs) (_, _, _, _, _, rest) =
    omega (arith, last_slot-gt m i (suc s.addr) s.body.next d b bs rest, rest.1)

last_entry-ok :
    (m : Machine) (k i lo p : ℕ) (s : Slot) (ss : List Slot)
    → IsBucket m i lo p (s ∷ ss)
    → length ss < k
    → last_entry k p m ≡ ok (last_slot s ss).addr m
unfolding last_entry and_then
last_entry-ok m zero i lo p s ss b fuel = absurd (omega arith)
last_entry-ok m (suc k) i lo p s [] (at_s, _, _, held, _, e) fuel =
    rw (at_s, load_entry-ok m s.addr held, e) refl
last_entry-ok m (suc k) i lo p s (d ∷ ds) (at_s, _, _, held, _, rest) fuel =
    let next_ne : s.body.next ≢ null = rw (rest.0) (at-ne-null m.entries d.addr (rest.3)) in
    rw (at_s, load_entry-ok m s.addr held, ==_ne _ _ next_ne)
      (last_entry-ok m k i (suc s.addr) s.body.next d ds rest (omega arith))

abbrev pub new_body : Ptr → MapEntry
new_body kp = record { key = kp; versions = null; next = null }

-- The first entry of a bucket, and one behind the entry of a slot.
abbrev pub with_first : Machine → (i kp : Ptr) → Machine
with_first m i kp = record m {
  entries = write m.entries m.fresh (some (new_body kp));
  table = set m.table i m.fresh;
  fresh = suc m.fresh;
}

abbrev pub with_next : Machine → (kp : Ptr) → Slot → Machine
with_next m kp s = record m {
  entries =
      write (write m.entries m.fresh (some (new_body kp))) s.addr
        (some (record (s.body) { next = m.fresh }));
  fresh = suc m.fresh;
}

load_bucket_at :
    (m : Machine) (i : ℕ) {p : Ptr} → get_elem? m.table i ≡ some p → load_bucket i m ≡ ok p m
load_bucket_at m i e = ground arith

module _ (m : Machine) (i kp : Ptr) {k : Key} {ys : List ℕ} (hk : IsKey m i kp k ys) {head : Ptr}
    (bucket : get_elem? m.table i ≡ some head) where
  pub load_bucket-ok : load_bucket k.hash m ≡ ok head m
  load_bucket-ok = rw hk.hash (load_bucket_at m i bucket)

  pub append_entry-first : head ≡ null → append_entry kp m ≡ ok m.fresh (with_first m i kp)
  unfolding append_entry map_entry_create new_entry and_then
  append_entry-first none_yet =
      let after : get_elem? (set m.table i m.fresh) i ≡ some m.fresh =
        get_elem?-set_self m.table i m.fresh bucket in
      rw (load_key-ok m kp hk.held, load_bucket-ok, none_yet, hk.hash)
        (load_bucket_at (with_first m i kp) i after)

  pub append_entry-next :
      (s : Slot) (ss : List Slot)
      → IsBucket m i 0 head (s ∷ ss)
      → append_entry kp m ≡ ok m.fresh (with_next m kp (last_slot s ss))
  unfolding append_entry map_entry_create new_entry and_then
  append_entry-next s ss b =
      let last : Slot = last_slot s ss in
      let is_last : IsLast m last = last_slot-IsLast m i 0 head s ss b in
      let fuel : length ss < suc m.fresh =
        omega (arith, length-IsBucket m i 0 head (s ∷ ss) (omega arith) b) in
      let m1 : Machine = record m {
        entries = write m.entries m.fresh (some (new_body kp));
        fresh = suc m.fresh;
      } in
      let held : at m1.entries last.addr ≡ some last.body =
        at-write_ne m.entries m.fresh last.addr _ (omega (arith, is_last.below)) ∙ is_last.held in
      let head_ne : head ≢ null = rw (b.0) (at-ne-null m.entries s.addr (b.3)) in
      rw
        (
          load_key-ok m kp hk.held,
          load_bucket-ok,
          ==_ne _ _ head_ne,
          last_entry-ok m (suc m.fresh) i 0 head s ss b fuel,
          load_entry-ok m1 last.addr held,
          put_entry-ok m1 last.addr (some (record (last.body) { next = m.fresh })) held,
        )
        refl

-- The new entry as a slot, and the bucket with it.
abbrev pub new_slot : (p kp : Ptr) → Key → List ℕ → Slot
new_slot p kp k ys = record { addr = p; body = new_body kp; key = k; content = ys }

abbrev pub extend : Slot → Slot → List Slot → List Slot
extend new s [] = record s { body = record (s.body) { next = new.addr } } ∷ new ∷ []
extend new s (d ∷ ds) = s ∷ extend new d ds

-- A key and its content where only map entries were written.
pub IsKey-entries :
    (m m' : Machine) (i kp : Ptr) {k : Key} {ys : List ℕ}
    → m'.keys ≡ m.keys
    → m'.blobs ≡ m.blobs
    → IsKey m i kp k ys
    → IsKey m' i kp k ys
IsKey-entries m m' i kp keys blobs hk = record {
  held = rw keys hk.held;
  hash = hk.hash;
  blob = record {
    blob = hk.blob.blob;
    held = rw blobs hk.blob.held;
    content = hk.blob.content;
    size = hk.blob.size;
  };
}

module _ (m : Machine) (i kp : Ptr) {k : Key} {ys : List ℕ} (hk : IsKey m i kp k ys) (last : Slot)
    (is_last : IsLast m last) where
  abbrev after : Machine
  after = with_next m kp last

  other_entry : (a : Ptr) → a < m.fresh → a ≢ last.addr → at after.entries a ≡ at m.entries a
  other_entry a lt ne =
      at-write_ne _ last.addr a _ ne ∙ at-write_ne m.entries m.fresh a _ (omega arith)

  new_entry_after : at after.entries m.fresh ≡ some (new_body kp)
  new_entry_after =
      let lt = is_last.below in
      at-write_ne _ last.addr m.fresh _ (omega arith)
      ∙ at-write_self m.entries m.fresh _ (omega arith)

  pub extend-IsBucket :
      (lo p : Ptr) (s : Slot) (ss : List Slot)
      → IsBucket m i lo p (s ∷ ss)
      → last_slot s ss ≡ last
      → IsBucket after i lo p (extend (new_slot m.fresh kp k ys) s ss)
  extend-IsBucket lo p s [] (at_s, le, lt, held, key, end) is = (
    at_s,
    le,
    omega arith,
    rw is (at-write_self _ last.addr _ (at-ne-null m.entries last.addr is_last.held)),
    IsKey-entries m after i s.body.key refl refl key,
    (refl, lt, omega arith, new_entry_after, IsKey-entries m after i kp refl refl hk, refl),
  )
  extend-IsBucket lo p s (d ∷ ds) (at_s, le, lt, held, key, rest) is =
      let before : s.addr < last.addr = omega (
        arith,
        last_slot-gt m i lo p s d ds (at_s, le, lt, held, key, rest),
        ap (λ x. Slot.addr x) is,
      ) in
      (
        at_s,
        le,
        omega arith,
        other_entry s.addr lt (omega arith) ∙ held,
        IsKey-entries m after i s.body.key refl refl key,
        extend-IsBucket (suc s.addr) s.body.next d ds rest is,
      )
