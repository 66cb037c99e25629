-- ===== src/Data/Compare.antt =====
-- `blob_compare` and `key_compare`.
use concurrent_server.Common.{
  ◌<◌, ◌≤◌, ◌∙◌, ap, ◌&&◌, leb, Bool-cases, inl, inr, ℕ, ◌≡◌, refl, ◌↔◌, Bool, true, false, Option,
  none, some, List, [], ◌∷◌, arith, ◌==◌, if◌then◌else◌, length,
}
use concurrent_server.Machine.{Ptr, Blob, Machine, at, ok, and_then}
use concurrent_server.Machine.Points.{load_blob-ok}
use concurrent_server.Data.{and_byte, memcmp_zero, checked, blob_compare}

-- Content against content. `none` where the first one has more bytes, or is a proper prefix of the
-- second one: a call of `memcmp` then has a buffer that is too short.
abbrev pub compare_contents : (xs ys : List ℕ) → Option Bool
compare_contents [] [] = some true
compare_contents [] (y ∷ ys) = none
compare_contents (x ∷ xs) [] = none
compare_contents (x ∷ xs) (y ∷ ys) =
    let rest = compare_contents xs ys in
    if x == y then rest else if leb (length xs) (length ys) then some false else none

-- The two calls of `memcmp`, one for each size.
abbrev both_ways : (xs ys : List ℕ) → Option Bool → Option Bool
both_ways xs ys none = none
both_ways xs ys (some false) = some false
both_ways xs ys (some true) = memcmp_zero xs ys (length ys)

memcmp-long : (xs ys : List ℕ) → length ys < length xs → memcmp_zero xs ys (length xs) ≡ none
unfolding memcmp_zero
memcmp-long [] ys less = absurd (omega arith)
memcmp-long (x ∷ xs) [] less = refl
memcmp-long (x ∷ xs) (y ∷ ys) less = ap (and_byte (x == y)) (memcmp-long xs ys (omega arith))

memcmp-short :
    (xs ys : List ℕ) → length xs ≤ length ys → (b : Bool) × (memcmp_zero xs ys (length xs) ≡ some b)
unfolding memcmp_zero
memcmp-short [] ys le = (true, refl)
memcmp-short (x ∷ xs) [] le = absurd (omega arith)
memcmp-short (x ∷ xs) (y ∷ ys) le =
    let (b, e) = memcmp-short xs ys (omega arith) in ((x == y) && b, ap (and_byte (x == y)) e)

true_and : (o : Option Bool) → and_byte true o ≡ o
true_and none = refl
true_and (some b) = refl

both_ways-same :
    (x y : ℕ) (xs ys : List ℕ) (r : Option Bool)
    → (x == y) ≡ true
    → both_ways (x ∷ xs) (y ∷ ys) r ≡ both_ways xs ys r
unfolding memcmp_zero
both_ways-same x y xs ys none same = refl
both_ways-same x y xs ys (some false) same = refl
both_ways-same x y xs ys (some true) same = rw same (true_and (memcmp_zero xs ys (length ys)))

both_ways-compare :
    (xs ys : List ℕ) → both_ways xs ys (memcmp_zero xs ys (length xs)) ≡ compare_contents xs ys
unfolding memcmp_zero
both_ways-compare [] [] = refl
both_ways-compare [] (y ∷ ys) = refl
both_ways-compare (x ∷ xs) [] = refl
both_ways-compare (x ∷ xs) (y ∷ ys) = elim (Bool-cases (x == y)) [
  | inl same ↦ rw same (
      ap (both_ways (x ∷ xs) (y ∷ ys)) (true_and (memcmp_zero xs ys (length xs)))
      ∙ (both_ways-same x y xs ys (memcmp_zero xs ys (length xs)) same ∙ both_ways-compare xs ys))
  | inr differ ↦ elim (Bool-cases (leb (length xs) (length ys))) [
    | inl le ↦ let (b, e) = memcmp-short xs ys (ground arith) in rw (differ, le, e) refl
    | inr gt ↦
        let less : length ys < length xs = ground arith in
        rw (differ, gt, memcmp-long xs ys less) refl
  ]
]

compare_contents_refl : (xs : List ℕ) → compare_contents xs xs ≡ some true
compare_contents_refl [] = refl
compare_contents_refl (x ∷ xs) = ground (arith, compare_contents_refl xs)

compare_contents-eq : (xs ys : List ℕ) → compare_contents xs ys ≡ some true → xs ≡ ys
compare_contents-eq [] [] e = refl
compare_contents-eq [] (y ∷ ys) e = cc
compare_contents-eq (x ∷ xs) [] e = cc
compare_contents-eq (x ∷ xs) (y ∷ ys) e = ground (arith, compare_contents-eq xs ys)

checked-ok : (o : Option Bool) (m : Machine) → checked o m ≡ ok true m → o ≡ some true
checked-ok none m e = cc
checked-ok (some b) m e = cc

-- A blob as `blob_create` makes it from a content that is not NULL.
pub record HasContent (m : Machine) (p : Ptr) (xs : List ℕ) : Type 0 where
  pub blob : Blob
  pub held : at m.blobs p ≡ some blob
  pub content : blob.content ≡ some xs
  pub size : blob.size ≡ length xs

module _ (m : Machine) (p q : Ptr) (xs ys : List ℕ) (hp : HasContent m p xs)
    (hq : HasContent m q ys) where
  pub blob_compare-contents : blob_compare p q m ≡ checked (compare_contents xs ys) m
  unfolding blob_compare and_then
  blob_compare-contents =
      rw
        (
          load_blob-ok m p hp.held,
          load_blob-ok m q hq.held,
          load_blob-ok m p hp.held,
          hp.content,
          load_blob-ok m q hq.held,
          hq.content,
          hp.size,
          hq.size,
          ← both_ways-compare xs ys,
        )
        (ground arith)

  -- Two blobs compare as equal exactly if they have the same content.
  pub blob_compare-true_iff : (blob_compare p q m ≡ ok true m) ↔ (xs ≡ ys)
  blob_compare-true_iff = rw blob_compare-contents (
    (λ e. compare_contents-eq xs ys (checked-ok (compare_contents xs ys) m e)),
    (λ e. rw (e, compare_contents_refl ys)),
  )
