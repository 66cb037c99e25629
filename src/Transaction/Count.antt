-- ===== src/Transaction/Count.antt =====
-- Distinct addresses below a bound are no more than the bound.
use concurrent_server.Common.{
  ◌≢◌, ℕ, zero, suc, ◌≤◌, ◌<◌, ◌≡◌, refl, sym, ap, subst, true, false, List, [], ◌∷◌, ◌++◌, arith,
  ◌==◌, length, Bool-cases, inl, inr,
}
use concurrent_server.Machine.{Ptr}
use concurrent_server.Transaction.Dependents.{mem}
use concurrent_server.Transaction.Ring.{AreDistinct, mem-ne}
use concurrent_server.Transaction.Path.{mem-append, AreDistinct-middle}

mem-split :
    (z : Ptr) (ts : List Ptr)
    → mem z ts ≡ true
    → (xs : List Ptr) × ((ys : List Ptr) × (ts ≡ xs ++ z ∷ ys))
mem-split z [] is = absurd (cc)
mem-split z (t ∷ ts) is = elim (Bool-cases (z == t)) [
  | inl e ↦ ([], (ts, ap (λ a. a ∷ ts) (ground arith)))
  | inr ne ↦ let (xs, (ys, e)) = mem-split z ts (ground arith) in (t ∷ xs, (ys, ap (λ l. t ∷ l) e))
]

length-middle :
    (xs : List Ptr) (z : Ptr) (ys : List Ptr) → length (xs ++ z ∷ ys) ≡ suc (length (xs ++ ys))
length-middle [] z ys = refl
length-middle (x ∷ xs) z ys = ap suc (length-middle xs z ys)

pub length-AreDistinct :
    (n : ℕ) (ts : List Ptr) → AreDistinct ts → ((q : Ptr) → mem q ts ≡ true → q < n) → length ts ≤ n
length-AreDistinct zero [] distinct below = omega arith
length-AreDistinct zero (t ∷ ts) distinct below =
    let impossible : t < 0 = below t (ground arith) in omega arith
length-AreDistinct (suc n) ts distinct below = elim (Bool-cases (mem n ts)) [
  | inl is ↦
      let (xs, (ys, e)) = mem-split n ts is in
      let d : AreDistinct (xs ++ n ∷ ys) = subst AreDistinct e distinct in
      let (left, right, rest) = AreDistinct-middle xs n ys d in
      let fewer : length (xs ++ ys) ≤ n = length-AreDistinct n (xs ++ ys) rest (λ q in_rest.
        let small : q < suc n = below q (
          subst (λ l. mem q l ≡ true) (sym e)
            (ground (arith, mem-append q xs (n ∷ ys), mem-append q xs ys))) in
        let new : mem n (xs ++ ys) ≡ false = ground (arith, mem-append n xs ys) in
        let ne : q ≢ n = mem-ne q n (xs ++ ys) in_rest new in omega arith) in
      subst (λ l. length l ≤ suc n) (sym e)
        (subst (λ k. k ≤ suc n) (sym (length-middle xs n ys)) (omega arith))
  | inr not ↦
      let fewer : length ts ≤ n = length-AreDistinct n ts distinct (λ q is.
        let small : q < suc n = below q is in
        let ne : q ≢ n = mem-ne q n ts is not in omega arith) in
      omega arith
]
