-- ===== src/Collect/Clean.antt =====
-- `garbage_collect` on a list with nothing to collect.
use concurrent_server.Common.{
  ℕ, zero, suc, ◌+◌, ◌≤◌, ◌<◌, ◌≡◌, refl, false, some, List, [], ◌∷◌, arith, ◌==◌, if◌then◌else◌,
  length, Bool-cases, inl, inr, ==_ne, ◌≢◌, ◌∙◌, subst,
}
use concurrent_server.Machine.{Ptr, null, MapEntry, Machine, at, at-ne-null, ok, and_then}
use concurrent_server.Machine.Points.{load_transaction-ok, load_version-ok, load_entry-ok}
use concurrent_server.Transaction.{is_committed, is_aborted, trans_get_status}
use concurrent_server.Versions.Chain.{Cell, IsChain, length-IsChain, has_aborted, committed_count}
use concurrent_server.Collect.{visit, abort_loop, commit_loop, garbage_collect}

-- What the first loop leaves in `recent`.
abbrev pub recent_of : (i recent : ℕ) → List Cell → ℕ
recent_of i r [] = r
recent_of i r (c ∷ cs) = recent_of (suc i) (if is_committed c.owner.status then i else r) cs

-- The first `n` cells are there, and none of them is committed.
abbrev Quiet : ℕ → List Cell → Type 0
Quiet zero cs = Unit
Quiet (suc n) [] = ⊥
Quiet (suc n) (c ∷ cs) = (is_committed c.owner.status ≡ false) × Quiet n cs

module _ (m : Machine) (mp : Ptr) {e : MapEntry} (entry : at m.entries mp ≡ some e) where
  pub visit-live :
      (i r : ℕ) (c : Cell)
      → at m.versions c.addr ≡ some c.body
      → at m.transactions c.body.creator ≡ some c.owner
      → is_aborted c.owner.status ≡ false
      → visit mp i r c.addr m ≡ ok (c.addr, if is_committed c.owner.status then i else r) m
  unfolding visit and_then trans_get_status
  visit-live i r c hv ht live =
      rw
        (
          load_version-ok m c.addr hv,
          ==_ne _ _ (at-ne-null m.transactions c.body.creator ht),
          load_transaction-ok m c.body.creator ht,
          load_entry-ok m mp entry,
          live,
        )
        (ground arith)

  pub abort_loop-live :
      (k i r lo : ℕ) (p : Ptr) (cs : List Cell)
      → IsChain m lo p cs
      → has_aborted cs ≡ false
      → length cs < k
      → abort_loop k mp i r p m ≡ ok (recent_of i r cs) m
  unfolding abort_loop and_then
  abort_loop-live zero i r lo p cs ch live fuel = absurd (omega arith)
  abort_loop-live (suc k) i r lo p [] ch live fuel = rw ch
  abort_loop-live (suc k) i r lo p (c ∷ cs) (at_c, _, _, hv, ht, rest) live fuel =
      rw
        (
          at_c,
          ==_ne _ _ (at-ne-null m.versions c.addr hv),
          visit-live i r c hv ht (ground arith),
          load_version-ok m c.addr hv,
        )
        (abort_loop-live k (suc i) _ (suc c.addr) c.body.next cs rest (ground arith) (omega arith))

  commit_loop-Quiet :
      (n lo : ℕ) (p : Ptr) (cs : List Cell)
      → IsChain m lo p cs
      → Quiet n cs
      → commit_loop n mp p m ≡ ok tt m
  unfolding commit_loop and_then trans_get_status
  commit_loop-Quiet zero lo p cs ch q = refl
  commit_loop-Quiet (suc n) lo p [] ch q = absurd q
  commit_loop-Quiet (suc n) lo p (c ∷ cs) (at_c, _, _, hv, ht, rest) (pending, q) =
      rw
        (
          at_c,
          load_version-ok m c.addr hv,
          load_transaction-ok m c.body.creator ht,
          pending,
          load_version-ok m c.addr hv,
        )
        (commit_loop-Quiet n (suc c.addr) c.body.next cs rest q)

pub recent_of-none : (i r : ℕ) (cs : List Cell) → committed_count cs ≡ 0 → recent_of i r cs ≡ r
recent_of-none i r [] h = refl
recent_of-none i r (c ∷ cs) h = ground (arith, recent_of-none (suc i) r cs)

Quiet-recent_of :
    (i : ℕ) (cs : List Cell)
    → committed_count cs ≡ 1
    → (r : ℕ) → (n : ℕ) × (recent_of i r cs ≡ i + n) × Quiet n cs
Quiet-recent_of i [] h r = absurd (omega arith)
Quiet-recent_of i (c ∷ cs) h r = elim (Bool-cases (is_committed c.owner.status)) [
  | inl yes_c ↦ (0, rw yes_c (recent_of-none (suc i) i cs (ground arith) ∙ omega arith), tt)
  | inr no_c ↦
      let (n, e, q) = Quiet-recent_of (suc i) cs (ground arith) r in
      (suc n, rw no_c (omega arith), (no_c, q))
]

-- So the second loop meets no committed version.
Quiet-recent_of_le : (cs : List Cell) → committed_count cs ≤ 1 → Quiet (recent_of 0 0 cs) cs
Quiet-recent_of_le cs few = elim (Bool-cases (committed_count cs == 0)) [
  | inl nothing ↦ rw (recent_of-none 0 0 cs (ground arith)) tt
  | inr one ↦
      let (n, e, q) = Quiet-recent_of 0 cs (ground arith) 0 in
      subst (λ k. Quiet k cs) (omega arith) q
]

-- If no version of the entry is aborted and at most one is committed, `garbage_collect` returns and
-- changes nothing.
pub collect-clean :
    (m : Machine) (mp : Ptr) {e : MapEntry} (cs : List Cell)
    → at m.entries mp ≡ some e
    → IsChain m 0 e.versions cs
    → has_aborted cs ≡ false
    → committed_count cs ≤ 1
    → garbage_collect mp m ≡ ok tt m
unfolding garbage_collect and_then
collect-clean m mp [] he ch live few = rw (load_entry-ok m mp he, ch)
collect-clean m mp {e} (c ∷ cs) he ch live few =
    let fuel : length (c ∷ cs) < suc m.fresh =
      omega (arith, length-IsChain m 0 e.versions (c ∷ cs) (omega arith) ch) in
    let ne : e.versions ≢ null = rw (ch.0) (at-ne-null m.versions c.addr ch.3) in
    rw
      (
        load_entry-ok m mp he,
        ==_ne _ _ ne,
        abort_loop-live m mp he (suc m.fresh) 0 0 0 e.versions (c ∷ cs) ch live fuel,
        load_entry-ok m mp he,
      )
      (commit_loop-Quiet m mp he _ 0 e.versions (c ∷ cs) ch (Quiet-recent_of_le (c ∷ cs) few))
