-- ===== src/Collect/Dirty.antt =====
-- `garbage_collect` on a list with something to collect: the version is freed and then read.
use concurrent_server.Common.{
  ℕ, zero, suc, ◌+◌, ◌≤◌, ◌<◌, ◌≡◌, refl, ◌⊎◌, Bool, true, false, ◌||◌, some, List, [], ◌∷◌, arith,
  ◌==◌, if◌then◌else◌, length, Bool-cases, inl, inr, ==_ne, ==_refl, ◌≢◌, subst,
}
use concurrent_server.Machine.{
  Ptr, null, Blob, MapEntry, Machine, at, at-ne-null, write, ok, fault, and_then,
}
use concurrent_server.Machine.Points.{load_version-ok, load_entry-ok, put_entry-ok}
use concurrent_server.Transaction.{is_committed, is_aborted}
use concurrent_server.Transaction.Status.{trans_get_status-ok}
use concurrent_server.Transaction.Abort.{IsShared}
use concurrent_server.Data.Freed.{version_dispose-ok, load_version-disposed, without_version}
use concurrent_server.Versions.Chain.{Cell, IsChain, length-IsChain, has_aborted, committed_count}
use concurrent_server.Versions.Overwrite.{stands_at, remove_version_from_ll-ok, at-cut_off, cut_off}
use concurrent_server.Collect.{
  drop_aborted, drop_committed, visit, abort_loop, commit_loop, garbage_collect,
}
use concurrent_server.Collect.Clean.{recent_of, recent_of-none, visit-live, abort_loop-live}

-- The blob of each version is allocated, and its creator has other references.
abbrev pub AllHeld : Machine → List Cell → Type 0
AllHeld m [] = Unit {0}
AllHeld m (c ∷ cs) =
    ((b : Blob) × (at m.blobs c.body.blob ≡ some b)) × IsShared c.owner × AllHeld m cs

module _ (m : Machine) (mp : Ptr) {e : MapEntry} (entry : at m.entries mp ≡ some e) (c : Cell)
    (version : at m.versions c.addr ≡ some c.body)
    (creator : at m.transactions c.body.creator ≡ some c.owner) {b : Blob}
    (blob : at m.blobs c.body.blob ≡ some b) (shared : IsShared c.owner) where
  -- The machine without the version, when it was the head of the list.
  abbrev beheaded : Machine
  beheaded =
      without_version
        (record m { entries = write m.entries mp (some (record e { versions = c.body.next })) })
        c.addr c.body c.owner b

  -- The machine without the version, when it stood behind another one.
  abbrev shortened : Machine
  shortened =
      without_version (cut_off m c.addr c.body) c.addr (record (c.body) { next = null }) c.owner b

  module _ (all : List Cell) (chain : IsChain m 0 e.versions all) (is : stands_at c.addr all ≡ true)
      (later : (c.addr == e.versions) ≡ false) where
    drop_aborted-ok : drop_aborted mp c.addr m ≡ ok c.addr shortened
    unfolding drop_aborted and_then
    drop_aborted-ok =
        let m1 : Machine = cut_off m c.addr c.body in
        rw
          (
            load_entry-ok m mp entry,
            remove_version_from_ll-ok m c.addr e.versions all chain is version,
            load_version-ok m1 c.addr (at-cut_off m c.addr version),
            version_dispose-ok m1 c.addr (at-cut_off m c.addr version) creator shared blob,
          )
          refl

    drop_committed-later : drop_committed mp c.addr m ≡ ok c.addr shortened
    unfolding drop_committed and_then
    drop_committed-later =
        let m1 : Machine = cut_off m c.addr c.body in
        rw
          (
            load_version-ok m c.addr version,
            load_entry-ok m mp entry,
            later,
            remove_version_from_ll-ok m c.addr e.versions all chain is version,
            version_dispose-ok m1 c.addr (at-cut_off m c.addr version) creator shared blob,
          )
          refl

    visit-later :
        (i r : ℕ)
        → is_aborted c.owner.status ≡ true
        → visit mp i r c.addr m ≡ ok (c.addr, r) shortened
    unfolding visit and_then
    visit-later i r dead =
        rw
          (
            load_version-ok m c.addr version,
            ==_ne _ _ (at-ne-null m.transactions c.body.creator creator),
            trans_get_status-ok m c.body.creator creator,
            load_entry-ok m mp entry,
            dead,
            later,
            drop_aborted-ok,
          )
          refl

  drop_committed-head :
      (c.addr == e.versions) ≡ true → drop_committed mp c.addr m ≡ ok c.addr beheaded
  unfolding drop_committed and_then
  drop_committed-head head =
      let m1 : Machine = record m {
        entries = write m.entries mp (some (record e { versions = c.body.next }));
      } in
      rw
        (
          load_version-ok m c.addr version,
          load_entry-ok m mp entry,
          head,
          load_entry-ok m mp entry,
          put_entry-ok m mp (some (record e { versions = c.body.next })) entry,
          version_dispose-ok m1 c.addr version creator shared blob,
        )
        refl

module _ (m : Machine) (mp : Ptr) {e : MapEntry} (entry : at m.entries mp ≡ some e)
    (all : List Cell) (chain : IsChain m 0 e.versions all) where
  -- The rest of the list is in it.
  abbrev Inside : List Cell → Type 0
  Inside cs = (a : Ptr) → stands_at a cs ≡ true → stands_at a all ≡ true

  abort_loop-fault :
      (k i r lo : ℕ) (p : Ptr) (cs : List Cell)
      → IsChain m lo p cs
      → e.versions < lo
      → Inside cs
      → AllHeld m cs
      → has_aborted cs ≡ true
      → length cs < k
      → abort_loop k mp i r p m ≡ fault
  unfolding abort_loop and_then
  abort_loop-fault zero i r lo p cs ch behind inside held dead fuel = absurd (omega arith)
  abort_loop-fault (suc k) i r lo p [] ch behind inside held dead fuel = cc
  abort_loop-fault (suc k) i r lo p (c ∷ cs) (at_c, le, _, hv, ht, rest) behind inside
        ((b, blob), shared, held) dead fuel =
      rw (at_c, ==_ne _ _ (at-ne-null m.versions c.addr hv))
        (elim (Bool-cases (is_aborted c.owner.status)) [
          | inl now ↦
              let later : (c.addr == e.versions) ≡ false = ==_ne c.addr e.versions (omega arith) in
              rw
                (
                  visit-later m mp entry c hv ht blob shared all chain
                      (inside c.addr (rw (==_refl c.addr) refl)) later i r now,
                  load_version-disposed (cut_off m c.addr c.body) c.addr
                      (record (c.body) { next = null }) c.owner b,
                )
                refl
          | inr later ↦
              rw (visit-live m mp entry i r c hv ht later, load_version-ok m c.addr hv)
                (abort_loop-fault k (suc i) _ (suc c.addr) c.body.next cs rest (omega arith)
                  (λ a is. inside a (ground arith)) held (ground arith) (omega arith))
        ])

-- The first version is passed over.
abort_loop-first :
    (m : Machine) (mp : Ptr) {e : MapEntry} (entry : at m.entries mp ≡ some e) (c : Cell)
    (cs : List Cell)
    → IsChain m 0 e.versions (c ∷ cs)
    → AllHeld m (c ∷ cs)
    → is_aborted c.owner.status ≡ false
    → has_aborted cs ≡ true
    → abort_loop (suc m.fresh) mp 0 0 e.versions m ≡ fault
unfolding abort_loop and_then
abort_loop-first m mp {e} entry c cs ch held live dead =
    let (at_c, _, _, hv, ht, rest) = ch in
    let ne : e.versions ≢ null = rw at_c (at-ne-null m.versions c.addr hv) in
    let fuel : length cs < m.fresh =
      omega (arith, length-IsChain m 0 e.versions (c ∷ cs) (omega arith) ch) in
    let first = visit-live m mp entry 0 0 c hv ht live in
    rw (==_ne _ _ ne, at_c, first, load_version-ok m c.addr hv)
      (abort_loop-fault m mp entry (c ∷ cs) ch m.fresh 1 _ (suc c.addr) c.body.next cs rest
        (omega arith) (λ a is. ground arith) (held.2) dead fuel)

-- Some cell among the first `n` is committed.
abbrev busy : ℕ → List Cell → Bool
busy zero cs = false
busy (suc n) [] = false
busy (suc n) (c ∷ cs) = is_committed c.owner.status || busy n cs

recent_of-later :
    (i r : ℕ) (cs : List Cell) → 1 ≤ committed_count cs → (n : ℕ) × (recent_of i r cs ≡ i + n)
recent_of-later i r [] h = absurd (omega arith)
recent_of-later i r (c ∷ cs) h = elim (Bool-cases (committed_count cs == 0)) [
  | inl last ↦ (0, ground (arith, recent_of-none (suc i) i cs))
  | inr more ↦
      let (n, e) =
        recent_of-later (suc i) (if is_committed c.owner.status then i else r) cs (ground arith) in
      (suc n, omega arith)
]

-- With two committed versions the second loop meets one of them before the most recent.
busy-recent_of :
    (i r : ℕ) (cs : List Cell)
    → 2 ≤ committed_count cs
    → (n : ℕ) × (recent_of i r cs ≡ i + n) × (busy n cs ≡ true)
busy-recent_of i r [] h = absurd (omega arith)
busy-recent_of i r (c ∷ cs) h = elim (Bool-cases (is_committed c.owner.status)) [
  | inl now ↦
      let (n, e) = recent_of-later (suc i) i cs (ground arith) in
      (suc n, rw now (omega arith), rw now)
  | inr later ↦
      let (n, e, b) = busy-recent_of (suc i) r cs (ground arith) in
      (suc n, rw later (omega arith), rw later b)
]

module _ (m : Machine) (mp : Ptr) {e : MapEntry} (entry : at m.entries mp ≡ some e)
    (all : List Cell) (chain : IsChain m 0 e.versions all) where
  commit_loop-fault :
      (n lo : ℕ) (p : Ptr) (cs : List Cell)
      → IsChain m lo p cs
      → ((a : Ptr) → stands_at a cs ≡ true → stands_at a all ≡ true)
      → AllHeld m cs
      → busy n cs ≡ true
      → commit_loop n mp p m ≡ fault
  unfolding commit_loop and_then
  commit_loop-fault zero lo p cs ch inside held b = cc
  commit_loop-fault (suc n) lo p [] ch inside held b = cc
  commit_loop-fault (suc n) lo p (c ∷ cs) (at_c, _, _, hv, ht, rest) inside
        ((b, blob), shared, held) found =
      rw (at_c, load_version-ok m c.addr hv, trans_get_status-ok m c.body.creator ht)
        (elim (Bool-cases (is_committed c.owner.status)) [
          | inl now ↦ elim (Bool-cases (c.addr == e.versions)) [
            | inl head ↦
                rw
                  (
                    now,
                    drop_committed-head m mp entry c hv ht blob shared head,
                    load_version-disposed
                        (record m {
                          entries = write m.entries mp (some (record e { versions = c.body.next }));
                        })
                        c.addr c.body c.owner b,
                  )
                  refl
            | inr later ↦
                rw
                  (
                    now,
                    drop_committed-later m mp entry c hv ht blob shared all chain
                        (inside c.addr (rw (==_refl c.addr) refl)) later,
                    load_version-disposed (cut_off m c.addr c.body) c.addr
                        (record (c.body) { next = null }) c.owner b,
                  )
                  refl
          ]
          | inr later ↦
              rw (later, load_version-ok m c.addr hv)
                (commit_loop-fault n (suc c.addr) c.body.next cs rest
                  (λ a is. inside a (ground arith)) held (ground arith))
        ])

-- If the version list of an entry is well formed, with blobs that are allocated and creators that
-- have other references, and its first version is not aborted, but another one is or two are
-- committed, then `garbage_collect` is undefined behaviour.
pub collect-dirty :
    (m : Machine) (mp : Ptr) {e : MapEntry} (c : Cell) (cs : List Cell)
    → at m.entries mp ≡ some e
    → IsChain m 0 e.versions (c ∷ cs)
    → AllHeld m (c ∷ cs)
    → is_aborted c.owner.status ≡ false
    → (has_aborted cs ≡ true) ⊎ (2 ≤ committed_count (c ∷ cs))
    → garbage_collect mp m ≡ fault
unfolding garbage_collect and_then
collect-dirty m mp {e} c cs he ch held live dirty =
    let fuel : length (c ∷ cs) < suc m.fresh =
      omega (arith, length-IsChain m 0 e.versions (c ∷ cs) (omega arith) ch) in
    let ne : e.versions ≢ null = rw (ch.0) (at-ne-null m.versions c.addr ch.3) in
    rw (load_entry-ok m mp he, ==_ne _ _ ne)
      (elim (Bool-cases (has_aborted cs)) [
        | inl dead ↦ rw (abort_loop-first m mp he c cs ch held live dead) refl
        | inr none_dead ↦
            let (n, eq, b) = busy-recent_of 0 0 (c ∷ cs) (ground arith) in
            rw
              (
                abort_loop-live m mp he (suc m.fresh) 0 0 0 e.versions (c ∷ cs) ch (ground arith)
                    fuel,
                load_entry-ok m mp he,
              )
              (commit_loop-fault m mp he (c ∷ cs) ch _ 0 e.versions (c ∷ cs) ch (λ a is. is) held
                (subst (λ k. busy k (c ∷ cs) ≡ true) (omega arith) b))
      ])
