-- ===== src/Transaction/System/Code/Commits.antt =====
-- `trans_commit` without a wait, as moves of its thread.
use concurrent_server.Common.{
  ℕ, ◌+◌, ◌<◌, ◌≡◌, ◌≢◌, refl, sym, subst, ◌∙◌, ap, ap₂, Bool, true, false, Option, none, some,
  List, arith, ◌==◌, if◌then◌else◌, Bool-cases, Option-cases, inl, inr, dec32, ==_ne, ==_refl,
}
use concurrent_server.Machine.{
  Ptr, null, Cmd, trans_committed, Transaction, Heap, Machine, at, at-ne-null, ok,
}
use concurrent_server.Transaction.{trans_commit}
use concurrent_server.Transaction.Dependents.{Alive}
use concurrent_server.Transaction.Abort.{IsShared}
use concurrent_server.Transaction.Commit.{count, posted, at-post_each, committed_heap}
use concurrent_server.Transaction.Waits.{all_done, trans_commit-committed}
use concurrent_server.Transaction.System.{
  update, Shared, running, replying, commit, pass, alert, alert_none,
}
use concurrent_server.Transaction.System.Code.{Alone, stay, go, at_each, Sees, Shows}

module _ (h : Heap Transaction) (p : Ptr) (t : Transaction) (ts : List Ptr) where
  at-committed_self :
      p ≢ null
      → at (committed_heap h p t ts) p
        ≡ some (record t {
          status = trans_committed;
          refcnt = dec32 t.refcnt;
          sem = t.sem + count p ts;
        })
  unfolding at
  at-committed_self ne = rw (==_ne p null ne, ==_refl p) refl

  at-committed_other :
      (q : Ptr) {v : Transaction}
      → q ≢ p
      → at h q ≡ some v
      → at (committed_heap h p t ts) q ≡ some (posted (count q ts) v)
  unfolding at
  at-committed_other q ne held = rw (==_ne q p ne) (at-post_each h ts q held)

-- How often a transaction is posted by one that has `o` as its dependent.
abbrev posts_of : Option ℕ → ℕ → ℕ
posts_of none j = 0
posts_of (some u) j = if j == u then 1 else 0

-- The state behind `pass`, and behind the loop of `trans_commit`.
abbrev passed : Shared → ℕ → Shared
passed s i = record s { status = update s.status i trans_committed }

abbrev alerted : Shared → Option ℕ → Shared
alerted s none = s
alerted s (some u) = record s { sem = update s.sem u (s.sem u + 1) }

sem-alerted : (s : Shared) (o : Option ℕ) (j : ℕ) → (alerted s o).sem j ≡ s.sem j + posts_of o j
sem-alerted s none j = omega arith
sem-alerted s (some u) j = ground arith

status-alerted : (s : Shared) (o : Option ℕ) → (alerted s o).status ≡ s.status
status-alerted s none = refl
status-alerted s (some u) = refl

waitcnt-alerted : (s : Shared) (o : Option ℕ) → (alerted s o).waitcnt ≡ s.waitcnt
waitcnt-alerted s none = refl
waitcnt-alerted s (some u) = refl

depends-alerted : (s : Shared) (o : Option ℕ) → (alerted s o).depends ≡ s.depends
depends-alerted s none = refl
depends-alerted s (some u) = refl

-- `trans_commit` returns, and its thread made moves to the end that lead to what the machine shows.
pub record Commits (wait : Ptr → Cmd (Unit {0})) (m : Machine) (addr : ℕ → Ptr) (n : ℕ) (s : Shared)
    (i : ℕ) : Type 0 where
  pub after : Machine
  pub state : Shared
  pub posted : Bool
  pub returned : trans_commit wait (addr i) m ≡ ok trans_committed after
  pub moves : Alone i s running state (replying posted)
  pub shown : Shows after addr n state

module _ (m : Machine) (addr : ℕ → Ptr) (n : ℕ) (s : Shared) (shows : Shows m addr n s) (i : ℕ)
    (in_i : i < n) where
  abbrev self : Sees m addr s i
  self = shows.sees i in_i

  count-posts :
      (j : ℕ) → j < n → count (addr j) (at_each addr (s.depends i)) ≡ posts_of (s.depends i) j
  count-posts j in_j = elim (Option-cases (s.depends i)) [
    | inl e ↦ rw e refl
    | inr (u, e) ↦ elim (Bool-cases (j == u)) [
      | inl is ↦ let same : j ≡ u = ground arith in rw (e, same, ==_refl (addr u), ==_refl u) refl
      | inr not ↦
          let ne : j ≢ u = ground arith in
          let apart : addr j ≢ addr u =
            λ same. ne (shows.apart j u in_j (shows.inside i u in_i e) same) in
          rw (e, not, ==_ne (addr j) (addr u) apart) refl
    ]
  ]

  abbrev after : Machine
  after = record m {
    transactions = committed_heap m.transactions (addr i) self.cell (at_each addr (s.depends i));
  }

  abbrev ended : Shared
  ended = alerted (passed s i) (s.depends i)

  depends_after : (j : ℕ) → ended.depends j ≡ s.depends j
  depends_after j = ap (λ f. f j) (depends-alerted (passed s i) (s.depends i))

  self_after : Sees after addr ended i
  self_after = record {
    cell = record (self.cell) {
      status = trans_committed;
      refcnt = dec32 (self.cell).refcnt;
      sem = (self.cell).sem + count (addr i) (at_each addr (s.depends i));
    };
    held =
        at-committed_self m.transactions (addr i) self.cell (at_each addr (s.depends i))
          (at-ne-null m.transactions (addr i) self.held);
    status = sym (ap (λ f. f i) (status-alerted (passed s i) (s.depends i)) ∙ rw (==_refl i) refl);
    waitcnt = self.waitcnt ∙ sym (ap (λ f. f i) (waitcnt-alerted (passed s i) (s.depends i)));
    sem =
        ap₂ (λ a b. a + b) self.sem (count-posts i in_i)
        ∙ sym (sem-alerted (passed s i) (s.depends i) i);
    depends = rw (depends_after i) (self.depends);
  }

  other_after : (j : ℕ) → j < n → j ≢ i → Sees after addr ended j
  other_after j in_j ne =
      let o : Sees m addr s j = shows.sees j in_j in
      let not_i : (j == i) ≡ false = ==_ne j i ne in
      let apart : addr j ≢ addr i = λ same. ne (shows.apart j i in_j in_i same) in
      record {
        cell = posted (count (addr j) (at_each addr (s.depends i))) o.cell;
        held =
            at-committed_other m.transactions (addr i) self.cell (at_each addr (s.depends i))
              (addr j) apart o.held;
        status =
            o.status
            ∙ sym (ap (λ f. f j) (status-alerted (passed s i) (s.depends i)) ∙ rw not_i refl);
        waitcnt = o.waitcnt ∙ sym (ap (λ f. f j) (waitcnt-alerted (passed s i) (s.depends i)));
        sem =
            ap₂ (λ a b. a + b) o.sem (count-posts j in_j)
            ∙ sym (sem-alerted (passed s i) (s.depends i) j);
        depends = rw (depends_after j) (o.depends);
      }

  dependents-Alive : (o : Option ℕ) → s.depends i ≡ o → Alive m.transactions (at_each addr o)
  dependents-Alive none e q is = cc
  dependents-Alive (some u) e q is =
      let o : Sees m addr s u = shows.sees u (shows.inside i u in_i e) in
      let same : addr u ≡ q = ground arith in
      (o.cell, subst (λ a. at m.transactions a ≡ some o.cell) same o.held)

  moves_of :
      s.waitcnt i ≡ 0
      → (o : Option ℕ) → s.depends i ≡ o
      → (b : Bool) × Alone i s running (alerted (passed s i) o) (replying b)
  moves_of idle none e = (false, go commit (go (pass idle) (go (alert_none e) stay)))
  moves_of idle (some u) e = (true, go commit (go (pass idle) (go (alert e) stay)))

-- Where the transactions stand as the threads share them, each with one dependent at most, others
-- hold references to the transaction, and it has nothing to wait for, `trans_commit` returns
-- TRANS_COMMITTED, and what it leaves is what the moves of its thread lead to, from `running` to the
-- end of `trans_commit`.
pub trans_commit-Commits :
    (wait : Ptr → Cmd (Unit {0})) (m : Machine) (addr : ℕ → Ptr) (n : ℕ) (s : Shared)
    (shows : Shows m addr n s) (i : ℕ) (in_i : i < n)
    → s.waitcnt i ≡ 0
    → IsShared ((shows.sees i in_i).cell)
    → Commits wait m addr n s i
trans_commit-Commits wait m addr n s shows i in_i idle shared =
    let c : Sees m addr s i = shows.sees i in_i in
    let (b, moves) = moves_of m addr n s shows i in_i idle (s.depends i) refl in
    record {
      after = after m addr n s shows i in_i;
      state = ended m addr n s shows i in_i;
      posted = b;
      returned =
          trans_commit-committed wait (addr i) (at_each addr (s.depends i))
            (all_done c.held (c.waitcnt ∙ idle)) c.held shared c.depends
            (dependents-Alive m addr n s shows i in_i (s.depends i) refl);
      moves = moves;
      shown = record {
        sees = λ j in_j. elim (Bool-cases (j == i)) [
          | inl is ↦
              let same : i ≡ j = ground arith in
              subst (Sees (after m addr n s shows i in_i) addr (ended m addr n s shows i in_i)) same
                (self_after m addr n s shows i in_i)
          | inr not ↦ let ne : j ≢ i = ground arith in other_after m addr n s shows i in_i j in_j ne
        ];
        apart = shows.apart;
        inside =
            λ j u in_j e. shows.inside j u in_j (sym (depends_after m addr n s shows i in_i j) ∙ e);
      };
    }
