-- ===== src/Transaction/System/Code/Links.antt =====
-- `trans_add_dependency` as moves of its thread.
use concurrent_server.Common.{
  ℕ, suc, ◌+◌, ◌^◌, ◌<◌, ◌≡◌, ◌≢◌, refl, sym, subst, ◌∙◌, false, Option, none, some, some_injective,
  List, [], ◌∷◌, arith, ◌==◌, Bool-cases, inl, inr, inc32, ==_ne, ==_refl,
}
use concurrent_server.Machine.{
  Ptr, null, Dependency, Heap, Machine, write, at-ne-null, at-write_self, at-write_ne, ok,
}
use concurrent_server.Transaction.{trans_add_dependency}
use concurrent_server.Transaction.Dependents.{IsDepends}
use concurrent_server.Transaction.Depend.{depending, trans_add_dependency-first}
use concurrent_server.Transaction.System.{update, Shared, Place, running, counting, link, count_up}
use concurrent_server.Transaction.System
use concurrent_server.Transaction.System.Code.{Alone, stay, go, at_each, Sees, Shows}

-- A dependency at a new address is in no dependency set.
IsDepends-new :
    (h : Heap Dependency) (hi lo p : Ptr) (d : Option Dependency) (ts : List Ptr)
    → IsDepends h hi lo p ts
    → IsDepends (write h hi d) (suc hi) lo p ts
IsDepends-new h hi lo p d [] end = end
IsDepends-new h hi lo p d (t ∷ ts) (above, below, (n, held, rest)) = (
  above,
  omega arith,
  (n, at-write_ne h hi p d (omega arith) ∙ held, IsDepends-new h hi (suc p) n d ts rest),
)

-- `trans_add_dependency` returns, and its thread made moves that lead to what the machine shows.
pub record Links (m : Machine) (addr : ℕ → Ptr) (n : ℕ) (s : Shared) (i d : ℕ) : Type 0 where
  pub after : Machine
  pub state : Shared
  pub returned : trans_add_dependency (addr i) (addr d) m ≡ ok tt after
  pub moves : Alone i s (System.depending d) state running
  pub shown : Shows after addr n state

module _ (m : Machine) (addr : ℕ → Ptr) (n : ℕ) (s : Shared) (shows : Shows m addr n s) (i d : ℕ)
    (in_i : i < n) (in_d : d < n) (other : i ≢ d) where
  abbrev caller : Sees m addr s i
  caller = shows.sees i in_i

  abbrev creator : Sees m addr s d
  creator = shows.sees d in_d

  abbrev after : Machine
  after = depending m (addr i) (addr d) caller.cell creator.cell

  abbrev linked : Shared
  linked = record s {
    depends = update s.depends d (some i);
    waitcnt = update s.waitcnt i (s.waitcnt i + 1);
  }

  addr_ne : (j k : ℕ) → j < n → k < n → j ≢ k → addr j ≢ addr k
  addr_ne j k in_j in_k ne same = ne (shows.apart j k in_j in_k same)

  grown :
      (p : Ptr) (ts : List Ptr)
      → IsDepends m.dependencies m.fresh 0 p ts
      → IsDepends after.dependencies after.fresh 0 p ts
  grown p ts = IsDepends-new m.dependencies m.fresh 0 p _ ts

  caller_after : s.waitcnt i + 1 < 2 ^ 32 → Sees after addr linked i
  caller_after small =
      let not_d : (i == d) ≡ false = ==_ne i d other in
      let counted : inc32 (caller.cell).waitcnt ≡ s.waitcnt i + 1 = omega (arith, caller.waitcnt) in
      record {
        cell = record (caller.cell) { waitcnt = inc32 (caller.cell).waitcnt };
        held = at-write_self _ (addr i) _ (at-ne-null m.transactions (addr i) caller.held);
        status = caller.status;
        waitcnt = counted ∙ rw (==_refl i) refl;
        sem = caller.sem;
        depends = rw not_d (grown _ _ caller.depends);
      }

  creator_after :
      IsDepends after.dependencies after.fresh 0 m.fresh (addr i ∷ []) → Sees after addr linked d
  creator_after set =
      let not_i : (d == i) ≡ false = ==_ne d i (λ e. other (sym e)) in
      record {
        cell = record (creator.cell) { refcnt = inc32 (creator.cell).refcnt; depends = m.fresh };
        held =
            at-write_ne _ (addr i) (addr d) _ (addr_ne d i in_d in_i (λ e. other (sym e)))
            ∙ at-write_self m.transactions (addr d) _
                (at-ne-null m.transactions (addr d) creator.held);
        status = creator.status;
        waitcnt = creator.waitcnt ∙ rw not_i refl;
        sem = creator.sem;
        depends = rw (==_refl d) set;
      }

  other_after : (j : ℕ) → j < n → j ≢ i → j ≢ d → Sees after addr linked j
  other_after j in_j ne_i ne_d =
      let o : Sees m addr s j = shows.sees j in_j in
      let not_i : (j == i) ≡ false = ==_ne j i ne_i in
      let not_d : (j == d) ≡ false = ==_ne j d ne_d in
      record {
        cell = o.cell;
        held =
            at-write_ne _ (addr i) (addr j) _ (addr_ne j i in_j in_i ne_i)
            ∙ (at-write_ne m.transactions (addr d) (addr j) _ (addr_ne j d in_j in_d ne_d)
                ∙ o.held);
        status = o.status;
        waitcnt = o.waitcnt ∙ rw not_i refl;
        sem = o.sem;
        depends = rw not_d (grown _ _ o.depends);
      }

  inside_after : (j u : ℕ) → j < n → linked.depends j ≡ some u → u < n
  inside_after j u in_j e = elim (Bool-cases (j == d)) [
    | inl is ↦
        let e' : some i ≡ some u = rw is at e in let same : i ≡ u = some_injective e' in omega arith
    | inr not ↦ shows.inside j u in_j (rw not at e)
  ]

-- Where the transactions stand as the threads share them, each with one dependent at most, `i` and
-- `d` are two of them, `d` has no dependent, addresses are not 0 and the counter does not wrap,
-- `trans_add_dependency` returns, and what it leaves is what the moves of its thread lead to, which
-- link `i` to `d` and count the wait.
pub trans_add_dependency-Links :
    (m : Machine) (addr : ℕ → Ptr) (n : ℕ) (s : Shared) (shows : Shows m addr n s) (i d : ℕ)
    (in_i : i < n) (in_d : d < n)
    → i ≢ d
    → s.depends d ≡ none
    → m.fresh ≢ null
    → s.waitcnt i + 1 < 2 ^ 32
    → Links m addr n s i d
trans_add_dependency-Links m addr n s shows i d in_i in_d other alone fresh_ne small =
    let c : Sees m addr s i = shows.sees i in_i in
    let u : Sees m addr s d = shows.sees d in_d in
    let empty : (u.cell).depends ≡ null =
      subst (λ o. IsDepends m.dependencies m.fresh 0 (u.cell).depends (at_each addr o)) alone
        u.depends in
    let (returned, set) =
      trans_add_dependency-first m (addr i) (addr d) c.held u.held
        (addr_ne m addr n s shows i d in_i in_d other i d in_i in_d other) fresh_ne empty in
    record {
      after = after m addr n s shows i d in_i in_d other;
      state = linked m addr n s shows i d in_i in_d other;
      returned = returned;
      moves = go (link alone) (go count_up stay);
      shown = record {
        sees = λ j in_j. elim (Bool-cases (j == i)) [
          | inl is ↦
              let same : i ≡ j = ground arith in
              subst
                (Sees (after m addr n s shows i d in_i in_d other) addr
                  (linked m addr n s shows i d in_i in_d other))
                same (caller_after m addr n s shows i d in_i in_d other small)
          | inr not_i ↦
              let ne_i : j ≢ i = ground arith in
              elim (Bool-cases (j == d)) [
                | inl is ↦
                    let same : d ≡ j = ground arith in
                    subst
                      (Sees (after m addr n s shows i d in_i in_d other) addr
                        (linked m addr n s shows i d in_i in_d other))
                      same (creator_after m addr n s shows i d in_i in_d other set)
                | inr not_d ↦
                    let ne_d : j ≢ d = ground arith in
                    other_after m addr n s shows i d in_i in_d other j in_j ne_i ne_d
              ]
        ];
        apart = shows.apart;
        inside = inside_after m addr n s shows i d in_i in_d other;
      };
    }
