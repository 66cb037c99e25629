-- ===== src/Transaction/System/Code/Aborted.antt =====
-- What the machine shows of each transaction after `trans_abort`.
use concurrent_server.Common.{
  ℕ, ◌+◌, ◌<◌, ◌≡◌, ◌≢◌, refl, sym, ◌∙◌, ap, true, false, some, List, [], ◌∷◌, arith, ◌==◌,
  if◌then◌else◌, Bool-cases, inl, inr, dec32, ==_ne, ==_refl,
}
use concurrent_server.Machine.{Ptr, null, trans_aborted, Transaction, Heap, Machine, at, at-ne-null}
use concurrent_server.Transaction.{is_pending}
use concurrent_server.Transaction.Dependents.{IsDepends, mem, Alive, cancel_each, at-cancel_each}
use concurrent_server.Transaction.Dependents
use concurrent_server.Transaction.Abort.{aborted_heap}
use concurrent_server.Transaction.System.{update, Shared}
use concurrent_server.Transaction.System.Code.{Sees, Shows}

module _ (h : Heap Transaction) (p : Ptr) (t : Transaction) (ts : List Ptr) where
  at-aborted_self :
      p ≢ null
      → at (aborted_heap h p t ts) p
        ≡ some (record t { status = trans_aborted; refcnt = dec32 t.refcnt })
  unfolding at
  at-aborted_self ne = rw (==_ne p null ne, ==_refl p) refl

  at-aborted_other :
      (q : Ptr) {v : Transaction}
      → q ≢ p
      → at h q ≡ some v
      → at (aborted_heap h p t ts) q ≡ some (if mem q ts then Dependents.cancel v else v)
  unfolding at
  at-aborted_other q ne held = rw (==_ne q p ne) (at-cancel_each h ts q held)

module _ (m : Machine) (addr : ℕ → Ptr) (n : ℕ) (s : Shared) (shows : Shows m addr n s) (i : ℕ)
    (in_i : i < n) where
  abbrev pub self : Sees m addr s i
  self = shows.sees i in_i

  abbrev pub marked : Shared
  marked = record s { status = update s.status i trans_aborted }

  addr_ne : (j : ℕ) → j < n → j ≢ i → addr j ≢ addr i
  addr_ne j in_j ne same = ne (shows.apart j i in_j in_i same)

  module _ (ts : List Ptr) where
    abbrev pub after : Machine
    after = record m { transactions = aborted_heap m.transactions (addr i) self.cell ts }

    pub self_after :
        (s' : Shared)
        → s'.status i ≡ trans_aborted
        → s'.waitcnt i ≡ s.waitcnt i
        → s'.sem i ≡ s.sem i
        → s'.depends i ≡ s.depends i
        → Sees after addr s' i
    self_after s' status waitcnt sem depends = record {
      cell = record (self.cell) { status = trans_aborted; refcnt = dec32 (self.cell).refcnt };
      held =
          at-aborted_self m.transactions (addr i) self.cell ts
            (at-ne-null m.transactions (addr i) self.held);
      status = sym status;
      waitcnt = self.waitcnt ∙ sym waitcnt;
      sem = self.sem ∙ sym sem;
      depends = rw depends (self.depends);
    }

    -- Another transaction that `trans_abort` leaves alone.
    pub other_after :
        (s' : Shared) (j : ℕ) (in_j : j < n)
        → j ≢ i
        → (if mem (addr j) ts
            then Dependents.cancel ((shows.sees j in_j).cell)
            else (shows.sees j in_j).cell)
          ≡ (shows.sees j in_j).cell
        → s'.status j ≡ s.status j
        → s'.waitcnt j ≡ s.waitcnt j
        → s'.sem j ≡ s.sem j
        → s'.depends j ≡ s.depends j
        → Sees after addr s' j
    other_after s' j in_j ne alone status waitcnt sem depends =
        let o : Sees m addr s j = shows.sees j in_j in
        record {
          cell = o.cell;
          held =
              at-aborted_other m.transactions (addr i) self.cell ts (addr j) (addr_ne j in_j ne)
                o.held
              ∙ ap some alone;
          status = o.status ∙ sym status;
          waitcnt = o.waitcnt ∙ sym waitcnt;
          sem = o.sem ∙ sym sem;
          depends = rw depends (o.depends);
        }

    -- The pending dependent that `trans_abort` aborts and posts.
    pub cancelled_after :
        (s' : Shared) (u : ℕ) (in_u : u < n)
        → u ≢ i
        → mem (addr u) ts ≡ true
        → is_pending (s.status u) ≡ true
        → s'.status u ≡ trans_aborted
        → s'.waitcnt u ≡ s.waitcnt u
        → s'.sem u ≡ s.sem u + 1
        → s'.depends u ≡ s.depends u
        → Sees after addr s' u
    cancelled_after s' u in_u ne is pending status waitcnt sem depends =
        let o : Sees m addr s u = shows.sees u in_u in
        let pending' : is_pending (o.cell).status ≡ true = rw (o.status) pending in
        record {
          cell = record (o.cell) { status = trans_aborted; sem = (o.cell).sem + 1 };
          held =
              at-aborted_other m.transactions (addr i) self.cell ts (addr u) (addr_ne u in_u ne)
                o.held
              ∙ rw (is, pending') refl;
          status = sym status;
          waitcnt = o.waitcnt ∙ sym waitcnt;
          sem = ap (λ k. k + 1) o.sem ∙ sym sem;
          depends = rw depends (o.depends);
        }

  pub mem_one : (j u : ℕ) → j < n → u < n → j ≢ u → mem (addr j) (addr u ∷ []) ≡ false
  mem_one j u in_j in_u ne =
      rw (==_ne (addr j) (addr u) (λ same. ne (shows.apart j u in_j in_u same))) refl

  pub kept_by :
      (u : ℕ)
      → u < n
      → is_pending (marked.status u) ≡ false
      → (j : ℕ) (in_j : j < n) → j ≢ i
      → (if mem (addr j) (addr u ∷ [])
          then Dependents.cancel ((shows.sees j in_j).cell)
          else (shows.sees j in_j).cell)
        ≡ (shows.sees j in_j).cell
  kept_by u in_u idle j in_j ne =
      let o : Sees m addr s j = shows.sees j in_j in
      elim (Bool-cases (j == u)) [
        | inl is ↦
            let same : j ≡ u = ground arith in
            let not_i : (j == i) ≡ false = ==_ne j i ne in
            let idle' : is_pending (marked.status j) ≡ false = rw same idle in
            let idle'' : is_pending (o.cell).status ≡ false = rw (o.status) (rw not_i at idle') in
            elim (Bool-cases (mem (addr j) (addr u ∷ []))) [
              | inl e ↦ rw (e, idle'') refl
              | inr e ↦ rw e refl
            ]
        | inr not ↦ let apart : j ≢ u = ground arith in rw (mem_one j u in_j in_u apart) refl
      ]

  pub shows_after :
      (ts : List Ptr) (s' : Shared)
      → s'.depends ≡ s.depends
      → ((j : ℕ) → j < n → Sees (after ts) addr s' j)
      → Shows (after ts) addr n s'
  shows_after ts s' same each = record {
    sees = each;
    apart = shows.apart;
    inside = λ j u in_j e. shows.inside j u in_j (ap (λ f. f j) (sym same) ∙ e);
  }
