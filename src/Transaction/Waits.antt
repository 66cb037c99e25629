-- ===== src/Transaction/Waits.antt =====
-- The waits of `trans_commit`, and how it ends by them.
use concurrent_server.Common.{
  ℕ, suc, ◌≡◌, refl, ◌∙◌, Bool, true, false, some, List, arith, if◌then◌else◌, ==_ne, dec32,
}
use concurrent_server.Machine.{
  Ptr, Cmd, trans_aborted, trans_committed, Transaction, Machine, Run, TransStatus, at, write,
  at-ne-null, at-write_self, ok, and_then,
}
use concurrent_server.Machine.Points.{load_transaction-ok, put_transaction-ok}
use concurrent_server.Transaction.{
  is_aborted, finish_commit, trans_abort, commit_loop, trans_commit,
}
use concurrent_server.Transaction.Status.{trans_get_status-ok}
use concurrent_server.Transaction.Dependents.{IsDepends, Alive, with_heap}
use concurrent_server.Transaction.Commit.{committed_heap, finish_commit-ok}
use concurrent_server.Transaction.Abort.{IsShared, aborted_heap, trans_abort-shared}

module _ (wait : Ptr → Cmd (Unit {0})) (tp : Ptr) where
  -- The machine after `tp->waitcnt--`.
  abbrev pub counted : Machine → Transaction → Machine
  counted m t =
      with_heap m (write m.transactions tp (some (record t { waitcnt = dec32 t.waitcnt })))

  -- A wait that returns, with `n` more to come: `t` is what the transaction then is.
  pub record Wakes (m : Machine) (n : ℕ) (m1 : Machine) (t : Transaction) : Type 0 where
    pub before : (t0 : Transaction) × (at m.transactions tp ≡ some t0) × (t0.waitcnt ≡ suc n)
    pub returns : wait tp m ≡ ok tt m1
    pub after : at m1.transactions tp ≡ some t

  -- The waits of a commit with `n` left: `true` where all return and none finds the transaction
  -- aborted, `false` where one does. The second machine is that behind the last of them.
  pub data Waits : Bool → ℕ → Machine → Machine → Type 0 where
    all_done :
        {m : Machine} {t : Transaction}
        → at m.transactions tp ≡ some t
        → t.waitcnt ≡ 0
        → Waits true 0 m m
    refused :
        {m m1 : Machine} {n : ℕ} {t : Transaction}
        → Wakes m n m1 t
        → t.status ≡ trans_aborted
        → Waits false (suc n) m (counted m1 t)
    woken :
        {m m1 m' : Machine} {n : ℕ} {b : Bool} {t : Transaction}
        → Wakes m n m1 t
        → is_aborted t.status ≡ false
        → Waits b n (counted m1 t) m'
        → Waits b (suc n) m m'

  abbrev verdict : Bool → Machine → Run TransStatus
  verdict true m = finish_commit tp m
  verdict false m = trans_abort tp m

  commit_loop-Wakes :
      (k : ℕ) {m m1 : Machine} {n : ℕ} {t : Transaction}
      → Wakes m n m1 t
      → commit_loop wait (suc k) tp m
        ≡ (if is_aborted t.status then trans_abort tp else commit_loop wait k tp) (counted m1 t)
  unfolding commit_loop and_then
  commit_loop-Wakes k {m} {m1} {n} {t} w =
      let (t0, held, left) = w.before in
      let less : Transaction = record t { waitcnt = dec32 t.waitcnt } in
      let again : at (counted m1 t).transactions tp ≡ some less =
        at-write_self m1.transactions tp _ (at-ne-null m1.transactions tp w.after) in
      rw
        (
          load_transaction-ok m tp held,
          left,
          ==_ne (suc n) 0 (omega arith),
          w.returns,
          load_transaction-ok m1 tp w.after,
          load_transaction-ok m1 tp w.after,
          put_transaction-ok m1 tp (some less) w.after,
          trans_get_status-ok (counted m1 t) tp again,
        )
        refl

  commit_loop-Waits :
      {b : Bool} {n : ℕ} {m m' : Machine}
      → Waits b n m m'
      → commit_loop wait (suc n) tp m ≡ verdict b m'
  unfolding commit_loop and_then
  commit_loop-Waits (all_done {m} held zero_left) =
      rw (load_transaction-ok m tp held, zero_left) refl
  commit_loop-Waits (refused {m} {m1} {n} {t} w s) = commit_loop-Wakes (suc n) w ∙ rw s refl
  commit_loop-Waits (woken {m} {m1} {m'} {n} {b} {t} w s rest) =
      commit_loop-Wakes (suc n) w ∙ rw s (commit_loop-Waits rest)

  Waits-count :
      {b : Bool} {n : ℕ} {m m' : Machine}
      → Waits b n m m'
      → (t : Transaction) × (at m.transactions tp ≡ some t) × (t.waitcnt ≡ n)
  Waits-count (all_done held zero_left) = (_, held, zero_left)
  Waits-count (refused w s) = w.before
  Waits-count (woken w s rest) = w.before

  trans_commit-Waits :
      {b : Bool} {n : ℕ} {m m' : Machine} → Waits b n m m' → trans_commit wait tp m ≡ verdict b m'
  unfolding trans_commit and_then
  trans_commit-Waits {b} {n} {m} waits =
      let (t, held, left) = Waits-count waits in
      rw (load_transaction-ok m tp held, left) (commit_loop-Waits waits)

  module _ {n : ℕ} {m m' : Machine} (ts : List Ptr) {t : Transaction} where
    -- If each of the waits returns and finds the transaction not aborted, others hold references to
    -- it, and its dependents are allocated, then `trans_commit` returns TRANS_COMMITTED: the
    -- transaction is committed and has one reference less, each dependent is posted, once for each
    -- of its dependencies, and nothing else is changed behind the last wait.
    pub trans_commit-committed :
        Waits true n m m'
        → at m'.transactions tp ≡ some t
        → IsShared t
        → IsDepends m'.dependencies m'.fresh 0 t.depends ts
        → Alive m'.transactions ts
        → trans_commit wait tp m
          ≡ ok trans_committed (record m' { transactions = committed_heap m'.transactions tp t ts })
    trans_commit-committed waits held shared depends alive =
        trans_commit-Waits waits ∙ finish_commit-ok m' tp ts held shared depends alive

    -- If a wait finds the transaction aborted, others hold references to it, and its dependents are
    -- allocated, then `trans_commit` returns TRANS_ABORTED without another wait, its pending
    -- dependents are aborted and posted, and the transaction has one reference less.
    pub trans_commit-refused :
        Waits false n m m'
        → at m'.transactions tp ≡ some t
        → IsShared t
        → IsDepends m'.dependencies m'.fresh 0 t.depends ts
        → Alive m'.transactions ts
        → trans_commit wait tp m
          ≡ ok trans_aborted (record m' { transactions = aborted_heap m'.transactions tp t ts })
    trans_commit-refused waits held shared depends alive =
        trans_commit-Waits waits ∙ trans_abort-shared m' tp ts held shared depends alive
