-- ===== src/Transaction/System.antt =====
-- Service threads over the transactions, interleaved in any order: what `add_version`,
-- `trans_add_dependency`, `trans_commit` and `trans_abort` do between two accesses to data that
-- threads share. A transaction is known by its id, and each is served by one thread. Accesses are
-- sequentially consistent, and counters do not wrap.
pub mod Family
pub mod Defs
pub mod Balance
pub mod Invariant
pub mod Isolation
pub mod Stranded
pub mod Code
use concurrent_server.Common.{
  ℕ, ◌+◌, ◌-◌, ◌<◌, ◌≡◌, Bool, true, false, Option, none, some, ◌==◌, if◌then◌else◌,
}
use concurrent_server.Machine.{TransStatus, trans_pending, trans_committed, trans_aborted}
use concurrent_server.Transaction.{is_pending, is_aborted}

abbrev pub update {ℓ} : {A : Type ℓ} → (ℕ → A) → ℕ → A → ℕ → A
update f t a i = if i == t then a else f i

-- The fields that threads share. `depends` is the dependency set, which has one transaction at
-- most: a second one is undefined behaviour.
pub record Shared : Type 0 where
  pub status : ℕ → TransStatus
  pub depends : ℕ → Option ℕ
  pub waitcnt : ℕ → ℕ
  pub sem : ℕ → ℕ

-- How a thread comes to its end: by `trans_abort` or an abort of another thread, by `trans_commit`, or
-- by a `trans_abort` behind `trans_commit`, when the reply to the COMMIT could not be sent.
pub data Course : Type 0 where
  stopped kept withdrawn : Course

-- Where the thread of a transaction stands. `posted` says whether it has called `V`.
-- * `running`: between two requests, or in one that has not come to a shared access.
-- * `depending d`: `add_version` has found the creator `d` of the last version pending.
-- * `counting`: `trans_add_dependency` has linked the dependency.
-- * `waiting`: at the test of the loop of `trans_commit`.
-- * `woken`: behind `P`.
-- * `alerting`: `trans_commit` has set the status.
-- * `replying posted`: `trans_commit` has returned, and the reply is to be sent.
-- * `aborting course posted`: `trans_abort` has set the status.
-- * `cancelling course posted u`: `trans_abort` has found the dependent `u` pending.
-- * `posting course posted u`: it has set the status of `u`.
-- * `finished course posted`: the thread works on the transaction no more.
pub data Place : Type 0 where
  running : Place
  depending : (d : ℕ) → Place
  counting waiting woken alerting : Place
  replying : (posted : Bool) → Place
  aborting : (course : Course) (posted : Bool) → Place
  cancelling posting : (course : Course) (posted : Bool) (u : ℕ) → Place
  finished : (course : Course) (posted : Bool) → Place

-- A move of the thread of transaction `t`. By `leave` it ends where a PUT or a GET has returned the
-- status of a transaction that another thread has aborted; by `lose` a reply was lost.
pub data Move (t : ℕ) (m : Shared) : Place → Shared → Place → Type 0 where
  observe : {d : ℕ} → d < t → is_pending (m.status d) ≡ true → Move t m running m (depending d)
  link :
      {d : ℕ}
      → m.depends d ≡ none
      → Move t m (depending d) (record m { depends = update m.depends d (some t) }) counting
  count_up : Move t m counting (record m { waitcnt = update m.waitcnt t (m.waitcnt t + 1) }) running
  leave : is_aborted (m.status t) ≡ true → Move t m running m (finished stopped false)
  commit : Move t m running m waiting
  pass :
      m.waitcnt t ≡ 0
      → Move t m waiting (record m { status = update m.status t trans_committed }) alerting
  take :
      0 < m.waitcnt t
      → 0 < m.sem t
      → Move t m waiting (record m { sem = update m.sem t (m.sem t - 1) }) woken
  resume :
      is_aborted (m.status t) ≡ false
      → Move t m woken (record m { waitcnt = update m.waitcnt t (m.waitcnt t - 1) }) waiting
  refuse :
      is_aborted (m.status t) ≡ true
      → Move t m woken
          (record m { waitcnt = update m.waitcnt t (m.waitcnt t - 1) })
          (aborting stopped false)
  alert :
      {u : ℕ}
      → m.depends t ≡ some u
      → Move t m alerting (record m { sem = update m.sem u (m.sem u + 1) }) (replying true)
  alert_none : m.depends t ≡ none → Move t m alerting m (replying false)
  reply : {b : Bool} → Move t m (replying b) m (finished kept b)
  lose :
      {b : Bool}
      → Move t m
          (replying b)
          (record m { status = update m.status t trans_aborted })
          (aborting withdrawn b)
  give_up :
      Move t m running
        (record m { status = update m.status t trans_aborted })
        (aborting stopped false)
  abort_none :
      {c : Course} {b : Bool} → m.depends t ≡ none → Move t m (aborting c b) m (finished c b)
  skip :
      {c : Course} {b : Bool} {u : ℕ}
      → m.depends t ≡ some u
      → is_pending (m.status u) ≡ false
      → Move t m (aborting c b) m (finished c b)
  inspect :
      {c : Course} {b : Bool} {u : ℕ}
      → m.depends t ≡ some u
      → is_pending (m.status u) ≡ true
      → Move t m (aborting c b) m (cancelling c b u)
  cancel :
      {c : Course} {b : Bool} {u : ℕ}
      → Move t m
          (cancelling c b u)
          (record m { status = update m.status u trans_aborted })
          (posting c b u)
  post :
      {c : Course} {b : Bool} {u : ℕ}
      → Move t m (posting c b u) (record m { sem = update m.sem u (m.sem u + 1) }) (finished c true)

-- At first every transaction is pending and no thread has moved.
abbrev pub fresh_transactions : Shared
fresh_transactions = record {
  status = λ _. trans_pending;
  depends = λ _. none;
  waitcnt = λ _. 0;
  sem = λ _. 0;
}

-- What moves of the threads of `n` transactions lead to.
pub data Later (n : ℕ) (m : Shared) (place : ℕ → Place) : Shared → (ℕ → Place) → Type 0 where
  unmoved : Later n m place m place
  moved :
      {m1 m2 : Shared} {place1 : ℕ → Place} {p : Place}
      → Later n m place m1 place1
      → (t : ℕ) → t < n
      → Move t m1 (place1 t) m2 p
      → Later n m place m2 (update place1 t p)

abbrev pub Reachable : ℕ → Shared → (ℕ → Place) → Type 0
Reachable n = Later n fresh_transactions (λ _. running)
