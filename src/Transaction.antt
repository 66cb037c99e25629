-- ===== src/Transaction.antt =====
-- src/transaction.c, and of src/helper.c the functions on the list of transactions and
-- `trans_destroy`. The mutexes are not modelled: each function runs to its end without another
-- thread, but for the waits of `trans_commit`. A loop over a list has as many rounds as addresses
-- were ever handed out.
pub mod Status
pub mod Dependents
pub mod Depend
pub mod Ring
pub mod Framed
pub mod Insert
pub mod Create
pub mod Path
pub mod Remove
pub mod Destroy
pub mod Count
pub mod Fini
pub mod Abort
pub mod Gone
pub mod Commit
pub mod Waits
pub mod System
use concurrent_server.Common.{
  ℕ, zero, suc, ◌+◌, ◌-◌, ◌*◌, Bool, true, false, none, some, ◌==◌, if◌then◌else◌, inc32, dec32,
}
use concurrent_server.Machine.{
  Ptr, null, trans_list, TransStatus, trans_pending, trans_committed, trans_aborted, Machine,
  out_of_fuel, blocked, Cmd, pure, ◌>>=◌, ◌>>◌, load_transaction, load_dependency, put_transaction,
  put_dependency, new_transaction, new_dependency,
}

abbrev pub is_pending : TransStatus → Bool
is_pending trans_pending = true
is_pending trans_committed = false
is_pending trans_aborted = false

abbrev pub is_committed : TransStatus → Bool
is_committed trans_pending = false
is_committed trans_committed = true
is_committed trans_aborted = false

abbrev pub is_aborted : TransStatus → Bool
is_aborted trans_pending = false
is_aborted trans_committed = false
is_aborted trans_aborted = true

-- The fields of a transaction, assigned one at a time.
abbrev pub set_next : Ptr → Ptr → Cmd (Unit {0})
set_next p q = do t ← load_transaction p; put_transaction p (some (record t { next = q }))

abbrev pub set_prev : Ptr → Ptr → Cmd (Unit {0})
set_prev p q = do t ← load_transaction p; put_transaction p (some (record t { prev = q }))

abbrev pub set_id : Ptr → ℕ → Cmd (Unit {0})
set_id p i = do t ← load_transaction p; put_transaction p (some (record t { id = i }))

abbrev pub set_refcnt : Ptr → ℕ → Cmd (Unit {0})
set_refcnt p n = do t ← load_transaction p; put_transaction p (some (record t { refcnt = n }))

abbrev pub set_status : Ptr → TransStatus → Cmd (Unit {0})
set_status p s = do t ← load_transaction p; put_transaction p (some (record t { status = s }))

abbrev pub set_depends : Ptr → Ptr → Cmd (Unit {0})
set_depends p d = do t ← load_transaction p; put_transaction p (some (record t { depends = d }))

abbrev pub set_waitcnt : Ptr → ℕ → Cmd (Unit {0})
set_waitcnt p n = do t ← load_transaction p; put_transaction p (some (record t { waitcnt = n }))

-- `sem_post` and `sem_wait` on the semaphore of a transaction.
unfoldable pub sem_post : Ptr → Cmd (Unit {0})
sem_post p = do t ← load_transaction p; put_transaction p (some (record t { sem = t.sem + 1 }))

unfoldable pub sem_wait : Ptr → Cmd (Unit {0})
sem_wait p = do
  t ← load_transaction p
  if t.sem == 0 then (λ _. blocked) else put_transaction p (some (record t { sem = t.sem - 1 }))

unfoldable pub trans_init : Cmd (Unit {0})
trans_init = do set_id trans_list 0; set_next trans_list trans_list; set_prev trans_list trans_list

unfoldable pub add_transaction_to_ll : Ptr → Cmd (Unit {0})
add_transaction_to_ll z = do
  set_next z trans_list
  head ← load_transaction trans_list
  set_prev z head.prev
  set_next head.prev z
  set_prev trans_list z

unfoldable pub remove_transaction_from_ll : Ptr → Cmd (Unit {0})
remove_transaction_from_ll z = do
  t ← load_transaction z
  set_next t.prev t.next
  t ← load_transaction z
  set_prev t.next t.prev
  set_next z null
  set_prev z null

-- The fields that `malloc` leaves undefined are assigned before they are read; they are 0 here.
unfoldable pub trans_create : Cmd Ptr
unfolding add_transaction_to_ll
trans_create = do
  t ← new_transaction (record {
    id = 0;
    refcnt = 1;
    status = trans_pending;
    depends = null;
    waitcnt = 0;
    sem = 0;
    next = null;
    prev = null;
  })
  head ← load_transaction trans_list
  set_id t head.id
  set_id trans_list (inc32 head.id)
  add_transaction_to_ll t
  pure t

unfoldable pub trans_ref : Ptr → Cmd Ptr
trans_ref tp = do t ← load_transaction tp; set_refcnt tp (inc32 t.refcnt); pure tp

unfoldable pub trans_get_status : Ptr → Cmd TransStatus
trans_get_status tp = do t ← load_transaction tp; pure t.status

-- `trans_unref`, `trans_destroy` and the loop of `trans_destroy` call one another.
unfoldable mutual
  pub unref : ℕ → Ptr → Cmd (Unit {0})
  unref zero tp = λ _. out_of_fuel
  unref (suc k) tp = do
    t ← load_transaction tp
    set_refcnt tp (dec32 t.refcnt)
    t ← load_transaction tp
    if t.refcnt == 0 then destroy k tp else pure tt

  pub destroy : ℕ → Ptr → Cmd (Unit {0})
  destroy zero tp = λ _. out_of_fuel
  destroy (suc k) tp = do
    remove_transaction_from_ll tp
    t ← load_transaction tp
    release k t.depends
    put_transaction tp none

  pub release : ℕ → Ptr → Cmd (Unit {0})
  release zero p = λ _. out_of_fuel
  release (suc k) p = if p == null then pure tt else do
    d ← load_dependency p
    unref k d.trans
    d ← load_dependency p
    put_dependency p none
    release k d.next

-- Three calls for each transaction, and one for each dependency.
abbrev pub unref_fuel : Machine → ℕ
unref_fuel m = 4 * m.fresh + 4

unfoldable pub trans_unref : Ptr → Cmd (Unit {0})
trans_unref tp m = unref (unref_fuel m) tp m

unfoldable pub trans_destroy : Ptr → Cmd (Unit {0})
trans_destroy tp m = destroy (unref_fuel m) tp m

unfoldable pub last_dependency : ℕ → Ptr → Cmd Ptr
last_dependency zero p = λ _. out_of_fuel
last_dependency (suc k) p =
    if p == null then pure p else do d ← load_dependency p; last_dependency k d.next

-- The walk over the dependency set of `dtp` ends with `index_ptr` at NULL, and the link is
-- written through it.
unfoldable pub trans_add_dependency : (tp dtp : Ptr) → Cmd (Unit {0})
trans_add_dependency tp dtp = do
  d ← new_dependency (record { trans = tp; next = null })
  trans_ref dtp
  dt ← load_transaction dtp
  if dt.depends == null then set_depends dtp d else do
    index_ptr ← (λ m. last_dependency (suc m.fresh) dt.depends m)
    last ← load_dependency index_ptr
    put_dependency index_ptr (some (record last { next = d }))
  t ← load_transaction tp
  set_waitcnt tp (inc32 t.waitcnt)

unfoldable pub abort_dependents : ℕ → Ptr → Cmd (Unit {0})
abort_dependents zero p = λ _. out_of_fuel
abort_dependents (suc k) p = if p == null then pure tt else do
  d ← load_dependency p
  s ← trans_get_status d.trans
  if is_pending s then (do set_status d.trans trans_aborted; sem_post d.trans) else pure tt
  abort_dependents k d.next

-- What follows in `trans_abort` once the status is set.
unfoldable pub finish_abort : Ptr → Cmd TransStatus
finish_abort tp = do
  t ← load_transaction tp
  (λ m. abort_dependents (suc m.fresh) t.depends m)
  s ← trans_get_status tp
  trans_unref tp
  pure s

unfoldable pub trans_abort : Ptr → Cmd TransStatus
trans_abort tp = do
  s ← trans_get_status tp
  if is_aborted s then pure tt else set_status tp trans_aborted
  finish_abort tp

unfoldable pub alert_dependents : ℕ → Ptr → Cmd (Unit {0})
alert_dependents zero p = λ _. out_of_fuel
alert_dependents (suc k) p =
    if p == null
    then pure tt
    else do d ← load_dependency p; sem_post d.trans; alert_dependents k d.next

-- What follows the loop of `trans_commit`.
unfoldable pub finish_commit : Ptr → Cmd TransStatus
finish_commit tp = do
  set_status tp trans_committed
  t ← load_transaction tp
  (λ m. alert_dependents (suc m.fresh) t.depends m)
  s ← trans_get_status tp
  trans_unref tp
  pure s

-- `wait tp` is `P(&tp->sem)`: what other threads do until it returns is part of it.
module _ (wait : Ptr → Cmd (Unit {0})) where
  unfoldable pub commit_loop : ℕ → Ptr → Cmd TransStatus
  commit_loop zero tp = λ _. out_of_fuel
  commit_loop (suc k) tp = do
    t ← load_transaction tp
    if t.waitcnt == 0 then finish_commit tp else do
      wait tp
      t ← load_transaction tp
      set_waitcnt tp (dec32 t.waitcnt)
      s ← trans_get_status tp
      if is_aborted s then trans_abort tp else commit_loop k tp

  unfoldable pub trans_commit : Ptr → Cmd TransStatus
  trans_commit tp = do t ← load_transaction tp; commit_loop (suc t.waitcnt) tp

unfoldable pub fini_loop : ℕ → Ptr → Cmd (Unit {0})
fini_loop zero p = λ _. out_of_fuel
fini_loop (suc k) p =
    if p == trans_list
    then pure tt
    else do t ← load_transaction p; trans_unref p; fini_loop k t.next

unfoldable pub trans_fini : Cmd (Unit {0})
trans_fini = do head ← load_transaction trans_list; (λ m. fini_loop (suc m.fresh) head.next m)
