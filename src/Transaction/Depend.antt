-- ===== src/Transaction/Depend.antt =====
-- `trans_add_dependency`: the first dependent of a transaction is entered, the second is not.
use concurrent_server.Common.{
  true, ℕ, zero, suc, ◌<◌, ◌≡◌, ◌≢◌, refl, ◌∙◌, ◌==◌, some, List, [], ◌∷◌, arith, length, ==_ne,
  inc32,
}
use concurrent_server.Machine.{
  Ptr, null, Dependency, Transaction, Heap, Machine, at, write, at-ne-null, at-write_self,
  write-twice, at-write_ne, ok, fault, and_then, new_dependency, load_dependency,
}
use concurrent_server.Machine.Points.{load_transaction-ok, load_dependency-ok, put_transaction-ok}
use concurrent_server.Transaction.{trans_ref, last_dependency, trans_add_dependency}
use concurrent_server.Transaction.Dependents.{IsDepends, length-IsDepends, with_heap}

abbrev pub referenced_heap : Heap Transaction → (dtp : Ptr) → Transaction → Heap Transaction
referenced_heap h dtp u = write h dtp (some (record u { refcnt = inc32 u.refcnt }))

-- The machine with the new dependency and the reference to `dtp`.
abbrev entered : Machine → (tp dtp : Ptr) → Transaction → Machine
entered m tp dtp u = record m {
  dependencies = write m.dependencies m.fresh (some (record { trans = tp; next = null }));
  transactions = referenced_heap m.transactions dtp u;
  fresh = suc m.fresh;
}

last_dependency-null :
    (m : Machine) (k hi lo p : ℕ) (ts : List Ptr)
    → IsDepends m.dependencies hi lo p ts
    → length ts < k
    → last_dependency k p m ≡ ok null m
unfolding last_dependency and_then
last_dependency-null m zero hi lo p ts d fuel = absurd (omega arith)
last_dependency-null m (suc k) hi lo p [] d fuel = rw d refl
last_dependency-null m (suc k) hi lo p (t ∷ ts) (_, _, (n, e, rest)) fuel =
    rw (==_ne _ _ (at-ne-null m.dependencies p e), load_dependency-ok m p e)
      (last_dependency-null m k hi (suc p) n ts rest (omega arith))

IsDepends-write :
    (h : Heap Dependency) (hi lo p : Ptr) (d : Dependency) (ts : List Ptr)
    → IsDepends h hi lo p ts
    → IsDepends (write h hi (some d)) hi lo p ts
IsDepends-write h hi lo p d [] e = e
IsDepends-write h hi lo p d (t ∷ ts) (above, below, (n, e, rest)) = (
  above,
  below,
  (n, at-write_ne h hi p (some d) (omega arith) ∙ e, IsDepends-write h hi (suc p) n d ts rest),
)

load_dependency-null : (m : Machine) → load_dependency null m ≡ fault
unfolding load_dependency at
load_dependency-null m = refl

-- If `dtp` has dependents already, `trans_add_dependency` faults: it writes through NULL.
pub trans_add_dependency-second :
    (m : Machine) (tp dtp : Ptr) (t : Ptr) (ts : List Ptr) {u : Transaction}
    → at m.transactions dtp ≡ some u
    → IsDepends m.dependencies m.fresh 0 u.depends (t ∷ ts)
    → trans_add_dependency tp dtp m ≡ fault
unfolding trans_add_dependency new_dependency trans_ref and_then
trans_add_dependency-second m tp dtp t ts {u} held depends =
    let d : Dependency = record { trans = tp; next = null } in
    let m1 : Machine = record m {
      dependencies = write m.dependencies m.fresh (some d);
      fresh = suc m.fresh;
    } in
    let m2 : Machine = entered m tp dtp u in
    let u' : Transaction = record u { refcnt = inc32 u.refcnt } in
    let again : at m2.transactions dtp ≡ some u' =
      at-write_self m.transactions dtp _ (at-ne-null m.transactions dtp held) in
    let later : IsDepends m2.dependencies m.fresh 0 u.depends (t ∷ ts) =
      IsDepends-write m.dependencies m.fresh 0 u.depends d (t ∷ ts) depends in
    let fuel : suc (length ts) < suc (suc m.fresh) =
      omega (
        arith,
        length-IsDepends m.dependencies m.fresh 0 u.depends (t ∷ ts) (omega arith) depends,
      ) in
    let (_, _, (n, first, _)) = depends in
    rw
      (
        load_transaction-ok m1 dtp held,
        load_transaction-ok m1 dtp held,
        put_transaction-ok m1 dtp (some u') held,
        load_transaction-ok m2 dtp again,
        ==_ne _ _ (at-ne-null m.dependencies u.depends first),
        last_dependency-null m2 (suc (suc m.fresh)) m.fresh 0 u.depends (t ∷ ts) later fuel,
        load_dependency-null m2,
      )
      refl

-- The machine with the first dependency of `dtp`, for which `tp` then waits.
abbrev pub depending : Machine → (tp dtp : Ptr) → (t u : Transaction) → Machine
depending m tp dtp t u = record m {
  dependencies = write m.dependencies m.fresh (some (record { trans = tp; next = null }));
  transactions =
      write
        (write m.transactions dtp (some (record u { refcnt = inc32 u.refcnt; depends = m.fresh })))
        tp (some (record t { waitcnt = inc32 t.waitcnt }));
  fresh = suc m.fresh;
}

-- If `dtp` is another transaction without dependents and addresses are not 0, `trans_add_dependency` makes `tp` its only
-- dependent: `dtp` has one reference more, `tp` one wait more, and nothing else is changed.
pub trans_add_dependency-first :
    (m : Machine) (tp dtp : Ptr) {t u : Transaction}
    → at m.transactions tp ≡ some t
    → at m.transactions dtp ≡ some u
    → tp ≢ dtp
    → m.fresh ≢ null
    → u.depends ≡ null
    → (trans_add_dependency tp dtp m ≡ ok tt (depending m tp dtp t u))
      × IsDepends (depending m tp dtp t u).dependencies (suc m.fresh) 0 m.fresh (tp ∷ [])
unfolding trans_add_dependency new_dependency trans_ref and_then
trans_add_dependency-first m tp dtp {t} {u} held_t held_u ne fresh_ne alone =
    let h : Heap Transaction = m.transactions in
    let d : Dependency = record { trans = tp; next = null } in
    let m1 : Machine = record m {
      dependencies = write m.dependencies m.fresh (some d);
      fresh = suc m.fresh;
    } in
    let m2 : Machine = entered m tp dtp u in
    let u1 : Transaction = record u { refcnt = inc32 u.refcnt } in
    let u2 : Transaction = record u1 { depends = m.fresh } in
    let m3 : Machine = with_heap m2 (write m2.transactions dtp (some u2)) in
    let at_2 : at m2.transactions dtp ≡ some u1 = at-write_self h dtp _ (at-ne-null h dtp held_u) in
    let at_3 : at m3.transactions tp ≡ some t =
      at-write_ne m2.transactions dtp tp _ ne ∙ at-write_ne h dtp tp _ ne ∙ held_t in
    let no_depends : (u.depends == null) ≡ true = rw alone refl in
    let t1 : Transaction = record t { waitcnt = inc32 t.waitcnt } in
    (
      rw
          (
            load_transaction-ok m1 dtp held_u,
            load_transaction-ok m1 dtp held_u,
            put_transaction-ok m1 dtp (some u1) held_u,
            load_transaction-ok m2 dtp at_2,
            no_depends,
            load_transaction-ok m2 dtp at_2,
            put_transaction-ok m2 dtp (some u2) at_2,
            load_transaction-ok m3 tp at_3,
            load_transaction-ok m3 tp at_3,
            put_transaction-ok m3 tp (some t1) at_3,
            write-twice h dtp (some u1) (some u2),
          )
          refl,
      (omega arith, omega arith, (null, at-write_self m.dependencies m.fresh _ fresh_ne, refl)),
    )
