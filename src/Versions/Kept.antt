-- ===== src/Versions/Kept.antt =====
-- What `trans_add_dependency` leaves of each transaction.
use concurrent_server.Common.{
  some_injective, ◌≡◌, ◌≢◌, refl, sym, ◌∙◌, ap, some, arith, ◌==◌, Bool-cases, inl, inr, inc32,
}
use concurrent_server.Machine.{
  Ptr, Transaction, Heap, Machine, at, write, at-ne-null, at-write_self, at-write_ne,
}
use concurrent_server.Transaction.Depend.{depending}
use concurrent_server.Versions.Pending.{waiting}
use concurrent_server.Versions.History.{AreKept}

-- Two transactions are the same if one address holds both.
pub held_once :
    (h : Heap Transaction) (p q : Ptr) {t u : Transaction}
    → at h p ≡ some t
    → at h q ≡ some u
    → p ≡ q
    → t ≡ u
held_once h p q held_t held_u same = some_injective (sym held_t ∙ (ap (λ a. at h a) same ∙ held_u))

pub depending-AreKept :
    (m : Machine) (tp dtp : Ptr) {t u : Transaction}
    → at m.transactions tp ≡ some t
    → at m.transactions dtp ≡ some u
    → AreKept m (depending m tp dtp t u)
depending-AreKept m tp dtp {t} {u} held_t held_u q v held =
    let h : Heap Transaction = m.transactions in
    let u' : Transaction = record u { refcnt = inc32 u.refcnt; depends = m.fresh } in
    elim (Bool-cases (q == tp)) [
      | inl is ↦
          let same : q ≡ tp = ground arith in
          (
            waiting t,
            ap (λ a. at (depending m tp dtp t u).transactions a) same
                ∙ at-write_self _ tp _ (at-ne-null h tp held_t),
            ap (λ x. Transaction.status x) (held_once h tp q held_t held (sym same)),
            ap (λ x. Transaction.id x) (held_once h tp q held_t held (sym same)),
          )
      | inr not ↦
          let ne : q ≢ tp = ground arith in
          elim (Bool-cases (q == dtp)) [
            | inl is ↦
                let same : q ≡ dtp = ground arith in
                (
                  u',
                  at-write_ne _ tp q _ ne
                      ∙ (ap (λ a. at (write h dtp (some u')) a) same
                          ∙ at-write_self h dtp _ (at-ne-null h dtp held_u)),
                  ap (λ x. Transaction.status x) (held_once h dtp q held_u held (sym same)),
                  ap (λ x. Transaction.id x) (held_once h dtp q held_u held (sym same)),
                )
            | inr not' ↦
                let ne' : q ≢ dtp = ground arith in
                (v, at-write_ne _ tp q _ ne ∙ (at-write_ne h dtp q _ ne' ∙ held), refl, refl)
          ]
    ]
