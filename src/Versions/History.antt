-- ===== src/Versions/History.antt =====
-- A version list as the history of a key.
use concurrent_server.Common.{
  some_injective, ℕ, suc, ◌≤◌, ◌≡◌, refl, sym, ◌∙◌, ap, ap₂, Option, none, some, List, [], ◌∷◌,
  ◌++◌, arith, ◌==◌, ltb, if◌then◌else◌, Bool-cases, inl, inr,
}
use concurrent_server.Machine.{Ptr, TransStatus, Transaction, Machine, at}
use concurrent_server.Transaction.{is_pending, is_aborted}
use concurrent_server.Versions.Chain.{Cell, IsChain}
use concurrent_server.Versions.Last.{last_cell}
use concurrent_server.Versions.Append.{extend, touched, referenced}

-- Who wrote which value, and what has become of that transaction.
pub record Access : Type 0 where
  pub creator : Ptr
  pub value : Ptr
  pub status : TransStatus
  pub id : ℕ

abbrev pub access_by : (tp value : Ptr) → Transaction → Access
access_by tp value t = record { creator = tp; value = value; status = t.status; id = t.id }

abbrev pub history : List Cell → List Access
history [] = []
history (c ∷ cs) = access_by c.body.creator c.body.blob c.owner ∷ history cs

abbrev pub keeping : Access → Option (List Access) → Option (List Access)
keeping a none = none
keeping a (some h) = some (a ∷ h)

-- The history behind an access, or `none` if the transaction must abort: an access goes behind one
-- that is committed or pending of an earlier transaction, and replaces one of its own transaction.
abbrev pub admit : (me : Access) → List Access → Option (List Access)
admit me [] = some (me ∷ [])
admit me (a ∷ []) =
    if is_pending a.status
    then (if a.id == me.id
        then some (me ∷ [])
        else if ltb me.id a.id
        then none
        else some (a ∷ me ∷ []))
    else if is_aborted a.status
    then none
    else some (a ∷ me ∷ [])
admit me (a ∷ b ∷ bs) = keeping a (admit me (b ∷ bs))

-- A cell with the state that its creator has in a machine.
abbrev pub found_in : Option Transaction → Transaction → Transaction
found_in none t = t
found_in (some t') t = t'

abbrev pub reowned : Machine → Cell → Cell
reowned m c = record c { owner = found_in (at m.transactions c.body.creator) c.owner }

abbrev pub reowned_each : Machine → List Cell → List Cell
reowned_each m [] = []
reowned_each m (c ∷ cs) = reowned m c ∷ reowned_each m cs

pub last_cell-reowned_each :
    (m : Machine) (c : Cell) (cs : List Cell)
    → last_cell (reowned m c) (reowned_each m cs) ≡ reowned m (last_cell c cs)
last_cell-reowned_each m c [] = refl
last_cell-reowned_each m c (d ∷ ds) = last_cell-reowned_each m d ds

-- Every transaction is still there, with its status and its id.
abbrev pub AreKept : Machine → Machine → Type 0
AreKept m m' =
    (q : Ptr) (t : Transaction)
    → at m.transactions q ≡ some t
    → (t' : Transaction) × (at m'.transactions q ≡ some t')
      × (t'.status ≡ t.status)
      × (t'.id ≡ t.id)

module _ (m m' : Machine) (kept : AreKept m m') (same : m'.versions ≡ m.versions)
    (more : m.fresh ≤ m'.fresh) where
  pub reowned_each-IsChain :
      (lo p : Ptr) (cs : List Cell) → IsChain m lo p cs → IsChain m' lo p (reowned_each m' cs)
  reowned_each-IsChain lo p [] e = e
  reowned_each-IsChain lo p (c ∷ cs) (at_c, le, lt, hv, ht, rest) =
      let (t', at_t, _, _) = kept c.body.creator c.owner ht in
      (
        at_c,
        le,
        omega arith,
        rw same hv,
        rw at_t refl,
        reowned_each-IsChain (suc c.addr) c.body.next cs rest,
      )

  pub history-reowned_each :
      (lo p : Ptr) (cs : List Cell) → IsChain m lo p cs → history (reowned_each m' cs) ≡ history cs
  history-reowned_each lo p [] e = refl
  history-reowned_each lo p (c ∷ cs) (_, _, _, _, ht, rest) =
      let (t', at_t, status, id) = kept c.body.creator c.owner ht in
      rw (at_t, status, id, history-reowned_each (suc c.addr) c.body.next cs rest) refl

module _ (m : Machine) (tp value q : Ptr) {t : Transaction}
    (caller : at m.transactions tp ≡ some t) where
  -- A reference to the caller is nothing to the history.
  access-touched :
      (c : Cell)
      → at m.transactions c.body.creator ≡ some c.owner
      → access_by c.body.creator c.body.blob (touched tp (referenced t) c)
        ≡ access_by c.body.creator c.body.blob c.owner
  access-touched c ht = elim (Bool-cases (c.body.creator == tp)) [
    | inl is ↦
        let same : c.body.creator ≡ tp = ground arith in
        let two : some t ≡ some c.owner =
          sym caller ∙ (ap (λ p. at m.transactions p) (sym same) ∙ ht) in
        rw is (ap (access_by c.body.creator c.body.blob) (some_injective two))
    | inr not ↦ rw not refl
  ]

  -- A new version at the end.
  pub history-extend :
      (lo p : Ptr) (c : Cell) (cs : List Cell)
      → IsChain m lo p (c ∷ cs)
      → history (extend tp value q (referenced t) c cs)
        ≡ history (c ∷ cs) ++ access_by tp value t ∷ []
  history-extend lo p c [] (_, _, _, _, ht, _) =
      ap (λ a. a ∷ access_by tp value t ∷ []) (access-touched c ht)
  history-extend lo p c (d ∷ ds) (_, _, _, _, ht, rest) =
      ap₂ (λ a h. a ∷ h) (access-touched c ht) (history-extend (suc c.addr) c.body.next d ds rest)
