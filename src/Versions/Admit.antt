-- ===== src/Versions/Admit.antt =====
-- What `add_version` owes to the history of a key, and what that admits by the last cell of the
-- version list.
use concurrent_server.Common.{
  ◌+◌, ◌^◌, ◌<◌, ◌≡◌, ◌≢◌, refl, ap, some, none, Option, List, [], ◌∷◌, ◌++◌, arith, ==_ne, ==_refl,
  inl, inr, lt→ltb, ◌⊎◌,
}
use concurrent_server.Machine.{
  Ptr, null, trans_pending, trans_committed, trans_aborted, Transaction, Blob, MapEntry, Machine,
  at, ok, and_then,
}
use concurrent_server.Transaction.{trans_abort}
use concurrent_server.Versions.{add_version}
use concurrent_server.Versions.Chain.{Cell, IsChain}
use concurrent_server.Versions.Last.{last_cell}
use concurrent_server.Versions.Append.{new_body}
use concurrent_server.Versions.Pending.{not_earlier}
use concurrent_server.Versions.History.{Access, access_by, history, admit, keeping}

-- The version list of the entry at `mp` stands for the history `h`.
pub record StandsFor (m : Machine) (mp : Ptr) (h : List Access) : Type 0 where
  pub entry : MapEntry
  pub cells : List Cell
  pub held : at m.entries mp ≡ some entry
  pub chain : IsChain m 0 entry.versions cells
  pub same : history cells ≡ h

-- `add_version` returns a version with the value, and the list of the entry then stands for `h`. The
-- caller has the status of before, and the blob of the value is as it was.
pub record Admitted (m : Machine) (mp tp value : Ptr) (t : Transaction) (h : List Access)
    : Type 0 where
  pub new : Ptr
  pub after : Machine
  pub returned : add_version mp tp value m ≡ ok new after
  pub version : at after.versions new ≡ some (new_body tp value)
  pub list : StandsFor after mp h
  pub caller : Transaction
  pub caller_after : at after.transactions tp ≡ some caller
  pub status : caller.status ≡ t.status
  pub value_after : at after.blobs value ≡ at m.blobs value

-- The caller is aborted, the list is left alone, and its last version is returned.
abbrev pub Declines : (m : Machine) (mp tp value : Ptr) → List Cell → Type 0
Declines m mp tp value [] = ⊥
Declines m mp tp value (c ∷ cs) =
    add_version mp tp value m ≡ and_then (trans_abort tp m) (λ _. ok (last_cell c cs).addr)

abbrev pub Implements :
    (m : Machine) (mp tp value : Ptr) → Transaction → List Cell → Option (List Access) → Type 0
Implements m mp tp value t cs none = Declines m mp tp value cs
Implements m mp tp value t cs (some h) = Admitted m mp tp value t h

-- The lists at which `add_version` of the transaction `t` at `tp` works: not one of several
-- versions of which the caller has the last one, and not one behind which another transaction waits
-- for the creator of the last version. Where the caller has the only version, it counts its
-- references without a wrap, and the blob of that version is allocated and not that of the value.
pub data Ready (m : Machine) (tp value : Ptr) (t : Transaction) : List Cell → Type 0 where
  no_version : m.fresh ≢ null → Ready m tp value t []
  behind_committed :
      (c : Cell) (cs : List Cell)
      → (last_cell c cs).owner.status ≡ trans_committed
      → Ready m tp value t (c ∷ cs)
  behind_earlier :
      (c : Cell) (cs : List Cell)
      → (last_cell c cs).owner.status ≡ trans_pending
      → (last_cell c cs).owner.id < t.id
      → (last_cell c cs).owner.depends ≡ null
      → Ready m tp value t (c ∷ cs)
  behind_aborted :
      (c : Cell) (cs : List Cell)
      → (last_cell c cs).owner.status ≡ trans_aborted
      → Ready m tp value t (c ∷ cs)
  behind_later :
      (c : Cell) (cs : List Cell)
      → (last_cell c cs).owner.status ≡ trans_pending
      → t.id < (last_cell c cs).owner.id
      → Ready m tp value t (c ∷ cs)
  its_own :
      (c : Cell) (b : Blob)
      → c.body.creator ≡ tp
      → t.status ≡ trans_pending
      → 0 < t.refcnt
      → t.refcnt + 1 < 2 ^ 32
      → at m.blobs c.body.blob ≡ some b
      → c.body.blob < m.fresh
      → c.body.blob ≢ value
      → Ready m tp value t (c ∷ [])

module _ (me : Access) where
  pub admit-behind_committed :
      (c : Cell) (cs : List Cell)
      → (last_cell c cs).owner.status ≡ trans_committed
      → admit me (history (c ∷ cs)) ≡ some (history (c ∷ cs) ++ me ∷ [])
  admit-behind_committed c [] s = rw s refl
  admit-behind_committed c (d ∷ ds) s =
      ap (keeping (access_by c.body.creator c.body.blob c.owner)) (admit-behind_committed d ds s)

  pub admit-behind_earlier :
      (c : Cell) (cs : List Cell)
      → (last_cell c cs).owner.status ≡ trans_pending
      → (last_cell c cs).owner.id < me.id
      → admit me (history (c ∷ cs)) ≡ some (history (c ∷ cs) ++ me ∷ [])
  admit-behind_earlier c [] s lt =
      rw (s, ==_ne c.owner.id me.id (omega arith), not_earlier me.id c.owner.id lt) refl
  admit-behind_earlier c (d ∷ ds) s lt =
      ap (keeping (access_by c.body.creator c.body.blob c.owner)) (admit-behind_earlier d ds s lt)

  pub admit-conflict :
      (c : Cell) (cs : List Cell)
      → ((last_cell c cs).owner.status ≡ trans_aborted)
        ⊎ (((last_cell c cs).owner.status ≡ trans_pending) × (me.id < (last_cell c cs).owner.id))
      → admit me (history (c ∷ cs)) ≡ none
  admit-conflict c [] (inl s) = rw s refl
  admit-conflict c [] (inr (s, lt)) =
      rw (s, ==_ne c.owner.id me.id (omega arith), lt→ltb _ _ lt) refl
  admit-conflict c (d ∷ ds) h =
      ap (keeping (access_by c.body.creator c.body.blob c.owner)) (admit-conflict d ds h)

  pub admit-own :
      (c : Cell)
      → c.owner.status ≡ trans_pending
      → c.owner.id ≡ me.id
      → admit me (history (c ∷ [])) ≡ some (me ∷ [])
  admit-own c s same = rw (s, same, ==_refl me.id) refl
