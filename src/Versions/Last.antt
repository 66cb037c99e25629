-- ===== src/Versions/Last.antt =====
-- `add_version` finds the last version of a list, and decides by its creator.
use concurrent_server.Common.{
  ℕ, zero, suc, ◌<◌, ◌≡◌, ◌≢◌, ◌⊎◌, inl, inr, some, List, [], ◌∷◌, arith, lt→ltb, length, ==_ne,
  ==_refl,
}
use concurrent_server.Machine.{
  Ptr, null, trans_pending, trans_committed, trans_aborted, Transaction, MapEntry, Machine, at,
  at-ne-null, ok, and_then,
}
use concurrent_server.Machine.Points.{load_transaction-ok, load_version-ok, load_entry-ok}
use concurrent_server.Transaction.{trans_abort}
use concurrent_server.Transaction.Status.{trans_get_status-ok}
use concurrent_server.Versions.{
  last_version, append_pending, append_version, overwrite, add_after, add_version,
}
use concurrent_server.Versions.Chain.{Cell, IsChain, length-IsChain}

abbrev pub last_cell : Cell → List Cell → Cell
last_cell c [] = c
last_cell c (d ∷ ds) = last_cell d ds

-- What the heap holds of the last cell.
pub record IsLast (m : Machine) (c : Cell) : Type 0 where
  pub body : at m.versions c.addr ≡ some c.body
  pub owner : at m.transactions c.body.creator ≡ some c.owner
  pub end : c.body.next ≡ null
  pub below : c.addr < m.fresh

pub last_cell-IsLast :
    (m : Machine) (lo p : Ptr) (c : Cell) (cs : List Cell)
    → IsChain m lo p (c ∷ cs)
    → IsLast m (last_cell c cs)
last_cell-IsLast m lo p c [] (_, _, lt, hv, ht, e) = record {
  body = hv;
  owner = ht;
  end = e;
  below = lt;
}
last_cell-IsLast m lo p c (d ∷ ds) (_, _, _, _, _, rest) =
    last_cell-IsLast m (suc c.addr) c.body.next d ds rest

-- The addresses grow, so only the only version is at the head and at the end.
pub last_cell-gt :
    (m : Machine) (lo p : Ptr) (c d : Cell) (ds : List Cell)
    → IsChain m lo p (c ∷ d ∷ ds)
    → c.addr < (last_cell d ds).addr
last_cell-gt m lo p c d [] (_, _, _, _, _, rest) = rest.1
last_cell-gt m lo p c d (b ∷ bs) (_, _, _, _, _, rest) =
    omega (arith, last_cell-gt m (suc c.addr) c.body.next d b bs rest, rest.1)

pub last_version-ok :
    (m : Machine) (k lo p : ℕ) (c : Cell) (cs : List Cell)
    → IsChain m lo p (c ∷ cs)
    → length cs < k
    → last_version k p m ≡ ok (last_cell c cs).addr m
unfolding last_version and_then
last_version-ok m zero lo p c cs ch fuel = absurd (omega arith)
last_version-ok m (suc k) lo p c [] (at_c, _, _, hv, _, e) fuel =
    rw (at_c, load_version-ok m c.addr hv, e)
last_version-ok m (suc k) lo p c (d ∷ ds) (at_c, _, _, hv, _, rest) fuel =
    let next_ne : c.body.next ≢ null = rw (rest.0) (at-ne-null m.versions d.addr (rest.3)) in
    rw (at_c, load_version-ok m c.addr hv, ==_ne _ _ next_ne)
      (last_version-ok m k (suc c.addr) c.body.next d ds rest (omega arith))

module _ (m : Machine) (mp tp value : Ptr) {e : MapEntry} (c : Cell) (cs : List Cell)
    (entry : at m.entries mp ≡ some e) (chain : IsChain m 0 e.versions (c ∷ cs)) where
  abbrev last : Cell
  last = last_cell c cs

  pub add_version-last : add_version mp tp value m ≡ add_after mp tp value last.addr m
  unfolding add_version and_then
  add_version-last =
      let ne : e.versions ≢ null = rw (chain.0) (at-ne-null m.versions c.addr (chain.3)) in
      let fuel : length cs < suc m.fresh =
        omega (arith, length-IsChain m 0 e.versions (c ∷ cs) (omega arith) chain) in
      rw (
        load_entry-ok m mp entry,
        ==_ne _ _ ne,
        last_version-ok m (suc m.fresh) 0 e.versions c cs chain fuel,
      )

  module _ {t : Transaction} (caller : at m.transactions tp ≡ some t) where
    is_last : IsLast m last
    is_last = last_cell-IsLast m 0 e.versions c cs chain

    -- The last version was committed: append.
    pub add_version-committed :
        last.owner.status ≡ trans_committed
        → add_version mp tp value m ≡ append_version tp value last.addr m
    unfolding add_after and_then
    add_version-committed s = rw (
      add_version-last,
      load_version-ok m last.addr is_last.body,
      trans_get_status-ok m last.body.creator is_last.owner,
      s,
    )

    -- The last version is pending and the caller created it: overwrite.
    pub add_version-own :
        last.owner.status ≡ trans_pending
        → last.owner.id ≡ t.id
        → add_version mp tp value m ≡ overwrite mp tp value last.addr m
    unfolding add_after and_then
    add_version-own s same = rw (
      add_version-last,
      load_version-ok m last.addr is_last.body,
      trans_get_status-ok m last.body.creator is_last.owner,
      s,
      load_transaction-ok m last.body.creator is_last.owner,
      load_transaction-ok m tp caller,
      same,
      ==_refl t.id,
    )

    -- The caller must abort: the last version is aborted, or pending and of a later transaction.
    abbrev pub Conflict : Type 0
    Conflict =
        (last.owner.status ≡ trans_aborted)
        ⊎ ((last.owner.status ≡ trans_pending) × (t.id < last.owner.id))

    -- In a conflict `add_version` aborts the caller, leaves the version list alone and returns its
    -- last version.
    pub add_version-conflict :
        Conflict → add_version mp tp value m ≡ and_then (trans_abort tp m) (λ _. ok last.addr)
    unfolding add_after append_pending and_then
    add_version-conflict (inl s) = rw (
      add_version-last,
      load_version-ok m last.addr is_last.body,
      trans_get_status-ok m last.body.creator is_last.owner,
      s,
    )
    add_version-conflict (inr (s, less)) = rw (
      add_version-last,
      load_version-ok m last.addr is_last.body,
      trans_get_status-ok m last.body.creator is_last.owner,
      s,
      load_transaction-ok m last.body.creator is_last.owner,
      load_transaction-ok m tp caller,
      ==_ne last.owner.id t.id (omega arith),
      load_transaction-ok m last.body.creator is_last.owner,
      load_transaction-ok m tp caller,
      lt→ltb _ _ less,
    )
