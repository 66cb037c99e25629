-- ===== src/Store/Conflict.antt =====
-- `store_put` and `store_get` in a conflict, where the caller has the last reference to its
-- transaction.
use concurrent_server.Common.{ℕ, ◌≤◌, ◌<◌, ◌≡◌, refl, ◌∙◌, false, none, some, inr, List, ◌∷◌, ◌++◌}
use concurrent_server.Machine.{
  Ptr, null, trans_pending, Blob, Transaction, MapEntry, Machine, at, ok, fault, and_then,
}
use concurrent_server.Machine.Points.{load_version-ok}
use concurrent_server.Transaction.Status.{trans_get_status-freed}
use concurrent_server.Transaction.Dependents.{with_heap}
use concurrent_server.Transaction.Ring.{IsRing}
use concurrent_server.Transaction.Gone.{trans_abort-last}
use concurrent_server.Entries.{find_map_entry}
use concurrent_server.Collect.{garbage_collect}
use concurrent_server.Collect.Clean.{collect-clean}
use concurrent_server.Versions.{add_version}
use concurrent_server.Versions.Chain.{Cell, IsChain, has_aborted, committed_count}
use concurrent_server.Versions.Last.{last_cell, last_cell-IsLast, add_version-conflict}
use concurrent_server.Store.{store_put, store_get}
use concurrent_server.Store.Copy.{IsWhole, copied, with_blob, latest_value-last}
use concurrent_server.Store.Access.{IsChain-later}

-- The entry of a key, of whose versions, `cs` behind `c`, none is aborted, at most one committed, and
-- the last one pending, of a transaction with an id above `i`.
pub record Contended (m : Machine) (mp : Ptr) (e : MapEntry) (c : Cell) (cs : List Cell) (i : ℕ)
    : Type 0 where
  pub entry : at m.entries mp ≡ some e
  pub chain : IsChain m 0 e.versions (c ∷ cs)
  pub live : has_aborted (c ∷ cs) ≡ false
  pub few : committed_count (c ∷ cs) ≤ 1
  pub pending : (last_cell c cs).owner.status ≡ trans_pending
  pub later : i < (last_cell c cs).owner.id

-- The caller, in the list of all transactions: it has one reference, and no transaction depends on
-- it.
pub record Sole (m : Machine) (tp : Ptr) (t : Transaction) : Type 0 where
  pub before : List Ptr
  pub behind : List Ptr
  pub ring : IsRing m.transactions (before ++ tp ∷ behind)
  pub held : at m.transactions tp ≡ some t
  pub last : t.refcnt ≡ 1
  pub alone : t.depends ≡ null

-- `add_version` frees the caller.
add_version-freed :
    (m : Machine) (mp tp value : Ptr) {e : MapEntry} (c : Cell) (cs : List Cell) {t : Transaction}
    → Contended m mp e c cs t.id
    → Sole m tp t
    → (m' : Machine) × (add_version mp tp value m ≡ ok (last_cell c cs).addr m')
      × (m'.versions ≡ m.versions)
      × (at m'.transactions tp ≡ none)
unfolding and_then
add_version-freed m mp tp value c cs k sole =
    let (h, aborted, _, gone) =
      trans_abort-last m sole.before tp sole.behind sole.ring sole.held sole.last sole.alone in
    (
      with_heap m h,
      add_version-conflict m mp tp value c cs k.entry k.chain sole.held (inr (k.pending, k.later))
          ∙ rw aborted refl,
      refl,
      gone,
    )

module _ (m m1 : Machine) (mp tp key : Ptr) {e : MapEntry} (c : Cell) (cs : List Cell)
    {t : Transaction} (found : find_map_entry key m ≡ ok mp m1) (k : Contended m1 mp e c cs t.id)
    (sole : Sole m1 tp t) where
  clean : garbage_collect mp m1 ≡ ok tt m1
  clean = collect-clean m1 mp (c ∷ cs) k.entry k.chain k.live k.few

  put-fault : (value : Ptr) → store_put tp key value m ≡ fault
  unfolding store_put and_then
  put-fault value =
      let (m', added, _, gone) = add_version-freed m1 mp tp value c cs k sole in
      rw (found, clean, added, trans_get_status-freed m' tp gone) refl

  get-fault :
      {b : Blob}
      → at m1.blobs (last_cell c cs).body.blob ≡ some b
      → IsWhole b
      → store_get tp key m ≡ fault
  unfolding store_get and_then
  get-fault {b} blob whole =
      let m2 : Machine = with_blob m1 (copied b) in
      let k2 : Contended m2 mp e c cs t.id = record {
        entry = k.entry;
        chain = IsChain-later m1 (copied b) 0 e.versions (c ∷ cs) k.chain;
        live = k.live;
        few = k.few;
        pending = k.pending;
        later = k.later;
      } in
      let sole2 : Sole m2 tp t = record {
        before = sole.before;
        behind = sole.behind;
        ring = sole.ring;
        held = sole.held;
        last = sole.last;
        alone = sole.alone;
      } in
      let (m', added, same, gone) = add_version-freed m2 mp tp m1.fresh c cs k2 sole2 in
      let at_last : at m'.versions (last_cell c cs).addr ≡ some (last_cell c cs).body =
        rw same (last_cell-IsLast m2 0 e.versions c cs k2.chain).body in
      rw
        (
          found,
          clean,
          latest_value-last m1 mp c cs k.entry k.chain blob whole,
          added,
          load_version-ok m' (last_cell c cs).addr at_last,
          trans_get_status-freed m' tp gone,
        )
        refl

  -- If the last version of a key is of a pending transaction with a later id, and the caller has the
  -- only reference to its own transaction, on which no other depends, then `store_put` is undefined
  -- behaviour: `add_version` aborts and thereby frees the transaction, whose status is read then.
  -- So is `store_get`, where the blob of the version has a buffer of its size.
  pub conflict-fault :
      (value : Ptr) {b : Blob}
      → at m1.blobs (last_cell c cs).body.blob ≡ some b
      → IsWhole b
      → (store_put tp key value m ≡ fault) × (store_get tp key m ≡ fault)
  conflict-fault value blob whole = (put-fault value, get-fault blob whole)
