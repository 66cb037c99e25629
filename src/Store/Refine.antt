-- ===== src/Store/Refine.antt =====
-- `store_put` against the history of a key.
use concurrent_server.Common.{ℕ, ◌≤◌, ◌≡◌, refl, ◌∙◌, ap, false, Option, none, some, List, [], ◌∷◌}
use concurrent_server.Machine.{
  Ptr, Transaction, TransStatus, MapEntry, Machine, Run, fault, blocked, out_of_fuel, Cmd, at, ok,
  and_then,
}
use concurrent_server.Transaction.{trans_get_status, trans_abort}
use concurrent_server.Entries.{find_map_entry}
use concurrent_server.Entries.Bucket.{Slot}
use concurrent_server.Entries.Find.{Found}
use concurrent_server.Collect.{garbage_collect}
use concurrent_server.Collect.Clean.{collect-clean}
use concurrent_server.Versions.{add_version}
use concurrent_server.Versions.Chain.{Cell, IsChain, has_aborted, committed_count}
use concurrent_server.Versions.Last.{last_cell}
use concurrent_server.Versions.History.{Access, access_by, history, admit}
use concurrent_server.Versions.Admit.{StandsFor, Implements, Ready}
use concurrent_server.Versions.Refine.{add_version-refines}
use concurrent_server.Store.{store_put}
use concurrent_server.Store.Access.{store_put-steps}

-- The list of the entry at `mp` is `cs`, none of its versions is aborted and at most one committed,
-- and the transaction `t` at `tp` may write `value` behind it.
pub record Standing (m : Machine) (mp tp value : Ptr) (e : MapEntry) (t : Transaction)
    (cs : List Cell) : Type 0 where
  pub entry : at m.entries mp ≡ some e
  pub chain : IsChain m 0 e.versions cs
  pub live : has_aborted cs ≡ false
  pub few : committed_count cs ≤ 1
  pub caller : at m.transactions tp ≡ some t
  pub ready : Ready m tp value t cs

-- `store_put` returns the status that the caller had, the list stands for `h`, and the blob of the
-- value is as in the machine `m1`.
pub record Stored (m m1 : Machine) (mp tp key value : Ptr) (t : Transaction) (h : List Access)
    : Type 0 where
  pub after : Machine
  pub returned : store_put tp key value m ≡ ok t.status after
  pub list : StandsFor after mp h
  pub value_after : at after.blobs value ≡ at m1.blobs value

-- The caller is aborted in the machine `m1`, and then asked for its status.
abbrev pub PutImplements :
    (m m1 : Machine) (mp tp key value : Ptr) → Transaction → Option (List Access) → Type 0
PutImplements m m1 mp tp key value t none =
    store_put tp key value m ≡ and_then (trans_abort tp m1) (λ _. trans_get_status tp)
PutImplements m m1 mp tp key value t (some h) = Stored m m1 mp tp key value t h

-- A command whose result is passed over.
pub and_then-const :
    {A B C : Type 0} (r : Run A) (b : B) (k : B → Cmd C)
    → and_then (and_then r (λ _. ok b)) k ≡ and_then r (λ _. k b)
unfolding and_then
and_then-const (ok a m) b k = refl
and_then-const fault b k = refl
and_then-const blocked b k = refl
and_then-const out_of_fuel b k = refl

module _ (m : Machine) (tp key : Ptr) {mp : Ptr} {m1 : Machine}
    (found : find_map_entry key m ≡ ok mp m1) (clean : garbage_collect mp m1 ≡ ok tt m1) where
  store_put-added :
      (value : Ptr)
      → store_put tp key value m ≡ and_then (add_version mp tp value m1) (λ _. trans_get_status tp)
  unfolding store_put and_then
  store_put-added value = rw (found, clean) refl

  store_put-Implements :
      (value : Ptr) (t : Transaction) (cs : List Cell) (r : Option (List Access))
      → Implements m1 mp tp value t cs r
      → PutImplements m m1 mp tp key value t r
  store_put-Implements value t [] none done = absurd done
  store_put-Implements value t (c ∷ cs) none done =
      let rest : Cmd TransStatus = trans_get_status tp in
      let steps : store_put tp key value m ≡ and_then (add_version mp tp value m1) (λ _. rest) =
        store_put-added value in
      steps ∙ rw done (and_then-const (trans_abort tp m1) (last_cell c cs).addr (λ _. rest))
  store_put-Implements value t cs (some h) done = record {
    after = done.after;
    returned =
        store_put-steps m tp key value found clean done.returned done.caller_after
        ∙ ap (λ s. ok s done.after) done.status;
    list = done.list;
    value_after = done.value_after;
  }

-- If the key is found or entered in its bucket, its version list is well formed, without an aborted
-- version and with at most one committed, and `Ready` for the caller, then `store_put` does what the
-- history of the key says: where it admits the access, the list then stands for the history with it,
-- and the status of the caller is returned; where it does not, the caller is aborted and its status
-- read.
pub store_put-refines :
    (m : Machine) (tp key i : Ptr) {ys : List ℕ} {ss : List Slot} (found : Found m i key ys ss)
    (value : Ptr) {e : MapEntry} {t : Transaction} (cs : List Cell)
    → Standing found.machine found.entry tp value e t cs
    → PutImplements m found.machine found.entry tp key value t
        (admit (access_by tp value t) (history cs))
store_put-refines m tp key i found value {e} {t} cs st =
    store_put-Implements m tp key found.returned
      (collect-clean found.machine found.entry cs st.entry st.chain st.live st.few) value t cs
      (admit (access_by tp value t) (history cs))
      (add_version-refines found.machine found.entry tp value cs st.entry st.caller st.chain
        st.ready)
