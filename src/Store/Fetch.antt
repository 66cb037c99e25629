-- ===== src/Store/Fetch.antt =====
-- `store_get` against the history of a key.
use concurrent_server.Common.{
  some_injective, ◌==◌, true, ℕ, ◌≡◌, ◌≢◌, refl, ◌∙◌, ap, Option, none, some, List, [], ◌∷◌, arith,
}
use concurrent_server.Machine.{
  Ptr, null, Blob, Transaction, TransStatus, MapEntry, Machine, new_blob, Cmd, pure, ◌>>=◌,
  load_version, at, at-write_ne, at-write_self, ok, and_then,
}
use concurrent_server.Machine.Points.{load_entry-ok}
use concurrent_server.Transaction.{trans_get_status, trans_abort}
use concurrent_server.Data.{blob_create}
use concurrent_server.Entries.{find_map_entry}
use concurrent_server.Entries.Bucket.{Slot}
use concurrent_server.Entries.Find.{Found}
use concurrent_server.Collect.{garbage_collect}
use concurrent_server.Collect.Clean.{collect-clean}
use concurrent_server.Versions.{add_version}
use concurrent_server.Versions.Chain.{Cell, IsChain}
use concurrent_server.Versions.Last.{last_cell}
use concurrent_server.Versions.History.{Access, access_by, history, admit}
use concurrent_server.Versions.Admit.{
  StandsFor, Implements, Ready, no_version, behind_committed, behind_earlier, behind_aborted,
  behind_later, its_own,
}
use concurrent_server.Versions.Refine.{add_version-refines}
use concurrent_server.Store.{latest_value, store_get}
use concurrent_server.Store.Copy.{IsWhole, copied, with_blob, latest_value-last}
use concurrent_server.Store.Access.{store_get-steps, IsChain-later}
use concurrent_server.Store.Refine.{Standing, and_then-const}

-- The blob that `store_get` copies: that of the last version, or NULL.
abbrev pub latest_blob : Machine → List Cell → Option Blob
latest_blob m [] = some (record { refcnt = 1; size = 0; content = none; prefix = none })
latest_blob m (c ∷ cs) = at m.blobs (last_cell c cs).body.blob

-- `store_get` returns the status that the caller had and a copy of the blob `b`, and the list stands
-- for `h`.
pub record Fetched (m : Machine) (mp tp key value : Ptr) (t : Transaction) (b : Blob)
    (h : List Access) : Type 0 where
  pub after : Machine
  pub returned : store_get tp key m ≡ ok (t.status, value) after
  pub copy : at after.blobs value ≡ some (copied b)
  pub list : StandsFor after mp h

-- The status of the caller, and the blob of the version at `p`.
abbrev pub read_at : (tp p : Ptr) → Cmd (TransStatus × Ptr)
read_at tp p = do v ← load_version p; s ← trans_get_status tp; pure (s, v.blob)

abbrev pub GetImplements :
    (m m1 : Machine) (mp tp key value : Ptr)
    → Transaction
    → Blob
    → List Cell
    → Option (List Access)
    → Type 0
GetImplements m m1 mp tp key value t b [] none = ⊥
GetImplements m m1 mp tp key value t b (c ∷ cs) none =
    store_get tp key m
    ≡ and_then (trans_abort tp (with_blob m1 (copied b))) (λ _. read_at tp (last_cell c cs).addr)
GetImplements m m1 mp tp key value t b cs (some h) = Fetched m mp tp key value t b h

latest_value-any :
    (m : Machine) (mp : Ptr) {e : MapEntry} (cs : List Cell) {b : Blob}
    → at m.entries mp ≡ some e
    → IsChain m 0 e.versions cs
    → latest_blob m cs ≡ some b
    → IsWhole b
    → latest_value mp m ≡ ok m.fresh (with_blob m (copied b))
unfolding latest_value blob_create new_blob and_then
latest_value-any m mp {e} [] {b} entry empty blob whole =
    let is_null : (e.versions == null) ≡ true = rw empty refl in
    let is : record { refcnt = 1; size = 0; content = none; prefix = none } ≡ b =
      some_injective blob in
    rw (load_entry-ok m mp entry, is_null) (ap (λ x. ok m.fresh (with_blob m (copied x))) is)
latest_value-any m mp (c ∷ cs) entry chain blob whole =
    latest_value-last m mp c cs entry chain blob whole

-- A list at which a write of the copy works still does so when the copy was made.
Ready-later :
    (m : Machine) (b : Blob) (tp : Ptr) {t : Transaction} (cs : List Cell)
    → Ready m tp m.fresh t cs
    → Ready (with_blob m b) tp m.fresh t cs
Ready-later m b tp _ (no_version ne) = no_version (omega arith)
Ready-later m b tp _ (behind_committed c cs s) = behind_committed c cs s
Ready-later m b tp _ (behind_earlier c cs s later alone) = behind_earlier c cs s later alone
Ready-later m b tp _ (behind_aborted c cs s) = behind_aborted c cs s
Ready-later m b tp _ (behind_later c cs s less) = behind_later c cs s less
Ready-later m b tp _ (its_own c b' own pending counted small blob below other) =
    its_own c b' own pending counted small
      (at-write_ne m.blobs m.fresh c.body.blob _ (omega arith) ∙ blob) (omega arith) other

module _ (m : Machine) (tp key : Ptr) {mp : Ptr} {m1 : Machine}
    (found : find_map_entry key m ≡ ok mp m1) (clean : garbage_collect mp m1 ≡ ok tt m1) (b : Blob)
    (latest : latest_value mp m1 ≡ ok m1.fresh (with_blob m1 (copied b))) where
  store_get-added :
      store_get tp key m
      ≡ and_then (add_version mp tp m1.fresh (with_blob m1 (copied b))) (λ p. read_at tp p)
  unfolding store_get and_then
  store_get-added = rw (found, clean, latest) refl

  store_get-Implements :
      (t : Transaction) (cs : List Cell) (r : Option (List Access))
      → Implements (with_blob m1 (copied b)) mp tp m1.fresh t cs r
      → m1.fresh ≢ null
      → GetImplements m m1 mp tp key m1.fresh t b cs r
  store_get-Implements t [] none done ne = absurd done
  store_get-Implements t (c ∷ cs) none done ne =
      store_get-added
      ∙ rw done (
          and_then-const (trans_abort tp (with_blob m1 (copied b))) (last_cell c cs).addr
            (λ p. read_at tp p))
  store_get-Implements t cs (some h) done ne = record {
    after = done.after;
    returned =
        store_get-steps m tp key found clean latest done.returned done.version done.caller_after
        ∙ ap (λ s. ok (s, m1.fresh) done.after) done.status;
    copy = done.value_after ∙ at-write_self m1.blobs m1.fresh _ ne;
    list = done.list;
  }

-- If the key is found or entered in its bucket, its version list is well formed, without an aborted
-- version and with at most one committed, and `Ready` for the caller, the blob of the last version,
-- where there is one, has a buffer of its size, and addresses are not 0, then `store_get` makes a
-- copy of that blob, of NULL where there is no version, and does what the history of the key says of
-- an access with it: where it is admitted, the list then stands for the history with it, and the
-- status of the caller and the copy are returned; where it is not, the caller is aborted, and then
-- its status and the last version are read.
pub store_get-refines :
    (m : Machine) (tp key i : Ptr) {ys : List ℕ} {ss : List Slot} (found : Found m i key ys ss)
    {e : MapEntry} {t : Transaction} {b : Blob} (cs : List Cell)
    → Standing found.machine found.entry tp found.machine.fresh e t cs
    → latest_blob found.machine cs ≡ some b
    → IsWhole b
    → found.machine.fresh ≢ null
    → GetImplements m found.machine found.entry tp key found.machine.fresh t b cs
        (admit (access_by tp found.machine.fresh t) (history cs))
store_get-refines m tp key i found {e} {t} {b} cs st latest whole ne =
    let m1 : Machine = found.machine in
    let mp : Ptr = found.entry in
    store_get-Implements m tp key found.returned
      (collect-clean m1 mp cs st.entry st.chain st.live st.few) b
      (latest_value-any m1 mp cs st.entry st.chain latest whole) t cs
      (admit (access_by tp m1.fresh t) (history cs))
      (add_version-refines (with_blob m1 (copied b)) mp tp m1.fresh cs st.entry st.caller
        (IsChain-later m1 (copied b) 0 e.versions cs st.chain)
        (Ready-later m1 (copied b) tp cs st.ready))
      ne
