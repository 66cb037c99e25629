-- ===== src/Versions/Append.antt =====
-- A version is appended to a list whose last version is committed.
use concurrent_server.Common.{
  suc, ◌<◌, ◌≡◌, refl, ◌≢◌, some, List, [], ◌∷◌, arith, ◌==◌, if◌then◌else◌, inc32, ==_ne, ◌∙◌, ap,
}
use concurrent_server.Machine.{
  Ptr, null, trans_committed, Transaction, Version, MapEntry, Machine, at, write, at-ne-null,
  at-write_self, at-write_ne, ok, and_then, new_version,
}
use concurrent_server.Machine.Points.{
  load_transaction-ok, load_version-ok, put_transaction-ok, put_version-ok,
}
use concurrent_server.Transaction.{trans_ref}
use concurrent_server.Data.{version_create}
use concurrent_server.Versions.{append_version, add_version}
use concurrent_server.Versions.Chain.{Cell, IsChain}
use concurrent_server.Versions.Last.{
  last_cell, last_cell-gt, IsLast, last_cell-IsLast, add_version-committed,
}

-- One more reference to a transaction.
abbrev pub referenced : Transaction → Transaction
referenced t = record t { refcnt = inc32 t.refcnt }

abbrev pub new_body : (tp value : Ptr) → Version
new_body tp value = record { creator = tp; blob = value; next = null; prev = null }

-- The machine after the `malloc` of `version_create`, and after its end.
abbrev allocated : Machine → (tp value : Ptr) → Machine
allocated m tp value = record m {
  versions = write m.versions m.fresh (some (new_body tp value));
  fresh = suc m.fresh;
}

abbrev pub created : Machine → (tp value : Ptr) → Transaction → Machine
created m tp value t = record m {
  versions = write m.versions m.fresh (some (new_body tp value));
  transactions = write m.transactions tp (some (referenced t));
  fresh = suc m.fresh;
}

pub version_create-ok :
    (m : Machine) (tp value : Ptr) {t : Transaction}
    → at m.transactions tp ≡ some t
    → version_create tp value m ≡ ok m.fresh (created m tp value t)
unfolding version_create new_version trans_ref and_then
version_create-ok m tp value {t} caller =
    let m1 : Machine = allocated m tp value in
    rw (
      ==_ne _ _ (at-ne-null m.transactions tp caller),
      load_transaction-ok m1 tp caller,
      load_transaction-ok m1 tp caller,
      put_transaction-ok m1 tp (some (referenced t)) caller,
    )

-- The new version is linked behind the last one.
abbrev pub appended : Machine → (tp value : Ptr) → Transaction → Cell → Machine
appended m tp value t c = record (created m tp value t) {
  versions =
      write (write m.versions m.fresh (some (new_body tp value))) c.addr
        (some (record (c.body) { next = m.fresh }));
}

pub append_version-ok :
    (m : Machine) (tp value : Ptr) {t : Transaction} (c : Cell)
    → at m.transactions tp ≡ some t
    → IsLast m c
    → append_version tp value c.addr m ≡ ok m.fresh (appended m tp value t c)
unfolding append_version and_then
append_version-ok m tp value {t} c caller last =
    let m1 : Machine = created m tp value t in
    let linked : Version = record (c.body) { next = m.fresh } in
    let ne : c.addr ≢ m.fresh = omega (arith, last.below) in
    let held : at m1.versions c.addr ≡ some c.body =
      at-write_ne m.versions m.fresh c.addr (some (new_body tp value)) ne ∙ last.body in
    let again : at (appended m tp value t c).versions c.addr ≡ some linked =
      at-write_self m1.versions c.addr (some linked) (at-ne-null m.versions c.addr last.body) in
    rw (
      version_create-ok m tp value caller,
      load_version-ok m1 c.addr held,
      put_version-ok m1 c.addr (some linked) held,
      load_version-ok (appended m tp value t c) c.addr again,
    )

-- The creator of a cell, of which `t` is the new state of the transaction at `tp`.
abbrev pub touched : (tp : Ptr) → Transaction → Cell → Transaction
touched tp t c = if c.body.creator == tp then t else c.owner

-- The list with a new cell behind its last one.
abbrev pub extend : (tp value q : Ptr) → Transaction → Cell → List Cell → List Cell
extend tp value q t c [] =
    record c { body = record (c.body) { next = q }; owner = touched tp t c }
    ∷ record { addr = q; body = new_body tp value; owner = t }
    ∷ []
extend tp value q t c (d ∷ ds) = record c { owner = touched tp t c } ∷ extend tp value q t d ds

module _ (m : Machine) (tp value : Ptr) {t : Transaction} (caller : at m.transactions tp ≡ some t)
    (last : Cell) (is_last : IsLast m last) where
  abbrev after : Machine
  after = appended m tp value t last

  other_version : (a : Ptr) → a < m.fresh → a ≢ last.addr → at after.versions a ≡ at m.versions a
  other_version a lt ne =
      at-write_ne _ last.addr a _ ne ∙ at-write_ne m.versions m.fresh a _ (omega arith)

  last_version_after : at after.versions last.addr ≡ some (record (last.body) { next = m.fresh })
  last_version_after = at-write_self _ last.addr _ (at-ne-null m.versions last.addr is_last.body)

  pub new_version_after : at after.versions m.fresh ≡ some (new_body tp value)
  new_version_after =
      let lt = is_last.below in
      at-write_ne _ last.addr m.fresh _ (omega arith)
      ∙ at-write_self m.versions m.fresh _ (omega arith)

  transaction_after :
      (a : Ptr)
      → at after.transactions a ≡ (if a == tp then some (referenced t) else at m.transactions a)
  unfolding at write
  transaction_after a = ground (arith, at-ne-null m.transactions tp caller)

  owner_after :
      (c : Cell)
      → at m.transactions c.body.creator ≡ some c.owner
      → at after.transactions c.body.creator ≡ some (touched tp (referenced t) c)
  owner_after c ht = transaction_after c.body.creator ∙ ground arith

  caller_after : at after.transactions tp ≡ some (referenced t)
  caller_after = at-write_self m.transactions tp _ (at-ne-null m.transactions tp caller)

  pub extend-IsChain :
      (lo p : Ptr) (c : Cell) (cs : List Cell)
      → IsChain m lo p (c ∷ cs)
      → last_cell c cs ≡ last
      → IsChain after lo p (extend tp value m.fresh (referenced t) c cs)
  extend-IsChain lo p c [] (at_c, le, lt, hv, ht, e) is = (
    at_c,
    le,
    omega arith,
    rw is last_version_after,
    owner_after c ht,
    (refl, lt, omega arith, new_version_after, caller_after, refl),
  )
  extend-IsChain lo p c (d ∷ ds) (at_c, le, lt, hv, ht, rest) is =
      let before : c.addr < last.addr = omega (
        arith,
        last_cell-gt m lo p c d ds (at_c, le, lt, hv, ht, rest),
        ap (λ x. Cell.addr x) is,
      ) in
      (
        at_c,
        le,
        omega arith,
        other_version c.addr lt (omega arith) ∙ hv,
        owner_after c ht,
        extend-IsChain (suc c.addr) c.body.next d ds rest is,
      )

-- What `add_version` returns when it appends: the new version, and a machine in which it is the
-- last of the list. The map entries and the blobs are as before.
pub record Appended (m : Machine) (mp tp value : Ptr) (t : Transaction) (head : Ptr) (c : Cell)
    (cs : List Cell) (m' : Machine) : Type 0 where
  pub returned : add_version mp tp value m ≡ ok m.fresh m'
  pub chain : IsChain m' 0 head (extend tp value m.fresh (referenced t) c cs)
  pub version : at m'.versions m.fresh ≡ some (new_body tp value)
  pub caller : at m'.transactions tp ≡ some (referenced t)
  pub entries : m'.entries ≡ m.entries
  pub blobs : m'.blobs ≡ m.blobs

-- If the last version of the list is committed, `add_version` returns a new version with the value,
-- created by the caller, which is now the last one of the list; the caller has one more reference,
-- and map entries and blobs are as before.
pub add_version-append :
    (m : Machine) (mp tp value : Ptr) {e : MapEntry} (c : Cell) (cs : List Cell)
    → at m.entries mp ≡ some e
    → IsChain m 0 e.versions (c ∷ cs)
    → {t : Transaction} → at m.transactions tp ≡ some t
    → (last_cell c cs).owner.status ≡ trans_committed
    → (m' : Machine) × Appended m mp tp value t e.versions c cs m'
add_version-append m mp tp value {e} c cs entry chain {t} caller s =
    let last : Cell = last_cell c cs in
    let is_last : IsLast m last = last_cell-IsLast m 0 e.versions c cs chain in
    (
      appended m tp value t last,
      record {
        returned =
            add_version-committed m mp tp value c cs entry chain caller s
            ∙ append_version-ok m tp value last caller is_last;
        chain = extend-IsChain m tp value caller last is_last 0 e.versions c cs chain refl;
        version = new_version_after m tp value caller last is_last;
        caller = at-write_self m.transactions tp _ (at-ne-null m.transactions tp caller);
        entries = refl;
        blobs = refl;
      },
    )
