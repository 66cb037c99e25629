-- ===== src/Versions/Overwrite.antt =====
-- A transaction that accesses a key again overwrites its version: on a longer list the version is
-- freed and then read.
use concurrent_server.Common.{
  zero, suc, ◌<◌, ◌^◌, ◌+◌, ◌≡◌, refl, ◌≢◌, true, false, ◌||◌, Bool, some, List, [], ◌∷◌, ◌∙◌,
  arith, ◌==◌, Bool-cases, ==_ne, ==_refl, sym, length, inl, inr, ap,
}
use concurrent_server.Machine.{
  Ptr, null, trans_pending, Transaction, Version, Blob, MapEntry, Machine, at, write, at-ne-null,
  at-write_self, at-write_ne, ok, fault, and_then,
}
use concurrent_server.Machine.Points.{load_entry-ok, load_version-ok, put_version-ok}
use concurrent_server.Transaction.Abort.{IsShared}
use concurrent_server.Data.Freed.{version_dispose-ok, load_version-disposed}
use concurrent_server.Versions.{reach_version, remove_version_from_ll, overwrite, add_version}
use concurrent_server.Versions.Chain.{Cell, IsChain, length-IsChain}
use concurrent_server.Versions.Last.{
  last_cell, last_cell-gt, last_cell-IsLast, IsLast, add_version-own,
}
use concurrent_server.Versions.Kept.{held_once}
use concurrent_server.Versions.Append.{referenced, created, version_create-ok}

-- A cell of the list stands at an address.
abbrev pub stands_at : Ptr → List Cell → Bool
stands_at p [] = false
stands_at p (c ∷ cs) = (c.addr == p) || stands_at p cs

pub reach_version-ok :
    (m : Machine) (k lo vp p : Ptr) (cs : List Cell)
    → IsChain m lo p cs
    → stands_at vp cs ≡ true
    → length cs < k
    → reach_version k vp p m ≡ ok vp m
unfolding reach_version and_then
reach_version-ok m zero lo vp p cs ch is fuel = absurd (omega arith)
reach_version-ok m (suc k) lo vp p [] ch is fuel = cc
reach_version-ok m (suc k) lo vp p (c ∷ cs) (at_c, _, _, hv, _, rest) is fuel =
    elim (Bool-cases (c.addr == vp)) [
      | inl here ↦ let same : c.addr ≡ vp = ground arith in rw (at_c, same, ==_refl vp) refl
      | inr on ↦
          rw (at_c, on, load_version-ok m c.addr hv)
            (reach_version-ok m k (suc c.addr) vp c.body.next cs rest (ground arith) (omega arith))
    ]

-- The machine once a version is out of its list: it is not, since `remove_version_from_LL` takes it
-- for the one before itself, but it has no next one any more.
abbrev pub cut_off : Machine → Ptr → Version → Machine
cut_off m vp v = record m {
  versions = write (write m.versions vp (some v)) vp (some (record v { next = null }));
}

pub remove_version_from_ll-ok :
    (m : Machine) (vp head : Ptr) {v : Version} (cs : List Cell)
    → IsChain m 0 head cs
    → stands_at vp cs ≡ true
    → at m.versions vp ≡ some v
    → remove_version_from_ll vp head m ≡ ok vp (cut_off m vp v)
unfolding remove_version_from_ll and_then
remove_version_from_ll-ok m vp head {v} cs chain is held =
    let fuel : length cs < suc m.fresh =
      omega (arith, length-IsChain m 0 head cs (omega arith) chain) in
    let m1 : Machine = record m { versions = write m.versions vp (some v) } in
    let again : at m1.versions vp ≡ some v =
      at-write_self m.versions vp (some v) (at-ne-null m.versions vp held) in
    rw
      (
        reach_version-ok m (suc m.fresh) 0 vp head cs chain is fuel,
        load_version-ok m vp held,
        load_version-ok m vp held,
        put_version-ok m vp (some v) held,
        load_version-ok m1 vp again,
        put_version-ok m1 vp (some (record v { next = null })) again,
      )
      refl

pub at-cut_off :
    (m : Machine) (vp : Ptr) {v : Version}
    → at m.versions vp ≡ some v
    → at (cut_off m vp v).versions vp ≡ some (record v { next = null })
at-cut_off m vp {v} held =
    at-write_self (write m.versions vp (some v)) vp _ (at-ne-null m.versions vp held)

stands_at-last : (c : Cell) (cs : List Cell) → stands_at (last_cell c cs).addr (c ∷ cs) ≡ true
stands_at-last c [] = rw (==_refl c.addr) refl
stands_at-last c (d ∷ ds) = ground (arith, stands_at-last d ds)

module _ (m : Machine) (mp tp value : Ptr) {e : MapEntry} (cs : List Cell)
    (entry : at m.entries mp ≡ some e) (chain : IsChain m 0 e.versions cs) (last : Cell)
    (is_last : IsLast m last) (is : stands_at last.addr cs ≡ true) (later : e.versions ≢ last.addr)
    {t : Transaction} {b : Blob} (caller : at m.transactions tp ≡ some t)
    (own : last.body.creator ≡ tp) (counted : 0 < t.refcnt) (small : t.refcnt + 1 < 2 ^ 32)
    (blob : at m.blobs last.body.blob ≡ some b) where
  overwrite-fault : overwrite mp tp value last.addr m ≡ fault
  unfolding overwrite and_then
  overwrite-fault =
      let v : Version = record (last.body) { next = null } in
      let m1 : Machine = cut_off m last.addr last.body in
      let m2 : Machine = created m1 tp value t in
      let w : Version = record v { next = m.fresh } in
      let m3 : Machine = record m2 { versions = write m2.versions last.addr (some w) } in
      let ne : last.addr ≢ m.fresh = omega (arith, is_last.below) in
      let at_2 : at m2.versions last.addr ≡ some v =
        at-write_ne m1.versions m.fresh last.addr _ ne ∙ at-cut_off m last.addr is_last.body in
      let at_3 : at m3.versions last.addr ≡ some w =
        at-write_self m2.versions last.addr _ (at-ne-null m2.versions last.addr at_2) in
      let creator : at m3.transactions last.body.creator ≡ some (referenced t) =
        rw own (at-write_self m.transactions tp _ (at-ne-null m.transactions tp caller)) in
      let shared : IsShared (referenced t) =
        (omega (arith, counted, small), omega (arith, counted, small)) in
      rw
        (
          load_entry-ok m mp entry,
          remove_version_from_ll-ok m last.addr e.versions cs chain is is_last.body,
          load_entry-ok m1 mp entry,
          ==_ne last.addr e.versions (λ x. later (sym x)),
          version_create-ok m1 tp value caller,
          load_version-ok m2 last.addr at_2,
          put_version-ok m2 last.addr (some w) at_2,
          version_dispose-ok m3 last.addr at_3 creator shared blob,
          load_version-disposed m3 last.addr w (referenced t) b,
        )
        refl

-- If the list of an entry has several versions, of which the caller, still pending, created the
-- last one, with its blob allocated, and the references to the caller are counted without a wrap,
-- then `add_version` is undefined behaviour.
pub add_version-own_later :
    (m : Machine) (mp tp value : Ptr) {e : MapEntry} (c d : Cell) (ds : List Cell)
    → at m.entries mp ≡ some e
    → IsChain m 0 e.versions (c ∷ d ∷ ds)
    → {t : Transaction} {b : Blob} → at m.transactions tp ≡ some t
    → (last_cell d ds).body.creator ≡ tp
    → t.status ≡ trans_pending
    → 0 < t.refcnt
    → t.refcnt + 1 < 2 ^ 32
    → at m.blobs (last_cell d ds).body.blob ≡ some b
    → add_version mp tp value m ≡ fault
add_version-own_later m mp tp value {e} c d ds entry chain {t} {b} caller own pending counted small
      blob =
    let last : Cell = last_cell d ds in
    let is_last : IsLast m last = last_cell-IsLast m 0 e.versions c (d ∷ ds) chain in
    let same : last.owner ≡ t =
      held_once m.transactions last.body.creator tp is_last.owner caller own in
    let later : e.versions ≢ last.addr =
      omega (arith, last_cell-gt m 0 e.versions c d ds chain, chain.0) in
    add_version-own m mp tp value c (d ∷ ds) entry chain caller
      (ap (λ x. Transaction.status x) same ∙ pending) (ap (λ x. Transaction.id x) same)
    ∙ overwrite-fault m mp tp value (c ∷ d ∷ ds) entry chain last is_last
        (stands_at-last c (d ∷ ds)) later caller own counted small blob
