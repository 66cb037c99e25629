-- ===== src/Machine.antt =====
-- The structures of include/data.h, include/transaction.h and include/store.h on an explicit
-- heap, and the commands that read and write them. A pointer is a number and `null` is 0; each
-- structure type has its own heap, and `malloc` returns the next address that was never used, so
-- an access through a pointer to freed memory is a fault, as is one through `null`.
pub mod Points
use concurrent_server.Common.{
  ℕ, suc, ◌≡◌, refl, fun_ext, ◌≢◌, inl, inr, Option, none, some, List, arith, ◌==◌, if◌then◌else◌,
  Bool-cases,
}

abbrev pub Ptr : Type 0
Ptr = ℕ

abbrev pub null : Ptr
null = 0

-- `&trans_list`, the sentinel of the list of transactions.
abbrev pub trans_list : Ptr
trans_list = 1

pub data TransStatus : Type 0 where
  trans_pending trans_committed trans_aborted : TransStatus

pub record Dependency : Type 0 where
  pub trans : Ptr
  pub next : Ptr

pub record Transaction : Type 0 where
  pub id : ℕ
  pub refcnt : ℕ
  pub status : TransStatus
  pub depends : Ptr
  pub waitcnt : ℕ
  pub sem : ℕ
  pub next : Ptr
  pub prev : Ptr

-- `content` is `none` for the NULL content; else the bytes of the buffer that the blob owns.
pub record Blob : Type 0 where
  pub refcnt : ℕ
  pub size : ℕ
  pub content : Option (List ℕ)
  pub prefix : Option (List ℕ)

pub record Key : Type 0 where
  pub hash : ℕ
  pub blob : Ptr

pub record Version : Type 0 where
  pub creator : Ptr
  pub blob : Ptr
  pub next : Ptr
  pub prev : Ptr

pub record MapEntry : Type 0 where
  pub key : Ptr
  pub versions : Ptr
  pub next : Ptr

-- A heap of one structure type; `none` is memory that is not allocated.
abbrev pub Heap : Type 0 → Type 0
Heap A = Ptr → Option A

-- `table` is the array of buckets of `the_map`, and `[]` before `store_init` and after
-- `store_fini`. `fresh` is the next address that `malloc` returns.
pub record Machine : Type 0 where
  pub transactions : Heap Transaction
  pub dependencies : Heap Dependency
  pub blobs : Heap Blob
  pub keys : Heap Key
  pub versions : Heap Version
  pub entries : Heap MapEntry
  pub table : List Ptr
  pub fresh : ℕ

-- What the cell at a pointer holds. Nothing is at `null`.
unfoldable pub at : {A : Type 0} → Heap A → Ptr → Option A
at h p = if p == null then none else h p

unfoldable pub write : {A : Type 0} → Heap A → Ptr → Option A → Heap A
write h p c q = if q == p then c else h q

-- The outcome of a command: `fault` is undefined behaviour in C, `blocked` a wait on a semaphore
-- that is 0, `out_of_fuel` a loop that has used up its rounds.
pub data Run (A : Type 0) : Type 0 where
  ok : A → Machine → Run A
  fault : Run A
  blocked : Run A
  out_of_fuel : Run A

abbrev pub Cmd : Type 0 → Type 0
Cmd A = Machine → Run A

abbrev pub pure : {A : Type 0} → A → Cmd A
pure = ok

module _ {A B : Type 0} where
  -- Shut, so that a lemma on `and_then r k` finds `r` and `k` in a goal.
  unfoldable pub and_then : Run A → (A → Cmd B) → Run B
  and_then (ok a m) k = k a m
  and_then fault k = fault
  and_then blocked k = blocked
  and_then out_of_fuel k = out_of_fuel

  infixl 5 ◌>>=◌ ◌>>◌
  abbrev pub ◌>>=◌ : Cmd A → (A → Cmd B) → Cmd B
  c >>= k = λ m. and_then (c m) k

  abbrev pub ◌>>◌ : Cmd A → Cmd B → Cmd B
  c >> d = c >>= λ _. d

abbrev pub from_cell : {A : Type 0} → Option A → Cmd A
from_cell none m = fault
from_cell (some a) m = ok a m

abbrev pub if_cell : {A : Type 0} → Option A → Machine → Run (Unit {0})
if_cell none m = fault
if_cell (some a) m = ok tt m

-- Reads through a pointer.
unfoldable pub load_transaction : Ptr → Cmd Transaction
load_transaction p m = from_cell (at m.transactions p) m

unfoldable pub load_dependency : Ptr → Cmd Dependency
load_dependency p m = from_cell (at m.dependencies p) m

unfoldable pub load_blob : Ptr → Cmd Blob
load_blob p m = from_cell (at m.blobs p) m

unfoldable pub load_key : Ptr → Cmd Key
load_key p m = from_cell (at m.keys p) m

unfoldable pub load_version : Ptr → Cmd Version
load_version p m = from_cell (at m.versions p) m

unfoldable pub load_entry : Ptr → Cmd MapEntry
load_entry p m = from_cell (at m.entries p) m

-- Writes through a pointer: `some v` assigns, `none` frees.
unfoldable pub put_transaction : Ptr → Option Transaction → Cmd (Unit {0})
put_transaction p c m =
    if_cell (at m.transactions p) (record m { transactions = write m.transactions p c })

unfoldable pub put_dependency : Ptr → Option Dependency → Cmd (Unit {0})
put_dependency p c m =
    if_cell (at m.dependencies p) (record m { dependencies = write m.dependencies p c })

unfoldable pub put_blob : Ptr → Option Blob → Cmd (Unit {0})
put_blob p c m = if_cell (at m.blobs p) (record m { blobs = write m.blobs p c })

unfoldable pub put_key : Ptr → Option Key → Cmd (Unit {0})
put_key p c m = if_cell (at m.keys p) (record m { keys = write m.keys p c })

unfoldable pub put_version : Ptr → Option Version → Cmd (Unit {0})
put_version p c m = if_cell (at m.versions p) (record m { versions = write m.versions p c })

unfoldable pub put_entry : Ptr → Option MapEntry → Cmd (Unit {0})
put_entry p c m = if_cell (at m.entries p) (record m { entries = write m.entries p c })

-- `malloc` of one structure, with its fields filled in.
unfoldable pub new_transaction : Transaction → Cmd Ptr
new_transaction v m =
    ok m.fresh
      (record m { transactions = write m.transactions m.fresh (some v); fresh = suc m.fresh })

unfoldable pub new_dependency : Dependency → Cmd Ptr
new_dependency v m =
    ok m.fresh
      (record m { dependencies = write m.dependencies m.fresh (some v); fresh = suc m.fresh })

unfoldable pub new_blob : Blob → Cmd Ptr
new_blob v m = ok m.fresh (record m { blobs = write m.blobs m.fresh (some v); fresh = suc m.fresh })

unfoldable pub new_key : Key → Cmd Ptr
new_key v m = ok m.fresh (record m { keys = write m.keys m.fresh (some v); fresh = suc m.fresh })

unfoldable pub new_version : Version → Cmd Ptr
new_version v m =
    ok m.fresh (record m { versions = write m.versions m.fresh (some v); fresh = suc m.fresh })

unfoldable pub new_entry : MapEntry → Cmd Ptr
new_entry v m =
    ok m.fresh (record m { entries = write m.entries m.fresh (some v); fresh = suc m.fresh })

module _ {A : Type 0} (h : Heap A) where
  pub at-ne-null : (p : Ptr) {v : A} → at h p ≡ some v → p ≢ null
  unfolding at
  at-ne-null p e = ground arith

  pub at-write_self : (p : Ptr) (c : Option A) → p ≢ null → at (write h p c) p ≡ c
  unfolding at write
  at-write_self p c ne = ground arith

  pub at-write_free : (p : Ptr) → at (write h p none) p ≡ none
  unfolding at write
  at-write_free p = ground arith

  pub at-write_ne : (p q : Ptr) (c : Option A) → q ≢ p → at (write h p c) q ≡ at h q
  unfolding at write
  at-write_ne p q c ne = ground arith

  pub write-twice : (p : Ptr) (c d : Option A) → write (write h p c) p d ≡ write h p d
  unfolding write
  write-twice p c d =
      fun_ext λ q. elim (Bool-cases (q == p)) [ inl e ↦ rw e refl | inr ne ↦ rw ne refl ]
