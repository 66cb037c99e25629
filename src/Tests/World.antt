-- ===== src/Tests/World.antt =====
-- Concrete machines.
use concurrent_server.Common.{ℕ, ◌≡◌, refl, none, some, List, [], ◌∷◌, arith}
use concurrent_server.Machine.{
  Blob, Ptr, null, TransStatus, Transaction, Version, Heap, Machine, at, write,
}
use concurrent_server.Versions.Chain.{Cell, IsChain}

abbrev pub empty : {A : Type 0} → Heap A
empty = λ _. none

abbrev pub transaction : (id refcnt : ℕ) → TransStatus → Transaction
transaction i n s = record {
  id = i;
  refcnt = n;
  status = s;
  depends = null;
  waitcnt = 0;
  sem = 0;
  next = null;
  prev = null;
}

abbrev pub version : (creator blob next : Ptr) → Version
version c b n = record { creator = c; blob = b; next = n; prev = null }

-- A map entry at 5 with a version at 10 of the transaction at 2, and one at 11 of that at 3.
abbrev pub two_versions : (s t : TransStatus) → Machine
two_versions s t = record {
  transactions = write (write empty 2 (some (transaction 0 2 s))) 3 (some (transaction 1 2 t));
  dependencies = empty;
  blobs = empty;
  keys = empty;
  versions = write (write empty 10 (some (version 2 20 11))) 11 (some (version 3 21 null));
  entries = write empty 5 (some (record { key = 6; versions = 10; next = null }));
  table = [];
  fresh = 30;
}

abbrev pub first_cell : TransStatus → Cell
first_cell s = record { addr = 10; body = version 2 20 11; owner = transaction 0 2 s }

abbrev pub second_cell : TransStatus → Cell
second_cell t = record { addr = 11; body = version 3 21 null; owner = transaction 1 2 t }

abbrev pub two_cells : (s t : TransStatus) → List Cell
two_cells s t = first_cell s ∷ second_cell t ∷ []

pub two_versions-IsChain : (s t : TransStatus) → IsChain (two_versions s t) 0 10 (two_cells s t)
unfolding at write
two_versions-IsChain s t =
    (refl, omega arith, omega arith, refl, refl, (refl, omega arith, omega arith, refl, refl, refl))

pub two_versions-entry :
    (s t : TransStatus)
    → at (two_versions s t).entries 5 ≡ some (record { key = 6; versions = 10; next = null })
unfolding at write
two_versions-entry s t = refl

-- The transactions at 2 and 3 are the creators of the versions.
pub creator_at_2 :
    (s t : TransStatus) → at (two_versions s t).transactions 2 ≡ some (transaction 0 2 s)
unfolding at write
creator_at_2 s t = refl

pub creator_at_3 :
    (s t : TransStatus) → at (two_versions s t).transactions 3 ≡ some (transaction 1 2 t)
unfolding at write
creator_at_3 s t = refl

abbrev pub value : Blob
value = record { refcnt = 1; size = 1; content = some (66 ∷ []); prefix = some (66 ∷ []) }
