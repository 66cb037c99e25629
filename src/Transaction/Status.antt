-- ===== src/Transaction/Status.antt =====
-- Reading the status of a transaction.
use concurrent_server.Common.{none, refl, ◌≡◌, some}
use concurrent_server.Machine.{
  fault, load_transaction, and_then, Ptr, Transaction, Machine, at, ok, and_then,
}
use concurrent_server.Machine.Points.{load_transaction-ok}
use concurrent_server.Transaction.{trans_abort, trans_get_status}

pub trans_get_status-ok :
    (m : Machine) (p : Ptr) {t : Transaction}
    → at m.transactions p ≡ some t
    → trans_get_status p m ≡ ok t.status m
unfolding trans_get_status and_then
trans_get_status-ok m p e = rw (load_transaction-ok m p e)

-- The transaction was freed.
pub trans_get_status-freed :
    (m : Machine) (tp : Ptr) → at m.transactions tp ≡ none → trans_get_status tp m ≡ fault
unfolding trans_get_status load_transaction and_then
trans_get_status-freed m tp gone = rw gone refl

pub trans_abort-freed :
    (m : Machine) (tp : Ptr) → at m.transactions tp ≡ none → trans_abort tp m ≡ fault
unfolding trans_abort and_then
trans_abort-freed m tp gone = rw (trans_get_status-freed m tp gone) refl
