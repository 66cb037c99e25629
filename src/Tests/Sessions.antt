-- ===== src/Tests/Sessions.antt =====
-- A session whose client is at descriptor 4.
use concurrent_server.Common.{ℕ, false, ◌≡◌, refl, some, [], ◌∷◌, arith, ◌==◌}
use concurrent_server.Machine.{trans_pending, Machine}
use concurrent_server.Transaction.{sem_wait}
use concurrent_server.Transaction.Dependents.{with_heap}
use concurrent_server.Transaction.Abort.{aborted_heap}
use concurrent_server.Registry.{
  ClientRegistry, creg_unregister, unregister_locked, alert_if_empty, set_fd,
}
use concurrent_server.Protocol.{Packet, image, to_network}
use concurrent_server.Session.{returned, and_serve}
use concurrent_server.Server.{service_loop, end_service}
use concurrent_server.Server.Closed.{closed, abort_packet, service_loop-end_service}
use concurrent_server.Tests.Transactions.{
  world, dependents, waiting_transaction, at_2, at_3, world-IsDepends, dependents-Alive,
}

abbrev one_client : ClientRegistry
one_client = record { client_count = 1; client_fds = λ i. i == 4; wait_sem = 0 }

abbrev no_client : ClientRegistry
no_client = record { client_count = 0; client_fds = set_fd (λ i. i == 4) 4 false; wait_sem = 1 }

unregister_4 : creg_unregister one_client 4 ≡ some no_client
unfolding creg_unregister unregister_locked alert_if_empty
unregister_4 = refl

abbrev clock : ℕ → ℕ × ℕ
clock n = (1700000000, n)

abbrev old_packet : Packet
old_packet = record {
  type = 5;
  status = 0;
  null = 0;
  pad = 0;
  size = 0;
  timestamp_sec = 7;
  timestamp_nsec = 8;
}

abbrev store : Machine
store = world 0 trans_pending

abbrev reply_packet : Packet
reply_packet = to_network (abort_packet clock sem_wait 3)

service_loop-end_service_example :
    and_serve
      (service_loop clock sem_wait 9 2 trans_pending
        (closed store one_client (some 16 ∷ some 16 ∷ []) [] (some 16 ∷ []) old_packet 3))
      (end_service clock sem_wait 4)
    ≡ returned tt (
        closed
          (with_heap store
            (aborted_heap store.transactions 2 (waiting_transaction 0 trans_pending) dependents))
          no_client
          []
          (image reply_packet)
          []
          reply_packet
          4)
service_loop-end_service_example =
    service_loop-end_service clock sem_wait store one_client no_client [] [] old_packet 3 8
      (some 16) (some 16) 16 [] 2 dependents 4 (at_2 0 trans_pending) (omega arith, omega arith)
      (world-IsDepends 0 trans_pending) (dependents-Alive _ (at_3 0 trans_pending)) (omega arith)
      unregister_4
