-- ===== src/Tests/Commits.antt =====
-- A client at descriptor 4 that sends a COMMIT, with two bytes behind it.
use concurrent_server.Common.{ℕ, true, false, ◌≡◌, refl, none, some, [], ◌∷◌, ◌++◌, arith}
use concurrent_server.Machine.{Transaction, Heap, at}
use concurrent_server.Transaction.{sem_wait}
use concurrent_server.Transaction.Ring.{IsRing}
use concurrent_server.Registry.{
  ClientRegistry, creg_register, creg_unregister, unregister_locked, alert_if_empty, set_fd,
}
use concurrent_server.Protocol.{Packet, image, to_network}
use concurrent_server.Protocol.Complete.{IsPacket}
use concurrent_server.Common.{none}
use concurrent_server.Session.{returned, undefined}
use concurrent_server.Server.Lost.{xacto_client_service-lost}
use concurrent_server.Server.{xacto_client_service}
use concurrent_server.Server.Commit.{serving, commit_packet, xacto_client_service-commit}
use concurrent_server.Tests.Rings.{listed, rings-IsRing, at_head}

abbrev pub no_client : ClientRegistry
no_client = record { client_count = 0; client_fds = λ _. false; wait_sem = 0 }

abbrev pub one_client : ClientRegistry
one_client = record { client_count = 1; client_fds = set_fd (λ _. false) 4 true; wait_sem = 0 }

abbrev again_none : ClientRegistry
again_none = record {
  client_count = 0;
  client_fds = set_fd (set_fd (λ _. false) 4 true) 4 false;
  wait_sem = 1;
}

pub register_4 : creg_register no_client 4 ≡ some one_client
unfolding creg_register
register_4 = refl

unregister_4 : creg_unregister one_client 4 ≡ some again_none
unfolding creg_unregister unregister_locked alert_if_empty
unregister_4 = refl

abbrev clock : ℕ → ℕ × ℕ
clock n = (1700000000, n)

abbrev request : Packet
request = record {
  type = 4;
  status = 0;
  null = 0;
  pad = 0;
  size = 0;
  timestamp_sec = 7;
  timestamp_nsec = 8;
}

request-IsPacket : IsPacket request
request-IsPacket = record {
  size = omega arith;
  timestamp_sec = omega arith;
  timestamp_nsec = omega arith;
}

abbrev answer : Packet
answer = to_network (commit_packet clock sem_wait 3)

xacto_client_service-commit_example :
    (h : Heap Transaction) × (xacto_client_service clock sem_wait 4 (
        serving listed no_client
          (image (to_network request) ++ 1 ∷ 2 ∷ [])
          (some 16 ∷ [])
          []
          (some 16 ∷ [])
          request
          3)
      ≡ returned tt (
          serving
            (record listed { transactions = h; fresh = 31 })
            again_none
            (1 ∷ 2 ∷ [])
            []
            (image answer)
            []
            answer
            4))
    × IsRing h (2 ∷ 3 ∷ [])
    × (at h 30 ≡ none)
xacto_client_service-commit_example =
    xacto_client_service-commit clock sem_wait listed (2 ∷ 3 ∷ []) no_client one_client again_none 4
      request request (1 ∷ 2 ∷ []) 16 16 [] [] [] 3 rings-IsRing at_head refl (omega arith)
      register_4 unregister_4 request-IsPacket refl refl (omega arith) (omega arith)

xacto_client_service-lost_example :
    xacto_client_service clock sem_wait 4 (
      serving listed no_client
        (image (to_network request) ++ 1 ∷ 2 ∷ [])
        (some 16 ∷ [])
        []
        (none ∷ [])
        request
        3)
    ≡ undefined
xacto_client_service-lost_example =
    xacto_client_service-lost clock sem_wait listed (2 ∷ 3 ∷ []) no_client one_client 4 request
      request (1 ∷ 2 ∷ []) 16 [] [] [] 3 rings-IsRing at_head refl (omega arith) register_4
      request-IsPacket refl refl (omega arith)
