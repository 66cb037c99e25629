-- ===== src/Tests/Keys.antt =====
-- A client that sends the key "A" as one byte, and one that sends only its header.
use concurrent_server.Common.{ℕ, ◌≡◌, refl, some, [], ◌∷◌, ◌++◌, arith}
use concurrent_server.Transaction.{sem_wait}
use concurrent_server.Registry.{creg_init}
use concurrent_server.Protocol.{Packet, image, to_network}
use concurrent_server.Protocol.Complete.{IsPacket}
use concurrent_server.Session.{undefined}
use concurrent_server.Server.{handle_put, handle_get}
use concurrent_server.Server.Commit.{serving}
use concurrent_server.Common.{none}
use concurrent_server.Server.{xacto_client_service}
use concurrent_server.Server.Broken.{xacto_client_service-broken}
use concurrent_server.Server.Key.{handle-unterminated}
use concurrent_server.Tests.Commits.{no_client, one_client, register_4}
use concurrent_server.Tests.Rings.{listed, rings-IsRing, at_head}

abbrev clock : ℕ → ℕ × ℕ
clock n = (1700000000, n)

abbrev key_packet : Packet
key_packet = record {
  type = 3;
  status = 0;
  null = 0;
  pad = 0;
  size = 1;
  timestamp_sec = 7;
  timestamp_nsec = 8;
}

key_packet-IsPacket : IsPacket key_packet
key_packet-IsPacket = record {
  size = omega arith;
  timestamp_sec = omega arith;
  timestamp_nsec = omega arith;
}

handle-unterminated_example :
    (handle_put clock sem_wait 2 (
        serving listed creg_init
          (image (to_network key_packet) ++ (65 ∷ [] ++ []))
          (some 16 ∷ some 1 ∷ [])
          []
          []
          key_packet
          3)
      ≡ undefined)
    × (handle_get clock sem_wait 2 (
          serving listed creg_init
            (image (to_network key_packet) ++ (65 ∷ [] ++ []))
            (some 16 ∷ some 1 ∷ [])
            []
            []
            key_packet
            3)
        ≡ undefined)
handle-unterminated_example =
    handle-unterminated clock sem_wait listed creg_init key_packet key_packet (65 ∷ []) [] 16 1 []
      [] [] 3 2 key_packet-IsPacket refl (omega arith) (omega arith) (omega arith) (omega arith)
      (omega arith) refl

abbrev put_packet : Packet
put_packet = record key_packet { type = 1; size = 0 }

put_packet-IsPacket : IsPacket put_packet
put_packet-IsPacket = record {
  size = omega arith;
  timestamp_sec = omega arith;
  timestamp_nsec = omega arith;
}

xacto_client_service-broken_example :
    xacto_client_service clock sem_wait 4 (
      serving listed no_client
        (image (to_network put_packet) ++ (image (to_network key_packet) ++ []))
        (some 16 ∷ some 16 ∷ none ∷ [])
        []
        (some 16 ∷ [])
        key_packet
        3)
    ≡ undefined
xacto_client_service-broken_example =
    xacto_client_service-broken clock sem_wait listed (2 ∷ 3 ∷ []) no_client one_client 4 put_packet
      key_packet key_packet [] 16 16 16 [] [] [] 3 rings-IsRing at_head refl (omega arith)
      register_4 put_packet-IsPacket key_packet-IsPacket refl refl (omega arith) (omega arith)
      (omega arith) (omega arith) (omega arith)
