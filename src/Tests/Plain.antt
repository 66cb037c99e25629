-- ===== src/Tests/Plain.antt =====
-- Texts, blobs, packets and the registry.
use concurrent_server.Common.{
  ℕ, ◌==◌, ◌≡◌, refl, ◌↔◌, true, false, some, List, [], ◌∷◌, ◌++◌, arith,
}
use concurrent_server.Machine.{trans_pending, trans_committed, Blob, Machine, at, write, ok}
use concurrent_server.Text.{hash}
use concurrent_server.Text.Hash.{hash-sum}
use concurrent_server.Data.{blob_compare}
use concurrent_server.Data.Compare.{blob_compare-true_iff}
use concurrent_server.Protocol.{
  Packet, image, to_network, done, write_loop, received, null_datap, proto_recv_packet,
}
use concurrent_server.Protocol.Complete.{proto_recv_packet-payload, proto_recv_packet-null_datap}
use concurrent_server.Protocol.Short.{write_loop-stutter}
use concurrent_server.Registry.{ClientRegistry}
use concurrent_server.Tests.World.{two_versions, empty}

hash-sum_example : hash (107 ∷ 49 ∷ 0 ∷ 255 ∷ []) ≡ some 1
hash-sum_example = hash-sum (107 ∷ 49 ∷ []) (255 ∷ []) refl

abbrev blob : Blob
blob = record { refcnt = 1; size = 2; content = some (7 ∷ 8 ∷ []); prefix = some (7 ∷ 8 ∷ []) }

abbrev two_blobs : Machine
two_blobs = record (two_versions trans_committed trans_pending) {
  blobs = write (write empty 20 (some blob)) 21 (some blob);
}

blob_compare-true_iff_example :
    (blob_compare 20 21 two_blobs ≡ ok true two_blobs)
    ↔ (◌≡◌ {A = List ℕ} (7 ∷ 8 ∷ []) (7 ∷ 8 ∷ []))
unfolding at write
blob_compare-true_iff_example =
    blob_compare-true_iff two_blobs 20 21 (7 ∷ 8 ∷ []) (7 ∷ 8 ∷ [])
      (record { blob = blob; held = refl; content = refl; size = refl })
      (record { blob = blob; held = refl; content = refl; size = refl })

abbrev packet : Packet
packet = record {
  type = 3;
  status = 0;
  null = 0;
  pad = 0;
  size = 2;
  timestamp_sec = 1000;
  timestamp_nsec = 5;
}

proto_recv_packet-payload_example :
    proto_recv_packet packet true
      (image (to_network packet) ++ (65 ∷ 66 ∷ 9 ∷ []))
      (some 16 ∷ some 2 ∷ [])
    ≡ received packet (some (65 ∷ 66 ∷ 0 ∷ [])) (9 ∷ []) []
proto_recv_packet-payload_example =
    proto_recv_packet-payload packet (omega arith) packet (65 ∷ 66 ∷ []) (9 ∷ []) 16 2 [] refl
      (omega arith) (omega arith) (omega arith) (omega arith)

proto_recv_packet-null_datap_example :
    proto_recv_packet packet false (image (to_network packet) ++ (65 ∷ 66 ∷ [])) (some 16 ∷ [])
    ≡ null_datap
proto_recv_packet-null_datap_example =
    proto_recv_packet-null_datap packet (omega arith) packet (65 ∷ 66 ∷ []) 16 [] (omega arith)
      (omega arith)

write_loop-stutter_example :
    write_loop (1 ∷ 2 ∷ 3 ∷ []) 3 [] (some 2 ∷ some 1 ∷ []) ≡ done (1 ∷ 2 ∷ 1 ∷ []) []
write_loop-stutter_example = write_loop-stutter (1 ∷ 2 ∷ 3 ∷ []) 3 (2 ∷ 1 ∷ []) (omega arith) refl

abbrev one_client : ClientRegistry
one_client = record { client_count = 1; client_fds = λ i. i == 4; wait_sem = 0 }
