-- ===== src/Protocol.antt =====
-- src/protocol.c and the packet of include/protocol.h. A `uint32_t` lies in memory with its lowest
-- byte first. What `write` and `read` do is given by a list: for each call the number of bytes
-- that the system moves at most, or `none` for a result that is not positive. A call for which
-- the list has no entry does not return.
pub mod Words
pub mod Complete
pub mod Closed
pub mod Short
pub mod Broken
use concurrent_server.Common.{
  ℕ, zero, suc, ◌+◌, ◌-◌, ◌*◌, ◌/◌, ◌%◌, ◌^◌, Bool, true, false, Option, none, some, List, [], ◌∷◌,
  ◌++◌, ◌==◌, ltb, leb, if◌then◌else◌, length, take, drop, replicate,
}
use Prim.Native.Nat.{min}

-- `pad` is the byte that the compiler leaves between `null` and `size`.
pub record Packet : Type 0 where
  pub type : ℕ
  pub status : ℕ
  pub null : ℕ
  pub pad : ℕ
  pub size : ℕ
  pub timestamp_sec : ℕ
  pub timestamp_nsec : ℕ

pub data PacketType : Type 0 where
  xacto_no_pkt xacto_put_pkt xacto_get_pkt xacto_data_pkt xacto_commit_pkt xacto_reply_pkt :
      PacketType

abbrev pub sizeof_packet : ℕ
sizeof_packet = 16

-- The bytes of a `uint32_t` in memory, and the number that four bytes stand for.
abbrev pub bytes_of : ℕ → List ℕ
bytes_of n = n % 256 ∷ n / 256 % 256 ∷ n / 65536 % 256 ∷ n / 16777216 % 256 ∷ []

abbrev pub u32_of : (a b c d : ℕ) → ℕ
u32_of a b c d = a + b * 256 + c * 65536 + d * 16777216

-- `htonl` and `ntohl` reverse the four bytes.
pub htonl : ℕ → ℕ
htonl n = u32_of (n / 16777216 % 256) (n / 65536 % 256) (n / 256 % 256) (n % 256)

pub ntohl : ℕ → ℕ
unfolding htonl
ntohl n = htonl n

abbrev pub image : Packet → List ℕ
image p =
    p.type
    ∷ p.status
    ∷ p.null
    ∷ p.pad
    ∷ (bytes_of p.size ++ (bytes_of p.timestamp_sec ++ bytes_of p.timestamp_nsec))

-- The packet that lies in a buffer of `sizeof_packet` bytes.
abbrev pub packet_at : List ℕ → Option Packet
packet_at (t ∷ s ∷ n ∷ p ∷ a ∷ b ∷ c ∷ d ∷ e ∷ f ∷ g ∷ h ∷ i ∷ j ∷ k ∷ l ∷ []) = some (record {
  type = t;
  status = s;
  null = n;
  pad = p;
  size = u32_of a b c d;
  timestamp_sec = u32_of e f g h;
  timestamp_nsec = u32_of i j k l;
})
packet_at _ = none

abbrev pub to_network : Packet → Packet
to_network p = record p {
  size = htonl p.size;
  timestamp_sec = htonl p.timestamp_sec;
  timestamp_nsec = htonl p.timestamp_nsec;
}

abbrev pub to_host : Packet → Packet
to_host p = record p {
  size = ntohl p.size;
  timestamp_sec = ntohl p.timestamp_sec;
  timestamp_nsec = ntohl p.timestamp_nsec;
}

-- A `uint32_t` assigned to an `int`: from 2^31 on it is negative, and no loop `while (n > 0)` is
-- entered, as with 0.
abbrev pub positive_int : ℕ → ℕ
positive_int n = if ltb n (2 ^ 31) then n else 0

-- What the system does with each call.
abbrev pub Schedule : Type 0
Schedule = List (Option ℕ)

-- How a transfer ends, with what was moved and the calls that are left.
pub data Transfer (A : Type 0) : Type 0 where
  done : A → Schedule → Transfer A
  failed : A → Schedule → Transfer A
  waiting : A → Transfer A

-- `while (n > 0) { k = write(fd, buf, n); if (k <= 0) return -1; n -= k; }`: each call is given
-- the start of the buffer. `sent` is what has reached the connection.
unfoldable pub write_loop : (buf : List ℕ) (n : ℕ) (sent : List ℕ) → Schedule → Transfer (List ℕ)
write_loop buf n sent [] = if n == 0 then done sent [] else waiting sent
write_loop buf n sent (none ∷ ks) = if n == 0 then done sent (none ∷ ks) else failed sent ks
write_loop buf n sent (some k ∷ ks) =
    let rest = write_loop buf (n - min k n) (sent ++ take (min k n) buf) ks in
    if n == 0 then done sent (some k ∷ ks) else if k == 0 then failed sent ks else rest

abbrev pub then_write :
    Transfer (List ℕ) → (List ℕ → Schedule → Transfer (List ℕ)) → Transfer (List ℕ)
then_write (done sent ks) f = f sent ks
then_write (failed sent ks) f = failed sent ks
then_write (waiting sent) f = waiting sent

-- `done` is the result 0 and `failed` the result -1.
unfoldable pub proto_send_packet : Packet → (payload : List ℕ) → Schedule → Transfer (List ℕ)
proto_send_packet pkt payload ks =
    let net : Packet = to_network pkt in
    then_write (write_loop (image net) sizeof_packet [] ks) λ sent ks'.
      if ltb 0 net.size
      then write_loop payload (positive_int (ntohl net.size)) sent ks'
      else done sent ks'

-- What a `read` of `k` bytes into `buf` leaves there.
abbrev pub overwrite : (bytes buf : List ℕ) → List ℕ
overwrite bytes buf = bytes ++ drop (length bytes) buf

-- The buffer and the bytes that are still to arrive.
abbrev pub Inbox : Type 0
Inbox = List ℕ × List ℕ

-- `while (n > 0) { k = read(fd, buf, n); if (k <= 0) return -1; n -= k; }`: each call fills the
-- buffer from its start. At the end of the stream `read` returns 0.
unfoldable pub read_loop : (buf : List ℕ) (n : ℕ) (stream : List ℕ) → Schedule → Transfer Inbox
read_loop buf n stream [] = if n == 0 then done (buf, stream) [] else waiting (buf, stream)
read_loop buf n stream (none ∷ ks) =
    if n == 0 then done (buf, stream) (none ∷ ks) else failed (buf, stream) ks
read_loop buf n stream (some k ∷ ks) =
    let got = take (min k n) stream in
    let rest = read_loop (overwrite got buf) (n - length got) (drop (min k n) stream) ks in
    if n == 0
    then done (buf, stream) (some k ∷ ks)
    else if length got == 0
    then failed (buf, stream) ks
    else rest

-- What `proto_recv_packet` does: it returns 0 with the packet and, if there is a payload, its
-- buffer; it returns -1 with what is then in the storage of the packet, having called
-- `free(datap)` or not; it does not return; or it stores through `datap` when that is NULL.
pub data Received : Type 0 where
  received : Packet → (payload : Option (List ℕ)) → (stream : List ℕ) → Schedule → Received
  broken : (storage : Packet) → (freed_datap : Bool) → (stream : List ℕ) → Schedule → Received
  pending : Received
  null_datap : Received

abbrev pub recv_payload : Packet → Transfer Inbox → Received
recv_payload pkt (done (buf, stream) ks) = received pkt (some buf) stream ks
recv_payload pkt (failed (buf, stream) ks) = broken pkt true stream ks
recv_payload pkt (waiting _) = pending

-- The header has been read into the packet.
pub recv_body : (datap : Bool) → Packet → (stream : List ℕ) → Schedule → Received
recv_body datap pkt stream ks =
    if ltb 0 pkt.size
    then (if datap
        then recv_payload pkt
            (read_loop (replicate ((pkt.size + 1) % 2 ^ 32) 0) (positive_int pkt.size) stream ks)
        else null_datap)
    else received pkt none stream ks

pub recv_header : (datap : Bool) → Transfer Inbox → Received
recv_header datap (done (buf, stream) ks) = elim (packet_at buf) [
  | none ↦ pending
  | some pkt ↦ recv_body datap (to_host pkt) stream ks
]
recv_header datap (failed (buf, stream) ks) = elim (packet_at buf) [
  | none ↦ pending
  | some pkt ↦ broken pkt false stream ks
]
recv_header datap (waiting _) = pending

-- `pkt` is the storage of the caller; `datap` says whether the pointer is not NULL.
unfoldable pub proto_recv_packet :
    (pkt : Packet) (datap : Bool) (stream : List ℕ) → Schedule → Received
unfolding recv_header recv_body
proto_recv_packet pkt datap stream ks =
    recv_header datap (read_loop (image pkt) sizeof_packet stream ks)
