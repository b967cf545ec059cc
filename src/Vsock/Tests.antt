-- ===== src/Vsock/Tests.antt =====
-- A connection over a socket that takes three bytes of each write, and the theorems about it.
use ignition.Base.{
  true, ◌⊎◌, min, replicate, Option, none, false, inl, All, ℕ, zero, suc, sym, ap, ◌+◌, ◌-◌, ◌≤◌,
  ◌≡◌, ◌++◌, refl, some, List, [], ◌∷◌, arith, ◌<◌, length, take, ◌%◌, ◌^◌,
}
use ignition.Vsock.Packet.{VsockHeader, to_bytes, from_bytes, from_bytes-to_bytes}
use ignition.Vsock.Connection.{
  UnixStream, Connection, got, new, enqueue_tx, read_host, peer_free, update_peer_credit,
}
use ignition.Vsock.Flow.{spend, Written, Patient, stream_of, accepted, enqueue_tx_total}
use ignition.Ram.{GuestRam, read_slice}
use ignition.Queue.{DescChain}
use ignition.Queue.Buffers.{total}
use ignition.Net.Inject.{Laid}
use ignition.Vsock.Device.{write_rx}
use ignition.Vsock.Receive.{write_rx-lays}
use ignition.Vsock.Muxer
use ignition.Vsock.Muxer.{Muxer, RxPacket, key_eq, get, handle_tx, control}
use ignition.Vsock.Service.{service}
use ignition.Vsock.Packet.{op_rst, op_shutdown}
use ignition.Vsock.Pass.{IsReaped, Serviceable, service_total}
use ignition.Vsock.Table.{key_of, handle_tx-others}
use ignition.Vsock.Credit.{Bounded, Handed, Credited, read_host-Handed, peer_free-shrunk}

-- What the host has been sent is its state.
abbrev socket : UnixStream (List ℕ)
socket = record {
  read = λ k n. (got (take n (7 ∷ 8 ∷ 9 ∷ [])), k);
  write = λ k block. (got (length (take 3 block)), k ++ take 3 block);
  write_all = λ k block. k ++ block;
}

abbrev conn : Connection (List ℕ)
conn = new 5 1024 [] 2 0

enqueues :
    enqueue_tx socket 9 conn (1 ∷ 2 ∷ 3 ∷ 4 ∷ [])
    ≡ some (record conn { host = 1 ∷ 2 ∷ 3 ∷ 4 ∷ []; fwd_cnt = 4 })
unfolding new enqueue_tx
enqueues = refl

abbrev header : VsockHeader
header = record {
  src_cid = 3;
  dst_cid = 2;
  src_port = 5;
  dst_port = 1024;
  len = 4;
  type_ = 1;
  op = 5;
  flags = 0;
  buf_alloc = 65536;
  fwd_cnt = 70000;
}

from_bytes-to_bytes_example : from_bytes (to_bytes header ++ 1 ∷ 2 ∷ []) ≡ some header
from_bytes-to_bytes_example = from_bytes-to_bytes header (1 ∷ 2 ∷ []) (record {
  src_cid = omega arith;
  dst_cid = omega arith;
  src_port = omega arith;
  dst_port = omega arith;
  len = omega arith;
  type_ = omega arith;
  op = omega arith;
  flags = omega arith;
  buf_alloc = omega arith;
  fwd_cnt = omega arith;
})

length-take_le : (n : ℕ) (xs : List ℕ) → length (take n xs) ≤ n
length-take_le zero xs = omega arith
length-take_le (suc n) [] = omega arith
length-take_le (suc n) (x ∷ xs) = omega (arith, length-take_le n xs)

length-take_fits : (n : ℕ) (xs : List ℕ) → length (take n xs) ≤ length xs
length-take_fits zero xs = omega arith
length-take_fits (suc n) [] = omega arith
length-take_fits (suc n) (x ∷ xs) = omega (arith, length-take_fits n xs)

take-length-take : (n : ℕ) (xs : List ℕ) → take (length (take n xs)) xs ≡ take n xs
take-length-take zero xs = refl
take-length-take (suc n) [] = refl
take-length-take (suc n) (x ∷ xs) = ap (λ t. x ∷ t) (take-length-take n xs)

socket-Written : (k block : List ℕ) → Written (λ s. s) k block (socket.write k block)
socket-Written k block =
    (omega (arith, length-take_fits 3 block), ap (λ t. k ++ t) (sym (take-length-take 3 block)))

socket-Patient : (k block : List ℕ) → Patient (λ s. 0) k (socket.write k block)
socket-Patient k block = omega arith

socket-Bounded : (k : List ℕ) (n : ℕ) → Bounded n (socket.read k n)
socket-Bounded k n = length-take_le n (7 ∷ 8 ∷ 9 ∷ [])

conn_idle : length conn.txbuf + 4 + 0 < 9
unfolding new
conn_idle = omega arith

enqueue_tx_total_example :
    (c' : Connection (List ℕ)) × (enqueue_tx socket 9 conn (1 ∷ 2 ∷ 3 ∷ 4 ∷ []) ≡ some c')
    × (stream_of (λ s. s) c' ≡ stream_of (λ s. s) conn ++ 1 ∷ 2 ∷ 3 ∷ 4 ∷ [])
    × (accepted c' ≡ (accepted conn + 4) % 2 ^ 32)
enqueue_tx_total_example =
    enqueue_tx_total socket (λ s. s) socket-Written (λ s. 0) socket-Patient 9 conn
      (1 ∷ 2 ∷ 3 ∷ 4 ∷ []) conn_idle

conn-Credited : Credited conn
unfolding new
conn-Credited = (omega arith, omega arith, omega arith, omega arith)

read_host-Handed_example : Handed conn (read_host socket conn) × Credited (read_host socket conn).1
read_host-Handed_example = read_host-Handed socket socket-Bounded conn conn-Credited

-- The guest announces a buffer of 4 with 10 bytes in flight.
abbrev busy : Connection (List ℕ)
busy = record (new 5 1024 [] 16 0) { rx_cnt = 10 }

peer_free-shrunk_example : peer_free (update_peer_credit busy 4 0) ≡ 2 ^ 32 - 6
peer_free-shrunk_example = peer_free-shrunk busy 4 0 6 refl (omega arith)

-- A table of one connection, with a key carried over a snapshot.
abbrev table : Muxer (List ℕ)
table = record (Muxer.new) { conns = ((5, 1024), conn) ∷ []; pending_rst = (6, 1025) ∷ [] }

table-Serviceable : All (λ e. Serviceable (λ s. 0) (2 ^ 32) e.1) table.conns
unfolding new Muxer.new
table-Serviceable = (((omega arith, omega arith, omega arith), omega arith), tt)

table_enough : All (λ e. 3 + spend (λ s. 0) e.1 < 9) table.conns
unfolding new Muxer.new
table_enough = (omega arith, tt)

apart : key_eq (key_of header) (7, 7) ≡ false
unfolding key_eq
apart = refl

service_total_example :
    (m' : Muxer (List ℕ)) × (service socket (2 ^ 32) table ≡ some m')
    × IsReaped m'
    × (m'.pending_rst ≡ [])
    × ((tail : List RxPacket) × (m'.rxq ≡ table.rxq ++ control op_rst 6 1025 0 ∷ [] ++ tail))
service_total_example =
    service_total socket socket-Bounded (λ s. s) socket-Written (λ s. 0) socket-Patient (2 ^ 32)
      (omega arith) table table-Serviceable

-- The host listens on no port.
abbrev nobody : ℕ → Option (List ℕ)
nobody port = none

abbrev ok : ℕ → List ℕ
ok port = 79 ∷ 75 ∷ []

abbrev farewell : VsockHeader
farewell = record header { op = op_shutdown }

handle_tx-others_example :
    (m' : Muxer (List ℕ)) × (handle_tx socket nobody ok 9 table header (1 ∷ 2 ∷ 3 ∷ []) ≡ some m')
    × (get m'.conns (7, 7) ≡ get table.conns (7, 7))
handle_tx-others_example =
    handle_tx-others socket nobody ok (λ s. s) socket-Written (λ s. 0) socket-Patient 9 table header
      (1 ∷ 2 ∷ 3 ∷ []) (7, 7) (table_enough) apart

abbrev ram : GuestRam
ram = record { bytes = replicate 80 7; base = 0; dirty = none }

-- A header buffer and a data buffer.
abbrev chain : DescChain
chain = record {
  head = 0;
  descriptors =
      record { addr = 0; len = 44; writable = true }
      ∷ record { addr = 64; len = 16; writable = true }
      ∷ [];
}

abbrev packet : RxPacket
packet = record { hdr = header; data' = 1 ∷ 2 ∷ 3 ∷ 4 ∷ [] }

packet_short : length (to_bytes header ++ packet.data') < 2 ^ 32
unfolding to_bytes
packet_short = omega arith

write_rx-lays_example :
    (mem' : GuestRam) × (write_rx chain ram packet
      ≡ (min (total chain.descriptors) (length (to_bytes header ++ packet.data')), mem'))
    × Laid mem' chain.descriptors (to_bytes header ++ packet.data') 0
    × ((a k : ℕ)
        → All (λ d. (a + k ≤ d.addr) ⊎ (d.addr + d.len ≤ a)) chain.descriptors
        → read_slice mem' a k ≡ read_slice ram a k)
write_rx-lays_example =
    write_rx-lays chain ram packet (omega arith)
      (
        refl,
        (omega arith, omega arith),
        (inl (omega arith), tt),
        (refl, (omega arith, omega arith), tt, tt),
      )
      packet_short
