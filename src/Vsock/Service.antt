-- ===== src/Vsock/Service.antt =====
-- crates/devices/src/virtio/vsock/muxer.rs: `service`, the pass over all connections.
use ignition.Base.{
  ℕ, zero, suc, ◌%◌, ◌^◌, if◌then◌else◌, Bool, true, false, Option, none, some, List, [], ◌∷◌, ◌++◌,
  length, map,
}
use ignition.Vsock.Packet.{op_rw, op_rst}
use ignition.Vsock.Connection.{UnixStream, Connection, closed, flush_tx, read_host}
use ignition.Vsock.Muxer.{RxPacket, Key, Muxer, get, remove, ctrl_hdr, control, queue}

abbrev pub is_closed : {K : Type 0} → Connection K → Bool
is_closed c = elim c.state [ closed ↦ true | _ ↦ false ]

abbrev pub rw_packet : {K : Type 0} → Connection K → List ℕ → RxPacket
rw_packet c data' = record {
  hdr = record (ctrl_hdr op_rw c.guest_port c.host_port c.fwd_cnt) { len = length data' % 2 ^ 32 };
  data' = data';
}

module _ {K : Type 0} where
  unfoldable pub drop_closed : List Key → Muxer K → Muxer K
  unfolding get remove queue
  drop_closed [] m = m
  drop_closed (k ∷ keys) m = elim (get m.conns k) [
    | none ↦ drop_closed keys m
    | some conn ↦
        drop_closed keys
          (queue (record m { conns = remove m.conns k }) op_rst conn.guest_port conn.host_port 0)
  ]

module _ {K : Type 0} (stream : UnixStream K) where
  -- The loop of reads on one connection, on fuel: the packets and the connection it leaves.
  unfoldable pub read_all : ℕ → Connection K → Option (List RxPacket × Connection K)
  read_all zero c = none
  read_all (suc fuel) c =
      let (block, c') = read_host stream c in
      elim block [
        | none ↦ some ([], c')
        | some data' ↦ elim (read_all fuel c') [
          | none ↦ none
          | some (packets, c'') ↦ some (rw_packet c' data' ∷ packets, c'')
        ]
      ]

  unfoldable pub service_conn : ℕ → Connection K → Option (List RxPacket × Connection K)
  unfolding read_all
  service_conn fuel c = elim (flush_tx stream fuel c) [ none ↦ none | some c' ↦ read_all fuel c' ]

  -- The loop over the connections: the connections, the packets and the closed keys.
  unfoldable pub service_conns :
      ℕ → List (Key × Connection K) → Option (List (Key × Connection K) × List RxPacket × List Key)
  unfolding service_conn
  service_conns fuel [] = some ([], [], [])
  service_conns fuel ((k, c) ∷ rest) = elim (service_conn fuel c) [
    | none ↦ none
    | some (packets, c') ↦ elim (service_conns fuel rest) [
      | none ↦ none
      | some (conns, more, keys) ↦
          some ((k, c') ∷ conns, packets ++ more, if is_closed c' then k ∷ keys else keys)
    ]
  ]

  unfoldable pub service : ℕ → Muxer K → Option (Muxer K)
  unfolding service_conns drop_closed
  service fuel m =
      let reset : Muxer K = record m {
        rxq = m.rxq ++ map (λ k. control op_rst k.0 k.1 0) m.pending_rst;
        pending_rst = [];
      } in
      elim (service_conns fuel reset.conns) [
        | none ↦ none
        | some (conns, packets, keys) ↦
            some (drop_closed keys (record reset { conns = conns; rxq = reset.rxq ++ packets }))
      ]
