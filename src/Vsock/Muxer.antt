-- ===== src/Vsock/Muxer.antt =====
-- crates/devices/src/virtio/vsock/muxer.rs: the connections by their ports, and what waits for
-- the guest. The `HashMap` is a list of keys and connections, in the map's order of iteration;
-- a key is the guest's port and the host's. Parameters: the socket's calls, `connect` to the
-- socket of a host port, and the line that accepts a connection. `none` means out of fuel.
-- The control clients' map and their line parser are not modelled.
use ignition.Base.{
  ℕ, zero, suc, ◌+◌, ◌-◌, ◌^◌, ◌==◌, ◌&&◌, ◌||◌, not, if◌then◌else◌, Bool, true, false, Option,
  none, some, List, [], ◌∷◌, ◌++◌,
}
use ignition.Vsock.Packet.{
  VsockHeader, vsock_cid_host, vsock_guest_cid, vsock_type_stream, op_request, op_response, op_rst,
  op_shutdown, op_rw, op_credit_update, op_credit_request,
}
use ignition.Vsock.Connection
use ignition.Vsock.Connection.{
  UnixStream, Connection, ConnState, local_init, established, closed, buf_alloc, update_peer_credit,
  confirm_established, write_host_raw, enqueue_tx, flush_tx, read_host, new_local_init,
}

pub record RxPacket : Type 0 where
  pub hdr : VsockHeader
  pub data' : List ℕ

abbrev pub Key : Type 0
Key = ℕ × ℕ

unfoldable pub key_eq : Key → Key → Bool
key_eq a b = (a.0 == b.0) && (a.1 == b.1)

pub record Muxer (K : Type 0) : Type 0 where
  pub conns : List (Key × Connection K)
  pub rxq : List RxPacket
  pub pending_rst : List Key
  pub next_host_port : ℕ

module _ {K : Type 0} where
  unfoldable pub new : Muxer K
  new = record { conns = []; rxq = []; pending_rst = []; next_host_port = 1024 }

  unfoldable pub get : List (Key × Connection K) → Key → Option (Connection K)
  unfolding key_eq
  get [] k = none
  get ((k', c) ∷ rest) k = let later = get rest k in if key_eq k' k then some c else later

  unfoldable pub remove : List (Key × Connection K) → Key → List (Key × Connection K)
  unfolding key_eq
  remove [] k = []
  remove ((k', c) ∷ rest) k =
      let later = remove rest k in if key_eq k' k then later else (k', c) ∷ later

  -- `get_mut` and a change of what it refers to: the entry keeps its place.
  unfoldable pub put : List (Key × Connection K) → Key → Connection K → List (Key × Connection K)
  unfolding key_eq
  put [] k c = []
  put ((k', c') ∷ rest) k c =
      let later = put rest k c in if key_eq k' k then (k', c) ∷ later else (k', c') ∷ later

  unfoldable pub insert : List (Key × Connection K) → Key → Connection K → List (Key × Connection K)
  unfolding remove
  insert conns k c = (k, c) ∷ remove conns k

  unfoldable pub seed_rst : Muxer K → List Key → Muxer K
  seed_rst m conns = record m { pending_rst = conns }

abbrev pub ctrl_hdr : ℕ → ℕ → ℕ → ℕ → VsockHeader
ctrl_hdr op guest_port host_port fwd_cnt = record {
  src_cid = vsock_cid_host;
  dst_cid = vsock_guest_cid;
  src_port = host_port;
  dst_port = guest_port;
  len = 0;
  type_ = vsock_type_stream;
  op = op;
  flags = 0;
  buf_alloc = buf_alloc;
  fwd_cnt = fwd_cnt;
}

abbrev pub control : ℕ → ℕ → ℕ → ℕ → RxPacket
control op guest_port host_port fwd_cnt = record {
  hdr = ctrl_hdr op guest_port host_port fwd_cnt;
  data' = [];
}

-- The port after `p` in the allocator's round.
abbrev pub next_port : ℕ → ℕ
next_port p = if p == 2 ^ 32 - 1 then 1024 else p + 1

module _ {K : Type 0} where
  unfoldable pub queue : Muxer K → ℕ → ℕ → ℕ → ℕ → Muxer K
  queue m op guest_port host_port fwd_cnt = record m {
    rxq = m.rxq ++ control op guest_port host_port fwd_cnt ∷ [];
  }

  unfoldable pub port_held : List (Key × Connection K) → ℕ → Bool
  port_held [] p = false
  port_held ((k, c) ∷ rest) p = let later = port_held rest p in (k.1 == p) || later

  -- The loop on fuel.
  unfoldable pub alloc_host_port : ℕ → Muxer K → Option (ℕ × Muxer K)
  unfolding port_held
  alloc_host_port zero m = none
  alloc_host_port (suc fuel) m =
      let p = m.next_host_port in
      let m' : Muxer K = record m { next_host_port = next_port p } in
      let rest = alloc_host_port fuel m' in
      if not (port_held m'.conns p) then some (p, m') else rest

  -- What `poll_controls` does with a parsed `CONNECT` line and its client's stream.
  unfoldable pub promote : ℕ → Muxer K → ℕ → K → Option (Muxer K)
  unfolding alloc_host_port insert
  promote fuel m guest_port host = elim (alloc_host_port fuel m) [
    | none ↦ none
    | some (host_port, m') ↦
        let conn = new_local_init guest_port host_port host in
        some (record m' {
          conns = insert m'.conns (guest_port, host_port) conn;
          rxq = m'.rxq ++ control op_request guest_port host_port 0 ∷ [];
        })
  ]

  unfoldable pub pop_rx : Muxer K → Option RxPacket × Muxer K
  pop_rx m = elim m.rxq [ [] ↦ (none, m) | p ∷ ps ↦ (some p, record m { rxq = ps }) ]

  unfoldable pub rx_pending : Muxer K → Bool
  rx_pending m = elim m.rxq [ [] ↦ false | _ ∷ _ ↦ true ]

module _ {K : Type 0} (stream : UnixStream K) (connect : ℕ → Option K) (ok_line : ℕ → List ℕ) where
  unfoldable pub on_request : Muxer K → VsockHeader → Muxer K
  unfolding queue insert
  on_request m hdr = elim (connect hdr.dst_port) [
    | some host ↦
        let conn = Connection.new hdr.src_port hdr.dst_port host hdr.buf_alloc hdr.fwd_cnt in
        queue (record m { conns = insert m.conns (hdr.src_port, hdr.dst_port) conn }) op_response
          hdr.src_port hdr.dst_port conn.fwd_cnt
    | none ↦ queue m op_rst hdr.src_port hdr.dst_port 0
  ]

  unfoldable pub on_rw : ℕ → Muxer K → VsockHeader → List ℕ → Option (Muxer K)
  unfolding queue get put
  on_rw fuel m hdr payload = elim (get m.conns (hdr.src_port, hdr.dst_port)) [
    | some conn ↦
        elim (enqueue_tx stream fuel (update_peer_credit conn hdr.buf_alloc hdr.fwd_cnt) payload) [
          | none ↦ none
          | some conn' ↦ some (
              queue (record m { conns = put m.conns (hdr.src_port, hdr.dst_port) conn' })
                op_credit_update hdr.src_port hdr.dst_port conn'.fwd_cnt)
        ]
    | none ↦ some (queue m op_rst hdr.src_port hdr.dst_port 0)
  ]

  -- The credit of a `CREDIT_REQUEST` or a `CREDIT_UPDATE`; the former is answered.
  unfoldable pub on_credit : Bool → Muxer K → VsockHeader → Muxer K
  unfolding queue get put
  on_credit answer m hdr = elim (get m.conns (hdr.src_port, hdr.dst_port)) [
    | some conn ↦
        let conn' = update_peer_credit conn hdr.buf_alloc hdr.fwd_cnt in
        let m' : Muxer K = record m { conns = put m.conns (hdr.src_port, hdr.dst_port) conn' } in
        if answer then queue m' op_credit_update hdr.src_port hdr.dst_port conn'.fwd_cnt else m'
    | none ↦ m
  ]

  unfoldable pub on_close : Muxer K → VsockHeader → Muxer K
  unfolding queue get remove
  on_close m hdr = elim (get m.conns (hdr.src_port, hdr.dst_port)) [
    | some conn ↦
        queue (record m { conns = remove m.conns (hdr.src_port, hdr.dst_port) }) op_rst hdr.src_port
          hdr.dst_port 0
    | none ↦ m
  ]

  unfoldable pub on_response : Muxer K → VsockHeader → Muxer K
  unfolding get put
  on_response m hdr = elim (get m.conns (hdr.src_port, hdr.dst_port)) [
    | some conn ↦ elim conn.state [
      | local_init ↦
          let conn' =
            write_host_raw stream (confirm_established conn hdr.buf_alloc hdr.fwd_cnt)
              (ok_line hdr.dst_port) in
          record m { conns = put m.conns (hdr.src_port, hdr.dst_port) conn' }
      | _ ↦ m
    ]
    | none ↦ m
  ]

  unfoldable pub on_unknown : Muxer K → VsockHeader → Muxer K
  unfolding queue get
  on_unknown m hdr = elim (get m.conns (hdr.src_port, hdr.dst_port)) [
    | some conn ↦ queue m op_rst hdr.src_port hdr.dst_port 0
    | none ↦ m
  ]

  unfoldable pub handle_tx : ℕ → Muxer K → VsockHeader → List ℕ → Option (Muxer K)
  unfolding on_request on_rw on_credit on_close on_response on_unknown
  handle_tx fuel m hdr payload =
      if hdr.op == op_request
      then some (on_request m hdr)
      else if hdr.op == op_rw
      then on_rw fuel m hdr payload
      else if hdr.op == op_credit_request
      then some (on_credit true m hdr)
      else if hdr.op == op_credit_update
      then some (on_credit false m hdr)
      else if (hdr.op == op_shutdown) || (hdr.op == op_rst)
      then some (on_close m hdr)
      else if hdr.op == op_response
      then some (on_response m hdr)
      else some (on_unknown m hdr)
