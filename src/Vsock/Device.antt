-- ===== src/Vsock/Device.antt =====
-- crates/devices/src/virtio/vsock/mod.rs: the vsock device over its three queues.
-- The control clients of the multiplexer, and so the first call of `fill_rx`, are not modelled;
-- a saved state is the list of pairs that the JSON value holds.
use ignition.Base.{
  ℕ, zero, suc, ◌+◌, ◌-◌, ◌%◌, ◌^◌, ◌||◌, not, leb, min, if◌then◌else◌, Bool, true, false, Option,
  none, some, List, [], ◌∷◌, ◌++◌, length, slice, drop, map, to_le_bytes, image_at,
}
use ignition.Ram.{GuestRam, write_slice}
use ignition.Queue
use ignition.Queue.{Desc, DescChain, Virtqueue, pop_avail, push_used}
use ignition.Queue.Drain.{drain}
use ignition.Vsock.Packet.{to_bytes, from_bytes, vsock_hdr_size, vsock_guest_cid}
use ignition.Vsock.Connection.{UnixStream, buf_alloc}
use ignition.Vsock.Muxer
use ignition.Vsock.Muxer.{Muxer, RxPacket, Key, pop_rx, seed_rst}

-- One round of the loop in `write_rx`: the count so far and the memory. The loop breaks when the
-- whole packet is written, after which a round does nothing; a failed write counts all the same.
unfoldable pub write_desc : GuestRam → Desc → List ℕ → ℕ → ℕ × GuestRam
write_desc mem d buf written =
    if not d.writable || leb (length buf) written
    then (written, mem)
    else let n = min d.len (length buf - written) in
      (written + n, (write_slice mem d.addr (slice buf written n)).1)

unfoldable pub write_descs : GuestRam → List Desc → List ℕ → ℕ → ℕ × GuestRam
unfolding write_desc
write_descs mem [] buf written = (written, mem)
write_descs mem (d ∷ ds) buf written =
    let (written', mem') = write_desc mem d buf written in write_descs mem' ds buf written'

unfoldable pub write_rx : DescChain → GuestRam → RxPacket → ℕ × GuestRam
unfolding write_descs
write_rx chain mem pkt =
    let (written, mem') = write_descs mem chain.descriptors (to_bytes pkt.hdr ++ pkt.data') 0 in
    (written % 2 ^ 32, mem')

abbrev pub any_writable : List Desc → Bool
any_writable [] = false
any_writable (d ∷ ds) = d.writable || any_writable ds

module _ {K : Type 0} where
  -- The loop of `fill_guest_rx` on fuel.
  unfoldable pub fill_guest_rx :
      ℕ → Muxer K → Virtqueue → GuestRam → Bool → Option (Bool × Muxer K × Virtqueue × GuestRam)
  unfolding write_rx pop_rx
  fill_guest_rx zero m vq mem delivered = none
  fill_guest_rx (suc fuel) m vq mem delivered = elim (pop_rx m).0 [
    | none ↦ some (delivered, m, vq, mem)
    | some pkt ↦
        let (popped, vq1) = pop_avail vq mem in
        elim popped [
          | none ↦ some (delivered, m, vq1, mem)
          | some chain ↦ elim (any_writable chain.descriptors) [
            | false ↦
                let (vq2, mem2) = push_used vq1 mem chain.head 0 in
                fill_guest_rx fuel m vq2 mem2 delivered
            | true ↦
                let (len, mem1) = write_rx chain mem pkt in
                let (vq2, mem2) = push_used vq1 mem1 chain.head len in
                fill_guest_rx fuel (pop_rx m).1 vq2 mem2 true
          ]
        ]
  ]

  unfoldable pub config_read : Muxer K → ℕ → ℕ → List ℕ
  config_read m off n = image_at (to_le_bytes 8 vsock_guest_cid) off n

  -- A saved connection is a pair of ports; each is cut to 32 bits.
  unfoldable pub restore : Muxer K → List (ℕ × ℕ) → Muxer K
  unfolding seed_rst
  restore m conns = seed_rst m (map (λ k. (k.0 % 2 ^ 32, k.1 % 2 ^ 32)) conns)

module _ {K : Type 0} (stream : UnixStream K) (connect : ℕ → Option K) (ok_line : ℕ → List ℕ) where
  -- What `handle_tx` does with one chain; `none` once the fuel of a stream has run out.
  unfoldable pub handle_chain : ℕ → Option (Muxer K) → DescChain → GuestRam → Option (Muxer K)
  unfolding Muxer.handle_tx
  handle_chain fuel none chain mem = none
  handle_chain fuel (some m) chain mem = elim (Queue.read chain mem (vsock_hdr_size + buf_alloc)) [
    | none ↦ some m
    | some bytes ↦ elim (from_bytes bytes) [
      | none ↦ some m
      | some hdr ↦ Muxer.handle_tx stream connect ok_line fuel m hdr (drop vsock_hdr_size bytes)
    ]
  ]

  unfoldable pub handle_tx :
      ℕ
      → ℕ
      → Option (Muxer K)
      → Virtqueue
      → GuestRam
      → Option (Bool × Virtqueue × Option (Muxer K) × GuestRam)
  unfolding handle_chain drain
  handle_tx rounds fuel m vq mem =
      drain (λ s chain m'. (0, handle_chain fuel s chain m', m')) rounds vq m mem false
