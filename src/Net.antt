-- ===== src/Net.antt =====
-- crates/devices/src/virtio/net.rs: frames from the guest and into it.
-- The backend is a record of calls over its state `B`; what a failed write logs is left out.
pub mod Inject
mod Tests
use ignition.Base.{
  ℕ, zero, suc, ◌+◌, ◌-◌, ◌*◌, ◌%◌, ◌^◌, ◌==◌, ◌||◌, not, ltb, leb, min, if◌then◌else◌, Bool, true,
  false, Option, none, some, List, [], ◌∷◌, ◌++◌, length, slice, drop, take, replicate, to_le_bytes,
  image_at, bit_or,
}
use ignition.Ram.{GuestRam, write_slice}
use ignition.Queue.{Desc, DescChain, Virtqueue, read, pop_avail, push_used}
use ignition.Queue.Drain.{drain}

abbrev pub net_hdr_len : ℕ
net_hdr_len = 12

abbrev pub max_frame : ℕ
max_frame = 65536

-- `write_frame` says whether it succeeded.
pub record NetBackend (B : Type 0) : Type 0 where
  pub write_frame : B → List ℕ → Bool × B
  pub mac : B → List ℕ

pub record VirtioNet (B : Type 0) : Type 0 where
  pub backend : B
  pub mac : List ℕ
  pub dropped_rx : ℕ
  pub link_up : Bool

-- The bits `VIRTIO_NET_F_MAC` and `VIRTIO_NET_F_STATUS`.
unfoldable pub device_features : ℕ → ℕ
device_features sel = if sel == 0 then bit_or (2 ^ 5) (2 ^ 16) else 0

module _ {B : Type 0} (calls : NetBackend B) where
  unfoldable pub new : B → VirtioNet B
  new backend = record {
    backend = backend;
    mac = calls.mac backend;
    dropped_rx = 0;
    link_up = true;
  }

  -- What `drain_tx` does with one chain.
  unfoldable pub send : VirtioNet B → DescChain → GuestRam → VirtioNet B
  send net chain mem = elim (read chain mem max_frame) [
    | none ↦ net
    | some buf ↦
        if ltb net_hdr_len (length buf)
        then record net { backend = (calls.write_frame net.backend (drop net_hdr_len buf)).1 }
        else net
  ]

  unfoldable pub drain_tx :
      ℕ → VirtioNet B → Virtqueue → GuestRam → Option (Bool × Virtqueue × VirtioNet B × GuestRam)
  unfolding send drain
  drain_tx fuel net vq mem = drain (λ s chain m. (0, send s chain m, m)) fuel vq net mem false

  unfoldable pub handle_notify :
      ℕ
      → VirtioNet B
      → ℕ
      → Virtqueue
      → GuestRam
      → Option (Bool × Virtqueue × VirtioNet B × GuestRam)
  unfolding drain_tx
  handle_notify fuel net queue_idx vq mem =
      if queue_idx == 1 then drain_tx fuel net vq mem else some (false, vq, net, mem)

module _ {B : Type 0} where
  unfoldable pub set_link : VirtioNet B → Bool → VirtioNet B
  set_link net up = record net { link_up = up }

  -- The MAC, then the status word.
  unfoldable pub config_read : VirtioNet B → ℕ → ℕ → List ℕ
  config_read net off n =
      image_at (take 6 net.mac ++ to_le_bytes 2 (if net.link_up then 1 else 0)) off n

-- The header of a received frame: zeros but for `num_buffers`.
abbrev pub rx_header : List ℕ
rx_header = 0 ∷ 0 ∷ 0 ∷ 0 ∷ 0 ∷ 0 ∷ 0 ∷ 0 ∷ 0 ∷ 0 ∷ 1 ∷ 0 ∷ []

-- One round of the loop in `inject_rx`: the bytes placed so far and the memory. The counts `off`
-- and `written` of the source are always equal and are one here.
unfoldable pub place : GuestRam → Desc → List ℕ → ℕ → ℕ × GuestRam
place mem d payload off =
    if not d.writable || leb (length payload) off
    then (off, mem)
    else let n = min d.len (length payload - off) in
      let (done, mem') = write_slice mem d.addr (slice payload off n) in
      (if done then off + n else off, mem')

unfoldable pub place_all : GuestRam → List Desc → List ℕ → ℕ → ℕ × GuestRam
unfolding place
place_all mem [] payload off = (off, mem)
place_all mem (d ∷ ds) payload off =
    let (off', mem') = place mem d payload off in place_all mem' ds payload off'

unfoldable pub inject_rx :
    {B : Type 0}
    → VirtioNet B
    → Virtqueue
    → GuestRam
    → List ℕ
    → Bool × VirtioNet B × Virtqueue × GuestRam
unfolding place_all
inject_rx net vq mem frame =
    let (popped, vq1) = pop_avail vq mem in
    elim popped [
      | none ↦ (false, record net { dropped_rx = (net.dropped_rx + 1) % 2 ^ 64 }, vq1, mem)
      | some chain ↦
          let (written, mem1) = place_all mem chain.descriptors (rx_header ++ frame) 0 in
          let (vq2, mem2) = push_used vq1 mem1 chain.head (written % 2 ^ 32) in
          (ltb 0 written, net, vq2, mem2)
    ]
