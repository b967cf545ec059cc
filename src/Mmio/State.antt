-- ===== src/Mmio/State.antt =====
-- crates/devices/src/virtio/mmio.rs: the transport's state in a snapshot.
use ignition.Base.{ℕ, ◌==◌, if◌then◌else◌, Option, none, some, List, [], ◌∷◌, map, length}
use Prim.Native.String.{String}
use ignition.Bus.{DeviceMgrError, state_invalid}
use ignition.Queue.{Virtqueue, indices, set_indices}
use ignition.Mmio.{VirtioDevice, VirtioMmio, VirtioMmioState, QueueState, QueueSnapshot, programmed}

abbrev pub ring_indices : Option Virtqueue → ℕ × ℕ
ring_indices none = (0, 0)
ring_indices (some vq) = indices vq

abbrev pub save_queue : QueueState → QueueSnapshot
save_queue q =
    let (last_avail, used) = ring_indices q.vq in
    record {
      num = q.num;
      ready = q.ready;
      desc_lo = q.desc_lo;
      desc_hi = q.desc_hi;
      driver_lo = q.driver_lo;
      driver_hi = q.driver_hi;
      device_lo = q.device_lo;
      device_hi = q.device_hi;
      last_avail = last_avail;
      used = used;
    }

unfoldable pub restore_queue : QueueSnapshot → QueueState
restore_queue snap =
    let q : QueueState = record {
      num = snap.num;
      ready = snap.ready;
      desc_lo = snap.desc_lo;
      desc_hi = snap.desc_hi;
      driver_lo = snap.driver_lo;
      driver_hi = snap.driver_hi;
      device_lo = snap.device_lo;
      device_hi = snap.device_hi;
      vq = none;
    } in
    if snap.ready == 0
    then q
    else record q { vq = some (set_indices (programmed q) snap.last_avail snap.used) }

-- `zip` ends with the shorter list; queues beyond it keep their state.
unfoldable pub restore_queues : List QueueState → List QueueSnapshot → List QueueState
restore_queues [] snaps = []
restore_queues (q ∷ qs) [] = q ∷ qs
restore_queues (q ∷ qs) (snap ∷ snaps) = restore_queue snap ∷ restore_queues qs snaps

module _ {S J : Type 0} (trait : VirtioDevice S J) where
  unfoldable pub save_state : VirtioMmio S → VirtioMmioState J
  save_state m = record {
    status = m.status;
    queue_sel = m.queue_sel;
    device_features_sel = m.device_features_sel;
    interrupt_status = m.interrupt_status;
    queues = map save_queue m.queues;
    dev = trait.save m.dev;
  }

  unfoldable pub restore_state : VirtioMmio S → VirtioMmioState J → VirtioMmio S
  restore_state m s = record m {
    status = s.status;
    queue_sel = s.queue_sel;
    device_features_sel = s.device_features_sel;
    interrupt_status = s.interrupt_status;
    queues = restore_queues m.queues s.queues;
  }

  -- `MmioDevice::restore` on the decoded state; `mismatch` is the text about two queue counts.
  unfoldable pub restore :
      (ℕ → ℕ → String) → VirtioMmio S → VirtioMmioState J → Option DeviceMgrError × VirtioMmio S
  restore mismatch m s =
      let count = length s.queues in
      if count == length m.queues
      then (let m1 = restore_state m s in
          let (refused, dev) = trait.restore m1.dev s.dev in
          let m2 : VirtioMmio S = record m1 { dev = dev } in
          elim refused [ none ↦ (none, m2) | some reason ↦ (some (state_invalid m.id reason), m2) ])
      else (some (state_invalid m.id (mismatch count (length m.queues))), m)
