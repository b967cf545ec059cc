-- ===== src/Mmio.antt =====
-- crates/devices/src/virtio/mmio.rs: the virtio-mmio transport, its registers and its queues.
-- The hosted device is the trait `VirtioDevice`, a record of functions on its state `S`; `J` is the
-- JSON in which it saves. A handler whose loop does not end is `none`. The calls of the interrupt
-- line are kept, newest first. The host's file descriptors and log lines are not modelled.
pub mod Regs
pub mod State
pub mod Calls
pub mod Line
pub mod Setup
pub mod Quiet
pub mod Saved
mod Tests
use ignition.Base.{
  ℕ, ◌+◌, ◌-◌, ◌*◌, ◌^◌, ◌%◌, ◌==◌, leb, if◌then◌else◌, Bool, true, false, Option, none, some, List,
  [], ◌∷◌, get_elem?, set, map, length, replicate, bit_or, bit_and, to_le_bytes, from_le_bytes,
}
use Prim.Native.String.{String}
use ignition.Bus.{DeviceMgrError, state_invalid}
use ignition.Ram.{GuestRam}
use ignition.Queue
use ignition.Queue.{Virtqueue, indices, set_indices}

-- `InputEvent` of input.rs.
pub record InputEvent : Type 0 where
  pub event_type : ℕ
  pub code : ℕ
  pub value : ℕ

-- What a call on a queue gives back: whether a buffer was used, and the device, the queue and
-- guest RAM afterwards.
abbrev pub Served : Type 0 → Type 0
Served S = Bool × S × Virtqueue × GuestRam

pub record VirtioDevice (S J : Type 0) : Type 0 where
  pub device_id : S → ℕ
  pub device_features : S → ℕ → ℕ
  pub config_read : S → ℕ → List ℕ → List ℕ
  pub config_write : S → ℕ → List ℕ → S
  pub queue_count : S → ℕ
  pub handle_notify : S → ℕ → Virtqueue → GuestRam → Option (Served S)
  pub inject_rx : S → Virtqueue → GuestRam → List ℕ → Served S
  pub inject_input : S → Virtqueue → GuestRam → List InputEvent → Served S
  pub fill_rx : S → Virtqueue → GuestRam → Option (Served S)
  pub set_display_mode : S → ℕ → ℕ → Bool × S
  pub set_display_enabled : S → Bool → Bool × S
  pub set_link : S → Bool → S
  pub save : S → J
  pub restore : S → J → Option String × S

pub record QueueState : Type 0 where
  pub num : ℕ
  pub ready : ℕ
  pub desc_lo : ℕ
  pub desc_hi : ℕ
  pub driver_lo : ℕ
  pub driver_hi : ℕ
  pub device_lo : ℕ
  pub device_hi : ℕ
  pub vq : Option Virtqueue

-- `QueueState::default()`.
abbrev pub default : QueueState
default = record {
  num = 0;
  ready = 0;
  desc_lo = 0;
  desc_hi = 0;
  driver_lo = 0;
  driver_hi = 0;
  device_lo = 0;
  device_hi = 0;
  vq = none;
}

pub record QueueSnapshot : Type 0 where
  pub num : ℕ
  pub ready : ℕ
  pub desc_lo : ℕ
  pub desc_hi : ℕ
  pub driver_lo : ℕ
  pub driver_hi : ℕ
  pub device_lo : ℕ
  pub device_hi : ℕ
  pub last_avail : ℕ
  pub used : ℕ

pub record VirtioMmioState (J : Type 0) : Type 0 where
  pub status : ℕ
  pub queue_sel : ℕ
  pub device_features_sel : ℕ
  pub interrupt_status : ℕ
  pub queues : List QueueSnapshot
  pub dev : J

pub record VirtioMmio (S : Type 0) : Type 0 where
  pub id : String
  pub dev : S
  pub mem : GuestRam
  pub set_spi : List Bool
  pub queues : List QueueState
  pub status : ℕ
  pub device_features_sel : ℕ
  pub queue_sel : ℕ
  pub interrupt_status : ℕ

-- `(u64::from(hi) << 32) | u64::from(lo)`.
abbrev pub address : ℕ → ℕ → ℕ
address hi lo = bit_or (hi * 2 ^ 32) lo

-- The queue that the programmed registers describe, with its indices at zero.
abbrev pub programmed : QueueState → Virtqueue
programmed q =
    Queue.new q.num (address q.desc_hi q.desc_lo) (address q.driver_hi q.driver_lo)
      (address q.device_hi q.device_lo)

module _ {S : Type 0} where
  unfoldable pub raise : VirtioMmio S → VirtioMmio S
  raise m = record m { interrupt_status = bit_or m.interrupt_status 1; set_spi = true ∷ m.set_spi }

  unfoldable pub signal_config_change : VirtioMmio S → VirtioMmio S
  signal_config_change m = record m {
    interrupt_status = bit_or m.interrupt_status 2;
    set_spi = true ∷ m.set_spi;
  }

  unfoldable pub reset : VirtioMmio S → VirtioMmio S
  reset m = record m {
    queues = map (λ _. default) m.queues;
    interrupt_status = 0;
    set_spi = false ∷ m.set_spi;
  }

  -- `set_addr`, and the writes of the other registers of one queue: a queue that is not there is
  -- left alone.
  unfoldable pub set_addr : VirtioMmio S → ℕ → (QueueState → QueueState) → VirtioMmio S
  set_addr m sel field = elim (get_elem? m.queues sel) [
    | none ↦ m
    | some q ↦ record m { queues = set m.queues sel (field q) }
  ]

  unfoldable pub set_queue_ready : VirtioMmio S → ℕ → ℕ → VirtioMmio S
  unfolding set_addr
  set_queue_ready m sel val =
      set_addr m sel
        (λ q. if val == 0 then default else record q { ready = 1; vq = some (programmed q) })

  -- `self.interrupt_status &= !val`, on 32 bits.
  unfoldable pub acknowledge : VirtioMmio S → ℕ → VirtioMmio S
  acknowledge m val =
      let left = bit_and m.interrupt_status (2 ^ 32 - 1 - val) in
      record m {
        interrupt_status = left;
        set_spi = if left == 0 then false ∷ m.set_spi else m.set_spi;
      }

  unfoldable pub set_status : VirtioMmio S → ℕ → VirtioMmio S
  unfolding reset
  set_status m val =
      let m1 : VirtioMmio S = record m { status = val } in if val == 0 then reset m1 else m1

  -- The queue that a call at `idx` works on: there, ready and built.
  unfoldable pub ready_vq : VirtioMmio S → ℕ → Option Virtqueue
  ready_vq m idx = elim (get_elem? m.queues idx) [
    | none ↦ none
    | some q ↦ if q.ready == 0 then none else q.vq
  ]

  -- What a call on queue `idx` leaves behind.
  unfoldable pub store_served : VirtioMmio S → ℕ → S → Virtqueue → GuestRam → VirtioMmio S
  unfolding set_addr
  store_served m idx dev vq mem =
      set_addr (record m { dev = dev; mem = mem }) idx (λ q. record q { vq = some vq })

  -- The device's answer taken up, with the interrupt raised if a buffer was used.
  unfoldable pub finish : VirtioMmio S → ℕ → Served S → Bool × VirtioMmio S
  unfolding store_served raise
  finish m idx (used, dev, vq, mem) =
      let m1 = store_served m idx dev vq mem in (used, if used then raise m1 else m1)

module _ {S J : Type 0} (trait : VirtioDevice S J) where
  unfoldable pub new : String → S → GuestRam → VirtioMmio S
  new id dev mem = record {
    id = id;
    dev = dev;
    mem = mem;
    set_spi = [];
    queues = replicate (trait.queue_count dev) default;
    status = 0;
    device_features_sel = 0;
    queue_sel = 0;
    interrupt_status = 0;
  }
