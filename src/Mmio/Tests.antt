-- ===== src/Mmio/Tests.antt =====
-- A transport with a counting device, and the theorems about it at concrete data.
use ignition.Base.{
  ℕ, ◌+◌, ◌≡◌, refl, true, false, none, some, List, [], ◌∷◌, arith, inl, inr, to_le_bytes,
}
use Prim.Native.String.{String}
use ignition.Bus.{state_invalid}
use ignition.Ram.{GuestRam}
use ignition.Queue
use ignition.Queue.{Virtqueue, set_indices}
use ignition.Mmio.{
  VirtioDevice, VirtioMmio, VirtioMmioState, InputEvent, default, new, ready_vq, finish, raise,
  signal_config_change,
}
use ignition.Mmio.Regs.{
  notify, inject_rx, inject_input, poll_vsock_rx, read_reg, read, write, write_reg,
}
use ignition.Mmio.State.{save_state, restore}
use ignition.Mmio.Line.{IsConsistent, level}
use ignition.Mmio.Calls.{here, next, config_change, Reach-IsConsistent}
use ignition.Mmio.Setup.{RingSetup, set_up, setup_writes, write_all, write_all-setup_writes}
use ignition.Mmio.Quiet.{guest_writes, reset_quiet}
use ignition.Mmio.Saved.{restore-save_state, restore-mismatch}

-- A device with two queues that counts its notifications.
abbrev counter : VirtioDevice ℕ ℕ
counter = record {
  device_id = λ s. 4;
  device_features = λ s sel. 0;
  config_read = λ s off block. block;
  config_write = λ s off block. s;
  queue_count = λ s. 2;
  handle_notify = λ s idx vq mem. some (true, s + 1, vq, mem);
  inject_rx = λ s vq mem block. (false, s, vq, mem);
  inject_input = λ s vq mem events. (false, s, vq, mem);
  fill_rx = λ s vq mem. some (false, s, vq, mem);
  set_display_mode = λ s w h. (false, s);
  set_display_enabled = λ s en. (false, s);
  set_link = λ s up. s;
  save = λ s. s;
  restore = λ s j. (none, j);
}

abbrev ram : GuestRam
ram = record { bytes = []; base = 0x4000_0000; dirty = none }

abbrev fresh : VirtioMmio ℕ
fresh = record {
  id = "counter";
  dev = 0;
  mem = ram;
  set_spi = [];
  queues = default ∷ default ∷ [];
  status = 0;
  device_features_sel = 0;
  queue_sel = 0;
  interrupt_status = 0;
}

new-fresh : new counter "counter" 0 ram ≡ fresh
unfolding new
new-fresh = refl

reads_magic : read counter fresh 0 (0 ∷ 0 ∷ 0 ∷ 0 ∷ []) ≡ 0x76 ∷ 0x69 ∷ 0x72 ∷ 0x74 ∷ []
unfolding read read_reg
reads_magic = refl

abbrev ring : RingSetup
ring = record {
  num = 8;
  desc_lo = 0x4000_1000;
  desc_hi = 0;
  driver_lo = 0x4000_2000;
  driver_hi = 0;
  device_lo = 0x4000_3000;
  device_hi = 1;
}

abbrev running : VirtioMmio ℕ
running = record fresh { queues = default ∷ set_up ring ∷ []; queue_sel = 1 }

write_all-setup_writes_example :
    (write_all counter fresh (setup_writes 1 ring) ≡ some running)
    × (ready_vq running 1 ≡ some (Queue.new 8 0x4000_1000 0x4000_2000 0x1_4000_3000))
write_all-setup_writes_example =
    write_all-setup_writes counter fresh 1 (omega arith) ring default refl (omega arith)

-- A notification of the queue that was set up, as a step.
notified : VirtioMmio ℕ
notified = raise (record running { dev = 1 })

notify_raises : write counter running 0x050 (to_le_bytes 4 1) ≡ some notified
unfolding write write_reg notify ready_vq finish notified
notify_raises = refl

Reach-IsConsistent_example : IsConsistent false (signal_config_change fresh)
unfolding new
Reach-IsConsistent_example = Reach-IsConsistent counter "counter" 0 ram (next here config_change)

-- The driver writes a new size and asks for a notification of a queue that is not ready.
abbrev later : List (ℕ × List ℕ)
later = (0x038, to_le_bytes 4 16) ∷ (0x050, to_le_bytes 4 1) ∷ []

reset_quiet_example :
    (m' : VirtioMmio ℕ) × (guest_writes counter notified ((0x070, to_le_bytes 4 0) ∷ later)
      ≡ some m')
    × (m'.interrupt_status ≡ 0)
    × (level m'.set_spi ≡ false)
    × ((idx : ℕ) → notify counter m' idx ≡ some m')
    × ((block : List ℕ) → inject_rx counter m' block ≡ (false, m'))
    × ((events : List InputEvent) → inject_input counter m' events ≡ (false, m'))
    × (poll_vsock_rx counter m' ≡ some (false, m'))
reset_quiet_example = reset_quiet counter notified later (omega arith)

abbrev wording : ℕ → ℕ → String
wording a b = "queue count"

restore-save_state_example :
    let (refused, back) = restore counter wording fresh (save_state counter running) in
    (refused ≡ none)
    × (back.queues ≡ running.queues)
    × (save_state counter back ≡ save_state counter running)
unfolding set_indices Queue.new
restore-save_state_example =
    restore-save_state counter wording running fresh refl
      (inl (refl, refl), (inr (omega arith, 0, 0, refl), tt)) refl refl

abbrev one_queue : VirtioMmioState ℕ
one_queue = record {
  status = 0;
  queue_sel = 0;
  device_features_sel = 0;
  interrupt_status = 0;
  queues = [];
  dev = 0;
}

restore-mismatch_example :
    restore counter wording fresh one_queue ≡ (some (state_invalid "counter" "queue count"), fresh)
restore-mismatch_example = restore-mismatch counter wording fresh fresh one_queue (omega arith)
