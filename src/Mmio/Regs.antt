-- ===== src/Mmio/Regs.antt =====
-- crates/devices/src/virtio/mmio.rs: the registers as the guest reads and writes them, and the calls
-- of the host's threads.
use ignition.Base.{
  ℕ, ◌-◌, ◌^◌, ◌%◌, ◌==◌, leb, if◌then◌else◌, Bool, false, Option, none, some, List, get_elem?,
  length, bit_or, bit_and, to_le_bytes, from_le_bytes,
}
use ignition.Mmio.{
  VirtioDevice, VirtioMmio, InputEvent, ready_vq, finish, signal_config_change, set_addr,
  set_queue_ready, acknowledge, set_status,
}

module _ {S J : Type 0} (trait : VirtioDevice S J) where
  unfoldable pub read_reg : VirtioMmio S → ℕ → ℕ
  read_reg m off =
      if off == 0x000
      then 0x7472_6976
      else if off == 0x004
      then 2
      else if off == 0x008
      then trait.device_id m.dev
      else if off == 0x00c
      then 0x4b4e_5246
      else if off == 0x010
      then (if m.device_features_sel == 1
          then bit_or 1 (trait.device_features m.dev 1)
          else trait.device_features m.dev 0)
      else if off == 0x034
      then 256
      else if off == 0x044
      then (elim (get_elem? m.queues m.queue_sel) [ none ↦ 0 | some q ↦ q.ready ])
      else if off == 0x060
      then m.interrupt_status
      else if off == 0x070
      then m.status
      else if off == 0x0b0
      then 0xffff_ffff
      else if off == 0x0b4
      then 0xffff_ffff
      else 0

  -- `none` is a handler that does not return.
  unfoldable pub notify : VirtioMmio S → ℕ → Option (VirtioMmio S)
  notify m idx = elim (ready_vq m idx) [
    | none ↦ some m
    | some vq ↦ elim (trait.handle_notify m.dev idx vq m.mem) [
      | none ↦ none
      | some out ↦ some (finish m idx out).1
    ]
  ]

  unfoldable pub inject_rx : VirtioMmio S → List ℕ → Bool × VirtioMmio S
  inject_rx m frame = elim (ready_vq m 0) [
    | none ↦ (false, m)
    | some vq ↦ finish m 0 (trait.inject_rx m.dev vq m.mem frame)
  ]

  unfoldable pub inject_input : VirtioMmio S → List InputEvent → Bool × VirtioMmio S
  inject_input m events = elim (ready_vq m 0) [
    | none ↦ (false, m)
    | some vq ↦ finish m 0 (trait.inject_input m.dev vq m.mem events)
  ]

  unfoldable pub poll_vsock_rx : VirtioMmio S → Option (Bool × VirtioMmio S)
  poll_vsock_rx m = elim (ready_vq m 0) [
    | none ↦ some (false, m)
    | some vq ↦ elim (trait.fill_rx m.dev vq m.mem) [
      | none ↦ none
      | some out ↦ some (finish m 0 out)
    ]
  ]

  unfoldable pub net_set_link : VirtioMmio S → Bool → VirtioMmio S
  unfolding signal_config_change
  net_set_link m up = signal_config_change (record m { dev = trait.set_link m.dev up })

  unfoldable pub display_set_mode : VirtioMmio S → ℕ → ℕ → VirtioMmio S
  unfolding signal_config_change
  display_set_mode m w h =
      let (handled, dev) = trait.set_display_mode m.dev w h in
      let m1 : VirtioMmio S = record m { dev = dev } in
      if handled then signal_config_change m1 else m1

  unfoldable pub display_set_enabled : VirtioMmio S → Bool → VirtioMmio S
  unfolding signal_config_change
  display_set_enabled m en =
      let (handled, dev) = trait.set_display_enabled m.dev en in
      let m1 : VirtioMmio S = record m { dev = dev } in
      if handled then signal_config_change m1 else m1

  -- The registers of one queue.
  unfoldable pub write_queue_reg : VirtioMmio S → ℕ → ℕ → VirtioMmio S
  unfolding set_addr set_queue_ready
  write_queue_reg m off val =
      let sel = m.queue_sel in
      if off == 0x038
      then set_addr m sel (λ q. record q { num = val % 2 ^ 16 })
      else if off == 0x044
      then set_queue_ready m sel val
      else if off == 0x080
      then set_addr m sel (λ q. record q { desc_lo = val })
      else if off == 0x084
      then set_addr m sel (λ q. record q { desc_hi = val })
      else if off == 0x090
      then set_addr m sel (λ q. record q { driver_lo = val })
      else if off == 0x094
      then set_addr m sel (λ q. record q { driver_hi = val })
      else if off == 0x0a0
      then set_addr m sel (λ q. record q { device_lo = val })
      else if off == 0x0a4
      then set_addr m sel (λ q. record q { device_hi = val })
      else m

  unfoldable pub write_reg : VirtioMmio S → ℕ → ℕ → Option (VirtioMmio S)
  write_reg m off val =
      if off == 0x014
      then some (record m { device_features_sel = bit_and val 1 })
      else if off == 0x030
      then some (record m { queue_sel = val })
      else if off == 0x050
      then notify m val
      else if off == 0x064
      then some (acknowledge m val)
      else if off == 0x070
      then some (set_status m val)
      else some (write_queue_reg m off val)

  -- `BusDevice::read`: a register read that is not of four bytes leaves the data as they were.
  unfoldable pub read : VirtioMmio S → ℕ → List ℕ → List ℕ
  read m off data' =
      if leb 0x100 off
      then trait.config_read m.dev (off - 0x100) data'
      else if length data' == 4
      then to_le_bytes 4 (read_reg m off)
      else data'

  -- `BusDevice::write`.
  unfoldable pub write : VirtioMmio S → ℕ → List ℕ → Option (VirtioMmio S)
  write m off data' =
      if leb 0x100 off
      then some (record m { dev = trait.config_write m.dev (off - 0x100) data' })
      else if length data' == 4
      then write_reg m off (from_le_bytes data')
      else some m
