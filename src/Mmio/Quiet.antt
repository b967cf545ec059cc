-- ===== src/Mmio/Quiet.antt =====
-- A transport after a reset, as long as the guest sets no queue ready.
use ignition.Base.{
  ℕ, ◌==◌, leb, true, false, ◌≡◌, ◌≢◌, refl, ◌⊎◌, inl, inr, Option, none, some, List, [], ◌∷◌, map,
  get_elem?, length, from_le_bytes, to_le_bytes, bit_and, bit_and-zero, arith, All, All-set,
  All-get_elem?, Option-cases, Bool-cases, if-both, ◌^◌, ◌-◌,
}
use ignition.Mmio.{
  VirtioDevice, VirtioMmio, QueueState, InputEvent, default, reset, set_addr, set_queue_ready,
  set_status, acknowledge, ready_vq,
}
use ignition.Mmio.Regs.{
  notify, inject_rx, inject_input, poll_vsock_rx, write_queue_reg, write_reg, write,
}
use ignition.Mmio.Line.{level}
use ignition.Mmio.Setup.{write-word}

abbrev IsIdle : QueueState → Type 0
IsIdle q = (q.ready ≡ 0) × (q.vq ≡ none)

-- No interrupt is pending, the line is low and no queue is ready.
record IsQuiet {S : Type 0} (m : VirtioMmio S) : Type 0 where
  pending : m.interrupt_status ≡ 0
  low : level m.set_spi ≡ false
  idle : All IsIdle m.queues

All-IsIdle : (qs : List QueueState) → All IsIdle (map (λ _. default) qs)
All-IsIdle [] = tt
All-IsIdle (q ∷ qs) = ((refl, refl), All-IsIdle qs)

module _ {S : Type 0} where
  IsQuiet-ready_vq : (m : VirtioMmio S) (idx : ℕ) → IsQuiet m → ready_vq m idx ≡ none
  unfolding ready_vq
  IsQuiet-ready_vq m idx k = elim (Option-cases (get_elem? m.queues idx)) [
    | inl e ↦ ground (arith, e)
    | inr (q, e) ↦ let at = All-get_elem? IsIdle m.queues idx q k.idle e in ground (arith, e, at.0)
  ]

  set_addr-IsQuiet :
      (m : VirtioMmio S) (sel : ℕ) (f : QueueState → QueueState)
      → ((q : QueueState) → IsIdle q → IsIdle (f q))
      → IsQuiet m
      → IsQuiet (set_addr m sel f)
  unfolding set_addr
  set_addr-IsQuiet m sel f keeps k = elim (Option-cases (get_elem? m.queues sel)) [
    | inl e ↦ rw (e, set_addr) k
    | inr (q, e) ↦
        rw (e, set_addr)
          (record {
            pending = k.pending;
            low = k.low;
            idle =
                All-set IsIdle m.queues sel (f q) k.idle
                  (keeps q (All-get_elem? IsIdle m.queues sel q k.idle e));
          })
  ]

  reset-IsQuiet : (m : VirtioMmio S) → IsQuiet (reset m)
  unfolding reset
  reset-IsQuiet m = record { pending = refl; low = refl; idle = All-IsIdle m.queues }

  set_status-IsQuiet : (m : VirtioMmio S) (val : ℕ) → IsQuiet m → IsQuiet (set_status m val)
  unfolding set_status
  set_status-IsQuiet m val k =
      if-both IsQuiet (val == 0) (reset-IsQuiet (record m { status = val }))
        (record { pending = k.pending; low = k.low; idle = k.idle })

  acknowledge-IsQuiet : (m : VirtioMmio S) (val : ℕ) → IsQuiet m → IsQuiet (acknowledge m val)
  unfolding acknowledge
  acknowledge-IsQuiet m val k =
      let gone : bit_and m.interrupt_status (2 ^ 32 - 1 - val) ≡ 0 =
        rw k.pending (bit_and-zero (2 ^ 32 - 1 - val)) in
      record { pending = gone; low = ground (arith, k.low, gone); idle = k.idle }

  set_queue_ready-IsQuiet :
      (m : VirtioMmio S) (sel val : ℕ) → val ≡ 0 → IsQuiet m → IsQuiet (set_queue_ready m sel val)
  unfolding set_queue_ready
  set_queue_ready-IsQuiet m sel val z k = set_addr-IsQuiet m sel _ (λ q i. ground (arith, z)) k

module _ {S J : Type 0} (trait : VirtioDevice S J) where
  -- Guest writes, one after the other: offsets and bytes.
  abbrev pub guest_writes : VirtioMmio S → List (ℕ × List ℕ) → Option (VirtioMmio S)
  guest_writes m [] = some m
  guest_writes m ((off, block) ∷ ws) = elim (write trait m off block) [
    | none ↦ none
    | some m' ↦ guest_writes m' ws
  ]

  write_queue_reg-IsQuiet :
      (m : VirtioMmio S) (off val : ℕ)
      → (off ≢ 0x044) ⊎ (val ≡ 0)
      → IsQuiet m
      → IsQuiet (write_queue_reg trait m off val)
  unfolding write_queue_reg
  write_queue_reg-IsQuiet m off val h k =
      let sel = m.queue_sel in
      let P = IsQuiet {S = S} in
      let plain =
        λ (f : QueueState → QueueState) (same : (q : QueueState) → IsIdle q → IsIdle (f q)).
          set_addr-IsQuiet m sel f same k in
      let zeroed : (off == 0x044) ≡ true → val ≡ 0 = λ e. ground arith in
      let others = if-both P (off == 0x080) (plain _ (λ q b. b)) (
        if-both P (off == 0x084) (plain _ (λ q b. b)) (
          if-both P (off == 0x090) (plain _ (λ q b. b)) (
            if-both P (off == 0x094) (plain _ (λ q b. b)) (
              if-both P (off == 0x0a0) (plain _ (λ q b. b))
                (if-both P (off == 0x0a4) (plain _ (λ q b. b)) k))))) in
      if-both P (off == 0x038) (plain _ (λ q b. b)) (elim (Bool-cases (off == 0x044)) [
        | inl e ↦ rw e (set_queue_ready-IsQuiet m sel val (zeroed e) k)
        | inr e ↦ rw e others
      ])

  write_reg-IsQuiet :
      (m : VirtioMmio S) (off val : ℕ)
      → (off ≢ 0x044) ⊎ (val ≡ 0)
      → IsQuiet m
      → (m' : VirtioMmio S) × (write_reg trait m off val ≡ some m') × IsQuiet m'
  unfolding write_reg notify
  write_reg-IsQuiet m off val h k =
      let P = λ (o : Option (VirtioMmio S)). (m' : VirtioMmio S) × (o ≡ some m') × IsQuiet m' in
      let at : (x : VirtioMmio S) → IsQuiet x → P (some x) = λ x c. (x, refl, c) in
      let missed : P (notify trait m val) = (m, rw (IsQuiet-ready_vq m val k, notify) refl, k) in
      if-both P (off == 0x014) (at _ (record { pending = k.pending; low = k.low; idle = k.idle })) (
        if-both P (off == 0x030) (at _ (record { pending = k.pending; low = k.low; idle = k.idle }))
          (if-both P (off == 0x050) missed (
            if-both P (off == 0x064) (at _ (acknowledge-IsQuiet m val k)) (
              if-both P (off == 0x070) (at _ (set_status-IsQuiet m val k))
                (at _ (write_queue_reg-IsQuiet m off val h k))))))

  write-IsQuiet :
      (m : VirtioMmio S) (off : ℕ) (block : List ℕ)
      → (off ≢ 0x044) ⊎ (from_le_bytes block ≡ 0)
      → IsQuiet m
      → (m' : VirtioMmio S) × (write trait m off block ≡ some m') × IsQuiet m'
  unfolding write
  write-IsQuiet m off block h k =
      let P = λ (o : Option (VirtioMmio S)). (m' : VirtioMmio S) × (o ≡ some m') × IsQuiet m' in
      if-both P (leb 0x100 off)
        (_, refl, record { pending = k.pending; low = k.low; idle = k.idle })
        (if-both P (length block == 4) (write_reg-IsQuiet m off (from_le_bytes block) h k)
          (m, refl, k))

  -- No write sets a queue ready: none puts a value other than zero into the ready register.
  abbrev pub SetsNoneReady : List (ℕ × List ℕ) → Type 0
  SetsNoneReady ws = All (λ w. (w.0 ≢ 0x044) ⊎ (from_le_bytes w.1 ≡ 0)) ws

  guest_writes-IsQuiet :
      (m : VirtioMmio S) (ws : List (ℕ × List ℕ))
      → SetsNoneReady ws
      → IsQuiet m
      → (m' : VirtioMmio S) × (guest_writes m ws ≡ some m') × IsQuiet m'
  guest_writes-IsQuiet m [] h k = (m, refl, k)
  guest_writes-IsQuiet m ((off, block) ∷ ws) h k =
      let (m1, e, k1) = write-IsQuiet m off block h.0 k in
      let (m', rest, k') = guest_writes-IsQuiet m1 ws h.1 k1 in (m', rw (e, guest_writes) rest, k')

  -- Writing zero to the status register resets the transport. After it, whatever the guest writes
  -- as long as it sets no queue ready, every write succeeds, no interrupt is pending, the line is
  -- low, and no notification, frame, input event or poll reaches the device.
  pub reset_quiet :
      (m : VirtioMmio S) (ws : List (ℕ × List ℕ))
      → SetsNoneReady ws
      → (m' : VirtioMmio S) × (guest_writes m ((0x070, to_le_bytes 4 0) ∷ ws) ≡ some m')
        × (m'.interrupt_status ≡ 0)
        × (level m'.set_spi ≡ false)
        × ((idx : ℕ) → notify trait m' idx ≡ some m')
        × ((frame : List ℕ) → inject_rx trait m' frame ≡ (false, m'))
        × ((events : List InputEvent) → inject_input trait m' events ≡ (false, m'))
        × (poll_vsock_rx trait m' ≡ some (false, m'))
  unfolding write_reg set_status notify inject_rx inject_input poll_vsock_rx
  reset_quiet m ws h =
      let m1 = reset (record m { status = 0 }) in
      let wrote = write-word trait m 0x070 0 (omega arith) (omega arith) in
      let (m', run, k) = guest_writes-IsQuiet m1 ws h (reset-IsQuiet (record m { status = 0 })) in
      let unread = IsQuiet-ready_vq m' 0 k in
      (
        m',
        rw (wrote, guest_writes) run,
        k.pending,
        k.low,
        λ idx. rw (IsQuiet-ready_vq m' idx k, notify) refl,
        λ frame. rw (unread, inject_rx) refl,
        λ events. rw (unread, inject_input) refl,
        rw (unread, poll_vsock_rx) refl,
      )
