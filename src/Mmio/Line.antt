-- ===== src/Mmio/Line.antt =====
-- The interrupt line and the queues of a transport, kept right by every call of the guest and of
-- the host's threads.
use ignition.Base.{
  ℕ, ◌==◌, not, Bool, true, false, ◌≡◌, ◌≢◌, refl, ◌⊎◌, inl, inr, Option, none, some, List, [], ◌∷◌,
  map, get_elem?, arith, All, All-set, All-get_elem?, Option-cases, Bool-cases, if-both,
  bit_or-pow_ne, bit_and, bit_and-zero, ◌^◌, ◌-◌, subst,
}
use ignition.Ram.{GuestRam}
use ignition.Queue.{Virtqueue}
use ignition.Mmio.{
  VirtioDevice, VirtioMmio, QueueState, Served, default, programmed, raise, signal_config_change,
  set_addr, set_queue_ready, acknowledge, set_status, ready_vq, store_served, finish,
}
use ignition.Mmio.Regs.{notify, write_queue_reg, write_reg}

-- The level that the line was last driven to.
abbrev pub level : List Bool → Bool
level [] = false
level (b ∷ calls) = b

-- A queue is either not ready and has no ring, or ready and has one.
abbrev pub IsBuilt : QueueState → Type 0
IsBuilt q = ((q.ready ≡ 0) × (q.vq ≡ none)) ⊎ ((q.ready ≢ 0) × (vq : Virtqueue) × (q.vq ≡ some vq))

-- The line is high exactly while an interrupt is pending, unless a snapshot's state was `restored`,
-- and every queue is built as its ready register says.
pub record IsConsistent {S : Type 0} (restored : Bool) (m : VirtioMmio S) : Type 0 where
  pub line : (restored ≡ true) ⊎ (level m.set_spi ≡ not (m.interrupt_status == 0))
  pub built : All IsBuilt m.queues

All-default : (qs : List QueueState) → All IsBuilt (map (λ _. default) qs)
All-default [] = tt
All-default (q ∷ qs) = (inl (refl, refl), All-default qs)

module _ {S : Type 0} {r : Bool} where
  set_addr-IsConsistent :
      (m : VirtioMmio S) (sel : ℕ) (f : QueueState → QueueState)
      → ((q : QueueState) → get_elem? m.queues sel ≡ some q → IsBuilt q → IsBuilt (f q))
      → IsConsistent r m
      → IsConsistent r (set_addr m sel f)
  unfolding set_addr
  set_addr-IsConsistent m sel f keeps k = elim (Option-cases (get_elem? m.queues sel)) [
    | inl e ↦ rw (e, set_addr) k
    | inr (q, e) ↦
        rw (e, set_addr)
          (record {
            line = k.line;
            built =
                All-set IsBuilt m.queues sel (f q) k.built
                  (keeps q e (All-get_elem? IsBuilt m.queues sel q k.built e));
          })
  ]

  raise-IsConsistent : (m : VirtioMmio S) → IsConsistent r m → IsConsistent r (raise m)
  unfolding raise
  raise-IsConsistent m k = record {
    line = inr (ground (arith, bit_or-pow_ne m.interrupt_status 0));
    built = k.built;
  }

  pub signal-IsConsistent :
      (m : VirtioMmio S) → IsConsistent r m → IsConsistent r (signal_config_change m)
  unfolding signal_config_change
  signal-IsConsistent m k = record {
    line = inr (ground (arith, bit_or-pow_ne m.interrupt_status 1));
    built = k.built;
  }

  set_status-IsConsistent :
      (m : VirtioMmio S) (val : ℕ) → IsConsistent r m → IsConsistent r (set_status m val)
  unfolding set_status
  set_status-IsConsistent m val k = elim (Bool-cases (val == 0)) [
    | inl e ↦ rw e (record { line = inr refl; built = All-default m.queues })
    | inr e ↦ rw e (record { line = k.line; built = k.built })
  ]

  acknowledge-IsConsistent :
      (m : VirtioMmio S) (val : ℕ) → IsConsistent r m → IsConsistent r (acknowledge m val)
  unfolding acknowledge
  acknowledge-IsConsistent m val k =
      let left = bit_and m.interrupt_status (2 ^ 32 - 1 - val) in
      let gone : m.interrupt_status ≡ 0 → left ≡ 0 = λ e. rw e (bit_and-zero (2 ^ 32 - 1 - val)) in
      record {
        line = elim k.line [ inl e ↦ inl e | inr l ↦ inr (ground (arith, l, gone)) ];
        built = k.built;
      }

  store_served-IsConsistent :
      (m : VirtioMmio S) (idx : ℕ) (vq : Virtqueue) (dev : S) (vq' : Virtqueue) (mem : GuestRam)
      → ready_vq m idx ≡ some vq
      → IsConsistent r m
      → IsConsistent r (store_served m idx dev vq' mem)
  unfolding store_served ready_vq
  store_served-IsConsistent m idx vq dev vq' mem ready k =
      let m1 : VirtioMmio S = record m { dev = dev; mem = mem } in
      set_addr-IsConsistent m1 idx (λ q. record q { vq = some vq' })
        (λ q e b. inr (ground (arith, e), vq', refl)) (record { line = k.line; built = k.built })

  pub finish-IsConsistent :
      (m : VirtioMmio S) (idx : ℕ) (vq : Virtqueue) (out : Served S)
      → ready_vq m idx ≡ some vq
      → IsConsistent r m
      → IsConsistent r (finish m idx out).1
  unfolding finish
  finish-IsConsistent m idx vq (used, dev, vq', mem) ready k =
      let served = store_served-IsConsistent m idx vq dev vq' mem ready k in
      elim (Bool-cases used) [
        | inl e ↦ rw e (raise-IsConsistent (store_served m idx dev vq' mem) served)
        | inr e ↦ rw e served
      ]

  set_queue_ready-IsConsistent :
      (m : VirtioMmio S) (sel val : ℕ)
      → IsConsistent r m
      → IsConsistent r (set_queue_ready m sel val)
  unfolding set_queue_ready
  set_queue_ready-IsConsistent m sel val k =
      set_addr-IsConsistent m sel _
        (λ q e b.
          if-both IsBuilt (val == 0) (inl (refl, refl)) (inr (omega arith, programmed q, refl)))
        k

module _ {S J : Type 0} (trait : VirtioDevice S J) {r : Bool} where
  notify-IsConsistent :
      (m : VirtioMmio S) (idx : ℕ) {m' : VirtioMmio S}
      → notify trait m idx ≡ some m'
      → IsConsistent r m
      → IsConsistent r m'
  unfolding notify
  notify-IsConsistent m idx {m'} h k = elim (Option-cases (ready_vq m idx)) [
    | inl e ↦ let same : m ≡ m' = ground arith in subst (IsConsistent r) same k
    | inr (vq, e) ↦ elim (Option-cases (trait.handle_notify m.dev idx vq m.mem)) [
      | inl stuck ↦ absurd (ground arith)
      | inr (out, o) ↦
          let same : (finish m idx out).1 ≡ m' = ground arith in
          subst (IsConsistent r) same (finish-IsConsistent m idx vq out e k)
    ]
  ]

  write_queue_reg-IsConsistent :
      (m : VirtioMmio S) (off val : ℕ)
      → IsConsistent r m
      → IsConsistent r (write_queue_reg trait m off val)
  unfolding write_queue_reg
  write_queue_reg-IsConsistent m off val k =
      let sel = m.queue_sel in
      let P = IsConsistent {S = S} r in
      let plain =
        λ (f : QueueState → QueueState) (same : (q : QueueState) → IsBuilt q → IsBuilt (f q)).
          set_addr-IsConsistent m sel f (λ q e b. same q b) k in
      if-both P (off == 0x038) (plain _ (λ q b. b)) (
        if-both P (off == 0x044) (set_queue_ready-IsConsistent m sel val k) (
          if-both P (off == 0x080) (plain _ (λ q b. b)) (
            if-both P (off == 0x084) (plain _ (λ q b. b)) (
              if-both P (off == 0x090) (plain _ (λ q b. b)) (
                if-both P (off == 0x094) (plain _ (λ q b. b)) (
                  if-both P (off == 0x0a0) (plain _ (λ q b. b))
                    (if-both P (off == 0x0a4) (plain _ (λ q b. b)) k)))))))

  pub write_reg-IsConsistent :
      (m : VirtioMmio S) (off val : ℕ) {m' : VirtioMmio S}
      → write_reg trait m off val ≡ some m'
      → IsConsistent r m
      → IsConsistent r m'
  unfolding write_reg
  write_reg-IsConsistent m off val {m'} h k =
      let P = λ (o : Option (VirtioMmio S)). (o ≡ some m') → IsConsistent r m' in
      let at = λ (x : VirtioMmio S) (c : IsConsistent r x) (e : some x ≡ some m').
        let same : x ≡ m' = cc in subst (IsConsistent r) same c in
      if-both P (off == 0x014) (at _ (record { line = k.line; built = k.built }))
        (if-both P (off == 0x030) (at _ (record { line = k.line; built = k.built })) (
          if-both P (off == 0x050) (λ e. notify-IsConsistent m val e k)
            (if-both P (off == 0x064) (at _ (acknowledge-IsConsistent m val k)) (
              if-both P (off == 0x070) (at _ (set_status-IsConsistent m val k))
                (at _ (write_queue_reg-IsConsistent m off val k))))))
        h
