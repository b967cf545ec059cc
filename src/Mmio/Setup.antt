-- ===== src/Mmio/Setup.antt =====
-- The driver's set-up of a queue, register by register.
use ignition.Base.{
  subst, bit_or-beside, ◌*◌, ◌+◌, ℕ, ◌%◌, ◌^◌, ◌<◌, leb, false, ◌≡◌, refl, ap, ◌∙◌, Option, none,
  some, List, [], ◌∷◌, get_elem?, set, length, arith, to_le_bytes, from_le_bytes,
  from_le_bytes-to_le_bytes, get_elem?-set_self, set-set, set-get_elem?,
}
use ignition.Queue
use ignition.Queue.{Virtqueue}
use ignition.Mmio.{
  VirtioDevice, VirtioMmio, QueueState, programmed, address, set_addr, set_queue_ready, ready_vq,
}
use ignition.Mmio.Regs.{write_queue_reg, write_reg, write}

-- What the driver programs of a queue.
pub record RingSetup : Type 0 where
  pub num : ℕ
  pub desc_lo : ℕ
  pub desc_hi : ℕ
  pub driver_lo : ℕ
  pub driver_hi : ℕ
  pub device_lo : ℕ
  pub device_hi : ℕ

-- The queue after the set-up: each address is the sum of its halves, the upper times 2^32.
abbrev pub set_up : RingSetup → QueueState
set_up r =
    let num = r.num % 2 ^ 16 in
    record {
      num = num;
      ready = 1;
      desc_lo = r.desc_lo;
      desc_hi = r.desc_hi;
      driver_lo = r.driver_lo;
      driver_hi = r.driver_hi;
      device_lo = r.device_lo;
      device_hi = r.device_hi;
      vq = some (
          Queue.new num (r.desc_hi * 2 ^ 32 + r.desc_lo) (r.driver_hi * 2 ^ 32 + r.driver_lo)
            (r.device_hi * 2 ^ 32 + r.device_lo));
    }

-- The queue as the code builds it.
abbrev built : RingSetup → QueueState
built r =
    let num = r.num % 2 ^ 16 in
    record {
      num = num;
      ready = 1;
      desc_lo = r.desc_lo;
      desc_hi = r.desc_hi;
      driver_lo = r.driver_lo;
      driver_hi = r.driver_hi;
      device_lo = r.device_lo;
      device_hi = r.device_hi;
      vq = some (
          Queue.new num (address r.desc_hi r.desc_lo) (address r.driver_hi r.driver_lo)
            (address r.device_hi r.device_lo));
    }

-- The writes of a driver that sets up queue `sel`: offsets and values.
abbrev pub setup_writes : ℕ → RingSetup → List (ℕ × ℕ)
setup_writes sel r =
    (0x030, sel)
    ∷ (0x038, r.num)
    ∷ (0x080, r.desc_lo)
    ∷ (0x084, r.desc_hi)
    ∷ (0x090, r.driver_lo)
    ∷ (0x094, r.driver_hi)
    ∷ (0x0a0, r.device_lo)
    ∷ (0x0a4, r.device_hi)
    ∷ (0x044, 1)
    ∷ []

-- Every value is a 32-bit word.
abbrev pub AllWords : List (ℕ × ℕ) → Type 0
AllWords [] = Unit
AllWords ((off, val) ∷ ws) = (val < 2 ^ 32) × AllWords ws

built-set_up : (sel : ℕ) (r : RingSetup) → AllWords (setup_writes sel r) → built r ≡ set_up r
built-set_up sel r words =
    let glued = λ (h l : ℕ) (low : l < 2 ^ 32). bit_or-beside 32 h l low in
    rw
      (
        glued r.desc_hi r.desc_lo words.1.1.0,
        glued r.driver_hi r.driver_lo words.1.1.1.1.0,
        glued r.device_hi r.device_lo words.1.1.1.1.1.1.0,
      )
      refl

module _ {S J : Type 0} (trait : VirtioDevice S J) where
  -- Guest writes of whole words, one after the other.
  abbrev pub write_all : VirtioMmio S → List (ℕ × ℕ) → Option (VirtioMmio S)
  write_all m [] = some m
  write_all m ((off, val) ∷ ws) = elim (write trait m off (to_le_bytes 4 val)) [
    | none ↦ none
    | some m' ↦ write_all m' ws
  ]

  write_all-cons :
      (m : VirtioMmio S) (off val : ℕ) (ws : List (ℕ × ℕ)) {m' : VirtioMmio S}
      {o : Option (VirtioMmio S)}
      → write trait m off (to_le_bytes 4 val) ≡ some m'
      → write_all m' ws ≡ o
      → write_all m ((off, val) ∷ ws) ≡ o
  write_all-cons m off val ws e rest = rw (e, write_all) rest

  -- A write of a whole word to a register reaches it.
  pub write-word :
      (m : VirtioMmio S) (off val : ℕ)
      → off < 0x100
      → val < 2 ^ 32
      → write trait m off (to_le_bytes 4 val) ≡ write_reg trait m off val
  unfolding write
  write-word m off val o v =
      let e : from_le_bytes (to_le_bytes 4 val) ≡ val = from_le_bytes-to_le_bytes 4 val v in
      let low : leb 0x100 off ≡ false = ground arith in rw (low, e) refl

  -- Queue `sel`, selected and with the contents `q`.
  module _ (m : VirtioMmio S) (sel : ℕ) (there : sel < length m.queues) where
    abbrev at : QueueState → VirtioMmio S
    at q = record m { queue_sel = sel; queues = set m.queues sel q }

    set_addr-at : (q : QueueState) (f : QueueState → QueueState) → set_addr (at q) sel f ≡ at (f q)
    unfolding set_addr
    set_addr-at q f =
        rw (get_elem?-set_self m.queues sel q there, set_addr, set-set m.queues sel q (f q)) refl

    write-at :
        (off val : ℕ) (q : QueueState) (f : QueueState → QueueState)
        → off < 0x100
        → val < 2 ^ 32
        → write_reg trait (at q) off val ≡ some (set_addr (at q) sel f)
        → write trait (at q) off (to_le_bytes 4 val) ≡ some (at (f q))
    write-at off val q f o v e = write-word (at q) off val o v ∙ e ∙ ap some (set_addr-at q f)

    -- A driver that selects a queue that is there, writes 32-bit words for its size and the halves
    -- of its three addresses and then sets it ready gets exactly the ring that it described, its
    -- size taken modulo 2^16 and each address the sum of its halves, and no other queue changes.
    pub write_all-setup_writes :
        (r : RingSetup) (q : QueueState)
        → get_elem? m.queues sel ≡ some q
        → AllWords (setup_writes sel r)
        → (write_all m (setup_writes sel r) ≡ some (at (set_up r)))
          × (ready_vq (at (set_up r)) sel ≡ (set_up r).vq)
    unfolding write_reg write_queue_reg set_queue_ready ready_vq
    write_all-setup_writes r q old words =
        let selected : record m { queue_sel = sel } ≡ at q =
          ground (arith, set-get_elem? m.queues sel q old) in
        let e0 = write-word m 0x030 sel (omega arith) words.0 ∙ ap some selected in
        let e1 =
          write-at 0x038 r.num q (λ x. record x { num = r.num % 2 ^ 16 }) (omega arith) words.1.0
            refl in
        let q1 : QueueState = record q { num = r.num % 2 ^ 16 } in
        let e2 =
          write-at 0x080 r.desc_lo q1 (λ x. record x { desc_lo = r.desc_lo }) (omega arith)
            words.1.1.0 refl in
        let q2 : QueueState = record q1 { desc_lo = r.desc_lo } in
        let e3 =
          write-at 0x084 r.desc_hi q2 (λ x. record x { desc_hi = r.desc_hi }) (omega arith)
            words.1.1.1.0 refl in
        let q3 : QueueState = record q2 { desc_hi = r.desc_hi } in
        let e4 =
          write-at 0x090 r.driver_lo q3 (λ x. record x { driver_lo = r.driver_lo }) (omega arith)
            words.1.1.1.1.0 refl in
        let q4 : QueueState = record q3 { driver_lo = r.driver_lo } in
        let e5 =
          write-at 0x094 r.driver_hi q4 (λ x. record x { driver_hi = r.driver_hi }) (omega arith)
            words.1.1.1.1.1.0 refl in
        let q5 : QueueState = record q4 { driver_hi = r.driver_hi } in
        let e6 =
          write-at 0x0a0 r.device_lo q5 (λ x. record x { device_lo = r.device_lo }) (omega arith)
            words.1.1.1.1.1.1.0 refl in
        let q6 : QueueState = record q5 { device_lo = r.device_lo } in
        let e7 =
          write-at 0x0a4 r.device_hi q6 (λ x. record x { device_hi = r.device_hi }) (omega arith)
            words.1.1.1.1.1.1.1.0 refl in
        let q7 : QueueState = record q6 { device_hi = r.device_hi } in
        let e8 =
          write-at 0x044 1 q7 (λ x. record x { ready = 1; vq = some (programmed x) }) (omega arith)
            (omega arith) refl in
        subst (λ q. (write_all m (setup_writes sel r) ≡ some (at q)) × (ready_vq (at q) sel ≡ q.vq))
          (built-set_up sel r words)
          (
            rw (e0, write_all, e1, e2, e3, e4, e5, e6, e7, e8) refl,
            ground (arith, get_elem?-set_self m.queues sel (built r) there),
          )
