-- ===== src/Queue/Drain.antt =====
-- The loop `while let Some(chain) = vq.pop_avail(mem)` of every device: pop, serve, `push_used`.
-- `none` means that the fuel ran out.
use ignition.Base.{
  ℕ, zero, suc, ◌+◌, ◌-◌, ◌*◌, ◌%◌, ◌^◌, ◌≤◌, ◌<◌, Bool, true, false, ◌≡◌, ◌≢◌, refl, ◌∙◌, ◌⊎◌, inl,
  inr, Option, none, some, arith, Option-cases,
}
use ignition.Ram.{GuestRam, read_slice, read_u16}
use ignition.Ram.Words.{read_u16-cong}
use ignition.Queue.{DescChain, Virtqueue, add64, add16, pop_avail, push_used}
use ignition.Queue.Pop.{avail_idx, pop_avail-some}
use ignition.Queue.Push.{NoWrap, push_used-apart, push_used-queue}

module _ {S : Type 0} (service : S → DescChain → GuestRam → ℕ × S × GuestRam) where
  unfoldable pub drain :
      ℕ → Virtqueue → S → GuestRam → Bool → Option (Bool × Virtqueue × S × GuestRam)
  drain zero vq s mem serviced = none
  drain (suc fuel) vq s mem serviced =
      let (popped, vq1) = pop_avail vq mem in
      elim popped [
        | none ↦ some (serviced, vq1, s, mem)
        | some chain ↦
            let (len, s1, mem1) = service s chain mem in
            let (vq2, mem2) = push_used vq1 mem1 chain.head len in drain fuel vq2 s1 mem2 true
      ]

-- `pop_avail` on a queue with a published entry: the distance to the published index falls by one.
pop_avail-idx :
    (vq : Virtqueue) (mem : GuestRam) (idx : ℕ) (c : DescChain)
    → avail_idx vq mem ≡ some idx
    → (pop_avail vq mem).0 ≡ some c
    → vq.last_avail_idx ≢ idx
unfolding pop_avail
pop_avail-idx vq mem idx c a e = ground arith

-- The entries still published, counted round the 16-bit index.
abbrev pub pending : Virtqueue → ℕ → ℕ
pending vq idx = (idx + 2 ^ 16 - vq.last_avail_idx) % 2 ^ 16

-- The index of the available ring lies outside the used ring.
abbrev pub Apart : Virtqueue → Type 0
Apart vq =
    (add64 vq.driver_addr 2 + 2 ≤ vq.device_addr)
    ⊎ (vq.device_addr + 4 + vq.size * 8 ≤ add64 vq.driver_addr 2)

-- One round keeps the queue's place and consumes one entry.
round-queue :
    (vq : Virtqueue) (mem mem1 : GuestRam) (c : DescChain) (len : ℕ)
    → (pop_avail vq mem).0 ≡ some c
    → let (vq2, _) = push_used (pop_avail vq mem).1 mem1 c.head len in
      (vq2.size ≡ vq.size)
      × (vq2.driver_addr ≡ vq.driver_addr)
      × (vq2.device_addr ≡ vq.device_addr)
      × (vq2.last_avail_idx ≡ add16 vq.last_avail_idx 1)
round-queue vq mem mem1 c len e =
    let (vq1, _, _) = pop_avail-some vq mem e in
    ground (arith, vq1, push_used-queue (pop_avail vq mem).1 mem1 c.head len)

-- The ring's index is read as before, if serving the chain has not written it.
round-idx :
    (vq : Virtqueue) (mem mem1 : GuestRam) (c : DescChain) (len : ℕ)
    → NoWrap vq
    → Apart vq
    → (pop_avail vq mem).0 ≡ some c
    → read_slice mem1 (add64 vq.driver_addr 2) 2 ≡ read_slice mem (add64 vq.driver_addr 2) 2
    → read_u16 (push_used (pop_avail vq mem).1 mem1 c.head len).1 (add64 vq.driver_addr 2)
      ≡ avail_idx vq mem
round-idx vq mem mem1 c len w apart e same =
    let (vq1, _, _) = pop_avail-some vq mem e in
    let vq' = (pop_avail vq mem).1 in
    let w' : NoWrap vq' = rw vq1 w in
    let apart' : (add64 vq.driver_addr 2 + 2 ≤ vq'.device_addr)
        ⊎ (vq'.device_addr + 4 + vq'.size * 8 ≤ add64 vq.driver_addr 2) =
      rw vq1 apart in
    read_u16-cong _ mem (add64 vq.driver_addr 2)
      (push_used-apart vq' mem1 c.head len (add64 vq.driver_addr 2) 2 w' apart' ∙ same)

module _ {S : Type 0} (service : S → DescChain → GuestRam → ℕ × S × GuestRam) (addr : ℕ)
    (keeps : (s : S) (c : DescChain) (m : GuestRam)
      → read_slice (service s c m).2 addr 2 ≡ read_slice m addr 2) where
  drain_from :
      (fuel : ℕ) (vq : Virtqueue) (s : S) (mem : GuestRam) (serviced : Bool) (idx : ℕ)
      → NoWrap vq
      → Apart vq
      → addr ≡ add64 vq.driver_addr 2
      → avail_idx vq mem ≡ some idx
      → idx < 2 ^ 16
      → vq.last_avail_idx < 2 ^ 16
      → pending vq idx < fuel
      → (r : Bool × Virtqueue × S × GuestRam) × (drain service fuel vq s mem serviced ≡ some r)
  unfolding drain
  drain_from zero vq s mem serviced idx w apart at a i l h = absurd (omega arith)
  drain_from (suc fuel) vq s mem serviced idx w apart at a i l h =
      elim (Option-cases (pop_avail vq mem).0) [
        | inl e ↦ ((serviced, (pop_avail vq mem).1, s, mem), rw (e, drain) refl)
        | inr (c, e) ↦
            let (len, s1, mem1) = service s c mem in
            let (vq2, mem2) = push_used (pop_avail vq mem).1 mem1 c.head len in
            let (size, driver, device, last) = round-queue vq mem mem1 c len e in
            let same : read_slice mem1 (add64 vq.driver_addr 2) 2
                ≡ read_slice mem (add64 vq.driver_addr 2) 2 =
              rw (← at) (keeps s c mem) in
            let a2 : avail_idx vq2 mem2 ≡ some idx =
              rw driver (round-idx vq mem mem1 c len w apart e same ∙ a) in
            let ne = pop_avail-idx vq mem idx c a e in
            let (r, done) =
              drain_from fuel vq2 s1 mem2 true idx (omega arith) (rw (size, driver, device) apart)
                (rw driver at) a2 i (omega arith) (omega arith) in
            (r, rw (e, drain) done)
      ]

  -- The loop ends: with the available index published and out of the used ring, and a service
  -- that does not write that index, 2 ^ 16 rounds are enough.
  pub drain_total :
      (vq : Virtqueue) (s : S) (mem : GuestRam) (idx : ℕ)
      → NoWrap vq
      → Apart vq
      → addr ≡ add64 vq.driver_addr 2
      → avail_idx vq mem ≡ some idx
      → idx < 2 ^ 16
      → vq.last_avail_idx < 2 ^ 16
      → (r : Bool × Virtqueue × S × GuestRam) × (drain service (2 ^ 16) vq s mem false ≡ some r)
  drain_total vq s mem idx w apart at a i l =
      drain_from (2 ^ 16) vq s mem false idx w apart at a i l (omega arith)
