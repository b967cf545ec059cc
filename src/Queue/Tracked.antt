-- ===== src/Queue/Tracked.antt =====
-- The loop of a device keeps the record of dirty pages complete, if serving one chain does.
use ignition.Base.{
  ℕ, zero, suc, ◌*◌, ◌%◌, ◌^◌, ◌<◌, ◌==◌, Bool, true, none, some, List, ◌≡◌, refl, ◌⊎◌, inl, inr,
  arith, Bool-cases, Option-cases, to_le_bytes,
}
use ignition.Dirty.{DirtyTracker}
use ignition.Ram.{GuestRam, write_u16, write_u32, write_slice}
use ignition.Ram.Tracking.{Tracks, write_slice-Tracks}
use ignition.Queue.{DescChain, Virtqueue, add64, add16, pop_avail, push_used}
use ignition.Queue.Drain.{drain}

-- RAM has a tracker that lists every page that differs from the image.
abbrev pub Recorded : List ℕ → GuestRam → Type 0
Recorded image m = (t : DirtyTracker) × Tracks image m t

pub write_slice-Recorded :
    (image : List ℕ) (m : GuestRam) (gpa : ℕ) (block : List ℕ)
    → gpa < 2 ^ 64
    → Recorded image m
    → Recorded image (write_slice m gpa block).1
write_slice-Recorded image m gpa block g (t, k) = write_slice-Tracks image m t gpa block g k

push_used-Recorded :
    (image : List ℕ) (vq : Virtqueue) (m : GuestRam) (head len : ℕ)
    → Recorded image m
    → Recorded image (push_used vq m head len).1
unfolding push_used write_u16 write_u32
push_used-Recorded image vq m head len k = elim (Bool-cases (vq.size == 0)) [
  | inl e ↦ rw (push_used, e) k
  | inr e ↦
      let slot = vq.used_idx % vq.size in
      let elem = add64 (add64 vq.device_addr 4) (slot * 8) in
      let a = write_slice-Recorded image m elem (to_le_bytes 4 head) (omega arith) k in
      let m1 = (write_slice m elem (to_le_bytes 4 head)).1 in
      let b = write_slice-Recorded image m1 (add64 elem 4) (to_le_bytes 4 len) (omega arith) a in
      let m2 = (write_slice m1 (add64 elem 4) (to_le_bytes 4 len)).1 in
      rw (push_used, e)
        (write_slice-Recorded image m2 (add64 vq.device_addr 2)
          (to_le_bytes 2 (add16 vq.used_idx 1)) (omega arith) b)
]

module _ {S : Type 0} (service : S → DescChain → GuestRam → ℕ × S × GuestRam) where
  -- The queue, the device and RAM after `n` rounds of the loop, or where it ends if that is sooner.
  unfoldable pub rounds : ℕ → Virtqueue → S → GuestRam → Virtqueue × S × GuestRam
  rounds zero vq s mem = (vq, s, mem)
  rounds (suc n) vq s mem =
      let (popped, vq1) = pop_avail vq mem in
      elim popped [
        | none ↦ (vq1, s, mem)
        | some chain ↦
            let (len, s1, mem1) = service s chain mem in
            let (vq2, mem2) = push_used vq1 mem1 chain.head len in rounds n vq2 s1 mem2
      ]

  -- The loop has not ended on this fuel, or it ends as these rounds do.
  pub drain-rounds :
      (fuel : ℕ) (vq : Virtqueue) (s : S) (mem : GuestRam) (serviced : Bool)
      → let (vq', s', mem') = rounds fuel vq s mem in
        (drain service fuel vq s mem serviced ≡ none)
        ⊎ ((used : Bool) × (drain service fuel vq s mem serviced ≡ some (used, vq', s', mem')))
  unfolding drain rounds
  drain-rounds zero vq s mem serviced = inl refl
  drain-rounds (suc fuel) vq s mem serviced = elim (Option-cases (pop_avail vq mem).0) [
    | inl h ↦ rw (drain, h, rounds) (inr (serviced, refl))
    | inr (c, h) ↦
        let (len, s1, mem1) = service s c mem in
        let next = push_used (pop_avail vq mem).1 mem1 c.head len in
        rw (drain, h, rounds) (drain-rounds fuel next.0 s1 next.1 true)
  ]

  module _ (image : List ℕ)
      (keeps : (s : S) (c : DescChain) (m : GuestRam)
        → Recorded image m
        → Recorded image (service s c m).2) where
    pub rounds-Recorded :
        (n : ℕ) (vq : Virtqueue) (s : S) (mem : GuestRam)
        → Recorded image mem
        → Recorded image (rounds n vq s mem).2
    unfolding rounds
    rounds-Recorded zero vq s mem k = k
    rounds-Recorded (suc n) vq s mem k = elim (Option-cases (pop_avail vq mem).0) [
      | inl h ↦ rw (h, rounds) k
      | inr (c, h) ↦
          let (len, s1, mem1) = service s c mem in
          let next = push_used (pop_avail vq mem).1 mem1 c.head len in
          rw (h, rounds)
            (rounds-Recorded n next.0 s1 next.1
              (push_used-Recorded image (pop_avail vq mem).1 mem1 c.head len (keeps s c mem k)))
    ]
