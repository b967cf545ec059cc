-- ===== src/Queue/Pop.antt =====
-- `pop_avail`: which entry it consumes, and the chain that it returns.
use ignition.Base.{
  ℕ, zero, suc, ◌*◌, ◌%◌, ◌≤◌, ◌<◌, ◌==◌, leb, false, ◌≡◌, ◌≢◌, inl, inr, Option, none, some, List,
  [], ◌∷◌, length, arith, bit_and, Option-cases, Bool-cases,
}
use ignition.Ram.{GuestRam, read_u16}
use ignition.Queue.{
  Desc, DescChain, Virtqueue, add64, add16, desc_f_next, read_desc, cons?, walk, with_head,
  pop_avail,
}

-- The chain of descriptors that the table links from `idx` on, as the virtio specification has it.
pub data Linked (vq : Virtqueue) (mem : GuestRam) : ℕ → List Desc → Type 0 where
  last :
      {idx : ℕ} {d : Desc} {flags next : ℕ}
      → idx < vq.size
      → read_desc vq mem idx ≡ some (d, flags, next)
      → bit_and flags desc_f_next ≡ 0
      → Linked vq mem idx (d ∷ [])
  more :
      {idx : ℕ} {d : Desc} {flags next : ℕ} {ds : List Desc}
      → idx < vq.size
      → read_desc vq mem idx ≡ some (d, flags, next)
      → (bit_and flags desc_f_next == 0) ≡ false
      → Linked vq mem next ds
      → Linked vq mem idx (d ∷ ds)

-- A well-formed chain is walked to its end and no further, if the rounds suffice.
walk-Linked :
    {vq : Virtqueue} {mem : GuestRam} {idx : ℕ} {ds : List Desc}
    → Linked vq mem idx ds
    → (rounds : ℕ) → length ds ≤ rounds
    → walk vq mem rounds idx ≡ some ds
unfolding walk
walk-Linked (last lt e f) zero h = absurd (omega arith)
walk-Linked (more lt e f l) zero h = absurd (omega arith)
walk-Linked (last lt e f) (suc rounds) h = ground arith
walk-Linked (more lt e f l) (suc rounds) h = ground (arith, walk-Linked l rounds (omega arith))

Linked-head :
    {vq : Virtqueue} {mem : GuestRam} {idx : ℕ} {ds : List Desc}
    → Linked vq mem idx ds
    → idx < vq.size
Linked-head (last lt e f) = lt
Linked-head (more lt e f l) = lt

-- The walk ends within its rounds.
abbrev AtMost : ℕ → Option (List Desc) → Type 0
AtMost n none = Unit
AtMost n (some ds) = length ds ≤ n

cons?-AtMost : (n : ℕ) (d : Desc) (o : Option (List Desc)) → AtMost n o → AtMost (suc n) (cons? d o)
cons?-AtMost n d none h = tt
cons?-AtMost n d (some ds) h = omega arith

walk-AtMost :
    (vq : Virtqueue) (mem : GuestRam) (rounds idx : ℕ) → AtMost rounds (walk vq mem rounds idx)
unfolding walk
walk-AtMost vq mem zero idx = omega arith
walk-AtMost vq mem (suc rounds) idx = elim (Bool-cases (leb vq.size idx)) [
  | inl out ↦ rw out (omega arith)
  | inr within ↦ elim (Option-cases (read_desc vq mem idx)) [
    | inl e ↦ rw (within, e, walk) tt
    | inr ((d, flags, next), e) ↦ elim (Bool-cases (bit_and flags desc_f_next == 0)) [
      | inl end ↦ rw (within, e, walk, end) (omega arith)
      | inr go ↦
          rw (within, e, walk, go)
            (cons?-AtMost rounds d (walk vq mem rounds next) (walk-AtMost vq mem rounds next))
    ]
  ]
]

with_head-some :
    (n head : ℕ) (o : Option (List Desc)) (c : DescChain)
    → AtMost n o
    → with_head head o ≡ some c
    → (c.head ≡ head) × (length c.descriptors ≤ n)
with_head-some n head none c h e = cc
with_head-some n head (some ds) c h e = ground arith

-- Whatever the guest has written, a chain that `pop_avail` returns has its head in range and at
-- most `size` descriptors, and the call has consumed one entry.
pub pop_avail-some :
    (vq : Virtqueue) (mem : GuestRam) {c : DescChain}
    → (pop_avail vq mem).0 ≡ some c
    → ((pop_avail vq mem).1 ≡ record vq { last_avail_idx = add16 vq.last_avail_idx 1 })
      × (c.head < vq.size)
      × (length c.descriptors ≤ vq.size)
unfolding pop_avail
pop_avail-some vq mem {c} e = elim (Option-cases (read_u16 mem (add64 vq.driver_addr 2))) [
  | inl none₁ ↦ ground arith
  | inr (avail, e₁) ↦
      elim (Option-cases
        (read_u16 mem (add64 (add64 vq.driver_addr 4) (vq.last_avail_idx % vq.size * 2)))) [
          | inl none₂ ↦ ground arith
          | inr (head, e₂) ↦ ground (
            arith,
            with_head-some vq.size head (walk vq mem vq.size head) c
                (walk-AtMost vq mem vq.size head),
          )
        ]
]

-- The index and the entry that the next `pop_avail` reads.
abbrev pub avail_idx : Virtqueue → GuestRam → Option ℕ
avail_idx vq mem = read_u16 mem (add64 vq.driver_addr 2)

abbrev pub avail_entry : Virtqueue → GuestRam → Option ℕ
avail_entry vq mem = read_u16 mem (add64 (add64 vq.driver_addr 4) (vq.last_avail_idx % vq.size * 2))

-- Where the guest has published a well-formed chain of at most `size` descriptors, `pop_avail`
-- returns exactly that chain and consumes the entry.
pub pop_avail-Linked :
    (vq : Virtqueue) (mem : GuestRam) (idx head : ℕ) (ds : List Desc)
    → avail_idx vq mem ≡ some idx
    → vq.last_avail_idx ≢ idx
    → avail_entry vq mem ≡ some head
    → Linked vq mem head ds
    → length ds ≤ vq.size
    → pop_avail vq mem ≡ (
      some (record { head = head; descriptors = ds }),
      record vq { last_avail_idx = add16 vq.last_avail_idx 1 },
    )
unfolding pop_avail
pop_avail-Linked vq mem idx head ds a ne b l h =
    ground (arith, Linked-head l, walk-Linked l vq.size h)
