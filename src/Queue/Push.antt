-- ===== src/Queue/Push.antt =====
-- `push_used`: the element and the index that it publishes, and all that it leaves alone.
use ignition.Base.{
  ℕ, ◌+◌, ◌*◌, ◌%◌, ◌^◌, ◌≤◌, ◌<◌, ◌==◌, false, ◌≡◌, ◌≢◌, refl, ◌∙◌, ◌⊎◌, some, arith,
}
use native.Mathlib.Decide.{ℕ_discrete}
use ignition.Ram.{GuestRam, read_slice, read_u16, read_u32, write_u16, write_u32}
use ignition.Ram.Slices.{Fits, Inside}
use ignition.Ram.Words.{
  read_u16-write_u16, read_u32-write_u32, read_slice-write_u16, read_slice-write_u32,
  write_u32-place, read_u32-cong,
}
use ignition.Queue.{Virtqueue, add64, add16, push_used}

-- The used ring lies in guest RAM: flags, index and `size` elements of eight bytes.
abbrev pub UsedRing : Virtqueue → GuestRam → Type 0
UsedRing vq mem = Fits mem × Inside mem vq.device_addr (4 + vq.size * 8)

-- The address of the next element.
abbrev pub used_elem : Virtqueue → ℕ
used_elem vq = vq.device_addr + 4 + vq.used_idx % vq.size * 8

slot_in_ring : (vq : Virtqueue) → vq.size ≢ 0 → vq.used_idx % vq.size < vq.size
slot_in_ring vq h = grind arith

-- What `push_used` has done to the queue and to guest RAM.
pub record Published (vq : Virtqueue) (mem : GuestRam) (head len : ℕ) (out : Virtqueue × GuestRam)
    : Type 0 where
  pub queue : out.0 ≡ record vq { used_idx = add16 vq.used_idx 1 }
  pub id : read_u32 out.1 (used_elem vq) ≡ some head
  pub written : read_u32 out.1 (used_elem vq + 4) ≡ some len
  pub index : read_u16 out.1 (vq.device_addr + 2) ≡ some (add16 vq.used_idx 1)

-- The body of `push_used` on a queue of nonzero size whose ring addresses do not wrap.
abbrev publish : Virtqueue → GuestRam → ℕ → ℕ → Virtqueue × GuestRam
publish vq mem head len =
    let m1 = (write_u32 mem (used_elem vq) head).1 in
    let m2 = (write_u32 m1 (used_elem vq + 4) len).1 in
    let used = add16 vq.used_idx 1 in
    (record vq { used_idx = used }, (write_u16 m2 (vq.device_addr + 2) used).1)

-- A used ring that does not run over the end of the address space.
abbrev pub NoWrap : Virtqueue → Type 0
NoWrap vq = vq.device_addr + 4 + vq.size * 8 < 2 ^ 64

push_used-publish :
    (vq : Virtqueue) (mem : GuestRam) (head len : ℕ)
    → vq.size ≢ 0
    → NoWrap vq
    → push_used vq mem head len ≡ publish vq mem head len
unfolding push_used
push_used-publish vq mem head len s w =
    let slot = slot_in_ring vq s in
    let nonzero : (vq.size == 0) ≡ false = ground arith in
    let e : add64 (add64 vq.device_addr 4) (vq.used_idx % vq.size * 8) ≡ used_elem vq =
      omega arith in
    let e4 : add64 (used_elem vq) 4 ≡ used_elem vq + 4 = omega arith in
    let e2 : add64 vq.device_addr 2 ≡ vq.device_addr + 2 = omega arith in
    rw (nonzero, e, e4, e2) refl

-- In a used ring that lies in guest RAM, `push_used` stores the head and the length in the next
-- slot, then raises the ring's index by one, and advances the producer position with it.
pub push_used-Published :
    (vq : Virtqueue) (mem : GuestRam) (head len : ℕ)
    → vq.size ≢ 0
    → UsedRing vq mem
    → head < 2 ^ 32
    → len < 2 ^ 32
    → Published vq mem head len (push_used vq mem head len)
push_used-Published vq mem head len s ring h l =
    let slot = slot_in_ring vq s in
    let m1 = (write_u32 mem (used_elem vq) head).1 in
    let m2 = (write_u32 m1 (used_elem vq + 4) len).1 in
    let used = add16 vq.used_idx 1 in
    let place1 = write_u32-place mem (used_elem vq) head in
    let place2 = write_u32-place m1 (used_elem vq + 4) len in
    let last = read_slice-write_u16 m2 (vq.device_addr + 2) used in
    let middle = read_slice-write_u32 m1 (used_elem vq + 4) len in
    rw (push_used-publish vq mem head len s (omega arith)) (record {
      queue = refl;
      id =
          read_u32-cong _ m1 (used_elem vq)
            (last (used_elem vq) 4 (omega arith) ∙ middle (used_elem vq) 4 (omega arith))
          ∙ read_u32-write_u32 mem (used_elem vq) head ring.0 (omega arith) h;
      written =
          read_u32-cong _ m2 (used_elem vq + 4) (last (used_elem vq + 4) 4 (omega arith))
          ∙ read_u32-write_u32 m1 (used_elem vq + 4) len (omega arith) (omega arith) l;
      index =
          read_u16-write_u16 m2 (vq.device_addr + 2) used (omega arith) (omega arith) (omega arith);
    })

-- Wherever the ring lies, `push_used` changes no byte of RAM but those of the next element and of
-- the ring's index.
push_used-others :
    (vq : Virtqueue) (mem : GuestRam) (head len j n : ℕ)
    → vq.size ≢ 0
    → NoWrap vq
    → (j + n ≤ vq.device_addr + 2) ⊎ (vq.device_addr + 4 ≤ j)
    → (j + n ≤ used_elem vq) ⊎ (used_elem vq + 8 ≤ j)
    → read_slice (push_used vq mem head len).1 j n ≡ read_slice mem j n
push_used-others vq mem head len j n s w a b =
    let m1 = (write_u32 mem (used_elem vq) head).1 in
    let m2 = (write_u32 m1 (used_elem vq + 4) len).1 in
    rw (push_used-publish vq mem head len s w) (
      read_slice-write_u16 m2 (vq.device_addr + 2) (add16 vq.used_idx 1) j n (omega arith)
      ∙ read_slice-write_u32 m1 (used_elem vq + 4) len j n (omega arith)
      ∙ read_slice-write_u32 mem (used_elem vq) head j n (omega arith))

-- No byte outside the ring changes, also with a ring of size zero.
pub push_used-apart :
    (vq : Virtqueue) (mem : GuestRam) (head len j n : ℕ)
    → NoWrap vq
    → (j + n ≤ vq.device_addr) ⊎ (vq.device_addr + 4 + vq.size * 8 ≤ j)
    → read_slice (push_used vq mem head len).1 j n ≡ read_slice mem j n
push_used-apart vq mem head len j n w a = elim (ℕ_discrete vq.size 0) [
  | yes s ↦ unfold push_used in ground arith
  | no s ↦
      let slot = slot_in_ring vq s in
      push_used-others vq mem head len j n s w (omega arith) (omega arith)
]

-- The queue's addresses and its consumer position stay.
pub push_used-queue :
    (vq : Virtqueue) (mem : GuestRam) (head len : ℕ)
    → ((push_used vq mem head len).0.size ≡ vq.size)
      × ((push_used vq mem head len).0.driver_addr ≡ vq.driver_addr)
      × ((push_used vq mem head len).0.device_addr ≡ vq.device_addr)
      × ((push_used vq mem head len).0.last_avail_idx ≡ vq.last_avail_idx)
unfolding push_used
push_used-queue vq mem head len = ground arith
