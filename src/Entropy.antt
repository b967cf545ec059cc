-- ===== src/Entropy.antt =====
-- crates/devices/src/virtio/rng.rs: the guest's buffers filled with host entropy. `getentropy` is a
-- parameter, the bytes that its call of a number gives for a length; that it fails, which panics, is
-- not modelled. A descriptor's address is a 64-bit number, so that it is below 2 ^ 64.
mod Tests
use ignition.Base.{
  ℕ, zero, suc, ◌+◌, ◌-◌, ◌%◌, ◌^◌, ◌<◌, ◌≤◌, ◌==◌, min, if◌then◌else◌, Bool, true, false, Option,
  none, some, List, [], ◌∷◌, ◌++◌, length, length-append, ◌≡◌, ◌∙◌, refl, sym, subst, ◌⊎◌, inl, inr,
  arith, Bool-cases,
}
use ignition.Ram.{GuestRam, write_slice}
use ignition.Queue.{Desc, DescChain, Virtqueue}
use ignition.Queue.Drain.{drain}
use ignition.Queue.Tracked.{Recorded, rounds, write_slice-Recorded, drain-rounds, rounds-Recorded}

module _ (getentropy : ℕ → ℕ → List ℕ) where
  -- `fill_random` of `n` bytes from call `k` on, 256 at a time: the calls made and the bytes.
  unfoldable pub fill_from : ℕ → ℕ → ℕ → ℕ × List ℕ
  fill_from zero k n = (k, [])
  fill_from (suc fuel) k n =
      let (k', rest) = fill_from fuel (k + 1) (n - 256) in
      if n == 0 then (k, []) else (k', getentropy k (min n 256) ++ rest)

  -- A chunk has one byte at least, so that `n` rounds are enough.
  unfoldable pub fill_random : ℕ → ℕ → ℕ × List ℕ
  fill_random k n = fill_from n k n

  -- The loop over a chain's descriptors: the calls made, RAM and the bytes written, a `u32`.
  unfoldable pub fill_chain : ℕ → GuestRam → List Desc → ℕ → ℕ × GuestRam × ℕ
  fill_chain k mem [] written = (k, mem, written)
  fill_chain k mem (d ∷ ds) written =
      let (k', buf) = fill_random k d.len in
      let (ok, mem') = write_slice mem (d.addr % 2 ^ 64) buf in
      let taken = fill_chain k' mem' ds (if ok then (written + d.len) % 2 ^ 32 else written) in
      let passed = fill_chain k mem ds written in if d.writable then taken else passed

  unfoldable pub serve : ℕ → DescChain → GuestRam → ℕ × ℕ × GuestRam
  serve k chain mem =
      let (k', mem', written) = fill_chain k mem chain.descriptors 0 in (written, k', mem')

  unfoldable pub handle_notify :
      ℕ → ℕ → Virtqueue → GuestRam → Option (Bool × Virtqueue × ℕ × GuestRam)
  handle_notify fuel k vq mem = drain serve fuel vq k mem false

  filled :
      (fuel k n : ℕ)
      → n ≤ fuel
      → ((j m : ℕ) → length (getentropy j m) ≡ m)
      → length (fill_from fuel k n).1 ≡ n
  unfolding fill_from
  filled zero k n l h = omega arith
  filled (suc fuel) k n l h =
      let rest = filled fuel (k + 1) (n - 256) (omega arith) h in
      let chunk = getentropy k (min n 256) in
      ground
        (arith, h k (min n 256), rest, length-append chunk (fill_from fuel (k + 1) (n - 256)).1)

  -- A buffer is filled whole, if `getentropy` gives as many bytes as it is asked for.
  length-fill_random :
      (k n : ℕ) → ((j m : ℕ) → length (getentropy j m) ≡ m) → length (fill_random k n).1 ≡ n
  unfolding fill_random
  length-fill_random k n h = filled n k n (omega arith) h

  fill_chain-Recorded :
      (image : List ℕ) (k : ℕ) (mem : GuestRam) (ds : List Desc) (written : ℕ)
      → Recorded image mem
      → Recorded image (fill_chain k mem ds written).1
  unfolding fill_chain
  fill_chain-Recorded image k mem [] written r = r
  fill_chain-Recorded image k mem (d ∷ ds) written r =
      let buf = fill_random k d.len in
      let out = write_slice mem (d.addr % 2 ^ 64) buf.1 in
      let w = if out.0 then (written + d.len) % 2 ^ 32 else written in
      let taken =
        fill_chain-Recorded image buf.0 out.1 ds w
          (write_slice-Recorded image mem (d.addr % 2 ^ 64) buf.1 (omega arith) r) in
      let passed = fill_chain-Recorded image k mem ds written r in
      elim (Bool-cases d.writable) [
        | inl e ↦ rw (fill_chain, e) taken
        | inr e ↦ rw (fill_chain, e) passed
      ]

  -- Whatever chains the guest posts, the device's writes are all recorded: the buffers and the used
  -- ring. After any number `n` of rounds of the loop, and where it ends, every byte that differs from
  -- the image lies on a dirty page; a notification on `n` rounds of fuel that returns leaves the
  -- queue, the device and memory as these rounds do. That the loop ends is not stated.
  pub handle_notify-Recorded :
      (image : List ℕ) (n k : ℕ) (vq : Virtqueue) (mem : GuestRam)
      → Recorded image mem
      → let (vq', k', mem') = rounds serve n vq k mem in
        Recorded image mem'
        × ((handle_notify n k vq mem ≡ none)
            ⊎ ((used : Bool) × (handle_notify n k vq mem ≡ some (used, vq', k', mem'))))
  unfolding handle_notify serve
  handle_notify-Recorded image n k vq mem h = (
    rounds-Recorded serve image (λ s c m g. fill_chain-Recorded image s m c.descriptors 0 g) n vq k
        mem h,
    drain-rounds serve n vq k mem false,
  )
