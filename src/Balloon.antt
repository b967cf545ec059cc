-- ===== src/Balloon.antt =====
-- crates/devices/src/virtio/balloon.rs: guest pages given back to the host.
-- The target that the host sets is a field. `madvise` is the parameter of `Ram.madvise_free`; its
-- results are dropped, as in the source. Sums of guest addresses wrap as in a release build. A
-- saved state is the pair of numbers that the JSON value holds.
mod Tests
use ignition.Base.{
  ℕ, zero, suc, ◌+◌, ◌*◌, ◌/◌, ◌%◌, ◌^◌, ◌==◌, ◌&&◌, if◌then◌else◌, Bool, false, Option, none, some,
  List, [], ◌∷◌, ◌++◌, length, image_at, to_le_bytes, from_le_bytes,
}
use ignition.Ram.{GuestRam, read_slice, madvise_free}
use ignition.Queue.{Desc, DescChain, Virtqueue, add64}
use ignition.Queue.Drain.{drain}

-- A page is `1 << PFN_SHIFT` bytes.
abbrev pub page : ℕ
page = 4096

pub record Balloon : Type 0 where
  pub num_pages : ℕ
  pub actual : ℕ

unfoldable pub new : Balloon
new = record { num_pages = 0; actual = 0 }

unfoldable pub config_read : Balloon → ℕ → ℕ → List ℕ
config_read b off n = image_at (to_le_bytes 4 b.num_pages ++ to_le_bytes 4 b.actual) off n

unfoldable pub config_write : Balloon → ℕ → List ℕ → Balloon
config_write b off block =
    if (off == 0x04) && (length block == 4) then record b { actual = from_le_bytes block } else b

module _ (madvise : ℕ → ℕ → List ℕ → ℕ × List ℕ) where
  -- The inner loop of `inflate`: `n` page-frame numbers from entry `i` of a descriptor.
  unfoldable pub free_pages : GuestRam → Desc → ℕ → ℕ → GuestRam
  free_pages mem d i zero = mem
  free_pages mem d i (suc n) =
      let mem' : GuestRam = elim (read_slice mem (add64 d.addr (i * 4)) 4) [
        | none ↦ mem
        | some b ↦ (madvise_free madvise mem (from_le_bytes b * 2 ^ 12) page).1
      ] in
      free_pages mem' d (i + 1) n

  unfoldable pub inflate_chain : GuestRam → List Desc → GuestRam
  unfolding free_pages
  inflate_chain mem [] = mem
  inflate_chain mem (d ∷ ds) =
      let mem' = if d.writable then mem else free_pages mem d 0 (d.len / 4) in inflate_chain mem' ds

  unfoldable pub handle_notify :
      ℕ → Balloon → ℕ → Virtqueue → GuestRam → Option (Bool × Virtqueue × Balloon × GuestRam)
  unfolding inflate_chain drain
  handle_notify fuel b queue_idx vq mem =
      if queue_idx == 0
      then drain (λ s chain m. (0, s, inflate_chain m chain.descriptors)) fuel vq b mem false
      else if queue_idx == 1
      then drain (λ s chain m. (0, s, m)) fuel vq b mem false
      else some (false, vq, b, mem)

-- What is saved is put back, each number cut to 32 bits.
unfoldable pub save : Balloon → ℕ × ℕ
save b = (b.num_pages, b.actual)

unfoldable pub restore : Balloon → ℕ × ℕ → Balloon
restore b (num_pages, actual) = record b {
  num_pages = num_pages % 2 ^ 32;
  actual = actual % 2 ^ 32;
}
