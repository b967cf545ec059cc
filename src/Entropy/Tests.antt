-- ===== src/Entropy/Tests.antt =====
-- The entropy device over a queue with one chain, whose second buffer is writable.
use ignition.Base.{
  ℕ, ◌≡◌, refl, ◌⊎◌, Bool, false, Option, none, some, List, length, replicate, arith,
}
use ignition.Dirty.{new}
use ignition.Ram.{
  GuestRam, read_u16, read_u32, read_u64, read_slice, offset, write_slice, write_u16, write_u32,
}
use ignition.Ram.Tracking.{new-Tracks}
use ignition.Queue.{Virtqueue, pop_avail, walk, read_desc, push_used}
use ignition.Queue.Drain.{drain}
use ignition.Queue.Tests.{memory, vq}
use ignition.Queue.Tracked.{Recorded, rounds}
use ignition.Entropy.{
  serve, fill_chain, fill_random, fill_from, handle_notify, handle_notify-Recorded,
}

abbrev nines : ℕ → ℕ → List ℕ
nines k n = replicate n 9

abbrev tracked : GuestRam
tracked = record { bytes = memory; base = 0; dirty = some (new 0 (length memory)) }

tracked-Recorded : Recorded memory tracked
tracked-Recorded = (new 0 (length memory), new-Tracks memory 0 refl (omega arith))

abbrev result_of : Option (Bool × Virtqueue × ℕ × GuestRam) → Bool × Virtqueue × ℕ × GuestRam
result_of none = (false, vq, 0, tracked)
result_of (some r) = r

abbrev result : Bool × Virtqueue × ℕ × GuestRam
result = result_of (handle_notify nines 3 0 vq tracked)

runs : handle_notify nines 3 0 vq tracked ≡ some result
unfolding handle_notify drain pop_avail walk read_desc read_u16 read_u32 read_u64 read_slice offset
    serve fill_chain fill_random fill_from write_slice write_u16 write_u32 push_used
runs = refl

handle_notify-Recorded_example :
    let (vq', k', mem') = rounds (serve nines) 3 vq 0 tracked in
    Recorded memory mem'
    × ((handle_notify nines 3 0 vq tracked ≡ none)
        ⊎ ((used : Bool) × (handle_notify nines 3 0 vq tracked ≡ some (used, vq', k', mem'))))
handle_notify-Recorded_example = handle_notify-Recorded nines memory 3 0 vq tracked tracked-Recorded
