-- ===== src/Ram/Tests.antt =====
-- Guest RAM on small inputs, and the theorems about it at concrete data.
use ignition.Base.{ℕ, ◌≡◌, refl, true, false, some, List, [], ◌∷◌, arith}
use ignition.Dirty.{DirtyTracker, mark_dirty, mark_loop, mark, new, drain}
use ignition.Ram.{GuestRam, offset, read_slice, read_u32, write_slice, madvise_free}
use ignition.Ram.Slices.{write_slice-false}
use ignition.Ram.Tracking.{Tracks, new-Tracks, write_slice-Tracks, drain-Tracks}

abbrev eight_bytes : List ℕ
eight_bytes = 1 ∷ 2 ∷ 3 ∷ 4 ∷ 5 ∷ 6 ∷ 7 ∷ 8 ∷ []

abbrev tracker : DirtyTracker
tracker = record { base = 0x4000_0000; page_count = 1; bits = 0 ∷ [] }

abbrev ram : GuestRam
ram = record { bytes = eight_bytes; base = 0x4000_0000; dirty = some tracker }

reads_word : read_u32 ram 0x4000_0004 ≡ some 0x0807_0605
unfolding read_u32 read_slice offset
reads_word = refl

write_marks : write_slice ram 0x4000_0006 (9 ∷ 9 ∷ []) ≡ (
  true,
  record ram {
    bytes = 1 ∷ 2 ∷ 3 ∷ 4 ∷ 5 ∷ 6 ∷ 9 ∷ 9 ∷ [];
    dirty = some (record tracker { bits = 1 ∷ [] });
  },
)
unfolding write_slice offset mark_dirty mark_loop mark
write_marks = refl

runs_over : write_slice ram 0x4000_0007 (9 ∷ 9 ∷ []) ≡ (false, ram)
unfolding write_slice offset
runs_over = refl

free_zeroes :
    madvise_free (λ off len b. (0, [])) ram 0x4000_0000 8 ≡ (true, record ram { bytes = [] })
unfolding madvise_free
free_zeroes = refl

ram-Tracks : Tracks eight_bytes ram tracker
unfolding new
ram-Tracks = new-Tracks eight_bytes 0x4000_0000 refl (omega arith)

write_slice-Tracks_example :
    (t' : DirtyTracker) × Tracks eight_bytes (write_slice ram 0x4000_0006 (9 ∷ 9 ∷ [])).1 t'
write_slice-Tracks_example =
    write_slice-Tracks eight_bytes ram tracker 0x4000_0006 (9 ∷ 9 ∷ []) (omega arith) ram-Tracks

drain-Tracks_example :
    Tracks eight_bytes (record ram { dirty = some (drain tracker).1 }) (drain tracker).1
drain-Tracks_example = drain-Tracks eight_bytes ram tracker ram-Tracks

write_slice-false_example : (write_slice ram 0x4000_0007 (9 ∷ 9 ∷ [])).1 ≡ ram
unfolding write_slice offset
write_slice-false_example = write_slice-false ram 0x4000_0007 (9 ∷ 9 ∷ []) refl
