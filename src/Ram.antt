-- ===== src/Ram.antt =====
-- crates/devices/src/virtio/guest_ram.rs: the bounds-checked view of guest RAM that devices use.
-- The host mapping is a list of bytes. Addresses and lengths are 64-bit; a `bool` with an output
-- buffer is an option. The accesses of other threads are disjoint from these by the virtio
-- protocol, as the source's safety comments say, so a function here is one uninterrupted step.
pub mod Slices
pub mod Words
pub mod Tracking
mod Tests
use ignition.Base.{
  ℕ, ◌+◌, ◌-◌, ◌^◌, ◌==◌, ◌||◌, ltb, leb, if◌then◌else◌, Bool, true, false, Option, none, some,
  List, length, slice, overwrite, to_le_bytes, from_le_bytes,
}
use mathlib.Core.Option
use ignition.Dirty.{DirtyTracker, mark_dirty}

pub record GuestRam : Type 0 where
  pub bytes : List ℕ
  pub base : ℕ
  pub dirty : Option DirtyTracker

-- `checked_sub`, then `checked_add` against the length.
unfoldable pub offset : GuestRam → ℕ → ℕ → Option ℕ
offset m gpa n =
    if ltb gpa m.base
    then none
    else let off = gpa - m.base in
      if leb (2 ^ 64) (off + n)
      then none
      else if leb (off + n) (length m.bytes)
      then some off
      else none

unfoldable pub contains : GuestRam → ℕ → ℕ → Bool
contains m gpa len = elim (offset m gpa len) [ none ↦ false | some _ ↦ true ]

-- `none` is the result `false`, which leaves the output buffer as it was.
unfoldable pub read_slice : GuestRam → ℕ → ℕ → Option (List ℕ)
read_slice m gpa n = elim (offset m gpa n) [ none ↦ none | some off ↦ some (slice m.bytes off n) ]

abbrev pub report : Option DirtyTracker → ℕ → ℕ → Option DirtyTracker
report dirty gpa len = elim dirty [ none ↦ none | some d ↦ some (mark_dirty d gpa len) ]

unfoldable pub write_slice : GuestRam → ℕ → List ℕ → Bool × GuestRam
write_slice m gpa data' = elim (offset m gpa (length data')) [
  | none ↦ (false, m)
  | some off ↦ (
    true,
    record m { bytes = overwrite m.bytes off data'; dirty = report m.dirty gpa (length data') },
  )
]

unfoldable pub read_u16 : GuestRam → ℕ → Option ℕ
read_u16 m gpa = elim (read_slice m gpa 2) [ none ↦ none | some b ↦ some (from_le_bytes b) ]

unfoldable pub read_u32 : GuestRam → ℕ → Option ℕ
read_u32 m gpa = elim (read_slice m gpa 4) [ none ↦ none | some b ↦ some (from_le_bytes b) ]

unfoldable pub read_u64 : GuestRam → ℕ → Option ℕ
read_u64 m gpa = elim (read_slice m gpa 8) [ none ↦ none | some b ↦ some (from_le_bytes b) ]

unfoldable pub write_u16 : GuestRam → ℕ → ℕ → Bool × GuestRam
write_u16 m gpa v = write_slice m gpa (to_le_bytes 2 v)

unfoldable pub write_u32 : GuestRam → ℕ → ℕ → Bool × GuestRam
write_u32 m gpa v = write_slice m gpa (to_le_bytes 4 v)

-- `madvise` is the C library's: offset and length in the mapping, and the mapping's contents, to
-- its return code and the contents that the guest sees afterwards.
unfoldable pub madvise_free : (ℕ → ℕ → List ℕ → ℕ × List ℕ) → GuestRam → ℕ → ℕ → Bool × GuestRam
madvise_free madvise m gpa len =
    if ltb gpa m.base
    then (false, m)
    else let off = gpa - m.base in
      if leb (2 ^ 64) (off + len) || ltb (length m.bytes) (off + len)
      then (false, m)
      else let (ret, bytes) = madvise off len m.bytes in (ret == 0, record m { bytes = bytes })
