-- ===== src/Ram/Words.antt =====
-- The integers of guest RAM: what `write_u16` and `write_u32` store is read back, and nothing else
-- changes.
use ignition.Base.{
  ℕ, ◌+◌, ◌^◌, ◌≤◌, ◌<◌, ◌≡◌, ap, ◌⊎◌, some, length, arith, to_le_bytes, from_le_bytes-to_le_bytes,
}
use ignition.Ram.{GuestRam, read_slice, read_u16, read_u32, write_u16, write_u32}
use ignition.Ram.Slices.{
  Fits, Inside, write_slice-true, write_slice-place, read_slice-write_slice, read_slice-write_apart,
}

-- A write of the low `n` bytes of `v` at `gpa` in the mapping.
module _ (m : GuestRam) (gpa v : ℕ) (f : Fits m) where
  pub read_u16-write_u16 : Inside m gpa 2 → v < 2 ^ 16 → read_u16 (write_u16 m gpa v).1 gpa ≡ some v
  unfolding read_u16 write_u16
  read_u16-write_u16 h b =
      let done = (write_slice-true m gpa (to_le_bytes 2 v) f).1 (omega arith) in
      rw (read_slice-write_slice m gpa (to_le_bytes 2 v) done, read_u16)
        (ap some (from_le_bytes-to_le_bytes 2 v (omega arith)))

  pub read_u32-write_u32 : Inside m gpa 4 → v < 2 ^ 32 → read_u32 (write_u32 m gpa v).1 gpa ≡ some v
  unfolding read_u32 write_u32
  read_u32-write_u32 h b =
      let done = (write_slice-true m gpa (to_le_bytes 4 v) f).1 (omega arith) in
      rw (read_slice-write_slice m gpa (to_le_bytes 4 v) done, read_u32)
        (ap some (from_le_bytes-to_le_bytes 4 v (omega arith)))

module _ (m : GuestRam) (gpa v : ℕ) where
  pub read_slice-write_u16 :
      (j n : ℕ)
      → (j + n ≤ gpa) ⊎ (gpa + 2 ≤ j)
      → read_slice (write_u16 m gpa v).1 j n ≡ read_slice m j n
  unfolding write_u16
  read_slice-write_u16 j n h = read_slice-write_apart m gpa (to_le_bytes 2 v) j n h

  pub read_slice-write_u32 :
      (j n : ℕ)
      → (j + n ≤ gpa) ⊎ (gpa + 4 ≤ j)
      → read_slice (write_u32 m gpa v).1 j n ≡ read_slice m j n
  unfolding write_u32
  read_slice-write_u32 j n h = read_slice-write_apart m gpa (to_le_bytes 4 v) j n h

  pub write_u16-place :
      ((write_u16 m gpa v).1.base ≡ m.base) × (length (write_u16 m gpa v).1.bytes ≡ length m.bytes)
  unfolding write_u16
  write_u16-place = write_slice-place m gpa (to_le_bytes 2 v)

  pub write_u32-place :
      ((write_u32 m gpa v).1.base ≡ m.base) × (length (write_u32 m gpa v).1.bytes ≡ length m.bytes)
  unfolding write_u32
  write_u32-place = write_slice-place m gpa (to_le_bytes 4 v)

-- A word read depends on the bytes of its own range alone.
module _ (m m' : GuestRam) (gpa : ℕ) where
  pub read_u16-cong : read_slice m gpa 2 ≡ read_slice m' gpa 2 → read_u16 m gpa ≡ read_u16 m' gpa
  unfolding read_u16
  read_u16-cong e = rw (e, read_u16)

  pub read_u32-cong : read_slice m gpa 4 ≡ read_slice m' gpa 4 → read_u32 m gpa ≡ read_u32 m' gpa
  unfolding read_u32
  read_u32-cong e = rw (e, read_u32)
