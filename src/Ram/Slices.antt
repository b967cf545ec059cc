-- ===== src/Ram/Slices.antt =====
-- Reads and writes of guest RAM: when they succeed, and what they return and change.
use ignition.Base.{
  ℕ, ◌+◌, ◌-◌, ◌^◌, ◌≤◌, ◌<◌, ◌≡◌, refl, ◌⊎◌, inl, inr, ◌↔◌, Option-cases, true, false, none, some,
  List, length, arith, slice-overwrite_self, slice-overwrite_apart, length-overwrite,
}
use native.Mathlib.Decide.{dec_le}
use ignition.Ram.{GuestRam, offset, read_slice, write_slice}

-- A mapping ends within the 64-bit address space.
abbrev pub Fits : GuestRam → Type 0
Fits m = m.base + length m.bytes < 2 ^ 64

-- The addresses `[gpa, gpa + n)` lie in the mapping.
abbrev pub Inside : GuestRam → ℕ → ℕ → Type 0
Inside m gpa n = (m.base ≤ gpa) × (gpa + n ≤ m.base + length m.bytes)

-- The offset is the distance from the base exactly inside the mapping.
pub offset-cases :
    (m : GuestRam) (gpa n : ℕ)
    → Fits m
    → (Inside m gpa n × (offset m gpa n ≡ some (gpa - m.base)))
      ⊎ ((¬ Inside m gpa n) × (offset m gpa n ≡ none))
unfolding offset
offset-cases m gpa n f = elim (dec_le m.base gpa) [
  | yes above ↦ elim (dec_le (gpa + n) (m.base + length m.bytes)) [
    | yes below ↦ inl ((above, below), ground arith)
    | no beyond ↦ inr ((λ h. beyond h.1), ground arith)
  ]
  | no before ↦ inr ((λ h. before h.0), ground arith)
]

-- Without any assumption, an offset that is found lies in the mapping.
pub offset-some :
    (m : GuestRam) (gpa n : ℕ) {off : ℕ}
    → offset m gpa n ≡ some off
    → (m.base ≤ gpa) × (off ≡ gpa - m.base) × (off + n ≤ length m.bytes)
unfolding offset
offset-some m gpa n e = ground arith

-- A write succeeds exactly when its whole range lies in the mapping.
pub write_slice-true :
    (m : GuestRam) (gpa : ℕ) (block : List ℕ)
    → Fits m
    → ((write_slice m gpa block).0 ≡ true) ↔ Inside m gpa (length block)
unfolding write_slice
write_slice-true m gpa block f = elim (offset-cases m gpa (length block) f) [
  | inl (h, e) ↦ rw (e, write_slice) ((λ _. h), λ _. refl)
  | inr (h, e) ↦ rw (e, write_slice) ((λ p. cc), λ g. absurd (h g))
]

-- A write that fails changes nothing.
pub write_slice-false :
    (m : GuestRam) (gpa : ℕ) (block : List ℕ)
    → (write_slice m gpa block).0 ≡ false
    → (write_slice m gpa block).1 ≡ m
unfolding write_slice
write_slice-false m gpa block h = ground arith

-- A write keeps the mapping's place and size.
pub write_slice-place :
    (m : GuestRam) (gpa : ℕ) (block : List ℕ)
    → ((write_slice m gpa block).1.base ≡ m.base)
      × (length (write_slice m gpa block).1.bytes ≡ length m.bytes)
unfolding write_slice
write_slice-place m gpa block = elim (Option-cases (offset m gpa (length block))) [
  | inl e ↦ ground arith
  | inr (off, e) ↦ ground (arith, length-overwrite m.bytes off block)
]

-- After a successful write its range reads back as what was written.
pub read_slice-write_slice :
    (m : GuestRam) (gpa : ℕ) (block : List ℕ)
    → (write_slice m gpa block).0 ≡ true
    → read_slice (write_slice m gpa block).1 gpa (length block) ≡ some block
unfolding write_slice read_slice offset
read_slice-write_slice m gpa block h = ground (
  arith,
  length-overwrite m.bytes (gpa - m.base) block,
  slice-overwrite_self m.bytes (gpa - m.base) block,
)

-- A write leaves every range that it does not meet readable as before.
pub read_slice-write_apart :
    (m : GuestRam) (gpa : ℕ) (block : List ℕ) (j n : ℕ)
    → (j + n ≤ gpa) ⊎ (gpa + length block ≤ j)
    → read_slice (write_slice m gpa block).1 j n ≡ read_slice m j n
unfolding write_slice read_slice offset
read_slice-write_apart m gpa block j n h = ground (
  arith,
  length-overwrite m.bytes (gpa - m.base) block,
  slice-overwrite_apart m.bytes (gpa - m.base) block (j - m.base) n,
)
