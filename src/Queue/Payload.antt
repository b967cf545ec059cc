-- ===== src/Queue/Payload.antt =====
-- `DescChain::read`: a payload is copied only after all of it was validated.
use ignition.Base.{
  ℕ, ◌+◌, ◌≤◌, ◌<◌, ◌^◌, if◌then◌else◌, true, false, ◌≡◌, refl, some, List, [], ◌∷◌, length, slice,
  arith, length-append, length-slice, Option-cases, inl, inr, Bool-cases,
}
use ignition.Ram.{GuestRam, offset, contains, read_slice}
use ignition.Ram.Slices.{offset-some}
use ignition.Queue.{Desc, DescChain, read_len, read_bytes, read}

-- The bytes that the readable descriptors announce.
abbrev pub readable_len : List Desc → ℕ
readable_len [] = 0
readable_len (d ∷ ds) = (if d.writable then 0 else d.len) + readable_len ds

-- Every readable descriptor lies in guest RAM.
abbrev pub AllContained : GuestRam → List Desc → Type 0
AllContained mem [] = Unit
AllContained mem (d ∷ ds) =
    ((d.writable ≡ false) → contains mem d.addr d.len ≡ true) × AllContained mem ds

read_len-some :
    (mem : GuestRam) (max_len : ℕ) (ds : List Desc) (len total : ℕ)
    → len ≤ max_len
    → read_len mem max_len ds len ≡ some total
    → (total ≡ len + readable_len ds) × (total ≤ max_len) × AllContained mem ds
unfolding read_len
read_len-some mem max_len [] len total h e = ground arith
read_len-some mem max_len (d ∷ ds) len total h e = elim (Bool-cases d.writable) [
  | inl w ↦ ground (arith, read_len-some mem max_len ds len total h)
  | inr r ↦ ground (arith, read_len-some mem max_len ds (len + d.len) total)
]

read_len-all :
    (mem : GuestRam) (max_len : ℕ) (ds : List Desc) (len : ℕ)
    → AllContained mem ds
    → len + readable_len ds ≤ max_len
    → max_len < 2 ^ 64
    → read_len mem max_len ds len ≡ some (len + readable_len ds)
unfolding read_len
read_len-all mem max_len [] len c h b = ground arith
read_len-all mem max_len (d ∷ ds) len c h b = elim (Bool-cases d.writable) [
  | inl w ↦ ground (arith, read_len-all mem max_len ds len c.1)
  | inr r ↦ ground (arith, c.0 r, read_len-all mem max_len ds (len + d.len) c.1)
]

-- A range in RAM is read whole.
pub read_slice-contained :
    (mem : GuestRam) (gpa n : ℕ)
    → contains mem gpa n ≡ true
    → (b : List ℕ) × (read_slice mem gpa n ≡ some b) × (length b ≡ n)
unfolding contains read_slice
read_slice-contained mem gpa n h = elim (Option-cases (offset mem gpa n)) [
  | inl e ↦ absurd (ground arith)
  | inr (off, e) ↦
      let (_, _, fits) = offset-some mem gpa n e in
      (slice mem.bytes off n, rw (e, read_slice), length-slice mem.bytes off n fits)
]

length-read_bytes :
    (mem : GuestRam) (ds : List Desc)
    → AllContained mem ds
    → length (read_bytes mem ds) ≡ readable_len ds
unfolding read_bytes
length-read_bytes mem [] c = refl
length-read_bytes mem (d ∷ ds) c = elim (Bool-cases d.writable) [
  | inl w ↦ ground (arith, length-read_bytes mem ds c.1)
  | inr r ↦
      let (b, e, size) = read_slice-contained mem d.addr d.len (c.0 r) in
      ground (arith, e, size, length-append b (read_bytes mem ds), length-read_bytes mem ds c.1)
]

-- A payload that is returned has the length that its readable descriptors announce, at most
-- `max_len`, and all of them lie in RAM.
pub read-some :
    (chain : DescChain) (mem : GuestRam) (max_len : ℕ) {b : List ℕ}
    → read chain mem max_len ≡ some b
    → (length b ≡ readable_len chain.descriptors)
      × (length b ≤ max_len)
      × AllContained mem chain.descriptors
unfolding read
read-some chain mem max_len e = elim (Option-cases (read_len mem max_len chain.descriptors 0)) [
  | inl f ↦ absurd (ground arith)
  | inr (total, f) ↦
      let (sum, small, inside) =
        read_len-some mem max_len chain.descriptors 0 total (omega arith) f in
      ground (arith, inside, sum, small, length-read_bytes mem chain.descriptors inside)
]

-- A payload whose readable descriptors all lie in RAM and fit `max_len` is returned.
read-all :
    (chain : DescChain) (mem : GuestRam) (max_len : ℕ)
    → max_len < 2 ^ 64
    → AllContained mem chain.descriptors
    → readable_len chain.descriptors ≤ max_len
    → read chain mem max_len ≡ some (read_bytes mem chain.descriptors)
unfolding read
read-all chain mem max_len bound c h =
    ground (arith, read_len-all mem max_len chain.descriptors 0 c)
