-- ===== src/Blk/Transfer.antt =====
-- The data of a request: what reaches guest memory from the file, and the file from memory.
use ignition.Base.{
  ℕ, ◌+◌, ◌^◌, ◌≤◌, ◌<◌, ltb, true, false, ◌≡◌, refl, sym, ap, ◌∙◌, ◌⊎◌, some, List, [], ◌∷◌,
  length, arith, All, subst,
}
use ignition.Ram.{GuestRam, read_slice, write_slice}
use ignition.Ram.Slices.{
  Fits, Inside, write_slice-true, write_slice-place, read_slice-write_slice, read_slice-write_apart,
}
use ignition.Queue.{Desc}
use ignition.Queue.Buffers.{Apart, total}
use ignition.Blk.{File, max_desc_len, s_ok, saturating_add32, saturating_add64, read_from}

module _ {F : Type 0} (disk : File F) (file : F) where
  -- The file has the bytes, each buffer is of at most 1 MiB, lies in memory and overlaps no later
  -- one.
  abbrev pub Deliverable : GuestRam → List Desc → ℕ → Type 0
  Deliverable mem [] off = Unit
  Deliverable mem (d ∷ ds) off =
      (d.len ≤ max_desc_len)
      × ((buf : List ℕ) × (disk.read_at file off d.len ≡ some buf))
      × Inside mem d.addr d.len
      × All (Apart d) ds
      × Deliverable mem ds (off + d.len)

  -- Each buffer holds the file's bytes, one buffer after the other.
  abbrev pub Delivered : GuestRam → List Desc → ℕ → Type 0
  Delivered mem [] off = Unit
  Delivered mem (d ∷ ds) off =
      (read_slice mem d.addr d.len ≡ disk.read_at file off d.len) × Delivered mem ds (off + d.len)

  Deliverable-moved :
      (mem mem' : GuestRam) (ds : List Desc) (off : ℕ)
      → mem'.base ≡ mem.base
      → length mem'.bytes ≡ length mem.bytes
      → Deliverable mem ds off
      → Deliverable mem' ds off
  Deliverable-moved mem mem' [] off b l h = tt
  Deliverable-moved mem mem' (d ∷ ds) off b l h = (
    h.0,
    h.1,
    (omega (arith, h.2.0), omega (arith, h.2.1)),
    h.3,
    Deliverable-moved mem mem' ds (off + d.len) b l h.4,
  )

  module _
      (exact : (off n : ℕ) (buf : List ℕ)
        → disk.read_at file off n ≡ some buf
        → length buf ≡ n) where
    pub read_from-delivers :
        (mem : GuestRam) (ds : List Desc) (off written : ℕ)
        → Fits mem
        → Deliverable mem ds off
        → off + total ds < 2 ^ 64
        → written + total ds < 2 ^ 32
        → (mem' : GuestRam) × (read_from disk file mem ds off written
            ≡ ((s_ok, written + total ds), mem'))
          × Delivered mem' ds off
          × ((a n : ℕ)
              → All (λ d. (a + n ≤ d.addr) ⊎ (d.addr + d.len ≤ a)) ds
              → read_slice mem' a n ≡ read_slice mem a n)
          × (mem'.base ≡ mem.base)
          × (length mem'.bytes ≡ length mem.bytes)
    unfolding read_from
    read_from-delivers mem [] off written f h short few =
        (mem, ap (λ n. ((s_ok, n), mem)) (omega arith), tt, (λ a n apart. refl), refl, refl)
    read_from-delivers mem (d ∷ ds) off written f h short few =
        let (buf, got) = h.1 in
        let long : length buf ≡ d.len = exact off d.len buf got in
        let place = write_slice-place mem d.addr buf in
        let done : (write_slice mem d.addr buf).0 ≡ true =
          (write_slice-true mem d.addr buf f).1 (h.2.0, omega (arith, h.2.1)) in
        let mem1 = (write_slice mem d.addr buf).1 in
        let fits : Fits mem1 = omega (arith, place.0, place.1, f) in
        let (mem', run, rest, frame, base, long') =
          read_from-delivers mem1 ds (off + d.len) (written + d.len) fits
            (Deliverable-moved mem mem1 ds (off + d.len) place.0 place.1 h.4) (omega arith)
            (omega arith) in
        let small : ltb max_desc_len d.len ≡ false = ground (arith, h.0) in
        let next : saturating_add64 off d.len ≡ off + d.len = omega arith in
        let count : saturating_add32 written d.len ≡ written + d.len = omega arith in
        let here : read_slice mem1 d.addr d.len ≡ some buf =
          subst (λ n. read_slice mem1 d.addr n ≡ some buf) long
            (read_slice-write_slice mem d.addr buf done) in
        (
          mem',
          rw (small, got, done, next, count) (run ∙ ap (λ n. ((s_ok, n), mem')) (omega arith)),
          (frame d.addr d.len h.3 ∙ here ∙ sym got, rest),
          (λ a n apart.
              frame a n apart.1
              ∙ read_slice-write_apart mem d.addr buf a n
                  (subst (λ l. (a + n ≤ d.addr) ⊎ (d.addr + l ≤ a)) (sym long) apart.0)),
          base ∙ place.0,
          long' ∙ place.1,
        )
