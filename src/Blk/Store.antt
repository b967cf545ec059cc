-- ===== src/Blk/Store.antt =====
-- The write request: what reaches the file from guest memory.
use ignition.Base.{
  ℕ, ◌+◌, ◌^◌, ◌≤◌, ◌<◌, ltb, true, false, ◌≡◌, refl, sym, ◌∙◌, ◌⊎◌, inl, inr, some, List, [], ◌∷◌,
  length, arith, All, subst,
}
use ignition.Ram.{GuestRam, read_slice}
use ignition.Queue.{Desc}
use ignition.Blk.{File, max_desc_len, s_ok, saturating_add64, write_from}
use ignition.Queue.Buffers.{total}

-- A file of `room` bytes: a write within it succeeds, is read back, and leaves the rest.
pub record IsFile {F : Type 0} (disk : File F) (room : ℕ) : Type 0 where
  pub succeeds :
      (f : F) (off : ℕ) (buf : List ℕ)
      → off + length buf ≤ room
      → (disk.write_at f off buf).0 ≡ true
  pub same :
      (f : F) (off : ℕ) (buf : List ℕ)
      → off + length buf ≤ room
      → disk.read_at (disk.write_at f off buf).1 off (length buf) ≡ some buf
  pub apart :
      (f : F) (off : ℕ) (buf : List ℕ) (o n : ℕ)
      → (o + n ≤ off) ⊎ (off + length buf ≤ o)
      → disk.read_at (disk.write_at f off buf).1 o n ≡ disk.read_at f o n

module _ {F : Type 0} (disk : File F) (room : ℕ) (file_law : IsFile disk room) where
  -- Each buffer lies in memory and is not too long for one descriptor.
  abbrev pub Storable : GuestRam → List Desc → Type 0
  Storable mem ds =
      All
        (λ d.
          (d.len ≤ max_desc_len)
          × ((buf : List ℕ) × (read_slice mem d.addr d.len ≡ some buf) × (length buf ≡ d.len)))
        ds

  -- The file has each buffer's bytes, one buffer after the other.
  abbrev pub Stored : F → GuestRam → List Desc → ℕ → Type 0
  Stored file mem [] off = Unit
  Stored file mem (d ∷ ds) off =
      (disk.read_at file off d.len ≡ read_slice mem d.addr d.len) × Stored file mem ds (off + d.len)

  pub write_from-stores :
      (file : F) (mem : GuestRam) (ds : List Desc) (off : ℕ)
      → Storable mem ds
      → off + total ds ≤ room
      → room < 2 ^ 64
      → (file' : F) × (write_from disk file mem ds off ≡ (s_ok, file'))
        × Stored file' mem ds off
        × ((o n : ℕ)
            → (o + n ≤ off) ⊎ (off + total ds ≤ o)
            → disk.read_at file' o n ≡ disk.read_at file o n)
  unfolding write_from
  write_from-stores file mem [] off h fits word = (file, refl, tt, λ o n apart. refl)
  write_from-stores file mem (d ∷ ds) off h fits word =
      let (buf, got, long) = h.0.1 in
      let file1 = (disk.write_at file off buf).1 in
      let inside : off + length buf ≤ room = omega arith in
      let done = file_law.succeeds file off buf inside in
      let (file', run, rest, frame) =
        write_from-stores file1 mem ds (off + d.len) h.1 (omega arith) word in
      let small : ltb max_desc_len d.len ≡ false = ground (arith, h.0.0) in
      let next : saturating_add64 off d.len ≡ off + d.len = omega arith in
      let here : disk.read_at file1 off d.len ≡ some buf =
        subst (λ n. disk.read_at file1 off n ≡ some buf) long (file_law.same file off buf inside) in
      (
        file',
        rw (small, got, done, next) run,
        (frame off d.len (inl (omega arith)) ∙ here ∙ sym got, rest),
        λ o n apart.
            frame o n (elim apart [ inl a ↦ inl (omega arith) | inr a ↦ inr (omega arith) ])
            ∙ file_law.apart file off buf o n (
                subst (λ l. (o + n ≤ off) ⊎ (off + l ≤ o)) (sym long)
                  (elim apart [ inl a ↦ inl (omega arith) | inr a ↦ inr (omega arith) ])),
      )
