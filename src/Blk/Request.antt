-- ===== src/Blk/Request.antt =====
-- A whole request: its header, its data and its status byte.
use ignition.Base.{
  ℕ, ◌+◌, ◌*◌, ◌%◌, ◌^◌, ◌≤◌, ◌<◌, ltb, leb, false, ◌≡◌, ◌≢◌, refl, ap, ◌∙◌, ◌⊎◌, inl, inr, some,
  List, [], ◌∷◌, ◌++◌, length, arith, All, slice, Option-cases, from_le_bytes,
}
use ignition.Ram.{GuestRam, read_slice}
use ignition.Ram.Slices.{
  Fits, Inside, write_slice-true, read_slice-write_slice, read_slice-write_apart,
}
use ignition.Queue.{Desc, DescChain}
use ignition.Blk.{
  File, VirtioBlk, sector_size, s_ok, t_in, t_out, t_flush, read_to_guest, write_from_guest,
  dispatch, serve, split_last, process, set_status,
}
use ignition.Queue.Buffers.{total}
use ignition.Blk.Transfer.{Deliverable, Delivered, read_from-delivers}
use ignition.Blk.Store.{IsFile, Storable, Stored, write_from-stores}

-- A request chain: header, data and status.
abbrev pub request : ℕ → Desc → List Desc → Desc → DescChain
request head header data' status = record {
  head = head;
  descriptors = header ∷ (data' ++ status ∷ []);
}

split_last-append :
    (d : Desc) (ds : List Desc) (last : Desc) → split_last d (ds ++ last ∷ []) ≡ (d ∷ ds, last)
unfolding split_last
split_last-append d [] last = refl
split_last-append d (e ∷ es) last = rw (split_last-append e es last) refl

module _ {F : Type 0} (disk : File F) where
  process-request :
      (b : VirtioBlk F) (head : ℕ) (header : Desc) (data' : List Desc) (status : Desc)
      (mem : GuestRam)
      → process disk b (request head header data' status) mem ≡ serve disk b header data' status mem
  unfolding process split_last serve
  process-request b head header [] status mem = refl
  process-request b head header (d ∷ ds) status mem =
      ap (λ p. serve disk b header p.0 p.1 mem) (split_last-append d ds status)

  -- The header is read as a request of this type at this sector.
  abbrev pub IsHeader : GuestRam → Desc → ℕ → ℕ → Type 0
  IsHeader mem header req_type sector =
      (16 ≤ header.len)
      × ((hdr : List ℕ) × (read_slice mem header.addr 16 ≡ some hdr)
          × (from_le_bytes (slice hdr 0 4) ≡ req_type)
          × (from_le_bytes (slice hdr 8 8) ≡ sector))

  serve-header :
      (b : VirtioBlk F) (header : Desc) (data' : List Desc) (status : Desc) (mem : GuestRam)
      (req_type sector : ℕ)
      → IsHeader mem header req_type sector
      → let (r, file, mem') = dispatch disk b.file mem req_type data' sector in
        serve disk b header data' status mem
        ≡ ((r.1 + 1) % 2 ^ 32, record b { file = file }, set_status mem' status.addr r.0)
  unfolding serve
  serve-header b header data' status mem req_type sector h =
      let (hdr, got, kind, place) = h.1 in
      let whole : ltb header.len 16 ≡ false = ground (arith, h.0) in
      rw (whole, got, kind, place) refl

  module _ (file : F) where
    Delivered-status :
        (mem : GuestRam) (ds : List Desc) (off addr s : ℕ)
        → All (λ d. (d.addr + d.len ≤ addr) ⊎ (addr + 1 ≤ d.addr)) ds
        → Delivered disk file mem ds off
        → Delivered disk file (set_status mem addr s) ds off
    unfolding set_status
    Delivered-status mem [] off addr s apart h = tt
    Delivered-status mem (d ∷ ds) off addr s apart h = (
      read_slice-write_apart mem addr (s ∷ []) d.addr d.len apart.0 ∙ h.0,
      Delivered-status mem ds (off + d.len) addr s apart.1 h.1,
    )

  -- A read request is answered in full if its header is in memory, its buffers are of at most 1 MiB
  -- each, lie in memory, apart from each other and from the status byte, which is in memory too, the
  -- file has the bytes and a read gives as many as asked for, and memory and the range of the file
  -- end below 2^64, the count below 2^32: every buffer holds the file's bytes from the sector on,
  -- the status byte is OK, the count is one more than the bytes, the file stays.
  pub process-reads :
      (exact : (f : F) (off n : ℕ) (buf : List ℕ)
        → disk.read_at f off n ≡ some buf
        → length buf ≡ n)
      (b : VirtioBlk F) (head : ℕ) (header : Desc) (data' : List Desc) (status : Desc)
      (mem : GuestRam) (sector : ℕ)
      → Fits mem
      → IsHeader mem header t_in sector
      → Deliverable disk b.file mem data' (sector * sector_size)
      → All (λ d. (d.addr + d.len ≤ status.addr) ⊎ (status.addr + 1 ≤ d.addr)) data'
      → Inside mem status.addr 1
      → sector * sector_size + total data' < 2 ^ 64
      → total data' + 1 < 2 ^ 32
      → (mem' : GuestRam) × (process disk b (request head header data' status) mem
          ≡ (total data' + 1, b, mem'))
        × Delivered disk b.file mem' data' (sector * sector_size)
        × (read_slice mem' status.addr 1 ≡ some (s_ok ∷ []))
  unfolding dispatch read_to_guest set_status
  process-reads exact b head header data' status mem sector f hdr ready apart inside short few =
      let (mem1, run, delivered, frame, base, long) =
        read_from-delivers disk b.file (exact b.file) mem data' (sector * sector_size) 0 f ready
          short (omega arith) in
      let low : leb (2 ^ 64) (sector * sector_size) ≡ false = ground arith in
      let served = serve-header b header data' status mem t_in sector hdr in
      let ran : read_to_guest disk b.file mem data' sector ≡ ((s_ok, total data'), mem1) =
        rw low (run ∙ ap (λ n. ((s_ok, n), mem1)) (omega arith)) in
      let answer : (ℕ × ℕ) × GuestRam → ℕ × VirtioBlk F × GuestRam =
        λ o. ((o.0.1 + 1) % 2 ^ 32, b, set_status o.1 status.addr o.0.0) in
      let count : (total data' + 1) % 2 ^ 32 ≡ total data' + 1 = omega arith in
      (
        set_status mem1 status.addr s_ok,
        process-request b head header data' status mem
            ∙ served
            ∙ ap answer ran
            ∙ ap (λ n. (n, b, set_status mem1 status.addr s_ok)) count,
        Delivered-status b.file mem1 data' (sector * sector_size) status.addr s_ok apart delivered,
        read_slice-write_slice mem1 status.addr (s_ok ∷ []) (
            (write_slice-true mem1 status.addr (s_ok ∷ []) (omega (arith, base, long, f))).1
              (omega (arith, inside.0, base), omega (arith, inside.1, base, long))),
      )

  -- A write request whose header and status byte are in memory, which ends below 2^64, whose buffers
  -- are readable and of at most 1 MiB each, and whose range lies in a file of `room` bytes, below
  -- 2^64, where every write takes place and changes no other byte, puts the buffers' bytes into the
  -- file from the sector on, one after the other, and leaves the rest of the file. The count is one,
  -- the status byte is OK, and every slice of guest memory apart from it is as it was.
  pub process-writes :
      (room : ℕ) (file_law : IsFile disk room) (b : VirtioBlk F) (head : ℕ) (header : Desc)
      (data' : List Desc) (status : Desc) (mem : GuestRam) (sector : ℕ)
      → IsHeader mem header t_out sector
      → Fits mem
      → Inside mem status.addr 1
      → Storable disk room file_law mem data'
      → sector * sector_size + total data' ≤ room
      → room < 2 ^ 64
      → (file' : F) × (mem' : GuestRam) × (process disk b (request head header data' status) mem
          ≡ (1, record b { file = file' }, mem'))
        × (read_slice mem' status.addr 1 ≡ some (s_ok ∷ []))
        × ((a n : ℕ)
            → (a + n ≤ status.addr) ⊎ (status.addr + 1 ≤ a)
            → read_slice mem' a n ≡ read_slice mem a n)
        × Stored disk room file_law file' mem data' (sector * sector_size)
        × ((o n : ℕ)
            → (o + n ≤ sector * sector_size) ⊎ (sector * sector_size + total data' ≤ o)
            → disk.read_at file' o n ≡ disk.read_at b.file o n)
  unfolding dispatch write_from_guest set_status
  process-writes room file_law b head header data' status mem sector hdr f inside ready fits word =
      let (file', run, stored, frame) =
        write_from-stores disk room file_law b.file mem data' (sector * sector_size) ready fits
          word in
      let low : leb (2 ^ 64) (sector * sector_size) ≡ false = ground arith in
      let served = serve-header b header data' status mem t_out sector hdr in
      let ran : write_from_guest disk b.file mem data' sector ≡ (s_ok, file') = rw low run in
      let answer : ℕ × F → ℕ × VirtioBlk F × GuestRam =
        λ o. ((0 + 1) % 2 ^ 32, record b { file = o.1 }, set_status mem status.addr o.0) in
      (
        file',
        set_status mem status.addr s_ok,
        process-request b head header data' status mem ∙ served ∙ ap answer ran,
        read_slice-write_slice mem status.addr (s_ok ∷ [])
            ((write_slice-true mem status.addr (s_ok ∷ []) f).1 inside),
        λ a n apart. read_slice-write_apart mem status.addr (s_ok ∷ []) a n apart,
        stored,
        frame,
      )

  dispatch-file :
      (file : F) (mem : GuestRam) (req_type : ℕ) (data' : List Desc) (sector : ℕ)
      → req_type ≢ t_out
      → req_type ≢ t_flush
      → (dispatch disk file mem req_type data' sector).1 ≡ file
  unfolding dispatch
  dispatch-file file mem req_type data' sector not_out not_flush = ground arith

  serve-file :
      (b : VirtioBlk F) (header : Desc) (data' : List Desc) (status : Desc) (mem : GuestRam)
      → ((hdr : List ℕ)
          → read_slice mem header.addr 16 ≡ some hdr
          → (from_le_bytes (slice hdr 0 4) ≢ t_out) × (from_le_bytes (slice hdr 0 4) ≢ t_flush))
      → (serve disk b header data' status mem).1.file ≡ b.file
  unfolding serve
  serve-file b header data' status mem other = elim (Option-cases (read_slice mem header.addr 16)) [
    | inl e ↦ ground arith
    | inr (hdr, e) ↦
        let (not_out, not_flush) = other hdr e in
        ground (
          arith,
          dispatch-file b.file mem (from_le_bytes (slice hdr 0 4)) data'
              (from_le_bytes (slice hdr 8 8)) not_out not_flush,
        )
  ]

  -- Only a write or a flush request can change the file, and only its header's type decides that:
  -- a chain of any other type, whatever its descriptors, leaves it.
  pub process-file :
      (b : VirtioBlk F) (head : ℕ) (header : Desc) (rest : List Desc) (mem : GuestRam)
      → ((hdr : List ℕ)
          → read_slice mem header.addr 16 ≡ some hdr
          → (from_le_bytes (slice hdr 0 4) ≢ t_out) × (from_le_bytes (slice hdr 0 4) ≢ t_flush))
      → (process disk b (record { head = head; descriptors = header ∷ rest }) mem).1.file ≡ b.file
  unfolding process serve
  process-file b head header [] mem other = refl
  process-file b head header (d ∷ ds) mem other =
      serve-file b header (split_last d ds).0 (split_last d ds).1 mem other
