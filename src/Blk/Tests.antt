-- ===== src/Blk/Tests.antt =====
-- A disk that is a function of the position, and the requests of the theorems.
use ignition.Base.{
  ℕ, zero, suc, ◌+◌, ◌%◌, ◌≤◌, ◌<◌, ◌==◌, if◌then◌else◌, true, false, ◌≡◌, refl, ap, ◌∙◌, ◌⊎◌, inl,
  inr, none, some, List, [], ◌∷◌, length, arith,
}
use ignition.Ram.{GuestRam, offset, read_slice, write_slice}
use ignition.Queue.{Desc}
use ignition.Blk.{File, VirtioBlk, process, t_in, t_out, s_ok}
use ignition.Blk.Transfer.{Delivered}
use ignition.Blk.Store.{IsFile, Stored}
use ignition.Blk.Request.{IsHeader, request, process-reads, process-writes, process-file}

abbrev window : (ℕ → ℕ) → ℕ → ℕ → List ℕ
window f off zero = []
window f off (suc n) = f off ∷ window f (off + 1) n

abbrev written : (ℕ → ℕ) → ℕ → List ℕ → ℕ → ℕ
written f off [] i = f i
written f off (b ∷ bs) i = if i == off then b else written f (off + 1) bs i

abbrev disk : File (ℕ → ℕ)
disk = record {
  read_at = λ f off n. some (window f off n);
  write_at = λ f off buf. (true, written f off buf);
  sync_all = λ f. (true, f);
}

length-window : (f : ℕ → ℕ) (off n : ℕ) → length (window f off n) ≡ n
length-window f off zero = refl
length-window f off (suc n) = ap suc (length-window f (off + 1) n)

window-cong :
    (f g : ℕ → ℕ) (off n : ℕ)
    → ((i : ℕ) → off ≤ i → i < off + n → f i ≡ g i)
    → window f off n ≡ window g off n
window-cong f g off zero h = refl
window-cong f g off (suc n) h =
    let first = h off (omega arith) (omega arith) in
    let rest = window-cong f g (off + 1) n (λ i low high. h i (omega arith) (omega arith)) in
    rw (first, rest) refl

written-apart :
    (f : ℕ → ℕ) (off : ℕ) (buf : List ℕ) (i : ℕ)
    → (i < off) ⊎ (off + length buf ≤ i)
    → written f off buf i ≡ f i
written-apart f off [] i h = refl
written-apart f off (b ∷ bs) i h =
    let other : (i == off) ≡ false = ground arith in
    rw other (
      written-apart f (off + 1) bs i
        (elim h [ inl x ↦ inl (omega arith) | inr x ↦ inr (omega arith) ]))

window-written :
    (f : ℕ → ℕ) (off : ℕ) (buf : List ℕ) → window (written f off buf) off (length buf) ≡ buf
window-written f off [] = refl
window-written f off (b ∷ bs) =
    let here : (off == off) ≡ true = ground arith in
    let rest : window (written f off (b ∷ bs)) (off + 1) (length bs) ≡ bs =
      window-cong (written f off (b ∷ bs)) (written f (off + 1) bs) (off + 1) (length bs)
        (λ i low high. let other : (i == off) ≡ false = ground arith in rw other refl)
      ∙ window-written f (off + 1) bs in
    rw (here, rest) refl

disk-IsFile : IsFile disk 4096
disk-IsFile = record {
  succeeds = λ f off buf fits. refl;
  same = λ f off buf fits. ap some (window-written f off buf);
  apart = λ f off buf o n h. ap some (
      window-cong (written f off buf) f o n (λ i low high.
        written-apart f off buf i
          (elim h [ inl x ↦ inl (omega arith) | inr x ↦ inr (omega arith) ])));
}

exact : (f : ℕ → ℕ) (off n : ℕ) (buf : List ℕ) → disk.read_at f off n ≡ some buf → length buf ≡ n
exact f off n buf e = let same : window f off n ≡ buf = cc in rw (← same) (length-window f off n)

-- A header of the type `kind` at sector 1, four bytes of data and room for the status.
abbrev guest : ℕ → GuestRam
guest kind = record {
  bytes =
      kind ∷ 0 ∷ 0 ∷ 0 ∷ 0 ∷ 0 ∷ 0 ∷ 0 ∷ 1 ∷ 0 ∷ 0 ∷ 0 ∷ 0 ∷ 0 ∷ 0 ∷ 0 ∷ 10 ∷ 11 ∷ 12 ∷ 13 ∷ 255
      ∷ [];
  base = 0;
  dirty = none;
}

abbrev header : Desc
header = record { addr = 0; len = 16; writable = false }

abbrev block : Desc
block = record { addr = 16; len = 4; writable = true }

abbrev status : Desc
status = record { addr = 20; len = 1; writable = true }

abbrev blk : VirtioBlk (ℕ → ℕ)
blk = record { file = λ i. i % 256; capacity_sectors = 8 }

reads :
    read_slice (process disk blk (request 0 header (block ∷ []) status) (guest t_in)).2 16 5
    ≡ some (0 ∷ 1 ∷ 2 ∷ 3 ∷ 0 ∷ [])
unfolding process read_slice offset write_slice
reads = refl

-- The bytes of the header, and of the data.
abbrev header_bytes : ℕ → List ℕ
header_bytes kind = kind ∷ 0 ∷ 0 ∷ 0 ∷ 0 ∷ 0 ∷ 0 ∷ 0 ∷ 1 ∷ 0 ∷ 0 ∷ 0 ∷ 0 ∷ 0 ∷ 0 ∷ 0 ∷ []

header-read : (kind : ℕ) → read_slice (guest kind) 0 16 ≡ some (header_bytes kind)
unfolding read_slice offset
header-read kind = refl

data-read : (kind : ℕ) → read_slice (guest kind) 16 4 ≡ some (10 ∷ 11 ∷ 12 ∷ 13 ∷ [])
unfolding read_slice offset
data-read kind = refl

header-IsHeader : (kind : ℕ) → IsHeader disk (guest kind) header kind 1
header-IsHeader kind = (omega arith, (header_bytes kind, header-read kind, omega arith, refl))

process-reads_example :
    (mem' : GuestRam) × (process disk blk (request 0 header (block ∷ []) status) (guest t_in)
      ≡ (5, blk, mem'))
    × Delivered disk blk.file mem' (block ∷ []) 512
    × (read_slice mem' 20 1 ≡ some (s_ok ∷ []))
process-reads_example =
    process-reads disk exact blk 0 header (block ∷ []) status (guest t_in) 1 (omega arith)
      (header-IsHeader t_in) (omega arith, (_, refl), (omega arith, omega arith), tt, tt)
      (inl (omega arith), tt) (omega arith, omega arith) (omega arith) (omega arith)

process-writes_example :
    (file' : ℕ → ℕ) × (mem' : GuestRam) × (process disk blk
        (request 0 header (block ∷ []) status)
        (guest t_out)
      ≡ (1, record blk { file = file' }, mem'))
    × (read_slice mem' 20 1 ≡ some (s_ok ∷ []))
    × ((a n : ℕ) → (a + n ≤ 20) ⊎ (21 ≤ a) → read_slice mem' a n ≡ read_slice (guest t_out) a n)
    × Stored disk 4096 disk-IsFile file' (guest t_out) (block ∷ []) 512
    × ((o n : ℕ) → (o + n ≤ 512) ⊎ (516 ≤ o) → disk.read_at file' o n ≡ disk.read_at blk.file o n)
process-writes_example =
    process-writes disk 4096 disk-IsFile blk 0 header (block ∷ []) status (guest t_out) 1
      (header-IsHeader t_out) (omega arith) (omega arith, omega arith)
      ((omega arith, (10 ∷ 11 ∷ 12 ∷ 13 ∷ [], data-read t_out, refl)), tt) (omega arith)
      (omega arith)

process-file_example :
    (process disk blk (request 0 header (block ∷ []) status) (guest t_in)).1.file ≡ blk.file
process-file_example = process-file disk blk 0 header (block ∷ status ∷ []) (guest t_in) (λ hdr e.
    let same : header_bytes t_in ≡ hdr = ground (arith, header-read t_in) in
    rw (← same) ((λ a. cc), (λ a. cc)))
