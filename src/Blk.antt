-- ===== src/Blk.antt =====
-- crates/devices/src/virtio/blk.rs: one request of the block device.
-- The file is a record of the calls made on it, over its state `F`: every access seeks first, so
-- the cursor is no state. `u32` sums wrap as in a release build where the source does not saturate.
pub mod Transfer
pub mod Store
pub mod Request
mod Tests
use ignition.Base.{
  image_at, ℕ, ◌+◌, ◌-◌, ◌*◌, ◌/◌, ◌%◌, ◌^◌, ◌==◌, ◌||◌, ltb, leb, min, if◌then◌else◌, Bool, true,
  false, Option, none, some, List, [], ◌∷◌, ◌++◌, length, slice, take, get_elem?, to_le_bytes,
  from_le_bytes, replicate,
}
use ignition.Ram.{GuestRam, read_slice, write_slice}
use ignition.Queue.{Desc, DescChain}

abbrev pub sector_size : ℕ
sector_size = 512

abbrev pub t_in : ℕ
t_in = 0

abbrev pub t_out : ℕ
t_out = 1

abbrev pub t_flush : ℕ
t_flush = 4

abbrev pub t_get_id : ℕ
t_get_id = 8

abbrev pub s_ok : ℕ
s_ok = 0

abbrev pub s_ioerr : ℕ
s_ioerr = 1

abbrev pub s_unsupp : ℕ
s_unsupp = 2

-- `ignition-vda`.
abbrev pub device_id : List ℕ
device_id = 105 ∷ 103 ∷ 110 ∷ 105 ∷ 116 ∷ 105 ∷ 111 ∷ 110 ∷ 45 ∷ 118 ∷ 100 ∷ 97 ∷ []

abbrev pub max_desc_len : ℕ
max_desc_len = 2 ^ 20

-- A seek and then `read_exact`, `write_all`, and `sync_all`.
pub record File (F : Type 0) : Type 0 where
  pub read_at : F → ℕ → ℕ → Option (List ℕ)
  pub write_at : F → ℕ → List ℕ → Bool × F
  pub sync_all : F → Bool × F

pub record VirtioBlk (F : Type 0) : Type 0 where
  pub file : F
  pub capacity_sectors : ℕ

-- `new`, given the length of the file.
unfoldable pub new : {F : Type 0} → F → ℕ → VirtioBlk F
new file len = record { file = file; capacity_sectors = len / sector_size }

abbrev pub saturating_add32 : ℕ → ℕ → ℕ
saturating_add32 a b = min (a + b) (2 ^ 32 - 1)

abbrev pub saturating_add64 : ℕ → ℕ → ℕ
saturating_add64 a b = min (a + b) (2 ^ 64 - 1)

-- The bytes of the configuration space, zero after the capacity.
unfoldable pub config_read : {F : Type 0} → VirtioBlk F → ℕ → ℕ → List ℕ
config_read b off n = image_at (to_le_bytes 8 b.capacity_sectors) off n

unfoldable pub set_status : GuestRam → ℕ → ℕ → GuestRam
set_status mem addr status = (write_slice mem addr (status ∷ [])).1

module _ {F : Type 0} (disk : File F) where
  -- The loop of `read_to_guest`, from the offset and the count so far.
  unfoldable pub read_from : F → GuestRam → List Desc → ℕ → ℕ → (ℕ × ℕ) × GuestRam
  read_from file mem [] off written = ((s_ok, written), mem)
  read_from file mem (d ∷ ds) off written =
      if ltb max_desc_len d.len
      then ((s_ioerr, written), mem)
      else elim (disk.read_at file off d.len) [
        | none ↦ ((s_ioerr, written), mem)
        | some buf ↦
            let (done, mem') = write_slice mem d.addr buf in
            let rest =
              read_from file mem' ds (saturating_add64 off d.len)
                (saturating_add32 written d.len) in
            if done then rest else ((s_ioerr, written), mem')
      ]

  unfoldable pub read_to_guest : F → GuestRam → List Desc → ℕ → (ℕ × ℕ) × GuestRam
  unfolding read_from
  read_to_guest file mem data' sector =
      if leb (2 ^ 64) (sector * sector_size)
      then ((s_ioerr, 0), mem)
      else read_from file mem data' (sector * sector_size) 0

  unfoldable pub write_from : F → GuestRam → List Desc → ℕ → ℕ × F
  write_from file mem [] off = (s_ok, file)
  write_from file mem (d ∷ ds) off =
      if ltb max_desc_len d.len then (s_ioerr, file) else elim (read_slice mem d.addr d.len) [
        | none ↦ (s_ioerr, file)
        | some buf ↦
            let (done, file') = disk.write_at file off buf in
            let rest = write_from file' mem ds (saturating_add64 off d.len) in
            if done then rest else (s_ioerr, file')
      ]

  unfoldable pub write_from_guest : F → GuestRam → List Desc → ℕ → ℕ × F
  unfolding write_from
  write_from_guest file mem data' sector =
      if leb (2 ^ 64) (sector * sector_size)
      then (s_ioerr, file)
      else write_from file mem data' (sector * sector_size)

-- The device's name, padded with zeros or cut to the buffer.
unfoldable pub get_id : GuestRam → List Desc → (ℕ × ℕ) × GuestRam
get_id mem [] = ((s_ioerr, 0), mem)
get_id mem (d ∷ ds) =
    if ltb max_desc_len d.len
    then ((s_ioerr, 0), mem)
    else let buf = take d.len (device_id ++ replicate d.len 0) in
      let (done, mem') = write_slice mem d.addr buf in
      if done then ((s_ok, d.len), mem') else ((s_ioerr, 0), mem')

-- `&descs[1..descs.len() - 1]` and the last descriptor, of a chain after its header.
unfoldable pub split_last : Desc → List Desc → List Desc × Desc
split_last d [] = ([], d)
split_last d (e ∷ es) = let (ds, last) = split_last e es in (d ∷ ds, last)

module _ {F : Type 0} (disk : File F) where
  -- The `match` on the request's type: the status, the count, the file and the memory.
  unfoldable pub dispatch : F → GuestRam → ℕ → List Desc → ℕ → (ℕ × ℕ) × F × GuestRam
  unfolding read_to_guest write_from_guest get_id
  dispatch file mem req_type data' sector =
      if req_type == t_in
      then (let (r, mem') = read_to_guest disk file mem data' sector in (r, file, mem'))
      else if req_type == t_out
      then (let (s, file') = write_from_guest disk file mem data' sector in ((s, 0), file', mem))
      else if req_type == t_flush
      then (let (done, file') = disk.sync_all file in
          ((if done then s_ok else s_ioerr, 0), file', mem))
      else if req_type == t_get_id
      then (let (r, mem') = get_id mem data' in (r, file, mem'))
      else ((s_unsupp, 0), file, mem)

  -- A chain of a header, data and a status descriptor.
  unfoldable pub serve :
      VirtioBlk F → Desc → List Desc → Desc → GuestRam → ℕ × VirtioBlk F × GuestRam
  unfolding dispatch set_status
  serve b header data' status_desc mem =
      if ltb header.len 16
      then (1, b, set_status mem status_desc.addr s_ioerr)
      else elim (read_slice mem header.addr 16) [
        | none ↦ (1, b, set_status mem status_desc.addr s_ioerr)
        | some hdr ↦
            let req_type = from_le_bytes (slice hdr 0 4) in
            let sector = from_le_bytes (slice hdr 8 8) in
            let (r, file, mem') = dispatch b.file mem req_type data' sector in
            ((r.1 + 1) % 2 ^ 32, record b { file = file }, set_status mem' status_desc.addr r.0)
      ]

  unfoldable pub process : VirtioBlk F → DescChain → GuestRam → ℕ × VirtioBlk F × GuestRam
  unfolding serve split_last
  process b chain mem = elim chain.descriptors [
    | [] ↦ (0, b, mem)
    | header ∷ rest ↦ elim rest [
      | [] ↦ (0, b, mem)
      | d ∷ ds ↦ let (data', status_desc) = split_last d ds in serve b header data' status_desc mem
    ]
  ]
