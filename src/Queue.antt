-- ===== src/Queue.antt =====
-- crates/devices/src/virtio/queue.rs: the device side of a split virtqueue in guest memory.
-- Ring addresses are written by the guest; sums of addresses wrap at 2 ^ 64, as they do in a
-- release build (a debug build stops there with a panic).
pub mod Pop
pub mod Push
pub mod Payload
pub mod Drain
pub mod Tracked
pub mod Buffers
pub mod Tests
use ignition.Base.{
  ℕ, zero, suc, ◌+◌, ◌*◌, ◌%◌, ◌^◌, ◌==◌, ◌||◌, ltb, leb, not, if◌then◌else◌, Bool, true, false,
  Option, none, some, List, [], ◌∷◌, ◌++◌, length, bit_and,
}
use ignition.Ram.{
  GuestRam, contains, read_slice, read_u16, read_u32, read_u64, write_u16, write_u32,
}

abbrev pub desc_f_next : ℕ
desc_f_next = 1

abbrev pub desc_f_write : ℕ
desc_f_write = 2

abbrev pub desc_size : ℕ
desc_size = 16

-- `u64` and `u16` addition in a release build.
abbrev pub add64 : ℕ → ℕ → ℕ
add64 a b = (a + b) % 2 ^ 64

abbrev pub add16 : ℕ → ℕ → ℕ
add16 a b = (a + b) % 2 ^ 16

pub record Desc : Type 0 where
  pub addr : ℕ
  pub len : ℕ
  pub writable : Bool

pub record DescChain : Type 0 where
  pub head : ℕ
  pub descriptors : List Desc

pub record Virtqueue : Type 0 where
  pub size : ℕ
  pub desc_addr : ℕ
  pub driver_addr : ℕ
  pub device_addr : ℕ
  pub last_avail_idx : ℕ
  pub used_idx : ℕ

unfoldable pub new : ℕ → ℕ → ℕ → ℕ → Virtqueue
new size desc_addr driver_addr device_addr = record {
  size = size;
  desc_addr = desc_addr;
  driver_addr = driver_addr;
  device_addr = device_addr;
  last_avail_idx = 0;
  used_idx = 0;
}

-- The first loop of `DescChain::read`: the checked total of the readable descriptors.
unfoldable pub read_len : GuestRam → ℕ → List Desc → ℕ → Option ℕ
read_len mem max_len [] len = some len
read_len mem max_len (d ∷ ds) len =
    let total = if d.writable then len else len + d.len in
    let rest = read_len mem max_len ds total in
    if d.writable
    then rest
    else if leb (2 ^ 64) total || (ltb max_len total || not (contains mem d.addr d.len))
    then none
    else rest

-- The second loop: a read that failed would leave the zeros of the fresh buffer.
abbrev pub zeros : ℕ → List ℕ
zeros zero = []
zeros (suc n) = 0 ∷ zeros n

unfoldable pub read_bytes : GuestRam → List Desc → List ℕ
read_bytes mem [] = []
read_bytes mem (d ∷ ds) =
    let rest = read_bytes mem ds in
    if d.writable
    then rest
    else elim (read_slice mem d.addr d.len) [ none ↦ zeros d.len | some b ↦ b ] ++ rest

unfoldable pub read : DescChain → GuestRam → ℕ → Option (List ℕ)
read chain mem max_len = elim (read_len mem max_len chain.descriptors 0) [
  | none ↦ none
  | some _ ↦ some (read_bytes mem chain.descriptors)
]

-- One descriptor of the table, with its flags and its next index.
unfoldable pub read_desc : Virtqueue → GuestRam → ℕ → Option (Desc × ℕ × ℕ)
read_desc vq mem idx =
    let d = add64 vq.desc_addr (idx * desc_size) in
    elim (read_u64 mem d) [
      | none ↦ none
      | some addr ↦ elim (read_u32 mem (add64 d 8)) [
        | none ↦ none
        | some len ↦ elim (read_u16 mem (add64 d 12)) [
          | none ↦ none
          | some flags ↦ elim (read_u16 mem (add64 d 14)) [
            | none ↦ none
            | some next ↦ some (
              record { addr = addr; len = len; writable = not (bit_and flags desc_f_write == 0) },
              flags,
              next,
            )
          ]
        ]
      ]
    ]

abbrev pub cons? : Desc → Option (List Desc) → Option (List Desc)
cons? d none = none
cons? d (some ds) = some (d ∷ ds)

-- The loop `for _ in 0..size`, with the rounds that are left.
unfoldable pub walk : Virtqueue → GuestRam → ℕ → ℕ → Option (List Desc)
walk vq mem zero idx = some []
walk vq mem (suc rounds) idx = if leb vq.size idx then some [] else elim (read_desc vq mem idx) [
  | none ↦ none
  | some (d, flags, next) ↦
      let rest = walk vq mem rounds next in
      if bit_and flags desc_f_next == 0 then some (d ∷ []) else cons? d rest
]

abbrev pub with_head : ℕ → Option (List Desc) → Option DescChain
with_head head none = none
with_head head (some ds) = some (record { head = head; descriptors = ds })

-- A failed read in the walk returns nothing, after the entry was consumed.
unfoldable pub pop_avail : Virtqueue → GuestRam → Option DescChain × Virtqueue
pop_avail vq mem =
    if vq.size == 0 then (none, vq) else elim (read_u16 mem (add64 vq.driver_addr 2)) [
      | none ↦ (none, vq)
      | some avail_idx ↦
          if vq.last_avail_idx == avail_idx
          then (none, vq)
          else let slot = vq.last_avail_idx % vq.size in
            elim (read_u16 mem (add64 (add64 vq.driver_addr 4) (slot * 2))) [
              | none ↦ (none, vq)
              | some head ↦
                  let vq' : Virtqueue = record vq { last_avail_idx = add16 vq.last_avail_idx 1 } in
                  if leb vq.size head
                  then (none, vq')
                  else (with_head head (walk vq mem vq.size head), vq')
            ]
    ]

unfoldable pub indices : Virtqueue → ℕ × ℕ
indices vq = (vq.last_avail_idx, vq.used_idx)

unfoldable pub set_indices : Virtqueue → ℕ → ℕ → Virtqueue
set_indices vq last_avail used = record vq { last_avail_idx = last_avail; used_idx = used }

-- The results of the writes are dropped: an unmapped ring is written nowhere.
unfoldable pub push_used : Virtqueue → GuestRam → ℕ → ℕ → Virtqueue × GuestRam
push_used vq mem head len =
    if vq.size == 0
    then (vq, mem)
    else let slot = vq.used_idx % vq.size in
      let elem = add64 (add64 vq.device_addr 4) (slot * 8) in
      let m1 = (write_u32 mem elem head).1 in
      let m2 = (write_u32 m1 (add64 elem 4) len).1 in
      let used = add16 vq.used_idx 1 in
      (record vq { used_idx = used }, (write_u16 m2 (add64 vq.device_addr 2) used).1)
