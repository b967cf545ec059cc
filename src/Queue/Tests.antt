-- ===== src/Queue/Tests.antt =====
-- A queue in a small guest memory, and the theorems about it at concrete data.
use ignition.Base.{
  ℕ, ◌^◌, ◌≡◌, refl, inl, Bool, true, false, none, some, List, [], ◌∷◌, ◌++◌, arith, replicate,
  to_le_bytes,
}
use ignition.Ram.{
  GuestRam, offset, contains, read_slice, read_u16, read_u32, read_u64, write_slice, write_u16,
  write_u32,
}
use ignition.Queue.{
  Desc, DescChain, Virtqueue, read_desc, walk, pop_avail, push_used, read, read_len, read_bytes,
}
use ignition.Queue.Pop.{Linked, last, more, pop_avail-Linked}
use ignition.Queue.Push.{Published, push_used-Published}
use ignition.Queue.Drain.{drain, drain_total}

-- Two descriptors at 0, the available ring at 32 (index 1, entry 0), the used ring at 48.
abbrev pub memory : List ℕ
memory =
    to_le_bytes 8 80
    ++ to_le_bytes 4 4
    ++ to_le_bytes 2 1
    ++ to_le_bytes 2 1
    ++ to_le_bytes 8 84
    ++ to_le_bytes 4 4
    ++ to_le_bytes 2 2
    ++ to_le_bytes 2 0
    ++ to_le_bytes 2 0
    ++ to_le_bytes 2 1
    ++ to_le_bytes 2 0
    ++ replicate 10 0
    ++ replicate 32 0
    ++ (1 ∷ 2 ∷ 3 ∷ 4 ∷ 0 ∷ 0 ∷ 0 ∷ 0 ∷ [])

abbrev ram : GuestRam
ram = record { bytes = memory; base = 0; dirty = none }

abbrev pub vq : Virtqueue
vq = record {
  size = 2;
  desc_addr = 0;
  driver_addr = 32;
  device_addr = 48;
  last_avail_idx = 0;
  used_idx = 0;
}

abbrev first : Desc
first = record { addr = 80; len = 4; writable = false }

abbrev second : Desc
second = record { addr = 84; len = 4; writable = true }

abbrev chain : DescChain
chain = record { head = 0; descriptors = first ∷ second ∷ [] }

pops : pop_avail vq ram ≡ (some chain, record vq { last_avail_idx = 1 })
unfolding pop_avail walk read_desc read_u16 read_u32 read_u64 read_slice offset
pops = refl

published : read_u16 (push_used vq ram 0 4).1 50 ≡ some 1
unfolding push_used read_u16 write_u16 write_u32 write_slice read_slice offset
published = refl

payload : read chain ram 4 ≡ some (1 ∷ 2 ∷ 3 ∷ 4 ∷ [])
unfolding read read_len read_bytes contains read_slice offset
payload = refl

too_long : read chain ram 3 ≡ none
unfolding read read_len read_bytes contains read_slice offset
too_long = refl

linked : Linked vq ram 0 (first ∷ second ∷ [])
unfolding read_desc read_u16 read_u32 read_u64 read_slice offset
linked = more (omega arith) refl refl (last (omega arith) refl refl)

pop_avail-Linked_example : pop_avail vq ram ≡ (some chain, record vq { last_avail_idx = 1 })
pop_avail-Linked_example =
    pop_avail-Linked vq ram 1 0 (first ∷ second ∷ []) (unfold read_u16 read_slice offset in refl)
      (omega arith) (unfold read_u16 read_slice offset in refl) linked (omega arith)

-- The same queue where the entry names descriptor 7.
abbrev bad_ram : GuestRam
bad_ram = record ram { bytes = replicate 34 0 ++ to_le_bytes 2 1 ++ to_le_bytes 2 7 ++ [] }

push_used-Published_example : Published vq ram 0 4 (push_used vq ram 0 4)
push_used-Published_example =
    push_used-Published vq ram 0 4 (omega arith) (omega arith) (omega arith) (omega arith)

-- A service that writes nothing.
abbrev ignore : Unit {0} → DescChain → GuestRam → ℕ × Unit {0} × GuestRam
ignore s c m = (0, s, m)

drain_total_example :
    (r : Bool × Virtqueue × Unit {0} × GuestRam) × (drain ignore (2 ^ 16) vq tt ram false ≡ some r)
drain_total_example =
    drain_total ignore 34 (λ s c m. refl) vq tt ram 1 (omega arith) (inl (omega arith)) refl
      (unfold read_u16 read_slice offset in refl) (omega arith) (omega arith)
