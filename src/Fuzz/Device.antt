-- ===== src/Fuzz/Device.antt =====
-- crates/devices/src/fuzz/device.rs and protocol.rs: the control registers that the guest and the
-- fuzzer share. The doorbell is the run loop's and has no state here.
use ignition.Base.{
  ℕ, ◌^◌, ◌<◌, ◌==◌, ltb, min, if◌then◌else◌, Bool-cases, inl, inr, List, [], ◌∷◌, length, take,
  overwrite, ◌≡◌, arith, to_le_bytes, from_le_bytes, from_le_bytes-to_le_bytes,
}

-- The offsets of the registers in the control region.
abbrev pub doorbell : ℕ
doorbell = 0x00

abbrev pub input_len_reg : ℕ
input_len_reg = 0x04

abbrev pub crash_code_reg : ℕ
crash_code_reg = 0x08

pub record FuzzDevice : Type 0 where
  pub input_len : ℕ
  pub crash_code : ℕ

abbrev pub new_device : FuzzDevice
new_device = record { input_len = 0; crash_code = 0 }

abbrev pub set_input_len : FuzzDevice → ℕ → FuzzDevice
set_input_len d len = record d { input_len = len }

abbrev pub value_at : FuzzDevice → ℕ → ℕ
value_at d offset =
    if offset == input_len_reg
    then d.input_len
    else if offset == crash_code_reg
    then d.crash_code
    else 0

-- `read` into a buffer: its first four bytes at most are replaced.
unfoldable pub read : FuzzDevice → ℕ → List ℕ → List ℕ
read d offset data' =
    overwrite data' 0 (take (min (length data') 4) (to_le_bytes 4 (value_at d offset)))

unfoldable pub write : FuzzDevice → ℕ → List ℕ → FuzzDevice
write d offset data' =
    let v = from_le_bytes (take 4 data') in
    if ltb (length data') 4
    then d
    else if offset == input_len_reg
    then record d { input_len = v }
    else if offset == crash_code_reg
    then record d { crash_code = v }
    else d

-- The host's input length is what the guest reads, and the guest's crash code what the host reads;
-- neither register disturbs the other, and a store to the doorbell changes none.
registers_apart :
    (d : FuzzDevice) (len code : ℕ) (command : List ℕ)
    → len < 2 ^ 32
    → code < 2 ^ 32
    → (let d' =
          write
            (write (set_input_len d len) crash_code_reg (to_le_bytes 4 code))
            doorbell
            command in
        (from_le_bytes (read d' input_len_reg (0 ∷ 0 ∷ 0 ∷ 0 ∷ [])) ≡ len) × (d'.crash_code ≡ code))
unfolding read write
registers_apart d len code command h k =
    let a = from_le_bytes-to_le_bytes 4 len (omega arith) in
    let b = from_le_bytes-to_le_bytes 4 code (omega arith) in
    elim (Bool-cases (ltb (length command) 4)) [ inl e ↦ rw (e) (a, b) | inr e ↦ rw (e) (a, b) ]
