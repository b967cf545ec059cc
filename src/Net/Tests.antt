-- ===== src/Net/Tests.antt =====
-- A frame of three bytes into two buffers, and frames out.
use ignition.Base.{
  ℕ, ◌+◌, ◌-◌, ◌≤◌, ◌≡◌, ◌⊎◌, refl, inl, true, false, none, List, [], ◌∷◌, ◌++◌, arith, min, All,
  replicate,
}
use ignition.Ram.{GuestRam, contains, offset, read_slice}
use ignition.Queue.{Desc, read, read_len, read_bytes}
use ignition.Queue.Buffers.{total}
use ignition.Net.{NetBackend, new, send, config_read, set_link, place_all, rx_header}
use ignition.Net.Inject.{Laid, place_all-lays}

-- The backend remembers the last frame.
abbrev backend : NetBackend (List ℕ)
backend = record {
  write_frame = λ b frame. (true, frame);
  mac = λ b. 82 ∷ 84 ∷ 0 ∷ 18 ∷ 52 ∷ 86 ∷ [];
}

abbrev ram : GuestRam
ram = record { bytes = replicate 40 7; base = 0x4000_0000; dirty = none }

abbrev buffers : List Desc
buffers =
    record { addr = 0x4000_0000; len = 12; writable = true }
    ∷ record { addr = 0x4000_0010; len = 16; writable = true }
    ∷ []

sends_payload :
    send backend
      (new backend [])
      (record {
        head = 0;
        descriptors = record { addr = 0x4000_0000; len = 14; writable = false } ∷ [];
      })
      ram
    ≡ record (new backend []) { backend = 7 ∷ 7 ∷ [] }
unfolding send new read read_len read_bytes read_slice offset contains
sends_payload = refl

status_byte : config_read (set_link (new backend []) false) 5 3 ≡ 86 ∷ 0 ∷ 0 ∷ []
unfolding config_read set_link new
status_byte = refl

place_all-lays_example :
    (mem' : GuestRam) × (place_all ram buffers (rx_header ++ 1 ∷ 2 ∷ 3 ∷ []) 0
      ≡ (0 + min (total buffers) (15 - 0), mem'))
    × Laid mem' buffers (rx_header ++ 1 ∷ 2 ∷ 3 ∷ []) 0
    × ((a k : ℕ)
        → All (λ d. (a + k ≤ d.addr) ⊎ (d.addr + d.len ≤ a)) buffers
        → read_slice mem' a k ≡ read_slice ram a k)
place_all-lays_example =
    place_all-lays ram buffers (rx_header ++ 1 ∷ 2 ∷ 3 ∷ []) 0 (omega arith)
      (
        refl,
        (omega arith, omega arith),
        (inl (omega arith), tt),
        (refl, (omega arith, omega arith), tt, tt),
      )
      (omega arith)
