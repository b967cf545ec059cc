-- ===== src/Rtc/Tests.antt =====
-- A clock that is set, and the boot timer.
use ignition.Base.{◌≡◌, refl, none, some, [], ◌∷◌, from_le_bytes, to_le_bytes, arith}
use ignition.Rtc.{new_pl031, read, write, read-write_load, timer_write}

read-write_load_example :
    let r' = write new_pl031 1000 0x08 (to_le_bytes 4 42) in
    (from_le_bytes (read r' 1005 0x00 4) ≡ 47) × (from_le_bytes (read r' 1005 0x08 4) ≡ 42)
read-write_load_example = read-write_load new_pl031 1000 5 42 (omega arith) (omega arith)

-- The first magic byte counts, and others do not.
fires_once :
    timer_write
      (timer_write (timer_write (record { fired = none }) 5 0 (1 ∷ [])) 9 0 (123 ∷ []))
      12
      0
      (123 ∷ [])
    ≡ record { fired = some 9 }
unfolding timer_write
fires_once = refl
