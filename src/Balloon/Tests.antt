-- ===== src/Balloon/Tests.antt =====
-- A balloon whose freed pages read as zeros.
use ignition.Base.{◌≡◌, refl, false, none, [], ◌∷◌, replicate}
use ignition.Ram.{GuestRam, offset, read_slice, madvise_free}
use ignition.Balloon.{new, config_read, config_write, inflate_chain, free_pages}

abbrev ram : GuestRam
ram = record { bytes = 1 ∷ 0 ∷ 0 ∷ 0 ∷ 7 ∷ []; base = 0; dirty = none }

-- A page beyond the mapping is not freed.
frees_nothing :
    inflate_chain
      (λ off n bytes. (0, replicate 5 0))
      ram
      (record { addr = 0; len = 4; writable = false } ∷ [])
    ≡ ram
unfolding inflate_chain free_pages read_slice offset madvise_free
frees_nothing = refl

actual_bytes : config_read (config_write new 4 (5 ∷ 1 ∷ 0 ∷ 0 ∷ [])) 4 4 ≡ 5 ∷ 1 ∷ 0 ∷ 0 ∷ []
unfolding config_read config_write new
actual_bytes = refl
