-- ===== src/Bus/Tests.antt =====
-- A bus of two devices, and the theorems about it at concrete data.
use ignition.Base.{ℕ, ◌≡◌, ◌⊎◌, refl, inl, inr, none, some, [], ◌∷◌, arith, get_elem?}
use ignition.Bus.{BusEntry, Bus, BusDevice, overlap, find_overlap, register, find, read, write}
use ignition.Bus.Register.{IsValid, register-IsValid, register-refused}
use ignition.Bus.Routing.{find-some, write-routed, read-routed}

abbrev low : BusEntry
low = record { base = 0x1000; len = 0x100; dev = 0 }

abbrev high : BusEntry
high = record { base = 0x1100; len = 0x100; dev = 1 }

abbrev two : Bus
two = low ∷ high ∷ []

-- A device that keeps the last offset written, and reads it back.
abbrev recorder : BusDevice ℕ
recorder = record { read = λ d base off block. (d, d ∷ []); write = λ d base off block. off }

adjacent_ok : register (low ∷ []) 0x1100 0x100 1 ≡ (none, two)
unfolding register find_overlap
adjacent_ok = refl

overlap_refused : (register two 0x1080 0x40 2).0 ≡ some (overlap 0x1080 0x40 0x1000 0x100)
unfolding register find_overlap
overlap_refused = refl

miss : write recorder two (0 ∷ 0 ∷ []) 0xdead (1 ∷ []) ≡ 0 ∷ 0 ∷ []
unfolding write find
miss = refl

two-IsValid : IsValid two
two-IsValid = record { in_space = omega arith; apart = ((inl (omega arith), tt), (tt, tt)) }

register-IsValid_example : IsValid (register two 0x2000 0x10 2).1
register-IsValid_example = register-IsValid two 0x2000 0x10 2 two-IsValid (omega arith)

register-refused_example : (register two 0x1080 0x40 2).1 ≡ two
register-refused_example =
    register-refused two 0x1080 0x40 2 {err = overlap 0x1080 0x40 0x1000 0x100} overlap_refused

find-some_example : find two 0x1104 ≡ some high
find-some_example = find-some two 0x1104 high two-IsValid (inr (inl refl)) (omega arith)

write-routed_example :
    let store = write recorder two (7 ∷ 8 ∷ []) 0x1104 (1 ∷ []) in
    (get_elem? store 1 ≡ some 4)
    × ((j : ℕ) → (j ≡ 1) ⊎ (get_elem? store j ≡ get_elem? (7 ∷ 8 ∷ []) j))
write-routed_example =
    write-routed recorder two (7 ∷ 8 ∷ []) 0x1104 (1 ∷ []) high 8 two-IsValid (inr (inl refl))
      (omega arith) (omega arith) refl

read-routed_example : read recorder two (7 ∷ 8 ∷ []) 0x1104 (0 ∷ []) ≡ (7 ∷ 8 ∷ [], 8 ∷ [])
read-routed_example =
    read-routed recorder two (7 ∷ 8 ∷ []) 0x1104 (0 ∷ []) high 8 two-IsValid (inr (inl refl))
      (omega arith) refl
