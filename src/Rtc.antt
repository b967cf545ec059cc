-- ===== src/Rtc.antt =====
-- crates/devices/src/rtc.rs, the PL031 clock, and crates/devices/src/boot_timer.rs. The host's clock
-- is an argument: `now` in seconds for the PL031, and the time since the start for the boot timer.
mod Tests
use ignition.Base.{
  ℕ, zero, suc, ◌+◌, ◌-◌, ◌%◌, ◌^◌, ◌<◌, ◌≤◌, ◌==◌, ◌&&◌, Bool, true, false, not, ◌||◌,
  if◌then◌else◌, Option, none, some, List, [], ◌∷◌, length, replicate, ◌≡◌, refl, sym, subst, ◌∙◌,
  arith, to_le_bytes, from_le_bytes, from_le_bytes-to_le_bytes,
}

-- `offset` is an `i64`, here by its two's complement below 2 ^ 64.
pub record Pl031 : Type 0 where
  pub offset : ℕ
  pub load : ℕ
  pub match_reg : ℕ
  pub imsc : ℕ

abbrev pub new_pl031 : Pl031
new_pl031 = record { offset = 0; load = 0; match_reg = 0; imsc = 0 }

-- The sum as an `i64`, cut to 32 bits.
unfoldable pub rtcdr : Pl031 → ℕ → ℕ
rtcdr r now = (now + r.offset) % 2 ^ 64 % 2 ^ 32

-- The register read at an offset.
unfoldable pub register : Pl031 → ℕ → ℕ → ℕ
register r now offset =
    if offset == 0x00
    then rtcdr r now
    else if offset == 0x04
    then r.match_reg
    else if offset == 0x08
    then r.load
    else if offset == 0x0C
    then 1
    else if offset == 0x10
    then r.imsc
    else if offset == 0xFE0
    then 0x31
    else if offset == 0xFE4
    then 0x10
    else if offset == 0xFE8
    then 0x04
    else if offset == 0xFF0
    then 0x0D
    else if offset == 0xFF4
    then 0xF0
    else if offset == 0xFF8
    then 0x05
    else if offset == 0xFFC
    then 0xB1
    else 0

-- `read` of `n` bytes.
unfoldable pub read : Pl031 → ℕ → ℕ → ℕ → List ℕ
read r now offset n = if n == 4 then to_le_bytes 4 (register r now offset) else replicate n 0

unfoldable pub write : Pl031 → ℕ → ℕ → List ℕ → Pl031
write r now offset data' =
    let v = from_le_bytes data' in
    if not (length data' == 4)
    then r
    else if offset == 0x04
    then record r { match_reg = v }
    else if offset == 0x08
    then record r { load = v; offset = (v + 2 ^ 64 - now) % 2 ^ 64 }
    else if offset == 0x10
    then record r { imsc = v }
    else r

pub record BootTimer : Type 0 where
  pub fired : Option ℕ

unfoldable pub timer_write : BootTimer → ℕ → ℕ → List ℕ → BootTimer
timer_write t elapsed offset (b ∷ []) =
    if not (offset == 0) || not (b == 123)
    then t
    else elim t.fired [ none ↦ record { fired = some elapsed } | some x ↦ t ]
timer_write t elapsed offset _ = t

write_load :
    (r : Pl031) (now : ℕ) (d : List ℕ) (v : ℕ)
    → length d ≡ 4
    → from_le_bytes d ≡ v
    → write r now 0x08 d ≡ record r { load = v; offset = (v + 2 ^ 64 - now) % 2 ^ 64 }
unfolding write
write_load r now d v l e = ground arith

rtcdr-lt : (r : Pl031) (t : ℕ) → rtcdr r t < 256 ^ 4
unfolding rtcdr
rtcdr-lt r t = omega arith

read_clock : (r : Pl031) (t : ℕ) → from_le_bytes (read r t 0x00 4) ≡ rtcdr r t
unfolding read register
read_clock r t = from_le_bytes-to_le_bytes 4 (rtcdr r t) (rtcdr-lt r t)

read_load : (r : Pl031) (t : ℕ) → r.load < 256 ^ 4 → from_le_bytes (read r t 0x08 4) ≡ r.load
unfolding read register
read_load r t h = from_le_bytes-to_le_bytes 4 r.load h

clock_sum :
    (now passed v : ℕ) (r : Pl031)
    → r.offset ≡ (v + 2 ^ 64 - now) % 2 ^ 64
    → now + passed < 2 ^ 63
    → v < 2 ^ 32
    → rtcdr r (now + passed) ≡ (v + passed) % 2 ^ 32
unfolding rtcdr
clock_sum now passed v r e h w = omega arith

-- A clock that the guest sets reads as the time set plus the seconds that have passed on the host,
-- modulo 2 ^ 32, and the load register reads as the time set.
pub read-write_load :
    (r : Pl031) (now passed v : ℕ)
    → now + passed < 2 ^ 63
    → v < 2 ^ 32
    → (let r' = write r now 0x08 (to_le_bytes 4 v) in
        (from_le_bytes (read r' (now + passed) 0x00 4) ≡ (v + passed) % 2 ^ 32)
        × (from_le_bytes (read r' (now + passed) 0x08 4) ≡ v))
read-write_load r now passed v small w =
    let set =
      write_load r now (to_le_bytes 4 v) v refl (from_le_bytes-to_le_bytes 4 v (omega arith)) in
    let r' : Pl031 = record r { load = v; offset = (v + 2 ^ 64 - now) % 2 ^ 64 } in
    let clock = read_clock r' (now + passed) in
    let loaded = read_load r' (now + passed) (omega arith) in
    let sum : rtcdr r' (now + passed) ≡ (v + passed) % 2 ^ 32 =
      clock_sum now passed v r' refl small w in
    subst
      (λ x.
        (from_le_bytes (read x (now + passed) 0x00 4) ≡ (v + passed) % 2 ^ 32)
        × (from_le_bytes (read x (now + passed) 0x08 4) ≡ v))
      (sym set) (clock ∙ sum, loaded)

-- What `save` puts into JSON, and what `restore` takes back: only the offset.
unfoldable pub save : Pl031 → ℕ
save r = r.offset

unfoldable pub restore : Pl031 → ℕ → Pl031
restore r offset = record r { offset = offset }
