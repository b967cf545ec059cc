-- ===== src/Fuzz.antt =====
-- crates/vmm/src/fuzz/controller.rs: the host side of the fuzzer. Guest RAM is a `GuestRam` with the
-- tracker that the run loop marks; the window and the coverage counters are lists of bytes. The
-- registers, which the hypervisor saves and restores, the clock and the metrics are not modelled,
-- and a solution that is written is a row of `solutions`. The hypervisor's calls in `reset` do not
-- fail, a solution is always written, and a window is shorter than 2 ^ 32 bytes, so that the length
-- of an input as a `u32` is the length.
pub mod Coverage
pub mod Inputs
pub mod Iteration
pub mod Device
mod Tests
use ignition.Base.{
  ℕ, zero, suc, ◌+◌, ◌*◌, ◌/◌, ◌%◌, ◌^◌, ◌==◌, ltb, leb, min, max, if◌then◌else◌, Bool, true, false,
  not, ◌&&◌, ◌||◌, Option, none, some, List, [], ◌∷◌, ◌++◌, length, get_elem?, set, take, slice,
  overwrite, replicate,
}
use Prim.Native.Nat.{bit_xor}
use ignition.Dirty.{DirtyTracker, page, drain}
use ignition.Ram.{GuestRam}
use ignition.Snapshot.{rollback_full, rollback_pages}

-- The state of the xorshift64* generator.
pub record Rng : Type 0 where
  pub state : ℕ

unfoldable pub new_rng : ℕ → Rng
new_rng seed = record { state = if seed == 0 then 0x9E37_79B9_7F4A_7C15 else seed }

unfoldable pub next_u64 : Rng → ℕ × Rng
next_u64 r =
    let a = bit_xor r.state (r.state / 2 ^ 12) in
    let b = bit_xor a (a * 2 ^ 25 % 2 ^ 64) in
    let c = bit_xor b (b / 2 ^ 27) in (c * 0x2545_F491_4F6C_DD1D % 2 ^ 64, record { state = c })

unfoldable pub below : Rng → ℕ → ℕ × Rng
below r zero = (0, r)
below r (suc n) = let (x, r') = next_u64 r in (x % suc n, r')

pub data ResetMode : Type 0 where
  full dirty : ResetMode

abbrev pub byte_at : List ℕ → ℕ → ℕ
byte_at xs i = elim (get_elem? xs i) [ none ↦ 0 | some b ↦ b ]

-- The match on `rng.below(3)` for the byte at `i`.
unfoldable pub mutate_byte : List ℕ → ℕ → ℕ → Rng → List ℕ × Rng
mutate_byte out i zero r = let (x, r') = next_u64 r in (set out i (x % 256), r')
mutate_byte out i (suc zero) r =
    let (s, r') = below r 8 in (set out i (bit_xor (byte_at out i) (2 ^ s % 256)), r')
mutate_byte out i (suc (suc k)) r = (set out i ((byte_at out i + 1) % 256), r)

-- The loop of `mutate`, for the rounds left.
unfoldable pub mutate_rounds : ℕ → List ℕ → Rng → List ℕ × Rng
mutate_rounds zero out r = (out, r)
mutate_rounds (suc k) out r =
    let (i, r1) = below r (length out) in
    let (choice, r2) = below r1 3 in
    let (out', r3) = mutate_byte out i choice r2 in mutate_rounds k out' r3

-- The copy that is mutated: at least one byte, at most `max_len` where that is one or more.
unfoldable pub clamp : List ℕ → ℕ → List ℕ
clamp [] max_len = take (max max_len 1) (0 ∷ [])
clamp (b ∷ seed) max_len = take (max max_len 1) (b ∷ seed)

unfoldable pub mutate : List ℕ → Rng → ℕ → List ℕ × Rng
mutate seed r max_len =
    let (rounds, r1) = below r 8 in mutate_rounds (1 + rounds) (clamp seed max_len) r1

unfoldable pub replay_into : List ℕ → List ℕ → ℕ × List ℕ
replay_into input window =
    let n = min (length input) (length window) in (n, overwrite window 0 (take n input))

pub record CoverageMap : Type 0 where
  pub seen : List Bool
  pub covered : ℕ

abbrev pub new_coverage : ℕ → CoverageMap
new_coverage len = record { seen = replicate len false; covered = 0 }

-- The loop of `record` over the prefix that both lists have: the map, the edges added, and whether
-- there was one.
unfoldable pub record_edges : List ℕ → List Bool → List Bool × ℕ × Bool
record_edges [] seen = (seen, 0, false)
record_edges (c ∷ cov) [] = ([], 0, false)
record_edges (c ∷ cov) (s ∷ seen) =
    let (seen', added, new) = record_edges cov seen in
    if not (c == 0) && not s then (true ∷ seen', added + 1, true) else (s ∷ seen', added, new)

unfoldable pub record_coverage : CoverageMap → List ℕ → Bool × CoverageMap
record_coverage m cov =
    let (seen', added, new) = record_edges cov m.seen in
    (new, record { seen = seen'; covered = m.covered + added })

pub record FuzzController : Type 0 where
  pub base_ram : List ℕ
  pub ram : GuestRam
  pub window : List ℕ
  pub cov : List ℕ
  pub coverage : CoverageMap
  pub corpus : List (List ℕ)
  pub last_input : List ℕ
  pub reset_mode : ResetMode
  pub rng : Rng
  pub replay : Option (List ℕ)
  pub solutions : List (ℕ × List ℕ × ℕ)
  pub crash_count : ℕ
  pub iterations : ℕ

abbrev pub seed_at : List (List ℕ) → ℕ → List ℕ
seed_at corpus i = elim (get_elem? corpus i) [ none ↦ [] | some s ↦ s ]

unfoldable pub prepare_next_input : FuzzController → ℕ × FuzzController
prepare_next_input c =
    let zeroed = replicate (length c.cov) 0 in
    elim c.replay [
      | some fixed ↦
          let (n, window') = replay_into fixed c.window in
          (n, record c { cov = zeroed; last_input = fixed; window = window' })
      | none ↦
          let (pick, r1) = below c.rng (length c.corpus) in
          let (input, r2) = mutate (seed_at c.corpus pick) r1 (length c.window) in
          let n = min (length input) (length c.window) in
          (
            n,
            record c {
              cov = zeroed;
              rng = r2;
              window = overwrite c.window 0 (take n input);
              last_input = take n input;
            },
          )
    ]

abbrev is_none : Option (List ℕ) → Bool
is_none none = true
is_none (some x) = false

-- `observe_and_stats` without the statistics.
unfoldable pub observe : FuzzController → FuzzController
observe c =
    let (new, coverage') = record_coverage c.coverage c.cov in
    record c {
      coverage = coverage';
      corpus =
          if new && is_none c.replay && ltb (length c.corpus) 4096
          then c.corpus ++ (c.last_input ∷ [])
          else c.corpus;
    }

-- The tracker's part of `reset` in the dirty mode; without one the code panics.
abbrev rolled : List ℕ → GuestRam → Option DirtyTracker → Option GuestRam
rolled base m none = none
rolled base m (some t) =
    let (pages, t') = drain t in
    some (record m { bytes = rollback_pages base m.bytes pages page; dirty = some t' })

unfoldable pub reset_ram : ResetMode → List ℕ → GuestRam → Option GuestRam
reset_ram full base m = some (record m { bytes = rollback_full base m.bytes })
reset_ram dirty base m = rolled base m m.dirty

-- `reset`: none for the panic.
unfoldable pub reset : FuzzController → Option FuzzController
reset c = elim (reset_ram c.reset_mode c.base_ram c.ram) [
  | none ↦ none
  | some m ↦ some (record c { ram = m })
]

unfoldable pub finish_iteration : FuzzController → Option (ℕ × FuzzController)
finish_iteration c =
    let (len, c') = prepare_next_input (observe (record c { iterations = c.iterations + 1 })) in
    elim (reset c') [ none ↦ none | some c'' ↦ some (len, c'') ]

unfoldable pub on_done : FuzzController → Option (ℕ × FuzzController)
on_done c = finish_iteration c

-- The input is read back from the window before the next one is written there.
unfoldable pub on_crash : FuzzController → ℕ → ℕ → Option (ℕ × FuzzController)
on_crash c crash_code input_len =
    let n = min input_len (length c.window) in
    finish_iteration (record c {
      solutions = c.solutions ++ ((c.crash_count, take n c.window, crash_code) ∷ []);
      crash_count = c.crash_count + 1;
    })
