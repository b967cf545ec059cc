-- ===== src/Fuzz/Iteration.antt =====
-- One iteration of the fuzzer, after a run that was done or that crashed: the guest starts again from
-- the RAM of the snapshot.
use ignition.Base.{
  ℕ, ◌+◌, min, some, List, [], ◌∷◌, ◌++◌, length, ◌≡◌, refl, sym, ap, subst, ◌∙◌, inl, inr, arith,
  Option-cases, take, get_elem?,
}
use ignition.Dirty.{DirtyTracker, page, drain}
use ignition.Ram.{GuestRam}
use ignition.Ram.Tracking.{Tracks, Covers, drain-Tracks}
use ignition.Snapshot.{rollback_full, rollback_pages}
use ignition.Snapshot.Rollback.{rollback-drain, rollback_full_lem}
use ignition.Fuzz.{
  ResetMode, full, dirty, FuzzController, prepare_next_input, observe, reset_ram, reset,
  finish_iteration, on_done, on_crash,
}

-- The base is an image of RAM, and in the dirty mode the tracker lists every page that differs.
unfoldable pub IsArmed : ResetMode → List ℕ → GuestRam → Type 0
IsArmed full base m = length base ≡ length m.bytes
IsArmed dirty base m = (t : DirtyTracker) × Tracks base m t

-- Both modes give the base back and leave the record as complete as it was.
reset_ram-IsArmed :
    (mode : ResetMode) (base : List ℕ) (m : GuestRam)
    → IsArmed mode base m
    → (m' : GuestRam) × (reset_ram mode base m ≡ some m') × (m'.bytes ≡ base) × IsArmed mode base m'
unfolding reset_ram IsArmed
reset_ram-IsArmed full base m h =
    let e = rollback_full_lem base m.bytes h in
    (record m { bytes = rollback_full base m.bytes }, refl, e, ap (λ x. length x) (sym e))
reset_ram-IsArmed dirty base m (t, k) =
    let e = rollback-drain base m t k in
    let again = drain-Tracks base m t k in
    let m' : GuestRam = record m {
      bytes = rollback_pages base m.bytes (drain t).0 page;
      dirty = some (drain t).1;
    } in
    let same : length m.bytes ≡ length m'.bytes = k.same_length ∙ ap (λ x. length x) (sym e) in
    (
      m',
      rw (k.armed) refl,
      e,
      (
        (drain t).1,
        record {
          armed = refl;
          covers = subst (λ l. Covers (drain t).1 m.base l) same again.covers;
          same_length = ap (λ x. length x) e;
          agrees = λ i _. ap (λ x. get_elem? x i) e;
        },
      ),
    )

-- What choosing the next input and observing the coverage leave as it is.
abbrev SameGuest : FuzzController → FuzzController → Type 0
SameGuest c c' =
    (c'.base_ram ≡ c.base_ram)
    × (c'.ram ≡ c.ram)
    × (c'.reset_mode ≡ c.reset_mode)
    × (c'.solutions ≡ c.solutions)
    × (c'.crash_count ≡ c.crash_count)
    × (c'.iterations ≡ c.iterations)

prepare_next_input-SameGuest : (c : FuzzController) → SameGuest c (prepare_next_input c).1
unfolding prepare_next_input
prepare_next_input-SameGuest c = elim (Option-cases c.replay) [
  | inl e ↦ (ground arith, ground arith, ground arith, ground arith, ground arith, ground arith)
  | inr (x, e) ↦
      (ground arith, ground arith, ground arith, ground arith, ground arith, ground arith)
]

-- The end of an iteration never fails on an armed controller.
finish_iteration-IsArmed :
    (c : FuzzController)
    → IsArmed c.reset_mode c.base_ram c.ram
    → (r : ℕ × FuzzController) × (finish_iteration c ≡ some r)
      × (r.1.ram.bytes ≡ c.base_ram)
      × IsArmed r.1.reset_mode r.1.base_ram r.1.ram
      × (r.1.solutions ≡ c.solutions)
      × (r.1.crash_count ≡ c.crash_count)
      × (r.1.iterations ≡ c.iterations + 1)
unfolding finish_iteration reset observe
finish_iteration-IsArmed c h =
    let c0 = observe (record c { iterations = c.iterations + 1 }) in
    let (n, c1) = prepare_next_input c0 in
    let (b, m, mode, sols, count, its) = prepare_next_input-SameGuest c0 in
    let (m', run, fresh, again) = reset_ram-IsArmed c.reset_mode c.base_ram c.ram h in
    let run' : reset_ram c1.reset_mode c1.base_ram c1.ram ≡ some m' =
      subst (λ x. reset_ram x c1.base_ram c1.ram ≡ some m') (sym mode)
        (subst (λ x. reset_ram c.reset_mode x c1.ram ≡ some m') (sym b)
          (subst (λ x. reset_ram c.reset_mode c.base_ram x ≡ some m') (sym m) run)) in
    let c2 : FuzzController = record c1 { ram = m' } in
    (
      (n, c2),
      ground (arith, run'),
      fresh,
      subst (λ x. IsArmed x c1.base_ram m') (sym mode)
          (subst (λ x. IsArmed c.reset_mode x m') (sym b) again),
      sols,
      count,
      its,
    )

-- On a controller whose base is an image of RAM, and in the dirty mode with a tracker that lists
-- every page that differs from it, the handling of a run that is done and of a crash both succeed:
-- the guest's RAM is that of the snapshot again, the controller is ready for the next run, and the
-- iteration is counted. A crash adds one solution, numbered by the crashes before it, with the bytes
-- of the input from the window; a run that is done adds none.
pub iteration-IsArmed :
    (c : FuzzController) (crash_code input_len : ℕ)
    → IsArmed c.reset_mode c.base_ram c.ram
    → ((r : ℕ × FuzzController) × (on_done c ≡ some r)
        × (r.1.ram.bytes ≡ c.base_ram)
        × IsArmed r.1.reset_mode r.1.base_ram r.1.ram
        × (r.1.solutions ≡ c.solutions)
        × (r.1.iterations ≡ c.iterations + 1))
      × ((r : ℕ × FuzzController) × (on_crash c crash_code input_len ≡ some r)
          × (r.1.ram.bytes ≡ c.base_ram)
          × IsArmed r.1.reset_mode r.1.base_ram r.1.ram
          × (r.1.solutions
              ≡ c.solutions
                ++ ((c.crash_count, take (min input_len (length c.window)) c.window, crash_code)
                    ∷ []))
          × (r.1.crash_count ≡ c.crash_count + 1)
          × (r.1.iterations ≡ c.iterations + 1))
unfolding on_done on_crash
iteration-IsArmed c crash_code input_len h =
    let (r, e, fresh, again, sols, count, its) = finish_iteration-IsArmed c h in
    let crashed : FuzzController = record c {
      solutions =
          c.solutions
          ++ ((c.crash_count, take (min input_len (length c.window)) c.window, crash_code) ∷ []);
      crash_count = c.crash_count + 1;
    } in
    let (r', e', fresh', again', sols', count', its') = finish_iteration-IsArmed crashed h in
    ((r, e, fresh, again, sols, its), (r', e', fresh', again', sols', count', its'))
