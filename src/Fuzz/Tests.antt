-- ===== src/Fuzz/Tests.antt =====
-- The fuzzer over one page of RAM and a window of four bytes.
use ignition.Base.{
  ℕ, ◌≤◌, ◌<◌, ◌≡◌, ◌↔◌, refl, true, false, none, some, [], ◌∷◌, length, take, get_elem?, arith,
}
use ignition.Snapshot.Tests.{one_page, fresh, ram, ram-Tracks}
use ignition.Fuzz.{
  new_rng, new_coverage, record_coverage, FuzzController, dirty, prepare_next_input, on_done,
  on_crash,
}
use ignition.Fuzz.Coverage.{IsCounted, marked, record_coverage_lem}
use ignition.Fuzz.Inputs.{prepare_next_input_lem}
use ignition.Fuzz.Iteration.{IsArmed, iteration-IsArmed}

abbrev controller : FuzzController
controller = record {
  base_ram = one_page;
  ram = ram;
  window = 7 ∷ 8 ∷ 9 ∷ 0 ∷ [];
  cov = 0 ∷ 3 ∷ [];
  coverage = new_coverage 2;
  corpus = (5 ∷ []) ∷ [];
  last_input = [];
  reset_mode = dirty;
  rng = new_rng 42;
  replay = none;
  solutions = [];
  crash_count = 0;
  iterations = 0;
}

controller-IsArmed : IsArmed dirty one_page ram
unfolding IsArmed
controller-IsArmed = (fresh, ram-Tracks)

new-IsCounted : IsCounted (new_coverage 2)
unfolding IsCounted marked
new-IsCounted = refl

record_coverage_lem_example :
    let (new, m') = record_coverage (new_coverage 2) (0 ∷ 3 ∷ []) in
    IsCounted m' × ((new ≡ true) ↔ (0 < m'.covered)) × (get_elem? m'.seen 1 ≡ some true)
record_coverage_lem_example =
    record_coverage_lem (new_coverage 2) (0 ∷ 3 ∷ []) 1 false new-IsCounted refl

prepare_next_input_lem_example :
    let (n, c') = prepare_next_input controller in
    (n ≤ length c'.window)
    × (0 < n)
    × (n ≡ length c'.last_input)
    × (take n c'.window ≡ c'.last_input)
    × (c'.cov ≡ 0 ∷ 0 ∷ [])
prepare_next_input_lem_example = prepare_next_input_lem controller refl (omega arith)

iteration-IsArmed_example :
    ((r : ℕ × FuzzController) × (on_done controller ≡ some r)
      × (r.1.ram.bytes ≡ one_page)
      × IsArmed r.1.reset_mode r.1.base_ram r.1.ram
      × (r.1.solutions ≡ [])
      × (r.1.iterations ≡ 1))
    × ((r : ℕ × FuzzController) × (on_crash controller 11 3 ≡ some r)
        × (r.1.ram.bytes ≡ one_page)
        × IsArmed r.1.reset_mode r.1.base_ram r.1.ram
        × (r.1.solutions ≡ (0, 7 ∷ 8 ∷ 9 ∷ [], 11) ∷ [])
        × (r.1.crash_count ≡ 1)
        × (r.1.iterations ≡ 1))
iteration-IsArmed_example = iteration-IsArmed controller 11 3 controller-IsArmed
