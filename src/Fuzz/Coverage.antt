-- ===== src/Fuzz/Coverage.antt =====
-- The coverage map: what is counted is what was seen.
use ignition.Base.{
  ℕ, zero, suc, ◌+◌, ◌<◌, ◌==◌, if◌then◌else◌, Bool, true, false, not, ◌||◌, List, [], ◌∷◌, ◌≡◌,
  refl, ◌↔◌, arith, get_elem?, none, some,
}
use ignition.Fuzz.{CoverageMap, record_edges, record_coverage}

-- How many edges are marked.
unfoldable pub marked : List Bool → ℕ
marked [] = 0
marked (s ∷ seen) = let rest = marked seen in if s then suc rest else rest

marked-record_edges :
    (cov : List ℕ) (seen : List Bool)
    → marked (record_edges cov seen).0 ≡ marked seen + (record_edges cov seen).1
unfolding marked record_edges
marked-record_edges [] seen = omega arith
marked-record_edges (c ∷ cov) [] = refl
marked-record_edges (c ∷ cov) (s ∷ seen) = ground (arith, marked-record_edges cov seen)

new-record_edges :
    (cov : List ℕ) (seen : List Bool)
    → ((record_edges cov seen).2 ≡ true) ↔ (0 < (record_edges cov seen).1)
unfolding record_edges
new-record_edges [] seen = (λ h. cc, λ h. absurd (omega arith))
new-record_edges (c ∷ cov) [] = (λ h. cc, λ h. absurd (omega arith))
new-record_edges (c ∷ cov) (s ∷ seen) =
    let rest = new-record_edges cov seen in
    (λ h. ground (arith, rest.0), λ h. ground (arith, rest.1))

-- An edge is marked afterwards if it was before, or if its counter is not zero now.
edge :
    (cov : List ℕ) (seen : List Bool) (i : ℕ) (s : Bool)
    → get_elem? seen i ≡ some s
    → get_elem? (record_edges cov seen).0 i
      ≡ (some (s || (elim (get_elem? cov i) [ none ↦ false | some k ↦ not (k == 0) ])))
unfolding record_edges
edge [] seen i s h = ground arith
edge (c ∷ cov) [] i s h = cc
edge (c ∷ cov) (s' ∷ seen) zero s h = ground arith
edge (c ∷ cov) (s' ∷ seen) (suc i) s h = ground (arith, edge cov seen i s h)

-- `covered` is the number of the edges seen.
unfoldable pub IsCounted : CoverageMap → Type 0
IsCounted m = m.covered ≡ marked m.seen

-- Recording the counters of a run keeps the count true; it reports something new exactly if the
-- count has grown; and an edge of the map is marked afterwards exactly if it was marked before or
-- the run has hit it.
pub record_coverage_lem :
    (m : CoverageMap) (cov : List ℕ) (i : ℕ) (s : Bool)
    → IsCounted m
    → get_elem? m.seen i ≡ some s
    → (let (new, m') = record_coverage m cov in
        IsCounted m'
        × ((new ≡ true) ↔ (m.covered < m'.covered))
        × (get_elem? m'.seen i
            ≡ some (s || (elim (get_elem? cov i) [ none ↦ false | some k ↦ not (k == 0) ]))))
unfolding record_coverage IsCounted
record_coverage_lem m cov i s k h =
    let grown = marked-record_edges cov m.seen in
    let new = new-record_edges cov m.seen in
    (
      omega (arith, grown),
      (λ e. let more = new.0 e in omega arith, λ e. new.1 (omega arith)),
      edge cov m.seen i s h,
    )
