-- ===== src/Dirty/Mark.antt =====
-- `mark` sets the bit of one page of the tracked range and no other.
use ignition.Base.{
  ℕ, ◌-◌, ◌/◌, ◌%◌, ◌^◌, ◌<◌, ◌==◌, ltb, leb, ◌&&◌, ◌||◌, Bool, ◌≡◌, refl, some, List, [], ◌∷◌,
  arith, get_elem?, set, length-set, get_elem?-set_self, get_elem?-set_ne, bit_or, bit_at-bit_or,
  bit_at-pow_self, bit_at-pow_ne, suc, zero, length,
}
use native.Mathlib.Decide.{dec_lt, ℕ_discrete}
use ignition.Dirty.{DirtyTracker, page, mark, is_dirty, is_set, IsValid}

-- The page that `mark t ipa` is about, if it is tracked.
abbrev pub hits : DirtyTracker → ℕ → ℕ → Bool
hits t ipa q = leb t.base ipa && ltb q t.page_count && (ipa - t.base) / page == q

-- Setting one bit by `|` changes that bit alone.
is_set-set :
    (ws : List ℕ) (p q w : ℕ)
    → get_elem? ws (p / 64) ≡ some w
    → p / 64 < length ws
    → is_set (set ws (p / 64) (bit_or w (2 ^ (p % 64)))) q ≡ (is_set ws q || p == q)
is_set-set ws p q w e h = elim (ℕ_discrete (p / 64) (q / 64)) [
  | yes same ↦ elim (ℕ_discrete (p % 64) (q % 64)) [
    | yes bit ↦ ground (
      arith,
      get_elem?-set_self ws (p / 64) (bit_or w (2 ^ (p % 64))) h,
      bit_at-bit_or (p % 64) w (2 ^ (p % 64)),
      bit_at-pow_self (p % 64),
    )
    | no other ↦ ground (
      arith,
      get_elem?-set_self ws (p / 64) (bit_or w (2 ^ (p % 64))) h,
      bit_at-bit_or (q % 64) w (2 ^ (p % 64)),
      bit_at-pow_ne (p % 64) (q % 64) other,
    )
  ]
  | no other ↦ ground (arith, get_elem?-set_ne ws (p / 64) (q / 64) (bit_or w (2 ^ (p % 64))) other)
]

get_elem?-lt : (ws : List ℕ) (i : ℕ) → i < length ws → (w : ℕ) × (get_elem? ws i ≡ some w)
get_elem?-lt [] i h = absurd (omega arith)
get_elem?-lt (w ∷ ws) zero h = (w, refl)
get_elem?-lt (w ∷ ws) (suc i) h = get_elem?-lt ws i (omega arith)

-- After `mark t ipa` a page is dirty exactly if it was, or if it is the tracked page of `ipa`.
pub is_dirty-mark :
    (t : DirtyTracker) (ipa q : ℕ)
    → IsValid t
    → is_dirty (mark t ipa) q ≡ (is_dirty t q || hits t ipa q)
unfolding is_dirty mark
is_dirty-mark t ipa q v = elim (dec_lt ((ipa - t.base) / page) t.page_count) [
  | yes h ↦
      let (w, e) = get_elem?-lt t.bits ((ipa - t.base) / page / 64) (omega arith) in
      ground (arith, is_set-set t.bits ((ipa - t.base) / page) q w e)
  | no h ↦ ground arith
]

-- `mark` keeps the bitmap's size and the range that it tracks.
pub mark-frame :
    (t : DirtyTracker) (ipa : ℕ)
    → ((mark t ipa).base ≡ t.base)
      × ((mark t ipa).page_count ≡ t.page_count)
      × (length (mark t ipa).bits ≡ length t.bits)
unfolding mark
mark-frame t ipa = grind (arith, length-set)

pub mark-IsValid : (t : DirtyTracker) (ipa : ℕ) → IsValid t → IsValid (mark t ipa)
mark-IsValid t ipa v = omega (arith, mark-frame t ipa)
