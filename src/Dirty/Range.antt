-- ===== src/Dirty/Range.antt =====
-- `mark_dirty` marks exactly the tracked pages that a write of `len` bytes at `gpa` touches.
use ignition.Base.{
  ℕ, zero, suc, ◌+◌, ◌-◌, ◌*◌, ◌/◌, ◌%◌, ◌^◌, ◌≤◌, ◌<◌, ◌==◌, ltb, leb, ◌&&◌, ◌||◌, Bool, ◌≡◌, refl,
  min, arith, length,
}
use ignition.Dirty.{DirtyTracker, page, mark, mark_loop, mark_dirty, is_dirty, IsValid}
use ignition.Dirty.Mark.{is_dirty-mark, mark-frame, mark-IsValid}

-- Page `q` starts in `[p, last]`.
abbrev starts_in : DirtyTracker → ℕ → ℕ → ℕ → Bool
starts_in t p last q =
    ltb q t.page_count && leb p (t.base + q * page) && leb (t.base + q * page) last

is_dirty-mark_aligned :
    (t : DirtyTracker) (p q : ℕ)
    → IsValid t
    → t.base % page ≡ 0
    → p % page ≡ 0
    → is_dirty (mark t p) q ≡ (is_dirty t q || (ltb q t.page_count && p == t.base + q * page))
is_dirty-mark_aligned t p q v hb hp = rw (is_dirty-mark t p q v) (ground arith)

is_dirty-mark_loop :
    (fuel p last : ℕ) (t : DirtyTracker) (q : ℕ)
    → IsValid t
    → t.base % page ≡ 0
    → p % page ≡ 0
    → last < 2 ^ 64
    → last / page < p / page + fuel
    → is_dirty (mark_loop fuel p last t) q ≡ (is_dirty t q || starts_in t p last q)
unfolding mark_loop
is_dirty-mark_loop zero p last t q v hb hp hl hf = ground arith
is_dirty-mark_loop (suc fuel) p last t q v hb hp hl hf = ground (
  arith,
  mark-frame t p,
  mark-IsValid t p v,
  is_dirty-mark_aligned t p q v hb hp,
  is_dirty-mark_loop fuel (p + page) last (mark t p) q,
)

-- A write of `len` bytes at `gpa` makes dirty exactly the tracked pages that it overlaps and
-- leaves every other page as it was, provided the tracked range starts at a multiple of the
-- granule and ends within the 64-bit address space.
pub mark_dirty-touched :
    (t : DirtyTracker) (gpa len q : ℕ)
    → IsValid t
    → t.base % page ≡ 0
    → t.base + t.page_count * page ≤ 2 ^ 64
    → gpa < 2 ^ 64
    → is_dirty (mark_dirty t gpa len) q ≡ (
        is_dirty t q
        || (ltb q t.page_count
            && ltb 0 len
            && ltb (t.base + q * page) (gpa + len)
            && ltb gpa (t.base + q * page + page)))
unfolding mark_dirty
mark_dirty-touched t gpa zero q v hb he hg = ground arith
mark_dirty-touched t gpa (suc n) q v hb he hg = ground (
  arith,
  is_dirty-mark_loop (min (gpa + n) (2 ^ 64 - 1) / page - gpa / page + 2) (gpa / page * page)
      (min (gpa + n) (2 ^ 64 - 1)) t q,
)

mark_loop-frame :
    (fuel p last : ℕ) (t : DirtyTracker)
    → ((mark_loop fuel p last t).base ≡ t.base)
      × ((mark_loop fuel p last t).page_count ≡ t.page_count)
      × (length (mark_loop fuel p last t).bits ≡ length t.bits)
unfolding mark_loop
mark_loop-frame zero p last t = (refl, refl, refl)
mark_loop-frame (suc fuel) p last t =
    grind (arith, mark-frame t p, mark_loop-frame fuel (p + page) last (mark t p))

-- `mark_dirty` keeps the range that is tracked and the size of the bitmap.
pub mark_dirty-frame :
    (t : DirtyTracker) (gpa len : ℕ)
    → ((mark_dirty t gpa len).base ≡ t.base)
      × ((mark_dirty t gpa len).page_count ≡ t.page_count)
      × (length (mark_dirty t gpa len).bits ≡ length t.bits)
unfolding mark_dirty
mark_dirty-frame t gpa len = grind (
  arith,
  mark_loop-frame (min (gpa + (len - 1)) (2 ^ 64 - 1) / page - gpa / page + 2) (gpa / page * page)
      (min (gpa + (len - 1)) (2 ^ 64 - 1)) t,
)
