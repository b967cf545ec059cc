-- ===== src/Ram/Tracking.antt =====
-- Device writes and the dirty bitmap: no change of guest RAM goes unrecorded.
use ignition.Base.{
  ℕ, ◌+◌, ◌-◌, ◌*◌, ◌/◌, ◌%◌, ◌^◌, ◌≤◌, ◌<◌, ◌≡◌, refl, ◌⊎◌, inl, inr, true, false, some, List,
  length, overwrite, arith, length-overwrite, get_elem?-overwrite_apart, get_elem?, Option-cases,
  replicate, length-replicate, get_elem?-replicate, get_elem?-ge, shr-zero, ◌∙◌,
}
use native.Mathlib.Decide.{dec_lt, dec_le}
use ignition.Dirty.{DirtyTracker, page, mark_dirty, is_dirty, drain, IsValid, new, is_set}
use ignition.Dirty.Range.{mark_dirty-touched, mark_dirty-frame}
use ignition.Dirty.Pages.{drain_lem}
use ignition.Ram.{GuestRam, offset, write_slice}
use ignition.Ram.Slices.{offset-some}

-- The tracker's range is the mapping: it starts there, on a page boundary, has a page for each
-- byte, ends within the 64-bit address space, and no bit behind the last page is set.
pub record Covers (t : DirtyTracker) (base len : ℕ) : Type 0 where
  pub valid : IsValid t
  pub starts : t.base ≡ base
  pub aligned : base % page ≡ 0
  pub reaches : len ≤ t.page_count * page
  pub ends : base + t.page_count * page ≤ 2 ^ 64
  pub tight : (q : ℕ) → t.page_count ≤ q → is_dirty t q ≡ false

-- Where `bytes` differ from `image`, the page is dirty.
abbrev pub Agrees : DirtyTracker → List ℕ → List ℕ → Type 0
Agrees t image bytes =
    (i : ℕ) → is_dirty t (i / page) ≡ false → get_elem? bytes i ≡ get_elem? image i

-- RAM `m`, tracked since it held `image`.
pub record Tracks (image : List ℕ) (m : GuestRam) (t : DirtyTracker) : Type 0 where
  pub armed : m.dirty ≡ some t
  pub covers : Covers t m.base (length m.bytes)
  pub same_length : length m.bytes ≡ length image
  pub agrees : Agrees t image m.bytes

is_set-zeros : (n q : ℕ) → is_set (replicate n 0) q ≡ false
is_set-zeros n q = elim (dec_lt (q / 64) n) [
  | yes h ↦ rw (get_elem?-replicate {A = ℕ} n 0 (q / 64) h, is_set, shr-zero (q % 64)) refl
  | no h ↦
      rw
        (
          get_elem?-ge {A = ℕ} (replicate n 0) (q / 64)
              (omega (arith, length-replicate {A = ℕ} n 0)),
          is_set,
        )
        refl
]

-- A fresh tracker of the mapping's range tracks the contents that RAM has now.
pub new-Tracks :
    (bytes : List ℕ) (base : ℕ)
    → base % page ≡ 0
    → base + (length bytes + page) ≤ 2 ^ 64
    → let t = new base (length bytes) in
      Tracks bytes (record { bytes = bytes; base = base; dirty = some t }) t
unfolding new is_dirty
new-Tracks bytes base a e = record {
  armed = refl;
  covers = record {
    valid = length-replicate {A = ℕ} _ 0;
    starts = refl;
    aligned = a;
    reaches = omega arith;
    ends = omega arith;
    tight = λ q _. is_set-zeros _ q;
  };
  same_length = refl;
  agrees = λ i _. refl;
}

touched :
    (t : DirtyTracker) (base len gpa n i : ℕ)
    → Covers t base len
    → gpa < 2 ^ 64
    → base ≤ gpa
    → gpa - base + n ≤ len
    → gpa - base ≤ i
    → i < gpa - base + n
    → is_dirty (mark_dirty t gpa n) (i / page) ≡ true
touched t base len gpa n i c g above below from to =
    let e = mark_dirty-touched t gpa n (i / page) c.valid (omega arith) (omega arith) g in
    ground (arith, e)

-- A page that a `mark_dirty` leaves clean was clean before.
clean_before :
    (t : DirtyTracker) (gpa n q : ℕ)
    → IsValid t
    → t.base % page ≡ 0
    → t.base + t.page_count * page ≤ 2 ^ 64
    → gpa < 2 ^ 64
    → is_dirty (mark_dirty t gpa n) q ≡ false
    → is_dirty t q ≡ false
clean_before t gpa n q v a e g h = ground (arith, mark_dirty-touched t gpa n q v a e g)

Covers-mark_dirty :
    (t : DirtyTracker) (base len gpa n : ℕ)
    → gpa < 2 ^ 64
    → Covers t base len
    → Covers (mark_dirty t gpa n) base len
Covers-mark_dirty t base len gpa n g c =
    let (b, count, words) = mark_dirty-frame t gpa n in
    record {
      valid = ground arith;
      starts = ground arith;
      aligned = c.aligned;
      reaches = ground arith;
      ends = ground arith;
      tight = λ q h.
          let e = mark_dirty-touched t gpa n q c.valid (omega arith) (omega arith) g in
          ground (arith, e, c.tight q);
    }

Agrees-overwrite :
    (image : List ℕ) (m : GuestRam) (t : DirtyTracker) (gpa off : ℕ) (block : List ℕ)
    → gpa < 2 ^ 64
    → Tracks image m t
    → offset m gpa (length block) ≡ some off
    → Agrees (mark_dirty t gpa (length block)) image (overwrite m.bytes off block)
Agrees-overwrite image m t gpa off block g k e i clean =
    let c = k.covers in
    let (above, at, fits) = offset-some m gpa (length block) e in
    let before : is_dirty t (i / page) ≡ false =
      clean_before t gpa (length block) (i / page) c.valid (omega arith) (omega arith) g clean in
    let apart = λ (a : (i < off) ⊎ (off + length block ≤ i)).
      get_elem?-overwrite_apart m.bytes off block i a ∙ k.agrees i before in
    elim (dec_lt i off) [
      | yes lo ↦ apart (inl lo)
      | no high ↦ elim (dec_le (off + length block) i) [
        | yes hi ↦ apart (inr hi)
        | no within ↦
            let hit =
              touched t m.base (length m.bytes) gpa (length block) i c g above (omega arith)
                (omega arith) (omega arith) in
            cc (hit, clean)
      ]
    ]

-- A device write keeps the record complete: whatever range it names, in or out of the mapping,
-- every byte that differs from the image afterwards lies on a dirty page.
pub write_slice-Tracks :
    (image : List ℕ) (m : GuestRam) (t : DirtyTracker) (gpa : ℕ) (block : List ℕ)
    → gpa < 2 ^ 64
    → Tracks image m t
    → (t' : DirtyTracker) × Tracks image (write_slice m gpa block).1 t'
unfolding write_slice
write_slice-Tracks image m t gpa block g k = elim (Option-cases (offset m gpa (length block))) [
  | inl e ↦ (t, rw (e, write_slice) k)
  | inr (off, e) ↦ (
    mark_dirty t gpa (length block),
    rw (e, write_slice)
        record {
          armed = rw k.armed;
          covers =
              rw (length-overwrite m.bytes off block)
                (Covers-mark_dirty t m.base (length m.bytes) gpa (length block) g k.covers);
          same_length = length-overwrite m.bytes off block ∙ k.same_length;
          agrees = Agrees-overwrite image m t gpa off block g k e;
        },
  )
]

-- Once `drain` has emptied the bitmap, the record starts anew from the present contents.
pub drain-Tracks :
    (image : List ℕ) (m : GuestRam) (t : DirtyTracker)
    → Tracks image m t
    → Tracks m.bytes (record m { dirty = some (drain t).1 }) (drain t).1
drain-Tracks image m t k =
    let (_, clear, base, count, valid) = drain_lem t k.covers.valid in
    record {
      armed = refl;
      covers = record {
        valid = valid;
        starts = ground arith;
        aligned = k.covers.aligned;
        reaches = ground arith;
        ends = ground arith;
        tight = λ q _. clear q;
      };
      same_length = refl;
      agrees = λ i _. refl;
    }
