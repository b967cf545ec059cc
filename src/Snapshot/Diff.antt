-- ===== src/Snapshot/Diff.antt =====
-- A diff layer: what is written comes back, and laid over the parent's RAM it gives the RAM saved.
use ignition.Base.{
  ℕ, ◌+◌, ◌-◌, ◌*◌, ◌/◌, ◌^◌, ◌≤◌, ltb, min, true, false, ◌≡◌, refl, ◌∙◌, sym, ==_iff, List, [],
  ◌∷◌, ◌++◌, length, slice, overwrite, elem, arith, from_le_bytes, to_le_bytes,
  from_le_bytes-to_le_bytes, length-append, length-slice, slice-append_skip, slice-append_head,
  Bool-cases, inl, inr, get_elem?_ext,
}
use native.Mathlib.Decide.{dec_lt}
use mathlib.Core.List.{append_assoc, append-nil}
use ignition.Dirty.{DirtyTracker, page, pages, is_dirty}
use ignition.Dirty.Pages.{pages-is_dirty}
use ignition.Ram.{GuestRam}
use ignition.Ram.Tracking.{Tracks}
use ignition.Snapshot.{
  ok, write_pages, write_idx, write_diff_pages, chunks8, read_diff_pages, apply_from, apply_diff,
  rollback_pages,
}
use ignition.Snapshot.Rollback.{restore_page, length-restore_page, get_elem?-rollback_pages}

ltb-false : (a b : ℕ) → b ≤ a → ltb a b ≡ false
ltb-false a b h = ground arith

-- Every listed page lies whole in RAM.
abbrev pub InRam : ℕ → List ℕ → Type 0
InRam len [] = Unit
InRam len (p ∷ ps) = (p * page + page ≤ len) × InRam len ps

-- The listed pages of `ram`, back to back.
abbrev pub packed : List ℕ → List ℕ → List ℕ
packed ram [] = []
packed ram (p ∷ ps) = slice ram (p * page) page ++ packed ram ps

write_pages-packed :
    (ps ram mem : List ℕ)
    → InRam (length ram) ps
    → write_pages ps ram mem ≡ ok (mem ++ packed ram ps)
unfolding write_pages
write_pages-packed [] ram mem h = rw append-nil
write_pages-packed (p ∷ ps) ram mem h =
    let rest = write_pages-packed ps ram (mem ++ slice ram (p * page) page) h.1 in
    ground (arith, rest, append_assoc mem (slice ram (p * page) page) (packed ram ps))

length-packed :
    (ram ps : List ℕ) → InRam (length ram) ps → length (packed ram ps) ≡ length ps * page
length-packed ram [] h = refl
length-packed ram (p ∷ ps) h = omega (
  arith,
  length-append (slice ram (p * page) page) (packed ram ps),
  length-slice ram (p * page) page,
  length-packed ram ps h.1,
)

-- The indices survive their encoding.
chunks8-write_idx :
    (ps : List ℕ) (len : ℕ) → len ≤ 2 ^ 64 → InRam len ps → chunks8 (write_idx ps) ≡ ps
unfolding chunks8 write_idx
chunks8-write_idx [] len l h = refl
chunks8-write_idx (p ∷ ps) len l h =
    let head : from_le_bytes (to_le_bytes 8 p) ≡ p = from_le_bytes-to_le_bytes 8 p (omega arith) in
    cc (head, chunks8-write_idx ps len l h.1)

restore_page-whole :
    (ram target : List ℕ) (p : ℕ)
    → length ram ≡ length target
    → p * page + page ≤ length target
    → restore_page ram target p ≡ overwrite target (p * page) (slice ram (p * page) page)
restore_page-whole ram target p e h =
    let size : min (p * page + page) (length target) - p * page ≡ page = omega arith in
    ground (arith, size)

-- A block is read back from behind what stands before it.
slice_block :
    (before block rest : List ℕ) (i n : ℕ)
    → length before ≡ i
    → length block ≡ n
    → slice (before ++ (block ++ rest)) i n ≡ block
slice_block before block rest i n a b =
    rw (← a, ← b)
      (slice-append_skip before (block ++ rest) (length block) ∙ slice-append_head block rest)

apply_from-packed :
    (ps ram : List ℕ) (i : ℕ) (target before : List ℕ)
    → length ram ≡ length target
    → InRam (length ram) ps
    → length before ≡ i * page
    → apply_from i target ps (before ++ packed ram ps) ≡ (ok tt, rollback_pages ram target ps page)
unfolding apply_from rollback_pages
apply_from-packed [] ram i target before e h b = refl
apply_from-packed (p ∷ ps) ram i target before e h b =
    let block : List ℕ = slice ram (p * page) page in
    let size : length block ≡ page = length-slice ram (p * page) page h.0 in
    let read = slice_block before block (packed ram ps) (i * page) page b size in
    let next : length (before ++ block) ≡ (i + 1) * page =
      omega (arith, length-append before block) in
    let same = sym (append_assoc before block (packed ram ps)) in
    let step = restore_page-whole ram target p e (omega arith) in
    let rest =
      apply_from-packed ps ram (i + 1) (restore_page ram target p) (before ++ block)
        (omega (arith, length-restore_page ram target p)) h.1 next in
    rw (ltb-false (length target) (p * page + page) (omega arith), read, ← step, same) rest

InRam-of_elem :
    (len : ℕ) (ps : List ℕ) → ((q : ℕ) → elem q ps ≡ true → q * page + page ≤ len) → InRam len ps
InRam-of_elem len [] h = tt
InRam-of_elem len (p ∷ ps) h =
    (h p (ground arith), InRam-of_elem len ps (λ q e. h q (ground arith)))

-- Every page that the tracker lists lies whole in RAM.
pages-InRam :
    (image : List ℕ) (m : GuestRam) (t : DirtyTracker)
    → Tracks image m t
    → length m.bytes ≡ t.page_count * page
    → InRam (length m.bytes) (pages t)
pages-InRam image m t k whole = InRam-of_elem (length m.bytes) (pages t) λ q listed.
    let dirty = (pages-is_dirty t).0 q in
    let tight = k.covers.tight q in
    elim (dec_lt q t.page_count) [
      | yes h ↦ omega arith
      | no h ↦ cc (dirty, listed, tight (omega arith))
    ]

-- Laying the dirty pages of RAM over the image gives RAM.
overlay :
    (image : List ℕ) (m : GuestRam) (t : DirtyTracker)
    → Tracks image m t
    → rollback_pages m.bytes image (pages t) page ≡ m.bytes
overlay image m t k = get_elem?_ext _ _ λ i.
    let e = get_elem?-rollback_pages m.bytes image (pages t) i k.same_length in
    let listed = (pages-is_dirty t).0 (i / page) in
    elim (Bool-cases (is_dirty t (i / page))) [
      | inl dirty ↦ rw (e, listed, dirty) refl
      | inr clean ↦ rw (e, listed, clean) (sym (k.agrees i clean))
    ]

-- A snapshot of the pages that the tracker lists, laid over the RAM that was saved before,
-- restores the RAM of the second snapshot: the writer, the reader and `apply_diff` all succeed.
pub diff_restores :
    (image : List ℕ) (m : GuestRam) (t : DirtyTracker)
    → Tracks image m t
    → length m.bytes ≡ t.page_count * page
    → (files : List ℕ × List ℕ) × (write_diff_pages (pages t) m.bytes ≡ ok files)
      × (let (idx, packed) = read_diff_pages files in
          apply_diff image idx packed ≡ (ok tt, m.bytes))
unfolding write_diff_pages read_diff_pages apply_diff
diff_restores image m t k whole =
    let inside = pages-InRam image m t k whole in
    let wrote = write_pages-packed (pages t) m.bytes [] inside in
    let read = chunks8-write_idx (pages t) (length m.bytes) (omega arith) inside in
    let size = length-packed m.bytes (pages t) inside in
    let run = apply_from-packed (pages t) m.bytes 0 image [] k.same_length inside refl in
    (
      (packed m.bytes (pages t), write_idx (pages t)),
      rw (wrote, write_diff_pages),
      rw (read, size, (==_iff _ _).1 refl, run, overlay image m t k) refl,
    )
