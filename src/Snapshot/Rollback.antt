-- ===== src/Snapshot/Rollback.antt =====
-- Rolling RAM back page by page, and by the pages that the tracker has recorded.
use ignition.Base.{
  ℕ, ◌+◌, ◌-◌, ◌*◌, ◌/◌, ◌==◌, leb, min, if◌then◌else◌, ◌≡◌, refl, ◌∙◌, sym, List, [], ◌∷◌, length,
  slice, overwrite, get_elem?, elem, arith, Bool-cases, inl, inr, length-overwrite, length-slice,
  get_elem?-overwrite_in, get_elem?-overwrite_apart, get_elem?-slice, get_elem?_ext, get_elem?-ge,
}
use native.Mathlib.Decide.{dec_lt, ℕ_discrete}
use ignition.Dirty.{DirtyTracker, page, drain, is_dirty}
use ignition.Dirty.Pages.{pages-is_dirty, drain_lem}
use ignition.Ram.{GuestRam}
use ignition.Ram.Tracking.{Tracks}
use ignition.Snapshot.{rollback_full, rollback_pages}

-- One step of the loop: page `p` of `live` is replaced.
abbrev pub restore_page : List ℕ → List ℕ → ℕ → List ℕ
restore_page pristine live p =
    if leb (length live) (p * page)
    then live
    else overwrite live (p * page)
        (slice pristine (p * page) (min (p * page + page) (length live) - p * page))

pub length-restore_page :
    (pristine live : List ℕ) (p : ℕ) → length (restore_page pristine live p) ≡ length live
length-restore_page pristine live p = ground (
  arith,
  length-overwrite live (p * page)
      (slice pristine (p * page) (min (p * page + page) (length live) - p * page)),
)

get_elem?-restore_page :
    (pristine live : List ℕ) (p i : ℕ)
    → length pristine ≡ length live
    → get_elem? (restore_page pristine live p) i
      ≡ (if i / page == p then get_elem? pristine i else get_elem? live i)
get_elem?-restore_page pristine live p i h = elim (dec_lt i (length live)) [
  | yes inside ↦ elim (ℕ_discrete (i / page) p) [
    | yes this ↦
        let e : p * page + (i - p * page) ≡ i = omega arith in
        ground (
          arith,
          e,
          length-slice pristine (p * page) (min (p * page + page) (length live) - p * page),
          get_elem?-overwrite_in live (p * page)
              (slice pristine (p * page) (min (p * page + page) (length live) - p * page)) i,
          get_elem?-slice pristine (p * page) (min (p * page + page) (length live) - p * page)
              (i - p * page),
        )
    | no other ↦ ground (
      arith,
      length-slice pristine (p * page) (min (p * page + page) (length live) - p * page),
      get_elem?-overwrite_apart live (p * page)
          (slice pristine (p * page) (min (p * page + page) (length live) - p * page)) i,
    )
  ]
  | no outside ↦ ground (
    arith,
    get_elem?-ge live i,
    get_elem?-ge pristine i,
    get_elem?-ge (restore_page pristine live p) i,
    length-restore_page pristine live p,
  )
]

-- `rollback_pages` takes a byte from the pristine image exactly if its page is listed.
pub get_elem?-rollback_pages :
    (pristine live ps : List ℕ) (i : ℕ)
    → length pristine ≡ length live
    → get_elem? (rollback_pages pristine live ps page) i
      ≡ (if elem (i / page) ps then get_elem? pristine i else get_elem? live i)
unfolding rollback_pages
get_elem?-rollback_pages pristine live [] i h = refl
get_elem?-rollback_pages pristine live (p ∷ ps) i h =
    let e =
      get_elem?-rollback_pages pristine (restore_page pristine live p) ps i
        (omega (arith, length-restore_page pristine live p)) in
    ground (arith, e, get_elem?-restore_page pristine live p i h)

-- Rolling back the pages that the tracker drains gives the image back, whatever was written since.
pub rollback-drain :
    (image : List ℕ) (m : GuestRam) (t : DirtyTracker)
    → Tracks image m t
    → rollback_pages image m.bytes (drain t).0 page ≡ image
rollback-drain image m t k = get_elem?_ext _ _ λ i.
    let drained = (drain_lem t k.covers.valid).0 in
    let listed = (pages-is_dirty t).0 (i / page) in
    let e = get_elem?-rollback_pages image m.bytes (drain t).0 i (sym k.same_length) in
    elim (Bool-cases (is_dirty t (i / page))) [
      | inl dirty ↦ rw (e, drained, listed, dirty) refl
      | inr clean ↦ rw (e, drained, listed, clean) (k.agrees i clean)
    ]

-- `rollback_full` gives the image back with no tracker.
pub rollback_full_lem :
    (pristine live : List ℕ)
    → length pristine ≡ length live
    → rollback_full pristine live ≡ pristine
unfolding rollback_full
rollback_full_lem pristine live h = get_elem?_ext _ _ λ i. elim (dec_lt i (length live)) [
  | yes inside ↦
      let e : i - 0 ≡ i = omega arith in
      rw (get_elem?-overwrite_in live 0 pristine i (omega arith) (omega arith) inside, e) refl
  | no outside ↦
      get_elem?-ge (overwrite live 0 pristine) i (omega (arith, length-overwrite live 0 pristine))
      ∙ sym (get_elem?-ge pristine i (omega arith))
]
