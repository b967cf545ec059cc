-- ===== src/Snapshot/Tests.antt =====
-- Diff layers and rollback at concrete data: one page of RAM, written once since its image.
use ignition.Base.{
  ℕ, ◌*◌, ◌≡◌, refl, some, List, [], ◌∷◌, arith, get_elem?, length, replicate, length-replicate,
}
use ignition.Dirty.{DirtyTracker, page, new, pages, drain}
use ignition.Ram.{GuestRam}
use ignition.Ram.Tracking.{Tracks, new-Tracks}
use ignition.Snapshot.{
  ok, err, size_mismatch, write_diff_pages, read_diff_pages, apply_diff, rollback_pages,
  rollback_full,
}
use ignition.Snapshot.Rollback.{rollback-drain, rollback_full_lem, get_elem?-rollback_pages}
use ignition.Snapshot.Diff.{diff_restores}

pub one_page : List ℕ
one_page = replicate page 7

pub length-one_page : length one_page ≡ page
unfolding one_page
length-one_page = length-replicate {A = ℕ} page 7

abbrev pub fresh : DirtyTracker
fresh = new 0x4000_0000 (length one_page)

abbrev pub ram : GuestRam
ram = record { bytes = one_page; base = 0x4000_0000; dirty = some fresh }

pub ram-Tracks : Tracks one_page ram fresh
ram-Tracks = new-Tracks one_page 0x4000_0000 refl (omega (arith, length-one_page))

-- The page is whole.
pub ram-whole : length ram.bytes ≡ fresh.page_count * page
unfolding new
ram-whole = omega (arith, length-one_page)

wrong_size : apply_diff (1 ∷ 2 ∷ []) (0 ∷ []) (5 ∷ []) ≡ (err size_mismatch, 1 ∷ 2 ∷ [])
unfolding apply_diff
wrong_size = refl

rolls_back_small : rollback_pages (1 ∷ 2 ∷ 3 ∷ []) (9 ∷ 9 ∷ 9 ∷ []) (1 ∷ 4 ∷ []) 2 ≡ 9 ∷ 9 ∷ 3 ∷ []
unfolding rollback_pages
rolls_back_small = refl

rollback-drain_example : rollback_pages one_page ram.bytes (drain fresh).0 page ≡ one_page
rollback-drain_example = rollback-drain one_page ram fresh ram-Tracks

rollback_full_lem_example : rollback_full (1 ∷ 2 ∷ []) (8 ∷ 9 ∷ []) ≡ 1 ∷ 2 ∷ []
rollback_full_lem_example = rollback_full_lem (1 ∷ 2 ∷ []) (8 ∷ 9 ∷ []) refl

diff_restores_example :
    (files : List ℕ × List ℕ) × (write_diff_pages (pages fresh) ram.bytes ≡ ok files)
    × (let (idx, packed) = read_diff_pages files in
        apply_diff one_page idx packed ≡ (ok tt, ram.bytes))
diff_restores_example = diff_restores one_page ram fresh ram-Tracks ram-whole

get_elem?-rollback_pages_example :
    get_elem? (rollback_pages (1 ∷ 2 ∷ []) (8 ∷ 9 ∷ []) (0 ∷ []) page) 1 ≡ some 2
get_elem?-rollback_pages_example =
    get_elem?-rollback_pages (1 ∷ 2 ∷ []) (8 ∷ 9 ∷ []) (0 ∷ []) 1 refl
