-- ===== src/Dirty/Tests.antt =====
-- The tracker on small inputs, and the theorems about it at concrete data.
use ignition.Base.{◌+◌, ◌*◌, ◌≡◌, refl, ◌||◌, true, [], ◌∷◌, arith}
use ignition.Dirty.{
  DirtyTracker, page, new, mark, mark_dirty, mark_loop, pages, drain, collect_pages, collect_from,
  collect_word, is_dirty,
}
use ignition.Dirty.Mark.{is_dirty-mark, hits}
use ignition.Dirty.Range.{mark_dirty-touched}

abbrev eight_pages : DirtyTracker
eight_pages = record { base = 0x4000_0000; page_count = 8; bits = 4 ∷ [] }

new_eight : new 0x4000_0000 (8 * page) ≡ record eight_pages { bits = 0 ∷ [] }
unfolding new
new_eight = refl

-- `mark_dirty_splits_pages` of the source's tests.
split_pages :
    pages (mark_dirty (new 0x4000_0000 (8 * page)) (0x4000_0000 + 3 * page) 20000) ≡ 3 ∷ 4 ∷ []
unfolding new mark_dirty mark_loop mark pages collect_pages collect_from collect_word
split_pages = refl

drained_twice : (drain (drain eight_pages).1).0 ≡ []
unfolding drain collect_pages collect_from collect_word
drained_twice = refl

is_dirty-mark_example :
    is_dirty (mark eight_pages 0x4000_4000) 1
    ≡ (is_dirty eight_pages 1 || hits eight_pages 0x4000_4000 1)
is_dirty-mark_example = is_dirty-mark eight_pages 0x4000_4000 1 refl

mark_dirty-touched_example :
    is_dirty (mark_dirty eight_pages 0x4000_3ff8 16) 1 ≡ (is_dirty eight_pages 1 || true)
mark_dirty-touched_example =
    mark_dirty-touched eight_pages 0x4000_3ff8 16 1 refl refl (omega arith) (omega arith)
