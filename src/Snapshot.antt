-- ===== src/Snapshot.antt =====
-- crates/vmm/src/snapshot.rs, the pages of diff layers, and crates/vmm/src/reset.rs: guest RAM saved
-- page by page and rolled back. A file is the list of its bytes. The directories, manifests and
-- chains of layers are in the modules below.
pub mod Diff
pub mod Rollback
pub mod Names
pub mod Files
pub mod Writer
pub mod Restore
pub mod Chain
pub mod Effects
pub mod Frame
pub mod Published
pub mod Success
pub mod Layers
pub mod Recapture
pub mod Overwrite
pub mod Works
pub mod Accepted
pub mod Tests
mod StoreTests
use ignition.Base.{
  ℕ, suc, ◌+◌, ◌*◌, ◌==◌, ltb, leb, min, ◌-◌, if◌then◌else◌, Option, none, some, List, [], ◌∷◌,
  ◌++◌, length, slice, overwrite, drop, take, to_le_bytes, from_le_bytes,
}
use ignition.Dirty.{page}

-- The `io::Error` values of the diff code.
pub data Error : Type 0 where
  out_of_ram_bounds size_mismatch page_out_of_range : Error

pub data Result (A : Type 0) : Type 0 where
  ok : A → Result A
  err : Error → Result A

-- The loop that writes the packed pages to `memory.bin`.
unfoldable pub write_pages : List ℕ → List ℕ → List ℕ → Result (List ℕ)
write_pages [] ram mem = ok mem
write_pages (p ∷ dirty) ram mem =
    let rest = write_pages dirty ram (mem ++ slice ram (p * page) page) in
    if ltb (length ram) (p * page + page) then err out_of_ram_bounds else rest

-- The loop that writes `dirty.idx`.
unfoldable pub write_idx : List ℕ → List ℕ
write_idx [] = []
write_idx (p ∷ dirty) = to_le_bytes 8 p ++ write_idx dirty

-- The contents of `memory.bin` and `dirty.idx`.
unfoldable pub write_diff_pages : List ℕ → List ℕ → Result (List ℕ × List ℕ)
write_diff_pages dirty ram = elim (write_pages dirty ram []) [
  | err e ↦ err e
  | ok mem ↦ ok (mem, write_idx dirty)
]

-- `chunks_exact(8)` with `from_le_bytes`: an incomplete chunk at the end is left out.
unfoldable pub chunks8 : List ℕ → List ℕ
chunks8 (a ∷ b ∷ c ∷ d ∷ e ∷ f ∷ g ∷ h ∷ rest) =
    from_le_bytes (a ∷ b ∷ c ∷ d ∷ e ∷ f ∷ g ∷ h ∷ []) ∷ chunks8 rest
chunks8 _ = []

-- The indices of `dirty.idx` and the contents of `memory.bin`.
unfoldable pub read_diff_pages : List ℕ × List ℕ → List ℕ × List ℕ
read_diff_pages (mem, raw) = (chunks8 raw, mem)

-- The loop of `apply_diff` at index `i`. A page out of range ends it with the earlier ones done.
unfoldable pub apply_from : ℕ → List ℕ → List ℕ → List ℕ → Result (Unit {0}) × List ℕ
apply_from i target [] packed = (ok tt, target)
apply_from i target (p ∷ idx) packed =
    let rest =
      apply_from (i + 1) (overwrite target (p * page) (slice packed (i * page) page)) idx packed in
    if ltb (length target) (p * page + page) then (err page_out_of_range, target) else rest

unfoldable pub apply_diff : List ℕ → List ℕ → List ℕ → Result (Unit {0}) × List ℕ
apply_diff target idx packed =
    if length packed == length idx * page
    then apply_from 0 target idx packed
    else (err size_mismatch, target)

-- `rollback_full` of reset.rs.
unfoldable pub rollback_full : List ℕ → List ℕ → List ℕ
rollback_full pristine live = overwrite live 0 pristine

-- `rollback_pages` of reset.rs, at any granule `pg`.
unfoldable pub rollback_pages : List ℕ → List ℕ → List ℕ → ℕ → List ℕ
rollback_pages pristine live [] pg = live
rollback_pages pristine live (p ∷ pages) pg =
    let start = p * pg in
    let end = min (start + pg) (length live) in
    rollback_pages pristine
      (if leb (length live) start
        then live
        else overwrite live start (slice pristine start (end - start)))
      pages pg
