-- ===== src/Snapshot/Layers.antt =====
-- Guest RAM rebuilt from a chain that has one more layer on top.
use ignition.Base.{
  ℕ, ◌+◌, ◌*◌, ==_iff, List, [], ◌∷◌, ◌++◌, length, ◌≡◌, refl, sym, ap, inl, inr, arith, All,
  overwrite, length-overwrite, slice,
}
use ignition.Dirty.{page}
use ignition.Snapshot.{ok, apply_diff, apply_from}
use ignition.Snapshot.Names.{Name}
use ignition.Snapshot.Files.{done, Fs, dir_at}
use ignition.Snapshot.Writer.{SnapshotManifest, diff}
use ignition.Snapshot.Restore.{check_layers, layer_files, overlay_layers, root_memory, restore_ram}
use ignition.Snapshot.Effects.{IoResult-cases}

-- The same directory under the name of a layer.
abbrev pub SameDir : Fs → Fs → SnapshotManifest → Type 0
SameDir fs fs' m = dir_at fs' m.name ≡ dir_at fs m.name

layer_files-same :
    (fs fs' : Fs) (n : Name) → dir_at fs' n ≡ dir_at fs n → layer_files fs' n ≡ layer_files fs n
unfolding layer_files
layer_files-same fs fs' n h = ground arith

overlay_layers-SameDir :
    (fs fs' : Fs) (ram : List ℕ) (ms : List SnapshotManifest)
    → All (SameDir fs fs') ms
    → overlay_layers fs' ram ms ≡ overlay_layers fs ram ms
unfolding overlay_layers
overlay_layers-SameDir fs fs' ram [] h = refl
overlay_layers-SameDir fs fs' ram (m ∷ ms) h = elim (IoResult-cases (layer_files fs m.name)) [
  | inl (files, e) ↦
      let rest = overlay_layers-SameDir fs fs' (apply_diff ram files.0 files.1).1 ms h.1 in
      ground (arith, layer_files-same fs fs' m.name h.0, rest)
  | inr (why, e) ↦ ground (arith, layer_files-same fs fs' m.name h.0)
]

root_memory-same :
    (fs fs' : Fs) (r : SnapshotManifest)
    → dir_at fs' r.name ≡ dir_at fs r.name
    → root_memory fs' r ≡ root_memory fs r
unfolding root_memory
root_memory-same fs fs' r h = ground arith

pub restore_ram-SameDir :
    (fs fs' : Fs) (ms : List SnapshotManifest)
    → All (SameDir fs fs') ms
    → restore_ram fs' ms ≡ restore_ram fs ms
unfolding restore_ram
restore_ram-SameDir fs fs' [] h = refl
restore_ram-SameDir fs fs' (r ∷ ms) h = elim (IoResult-cases (root_memory fs r)) [
  | inl (base, e) ↦
      ground (arith, root_memory-same fs fs' r h.0, overlay_layers-SameDir fs fs' base ms h.1)
  | inr (why, e) ↦ ground (arith, root_memory-same fs fs' r h.0)
]

length-apply_from :
    (i : ℕ) (target idx packed : List ℕ) → length (apply_from i target idx packed).1 ≡ length target
unfolding apply_from
length-apply_from i target [] packed = refl
length-apply_from i target (p ∷ idx) packed =
    let next : List ℕ = overwrite target (p * page) (slice packed (i * page) page) in
    ground (
      arith,
      length-apply_from (i + 1) next idx packed,
      length-overwrite target (p * page) (slice packed (i * page) page),
    )

length-apply_diff :
    (target idx packed : List ℕ) → length (apply_diff target idx packed).1 ≡ length target
unfolding apply_diff
length-apply_diff target idx packed = grind (arith, length-apply_from)

length-overlay_layers :
    (fs : Fs) (ram : List ℕ) (ms : List SnapshotManifest) (image : List ℕ)
    → overlay_layers fs ram ms ≡ done image
    → length image ≡ length ram
unfolding overlay_layers
length-overlay_layers fs ram [] image e =
    let same : ram ≡ image = cc in ap (λ x. length x) (sym same)
length-overlay_layers fs ram (m ∷ ms) image e = elim (IoResult-cases (layer_files fs m.name)) [
  | inl (files, r) ↦
      let ram' : List ℕ = (apply_diff ram files.0 files.1).1 in
      let rest = length-overlay_layers fs ram' ms image in
      ground (arith, rest, length-apply_diff ram files.0 files.1)
  | inr (why, r) ↦ ground arith
]

overlay_layers-snoc :
    (fs : Fs) (ram : List ℕ) (ms : List SnapshotManifest) (m : SnapshotManifest) (image : List ℕ)
    → overlay_layers fs ram ms ≡ done image
    → overlay_layers fs ram (ms ++ (m ∷ [])) ≡ overlay_layers fs image (m ∷ [])
unfolding overlay_layers
overlay_layers-snoc fs ram [] m image e =
    let same : ram ≡ image = cc in ap (λ x. overlay_layers fs x (m ∷ [])) same
overlay_layers-snoc fs ram (k ∷ ms) m image e = elim (IoResult-cases (layer_files fs k.name)) [
  | inl (files, r) ↦
      let ram' : List ℕ = (apply_diff ram files.0 files.1).1 in
      let rest = overlay_layers-snoc fs ram' ms m image in ground (arith, rest)
  | inr (why, r) ↦ ground arith
]

check_layers-snoc :
    (size : ℕ) (ms : List SnapshotManifest) (m : SnapshotManifest)
    → check_layers size ms ≡ done tt
    → m.snapshot_type ≡ diff
    → m.mem_size ≡ size
    → check_layers size (ms ++ (m ∷ [])) ≡ done tt
unfolding check_layers
check_layers-snoc size [] m e t s = ground (arith, ==_iff m.mem_size size)
check_layers-snoc size (k ∷ ms) m e t s = ground (arith, check_layers-snoc size ms m)

root_memory-length :
    (fs : Fs) (r : SnapshotManifest) (base : List ℕ)
    → root_memory fs r ≡ done base
    → length base ≡ r.mem_size
unfolding root_memory
root_memory-length fs r base e = grind (arith, ==_iff)

-- A diff layer laid over what the layers below it restore.
pub restore_ram-snoc :
    (fs : Fs) (ms : List SnapshotManifest) (m : SnapshotManifest) (image ram : List ℕ)
    (files : List ℕ × List ℕ)
    → restore_ram fs ms ≡ done image
    → m.snapshot_type ≡ diff
    → m.mem_size ≡ length image
    → layer_files fs m.name ≡ done files
    → apply_diff image files.0 files.1 ≡ (ok tt, ram)
    → restore_ram fs (ms ++ (m ∷ [])) ≡ done ram
unfolding restore_ram overlay_layers
restore_ram-snoc fs [] m image ram files e t s f a = cc
restore_ram-snoc fs (r ∷ ms) m image ram files e t s f a =
    elim (IoResult-cases (root_memory fs r)) [
      | inl (base, b) ↦
          let below = overlay_layers-snoc fs base ms m image in
          let size = length-overlay_layers fs base ms image in
          let top : overlay_layers fs image (m ∷ []) ≡ done ram = ground arith in
          ground (
            arith,
            below,
            size,
            top,
            root_memory-length fs r base b,
            check_layers-snoc r.mem_size ms m,
          )
      | inr (why, b) ↦ ground arith
    ]
