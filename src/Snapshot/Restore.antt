-- ===== src/Snapshot/Restore.antt =====
-- crates/vmm/src/snapshot.rs, `resolve_chain` and `read_snapshot`, and the part of
-- spike/src/bin/boot.rs that rebuilds guest RAM from a chain of layers.
use ignition.Base.{
  ℕ, zero, suc, ◌+◌, ◌==◌, ◌||◌, Bool, true, false, not, if◌then◌else◌, none, some, List, [], ◌∷◌,
  ◌++◌, length,
}
use ignition.Snapshot.{ok, err, read_diff_pages, apply_diff}
use ignition.Snapshot.Names.{Name, same}
use ignition.Snapshot.Files.{
  IoError, not_found, bad_json, chain_cycle, missing_layer, root_not_full, layer_not_diff,
  layer_mem_size, root_length, diff_error, IoResult, done, fail, Fs, dir_at,
}
use ignition.Snapshot.Writer.{
  SnapshotManifest, SnapshotType, full, diff, VmSnapshot, check_version, Json, read_manifest,
}

-- The set `seen` as a list.
unfoldable pub mem : Name → List Name → Bool
mem n [] = false
mem n (k ∷ ks) = same n k || mem n ks

unfoldable pub reverse : List SnapshotManifest → List SnapshotManifest
reverse [] = []
reverse (m ∷ ms) = reverse ms ++ (m ∷ [])

-- What `resolve_chain` returns; `out_of_fuel` is the model's own.
pub data Resolved : Type 0 where
  resolved : List SnapshotManifest → Resolved
  rejected : IoError → Resolved
  out_of_fuel : Resolved

module _ {J : Type 0} (json : Json J) where
  -- The loop: the layer `cur` is read unless it was seen, and the walk goes on at its parent.
  unfoldable pub resolve_from : ℕ → Fs → List Name → List SnapshotManifest → Name → Resolved
  resolve_from zero fs seen chain cur = out_of_fuel
  resolve_from (suc fuel) fs seen chain cur =
      if mem cur seen then rejected (chain_cycle cur) else elim (read_manifest json fs cur) [
        | none ↦ rejected (missing_layer cur)
        | some m ↦ elim m.parent [
          | some p ↦ resolve_from fuel fs (cur ∷ seen) (chain ++ (m ∷ [])) p
          | none ↦ resolved (reverse (chain ++ (m ∷ [])))
        ]
      ]

  -- One round for every directory, and one that ends the walk.
  unfoldable pub resolve_chain : Fs → Name → Resolved
  resolve_chain fs leaf = resolve_from (length fs.snapshots + 1) fs [] [] leaf

  -- `read_snapshot`: the machine state and the contents of `gic.bin`.
  unfoldable pub read_snapshot : Fs → Name → IoResult (VmSnapshot J × List ℕ)
  read_snapshot fs n = elim (dir_at fs n) [
    | none ↦ fail not_found
    | some d ↦ elim d.vmstate_json [
      | none ↦ fail not_found
      | some bytes ↦ elim (json.state_from_slice bytes) [
        | none ↦ fail bad_json
        | some s ↦ elim (check_version s) [
          | fail e ↦ fail e
          | done u ↦ elim d.gic_bin [ none ↦ fail not_found | some blob ↦ done (s, blob) ]
        ]
      ]
    ]
  ]

is_full : SnapshotType → Bool
is_full full = true
is_full diff = false

-- The layers above the root: each is a diff of the root's memory size.
unfoldable pub check_layers : ℕ → List SnapshotManifest → IoResult (Unit {0})
unfolding is_full
check_layers size [] = done tt
check_layers size (m ∷ ms) =
    let rest = check_layers size ms in
    if is_full m.snapshot_type
    then fail (layer_not_diff m.name)
    else if not (m.mem_size == size)
    then fail (layer_mem_size m.name)
    else rest

-- `read_diff_pages` of a layer's directory: `dirty.idx` first.
unfoldable pub layer_files : Fs → Name → IoResult (List ℕ × List ℕ)
layer_files fs n = elim (dir_at fs n) [
  | none ↦ fail not_found
  | some d ↦ elim d.dirty_idx_bin [
    | none ↦ fail not_found
    | some raw ↦ elim d.memory_bin [
      | none ↦ fail not_found
      | some packed ↦ done (read_diff_pages (packed, raw))
    ]
  ]
]

-- The loop that lays each diff layer over guest RAM.
unfoldable pub overlay_layers : Fs → List ℕ → List SnapshotManifest → IoResult (List ℕ)
overlay_layers fs ram [] = done ram
overlay_layers fs ram (m ∷ ms) = elim (layer_files fs m.name) [
  | fail e ↦ fail e
  | done files ↦
      let (r, ram') = apply_diff ram files.0 files.1 in
      elim r [ err e ↦ fail (diff_error e) | ok u ↦ overlay_layers fs ram' ms ]
]

-- The root's `memory.bin`, which is mapped as guest RAM.
unfoldable pub root_memory : Fs → SnapshotManifest → IoResult (List ℕ)
root_memory fs root = elim (dir_at fs root.name) [
  | none ↦ fail not_found
  | some d ↦ elim d.memory_bin [
    | none ↦ fail not_found
    | some bytes ↦ if not (length bytes == root.mem_size) then fail root_length else done bytes
  ]
]

-- Guest RAM from the layers root..leaf. The leaf's `vmstate.json`, read and checked before the root's
-- memory, is no part of it (`read_snapshot`).
unfoldable pub restore_ram : Fs → List SnapshotManifest → IoResult (List ℕ)
unfolding is_full
restore_ram fs [] = fail not_found
restore_ram fs (root ∷ ms) =
    if not (is_full root.snapshot_type)
    then fail (root_not_full root.name)
    else elim (check_layers root.mem_size ms) [
      | fail e ↦ fail e
      | done u ↦ elim (root_memory fs root) [
        | fail e ↦ fail e
        | done base ↦ overlay_layers fs base ms
      ]
    ]
