-- ===== src/Snapshot/StoreTests.antt =====
-- Chains and captures at concrete directories: layers "a" and "b", one page of RAM, and an encoding
-- of manifests that is read back.
use ignition.Base.{
  ℕ, zero, suc, ◌≡◌, ◌≢◌, refl, sym, ap, subst, ◌∙◌, ◌⊎◌, inl, inr, Bool-cases, true, false, Option,
  none, some, List, [], ◌∷◌, ◌++◌, arith, take, drop, length, ==_iff,
}
use ignition.Dirty.{pages}
use ignition.Snapshot.{ok, write_diff_pages, write_pages, write_idx}
use ignition.Snapshot.Names.{Name, same, same-eq, with_tmp, file_stem, rsplit_dot}
use ignition.Snapshot.Files.{
  Dir, empty_dir, not_found, Fs, dir_at, find_dir, IoError, os_error, done, fail,
}
use ignition.Snapshot.Writer.{
  Json, LawfulJson, SnapshotManifest, SnapshotWriter, SnapshotType, full, diff, new_full, new_diff,
  VmConfig, VmSnapshot, new_snapshot, Capture, read_manifest, publish, write, chosen,
}
use ignition.Snapshot.Restore.{
  resolve_chain, resolve_from, resolved, rejected, reverse, mem, restore_ram, root_memory,
  check_layers, overlay_layers,
}
use ignition.Snapshot.Chain.{Chain, root, read, resolve_chain-decides}
use ignition.Snapshot.Overwrite.{write-ancestor_lost, publish-lost, Leads, here, up}
use ignition.Snapshot.Accepted.{write-accepted, accepted}
use ignition.Snapshot.Recapture.{write-restores, Named}
use ignition.Snapshot.Diff.{diff_restores}
use ignition.Snapshot.Tests.{one_page, fresh, ram, ram-Tracks, ram-whole}
use ignition.Snapshot.Frame.{write-others}

take-front : (xs ys : List ℕ) → take (length xs) (xs ++ ys) ≡ xs
take-front [] ys = refl
take-front (x ∷ xs) ys = cc (take-front xs ys)

drop-front : (xs ys : List ℕ) → drop (length xs) (xs ++ ys) ≡ ys
drop-front [] ys = refl
drop-front (x ∷ xs) ys = drop-front xs ys

abbrev encode_type : SnapshotType → ℕ
encode_type full = 0
encode_type diff = 1

abbrev decode_type : ℕ → SnapshotType
decode_type zero = full
decode_type (suc t) = diff

abbrev encode_parent : Option Name → List ℕ
encode_parent none = []
encode_parent (some p) = 1 ∷ p

abbrev decode_parent : List ℕ → Option Name
decode_parent [] = none
decode_parent (t ∷ p) = some p

abbrev encode : SnapshotManifest → List ℕ
encode m =
    m.mem_size
    ∷ m.vcpu_count
    ∷ encode_type m.snapshot_type
    ∷ length m.name
    ∷ (m.name ++ encode_parent m.parent)

abbrev decode : List ℕ → Option SnapshotManifest
decode (size ∷ count ∷ t ∷ n ∷ rest) = some (record {
  name = take n rest;
  mem_size = size;
  vcpu_count = count;
  snapshot_type = decode_type t;
  parent = decode_parent (drop n rest);
})
decode _ = none

decode_parent-encode_parent : (p : Option Name) → decode_parent (encode_parent p) ≡ p
decode_parent-encode_parent none = refl
decode_parent-encode_parent (some p) = refl

decode_type-encode_type : (t : SnapshotType) → decode_type (encode_type t) ≡ t
decode_type-encode_type full = refl
decode_type-encode_type diff = refl

decode-encode : (m : SnapshotManifest) → decode (encode m) ≡ some m
decode-encode m =
    rw
      (
        take-front m.name (encode_parent m.parent),
        drop-front m.name (encode_parent m.parent),
        decode_parent-encode_parent m.parent,
        decode_type-encode_type m.snapshot_type,
      )
      refl

abbrev json : Json ℕ
json = record {
  manifest_to_vec = encode;
  manifest_from_slice = decode;
  state_to_vec = λ s. [];
  state_from_slice = λ bytes. none;
}

json-LawfulJson : LawfulJson json
json-LawfulJson = record { manifest_back = decode-encode }

abbrev name_a : Name
name_a = 97 ∷ []

abbrev name_b : Name
name_b = 98 ∷ []

abbrev config : VmConfig
config = record { mem_size = length one_page; vcpu_count = 1 }

abbrev snap : VmSnapshot ℕ
snap = new_snapshot config [] []

abbrev manifest_a : SnapshotManifest
manifest_a = new_full name_a (length one_page) 1

abbrev dir_a : Dir
dir_a = record empty_dir { memory_bin = some one_page; manifest_json = some (encode manifest_a) }

-- The full snapshot "a" alone.
abbrev store_a : Fs
store_a = record { snapshots = (name_a, dir_a) ∷ []; os = [] }

abbrev manifest_b : SnapshotManifest
manifest_b = new_diff name_b name_a (length one_page) 1

-- A diff layer "b" over it.
abbrev store_b : Fs
store_b = record {
  snapshots =
      (name_b, record empty_dir { manifest_json = some (encode manifest_b) })
      ∷ (name_a, dir_a)
      ∷ [];
  os = [];
}

abbrev writer_a : SnapshotWriter
writer_a = record { name = name_b; parent = some name_a; restored_from = none; force = false }

abbrev writer_b : SnapshotWriter
writer_b = record { name = name_a; parent = some name_b; restored_from = none; force = false }

a-fresh : name_a ≢ with_tmp name_a
unfolding with_tmp file_stem rsplit_dot
a-fresh e = cc

b-fresh : name_b ≢ with_tmp name_b
unfolding with_tmp file_stem rsplit_dot
b-fresh e = cc

-- `with_extension` replaces what follows the last dot.
v1_0 : with_tmp (118 ∷ 49 ∷ 46 ∷ 48 ∷ []) ≡ 118 ∷ 49 ∷ 46 ∷ 116 ∷ 109 ∷ 112 ∷ []
unfolding with_tmp file_stem rsplit_dot
v1_0 = refl

read-a : read json store_a name_a ≡ some manifest_a
unfolding read_manifest find_dir same
read-a = decode-encode manifest_a

resolve_b : resolve_chain json store_b name_b ≡ resolved (manifest_a ∷ manifest_b ∷ [])
unfolding resolve_chain resolve_from read_manifest find_dir same mem reverse
resolve_b = refl

resolve_chain-decides_example :
    ((ms : List SnapshotManifest) × (resolve_chain json store_b name_b ≡ resolved (reverse ms))
      × Chain (read json store_b) name_b ms)
    ⊎ ((e : IoError) × (resolve_chain json store_b name_b ≡ rejected e)
        × ((ms : List SnapshotManifest) → ¬ Chain (read json store_b) name_b ms))
resolve_chain-decides_example = resolve_chain-decides json store_b name_b

a-Chain : Chain (read json store_a) name_a (manifest_a ∷ [])
a-Chain = root read-a refl

none-some : {a : SnapshotManifest} → ◌≡◌ {A = Option SnapshotManifest} none (some a) → ⊥
none-some h = cc

store_a-Named : Named json store_a
unfolding read_manifest find_dir
store_a-Named k m e = elim (Bool-cases (same name_a k)) [
  | inl this ↦
      let found : read json store_a name_a ≡ some m =
        subst (λ x. read json store_a x ≡ some m) (sym (same-eq name_a k this)) e in
      let name : manifest_a ≡ m = cc (read-a, found) in
      ap (λ x. x.name) (sym name) ∙ same-eq name_a k this
  | inr other ↦
      let missing : read json store_a k ≡ none = ground arith in
      elim (none-some (sym missing ∙ e)) [ ]
]

restore_a : restore_ram store_a (manifest_a ∷ []) ≡ done one_page
unfolding restore_ram root_memory check_layers overlay_layers find_dir same
restore_a = ground (arith, ==_iff (length one_page) (length one_page))

abbrev capture : Capture ℕ
capture = accepted json snap one_page [] []

-- The diff of the fresh tracker can be packed.
fresh-packs : (files : List ℕ × List ℕ) × (write_diff_pages (pages fresh) one_page ≡ ok files)
fresh-packs =
    let (files, e, applied) = diff_restores one_page ram fresh ram-Tracks ram-whole in (files, e)

-- The same run, for the witnesses below.
-- A capture under a name that is not its own staging name.
taken :
    {n : Name} {A B C : Type 0}
    → n ≢ with_tmp n
    → ((n ≢ with_tmp n) × A) ⊎ ((n ≡ with_tmp n) × B × C)
    → A
taken h (inl (other, a)) = a
taken h (inr (own, b, c)) = absurd (h own)

write_a_succeeds : (write json writer_a none capture (some (pages fresh)) store_a).0 ≡ done tt
unfolding chosen same
write_a_succeeds = taken b-fresh (
    write-accepted json writer_a none snap one_page [] [] (some (pages fresh)) store_a refl refl
      refl (inr (pages fresh, fresh-packs.0, refl, fresh-packs.1)))

write_b_succeeds : (write json writer_b none capture (some []) store_b).0 ≡ done tt
unfolding chosen same write_diff_pages write_pages write_idx
write_b_succeeds = taken a-fresh (
    write-accepted json writer_b none snap one_page [] [] (some []) store_b refl refl refl
      (inr ([], ([], []), refl, refl)))

tmp_b-a : with_tmp name_b ≢ name_a
unfolding with_tmp file_stem rsplit_dot same
tmp_b-a e = let t : false ≡ true = ap (λ s. same s name_a) e in cc

b-a : name_b ≢ name_a
unfolding same
b-a e = let t : false ≡ true = ap (λ s. same s name_a) e in cc

write-accepted_example :
    let n = chosen writer_a none in
    let (r, _, fs') = write json writer_a none capture (some (pages fresh)) store_a in
    ((n ≢ with_tmp n) × (r ≡ done tt))
    ⊎ ((n ≡ with_tmp n) × (r ≡ fail not_found) × (dir_at fs' n ≡ none))
unfolding chosen same
write-accepted_example =
    write-accepted json writer_a none snap one_page [] [] (some (pages fresh)) store_a refl refl
      refl (inr (pages fresh, fresh-packs.0, refl, fresh-packs.1))

write-others_example :
    let (r, w', fs') = write json writer_a none capture (some (pages fresh)) store_a in
    (dir_at fs' name_a ≡ dir_at store_a name_a) × ((r ≡ done tt) ⊎ (w' ≡ writer_a))
unfolding chosen
write-others_example =
    write-others json writer_a none capture (some (pages fresh)) store_a name_a tmp_b-a b-a

write-restores_example :
    let (r, w', fs') = write json writer_a none capture (some (pages fresh)) store_a in
    let layers = manifest_a ∷ manifest_b ∷ [] in
    (w'.parent ≡ some name_b)
    × (resolve_chain json fs' name_b ≡ resolved layers)
    × (restore_ram fs' layers ≡ done one_page)
unfolding chosen reverse
write-restores_example =
    write-restores json writer_a none capture ram fresh store_a name_a (manifest_a ∷ []) one_page
      json-LawfulJson refl b-fresh store_a-Named a-Chain ((tmp_b-a, b-a), tt) restore_a ram-Tracks
      ram-whole refl refl write_a_succeeds

b-Leads : Leads (read json store_b) name_a name_b
unfolding read_manifest find_dir same
b-Leads = up {m = manifest_b} (decode-encode manifest_b) refl here

write-ancestor_lost_example :
    (e : IoError) × (resolve_chain json
        (write json writer_b none capture (some []) store_b).2
        name_b
      ≡ rejected e)
unfolding chosen write_diff_pages write_pages write_idx find_dir same with_tmp file_stem rsplit_dot
write-ancestor_lost_example =
    write-ancestor_lost json writer_b none capture [] ([], []) store_b name_b name_b json-LawfulJson
      refl b-Leads b-Leads refl a-fresh refl write_b_succeeds

-- The rename fails.
abbrev store_fault : Fs
store_fault = record store_a { os = none ∷ some 28 ∷ [] }

publish-lost_example :
    ((publish name_b name_a store_fault).0 ≡ fail (os_error 28))
    × (dir_at (publish name_b name_a store_fault).1 name_a ≡ none)
unfolding find_dir same
publish-lost_example = publish-lost name_b name_a store_fault dir_a 28 [] refl refl
