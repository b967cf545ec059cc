-- ===== src/Snapshot/Success.antt =====
-- A capture that succeeds: the files of its layer and the manifest that is read back.
use ignition.Base.{ℕ, Option, none, some, List, [], ◌≡◌, ◌≢◌, refl, sym, subst}
use ignition.Snapshot.{ok, write_diff_pages}
use ignition.Snapshot.Names.{Name, with_tmp}
use ignition.Snapshot.Files.{
  memory, gic, state, manifest, dirty_idx, put_file, Dir, done, Fs, Io, ◌>>=◌, ◌>>◌, ignore,
  remove_dir_all, write_file,
}
use ignition.Snapshot.Writer.{
  Json, Capture, SnapshotManifest, new_full, new_diff, write_diff_files, write_manifest, stage_full,
  stage_diff, write_snapshot, write_diff_snapshot, write_layer, write_named,
}
use ignition.Snapshot.Published.{
  Gives, Has, >>=-Gives, write_file-Gives, clonefile_or_copy-Gives, create_dir_all-Gives,
  publish-Gives,
}

-- The files of a full snapshot.
unfoldable pub FullDir : {J : Type 0} → Json J → Capture J → Dir → Type 0
FullDir json c d =
    (d.memory_bin ≡ some c.ram)
    × (d.gic_bin ≡ some c.gic_blob)
    × (d.disk_img ≡ c.disk_src)
    × (d.vmstate_json ≡ some (json.state_to_vec c.snap))

-- The files of a diff layer, with the packed pages and their indices.
unfoldable pub DiffDir : {J : Type 0} → Json J → Capture J → List ℕ × List ℕ → Dir → Type 0
DiffDir json c files d =
    (d.memory_bin ≡ some files.0)
    × (d.dirty_idx_bin ≡ some files.1)
    × (d.gic_bin ≡ some c.gic_blob)
    × (d.disk_img ≡ c.disk_src)
    × (d.vmstate_json ≡ some (json.state_to_vec c.snap))

-- One step that gives `Q`, and the rest from there.
abbrev pub then :
    {B : Type 0} (P : Fs → Type 0) (m : Io (Unit {0})) (Q : Fs → Type 0) (k : Io B)
    (R : B → Fs → Type 0)
    → Gives P m (λ _. Q)
    → Gives Q k R
    → Gives P (m >> k) R
then P m Q k R hm hk = >>=-Gives P m (λ _. Q) (λ _. k) R hm (λ _. hk)

module _ {J : Type 0} (json : Json J) (c : Capture J) where
  abbrev pub Ram : Dir → Type 0
  Ram d = d.memory_bin ≡ some c.ram

  abbrev pub Gic : Dir → Type 0
  Gic d = d.gic_bin ≡ some c.gic_blob

  abbrev pub Disk : Dir → Type 0
  Disk d = d.disk_img ≡ c.disk_src

  abbrev pub State : Dir → Type 0
  State d = d.vmstate_json ≡ some (json.state_to_vec c.snap)

  pub start : (n : Name) → Gives (λ _. Unit) (ignore (remove_dir_all n)) (λ _ _. Unit)
  unfolding Gives
  start n fs p a e = tt

  pub stage_full-Gives :
      (tmp : Name) → Gives (λ _. Unit) (stage_full json tmp c) (λ _. Has tmp (FullDir json c))
  unfolding stage_full FullDir
  stage_full-Gives tmp =
      then _ _ (λ _. Unit) _ _ (start tmp)
        (then _ _ (Has tmp (λ _. Unit)) _ _ (create_dir_all-Gives tmp) (
          then _ _ (Has tmp Ram) _ _ (write_file-Gives tmp memory c.ram _ _ (λ d p. refl)) (
            then _ _ (Has tmp (λ d. Ram d × Gic d)) _ _
              (write_file-Gives tmp gic c.gic_blob _ _ (λ d p. (p, refl)))
              (then _ _ (Has tmp (λ d. Ram d × Gic d × Disk d)) _ _
                (clonefile_or_copy-Gives c.disk_src tmp _ _ (λ d b e p. (p.0, p.1, sym e)))
                (write_file-Gives tmp state (json.state_to_vec c.snap) _ _
                  (λ d p. (p.0, p.1, p.2, refl)))))))

  write_diff_files-Gives :
      (tmp : Name) (pages : List ℕ) (files : List ℕ × List ℕ)
      → write_diff_pages pages c.ram ≡ ok files
      → Gives
          (Has tmp (λ d. Gic d × Disk d × State d))
          (write_diff_files tmp pages c.ram)
          (λ _. Has tmp (DiffDir json c files))
  unfolding write_diff_files DiffDir
  write_diff_files-Gives tmp pages files e =
      rw (write_diff_files, e)
        (then _ _ (Has tmp (λ d. (d.memory_bin ≡ some files.0) × Gic d × Disk d × State d)) _ _
          (write_file-Gives tmp memory files.0 _ _ (λ d p. (refl, p.0, p.1, p.2)))
          (write_file-Gives tmp dirty_idx files.1 _ _ (λ d p. (p.0, refl, p.1, p.2, p.3))))

  pub stage_diff-Gives :
      (tmp : Name) (pages : List ℕ) (files : List ℕ × List ℕ)
      → write_diff_pages pages c.ram ≡ ok files
      → Gives (λ _. Unit) (stage_diff json tmp c pages) (λ _. Has tmp (DiffDir json c files))
  unfolding stage_diff
  stage_diff-Gives tmp pages files e =
      then _ _ (λ _. Unit) _ _ (start tmp)
        (then _ _ (Has tmp (λ _. Unit)) _ _ (create_dir_all-Gives tmp) (
          then _ _ (Has tmp Gic) _ _ (write_file-Gives tmp gic c.gic_blob _ _ (λ d p. refl)) (
            then _ _ (Has tmp (λ d. Gic d × Disk d)) _ _
              (clonefile_or_copy-Gives c.disk_src tmp _ _ (λ d b e p. (p, sym e)))
              (then _ _ (Has tmp (λ d. Gic d × Disk d × State d)) _ _
                (write_file-Gives tmp state (json.state_to_vec c.snap) _ _
                  (λ d p. (p.0, p.1, refl)))
                (write_diff_files-Gives tmp pages files e)))))

  -- A layer in place behind a manifest that is still to be written, and then with it.
  abbrev pub Written : Name → SnapshotManifest → (Dir → Type 0) → Fs → Type 0
  Written n m P fs = Has n (λ d. (d.manifest_json ≡ some (json.manifest_to_vec m)) × P d) fs

  keep :
      (n : Name) (m : SnapshotManifest) (P : Dir → Type 0)
      → Gives (Has n P) (λ fs. (done m, fs)) (λ a fs. (a ≡ m) × Has n P fs)
  unfolding Gives
  keep n m P fs h a e = (cc, h)

  manifest-Gives :
      (n : Name) (m : SnapshotManifest) (P : Dir → Type 0) (layer : Io SnapshotManifest)
      → ((d : Dir) (bytes : List ℕ) → P d → P (put_file manifest bytes d))
      → Gives (λ _. Unit) layer (λ a fs. (a ≡ m) × Has n P fs)
      → Gives (λ _. Unit) (layer >>= λ a. write_manifest json n a) (λ _. Written n m P)
  unfolding write_manifest Gives
  manifest-Gives n m P layer k h =
      >>=-Gives _ layer (λ a fs. (a ≡ m) × Has n P fs) (λ a. write_manifest json n a)
        (λ _. Written n m P) h
        (λ a fs p u e.
          let step =
            write_file-Gives n manifest (json.manifest_to_vec a) P
              (λ d. (d.manifest_json ≡ some (json.manifest_to_vec a)) × P d)
              (λ d q. (refl, k _ _ (k d [] q))) in
          subst (λ x. Written n x P (write_file n manifest (json.manifest_to_vec a) fs).1) p.0
            (step fs p.1 u e))

  abbrev pub full_manifest : Name → SnapshotManifest
  full_manifest n = new_full n c.snap.config.mem_size c.snap.config.vcpu_count

  abbrev pub diff_manifest : Name → Name → SnapshotManifest
  diff_manifest n p = new_diff n p c.snap.config.mem_size c.snap.config.vcpu_count

  pub write_named-full :
      (n : Name) (dirty : Option (List ℕ))
      → n ≢ with_tmp n
      → Gives
          (λ _. Unit)
          (write_named json none n c dirty)
          (λ _. Written n (full_manifest n) (FullDir json c))
  unfolding write_named write_layer write_snapshot FullDir
  write_named-full n dirty h =
      let layer =
        then _ _ (Has (with_tmp n) (FullDir json c)) _ _ (stage_full-Gives (with_tmp n))
          (publish-Gives (with_tmp n) n (FullDir json c) h) in
      manifest-Gives n (full_manifest n) (FullDir json c) (write_layer json none n c dirty)
        (λ d b p. p) (then _ _ (Has n (FullDir json c)) _ _ layer (keep n _ _))

  pub write_named-diff :
      (p n : Name) (pages : List ℕ) (files : List ℕ × List ℕ)
      → n ≢ with_tmp n
      → write_diff_pages pages c.ram ≡ ok files
      → Gives
          (λ _. Unit)
          (write_named json (some p) n c (some pages))
          (λ _. Written n (diff_manifest n p) (DiffDir json c files))
  unfolding write_named write_layer write_diff_snapshot DiffDir
  write_named-diff p n pages files h e =
      let layer =
        then _ _ (Has (with_tmp n) (DiffDir json c files)) _ _
          (stage_diff-Gives (with_tmp n) pages files e)
          (publish-Gives (with_tmp n) n (DiffDir json c files) h) in
      manifest-Gives n (diff_manifest n p) (DiffDir json c files)
        (write_layer json (some p) n c (some pages)) (λ d b q. q)
        (then _ _ (Has n (DiffDir json c files)) _ _ layer (keep n _ _))
