-- ===== src/Snapshot/Frame.antt =====
-- What a capture leaves alone: the directories of other names, and on failure the writer.
use ignition.Base.{ℕ, Option, none, some, List, [], ◌≡◌, ◌≢◌, ◌⊎◌, arith}
use ignition.Snapshot.{ok, err, write_diff_pages}
use ignition.Snapshot.Names.{Name, with_tmp}
use ignition.Snapshot.Files.{
  memory, gic, state, manifest, dirty_idx, done, fail, diff_error, Fs, ◌>>◌, dir_at, remove_dir_all,
  set_file, write_file, tracking_required,
}
use ignition.Snapshot.Writer.{
  Json, Capture, SnapshotWriter, new_full, new_diff, write_diff_files, write_manifest, stage_full,
  stage_diff, publish, write_snapshot, write_diff_snapshot, write_layer, write_named, chosen, write,
}
use ignition.Snapshot.Effects.{
  Keeps, >>=-Keeps, >>-Keeps, ignore-Keeps, return-Keeps, remove_dir_all-Keeps,
  create_dir_all-Keeps, set_file-Keeps, write_file-Keeps, rename-Keeps, clonefile_or_copy-Keeps,
}

write_diff_files-Keeps :
    (k n : Name) (pages ram : List ℕ) → k ≢ n → Keeps n (write_diff_files k pages ram)
unfolding write_diff_files
write_diff_files-Keeps k n pages ram h =
    elim (write_diff_pages pages ram)
      as (λ r. Keeps n (elim r [
        | err e ↦ do set_file k memory []; λ fs. (fail (diff_error e), fs)
        | ok files ↦ do write_file k memory files.0; write_file k dirty_idx files.1
      ])) [
        | err e ↦
            >>-Keeps n (set_file k memory []) _ (set_file-Keeps k n memory [] h)
              (return-Keeps n (fail (diff_error e)))
        | ok files ↦
            >>-Keeps n (write_file k memory files.0) (write_file k dirty_idx files.1)
              (write_file-Keeps k n memory files.0 h) (write_file-Keeps k n dirty_idx files.1 h)
      ]

publish-Keeps : (n tmp dir : Name) → tmp ≢ n → dir ≢ n → Keeps n (publish tmp dir)
unfolding publish
publish-Keeps n tmp dir h k =
    >>-Keeps n _ _ (ignore-Keeps n (remove_dir_all dir) (remove_dir_all-Keeps dir n k))
      (rename-Keeps tmp dir n h k)

module _ {J : Type 0} (json : Json J) (n : Name) where
  stage_full-Keeps : (tmp : Name) (c : Capture J) → tmp ≢ n → Keeps n (stage_full json tmp c)
  unfolding stage_full
  stage_full-Keeps tmp c h =
      let clear = ignore-Keeps n (remove_dir_all tmp) (remove_dir_all-Keeps tmp n h) in
      let make = create_dir_all-Keeps tmp n h in
      let a = write_file-Keeps tmp n memory c.ram h in
      let b = write_file-Keeps tmp n gic c.gic_blob h in
      let d = clonefile_or_copy-Keeps c.disk_src tmp n h in
      let e = write_file-Keeps tmp n state (json.state_to_vec c.snap) h in
      >>-Keeps n _ _ clear
        (>>-Keeps n _ _ make (>>-Keeps n _ _ a (>>-Keeps n _ _ b (>>-Keeps n _ _ d e))))

  stage_diff-Keeps :
      (tmp : Name) (c : Capture J) (pages : List ℕ)
      → tmp ≢ n
      → Keeps n (stage_diff json tmp c pages)
  unfolding stage_diff
  stage_diff-Keeps tmp c pages h =
      let clear = ignore-Keeps n (remove_dir_all tmp) (remove_dir_all-Keeps tmp n h) in
      let make = create_dir_all-Keeps tmp n h in
      let b = write_file-Keeps tmp n gic c.gic_blob h in
      let d = clonefile_or_copy-Keeps c.disk_src tmp n h in
      let e = write_file-Keeps tmp n state (json.state_to_vec c.snap) h in
      let f = write_diff_files-Keeps tmp n pages c.ram h in
      >>-Keeps n _ _ clear
        (>>-Keeps n _ _ make (>>-Keeps n _ _ b (>>-Keeps n _ _ d (>>-Keeps n _ _ e f))))

  write_layer-Keeps :
      (parent : Option Name) (dir : Name) (c : Capture J) (dirty : Option (List ℕ))
      → with_tmp dir ≢ n
      → dir ≢ n
      → Keeps n (write_layer json parent dir c dirty)
  unfolding write_layer write_snapshot write_diff_snapshot
  write_layer-Keeps none dir c dirty h k =
      let staged = stage_full-Keeps (with_tmp dir) c h in
      >>-Keeps n _ _ (>>-Keeps n _ _ staged (publish-Keeps n (with_tmp dir) dir h k))
        (return-Keeps n (done (new_full dir c.snap.config.mem_size c.snap.config.vcpu_count)))
  write_layer-Keeps (some p) dir c none h k = return-Keeps n (fail tracking_required)
  write_layer-Keeps (some p) dir c (some pages) h k =
      let staged = stage_diff-Keeps (with_tmp dir) c pages h in
      >>-Keeps n _ _ (>>-Keeps n _ _ staged (publish-Keeps n (with_tmp dir) dir h k))
        (return-Keeps n (done (new_diff dir p c.snap.config.mem_size c.snap.config.vcpu_count)))

  pub write_named-Keeps :
      (parent : Option Name) (dir : Name) (c : Capture J) (dirty : Option (List ℕ))
      → with_tmp dir ≢ n
      → dir ≢ n
      → Keeps n (write_named json parent dir c dirty)
  unfolding write_named write_manifest
  write_named-Keeps parent dir c dirty h k =
      >>=-Keeps n _ _ (write_layer-Keeps parent dir c dirty h k)
        (λ m. write_file-Keeps dir n manifest (json.manifest_to_vec m) k)

-- A capture changes no directory but the one of its name and the temporary one beside it, however
-- the calls on them end; and if it fails, the writer is as it was, so that the next diff is taken
-- against the same layer.
pub write-others :
    {J : Type 0} (json : Json J) (w : SnapshotWriter) (requested : Option Name) (c : Capture J)
    (dirty : Option (List ℕ)) (fs : Fs) (n : Name)
    → with_tmp (chosen w requested) ≢ n
    → chosen w requested ≢ n
    → (let (r, w', fs') = write json w requested c dirty fs in
        (dir_at fs' n ≡ dir_at fs n) × ((r ≡ done tt) ⊎ (w' ≡ w)))
unfolding write Keeps
write-others json w requested c dirty fs n h k =
    let kept = write_named-Keeps json n w.parent (chosen w requested) c dirty h k fs in
    ground (arith, kept)
