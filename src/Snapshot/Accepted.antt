-- ===== src/Snapshot/Accepted.antt =====
-- A capture whose calls the operating system all accepts, and the names that stand in its way.
use ignition.Base.{
  ℕ, false, Option, none, some, List, [], ◌≡◌, ◌≢◌, refl, ap, subst, ◌∙◌, inl, inr, ◌⊎◌, arith,
  Bool-cases, true,
}
use ignition.Snapshot.{ok, write_diff_pages}
use ignition.Snapshot.Names.{Name, same, same_refl, same-eq, with_tmp}
use ignition.Snapshot.Files.{
  memory, gic, state, manifest, dirty_idx, not_found, Dir, done, fail, Fs, Io, ◌>>=◌, ◌>>◌, call,
  dir_at, remove_dir_all, rename,
}
use ignition.Snapshot.Writer.{
  Json, Capture, SnapshotManifest, SnapshotWriter, VmSnapshot, is_name, write_diff_files,
  write_manifest, stage_full, stage_diff, publish, write_snapshot, write_diff_snapshot, write_layer,
  write_named, write, chosen,
}
use ignition.Snapshot.Success.{full_manifest, diff_manifest, stage_full-Gives, stage_diff-Gives}
use ignition.Snapshot.Published.{Gives, Has, >>=-Gives, publish-Gives}
use ignition.Snapshot.Works.{
  Works, >>=-Works, write_file-Works, publish-Works, return-Works, removed, after, Anything, file,
  fresh_dir, cloned,
}

-- From a state with `P` whose calls all succeed, `io` fails as it finds no staged directory, and
-- nothing stands under the name `n`.
unfoldable Fails : {A : Type 0} → Name → (Fs → Type 0) → Io A → Type 0
Fails n P io =
    (fs : Fs) → P fs → fs.os ≡ [] → ((io fs).0 ≡ fail not_found) × (dir_at (io fs).1 n ≡ none)

>>=-Fails :
    {A B : Type 0} (n : Name) (P : Fs → Type 0) (m : Io A) (k : A → Io B)
    → Fails n P m
    → Fails n P (m >>= k)
unfolding Fails
>>=-Fails n P m k h fs p e =
    let (r, gone) = h fs p e in
    let stops : (m >>= k) fs ≡ (fail not_found, (m fs).1) = rw (◌>>=◌, r) refl in
    (ap (λ x. x.0) stops, ap (λ x. dir_at x.1 n) stops ∙ gone)

after-Fails :
    (n : Name) (P : Fs → Type 0) (m k : Io (Unit {0}))
    → Works P m
    → Fails n (λ _. Unit) k
    → Fails n P (m >> k)
unfolding Works Fails
after-Fails n P m k hm hk fs p e =
    let ((a, r), e') = hm fs p e in
    let goes : (m >> k) fs ≡ k (m fs).1 = rw (◌>>=◌, r) refl in
    let (r', gone) = hk (m fs).1 tt e' in
    (ap (λ x. x.0) goes ∙ r', ap (λ x. dir_at x.1 n) goes ∙ gone)

rename-none :
    (src dst : Name) (fs : Fs)
    → fs.os ≡ []
    → dir_at fs src ≡ none
    → rename src dst fs ≡ (fail not_found, fs)
unfolding rename call
rename-none src dst fs e free = ground arith

-- What is staged under the name itself is removed, and there is nothing to rename.
publish-Fails : (n : Name) → Fails n (λ _. Unit) (publish n n)
unfolding Fails publish
publish-Fails n fs p e =
    let (free, e') = removed n fs e in
    let missing = rename-none n n (remove_dir_all n fs).1 e' free in
    (ap (λ x. x.0) missing, ap (λ x. dir_at x.1 n) missing ∙ free)

none-some : {a : List ℕ} → ◌≡◌ {A = Option (List ℕ)} none (some a) → ⊥
none-some h = cc

some-none : {a : Name} → ◌≡◌ {A = Option Name} (some a) none → ⊥
some-none h = cc

module _ {J : Type 0} (json : Json J) (snap : VmSnapshot J) (ram gic_blob image : List ℕ) where
  abbrev pub accepted : Capture J
  accepted = record { snap = snap; ram = ram; gic_blob = gic_blob; disk_src = some image }

  stage_full-Works : (tmp : Name) → Works (λ _. Unit) (stage_full json tmp accepted)
  unfolding stage_full
  stage_full-Works tmp = fresh_dir tmp _ (
      file tmp memory ram _ (
        file tmp gic gic_blob _
          (cloned tmp image _ (write_file-Works tmp state (json.state_to_vec snap) Anything))))

  stage_diff-Works :
      (tmp : Name) (pages : List ℕ) (files : List ℕ × List ℕ)
      → write_diff_pages pages ram ≡ ok files
      → Works (λ _. Unit) (stage_diff json tmp accepted pages)
  unfolding stage_diff write_diff_files
  stage_diff-Works tmp pages files e =
      let last : Works (Has tmp Anything) (write_diff_files tmp pages ram) =
        rw (write_diff_files, e)
          (file tmp memory files.0 _ (write_file-Works tmp dirty_idx files.1 Anything)) in
      fresh_dir tmp _ (
        file tmp gic gic_blob _
          (cloned tmp image _ (file tmp state (json.state_to_vec snap) _ last)))

  -- A layer is staged, published and given its manifest.
  named-Works :
      (n : Name) (stage : Io (Unit {0})) (P : Dir → Type 0) (m : SnapshotManifest)
      → n ≢ with_tmp n
      → Works (λ _. Unit) stage
      → Gives (λ _. Unit) stage (λ _. Has (with_tmp n) P)
      → Works
          (λ _. Unit)
          (((stage >> publish (with_tmp n) n) >> (λ fs. (done m, fs))) >>= λ a.
            write_manifest json n a)
  unfolding write_manifest Gives
  named-Works n stage P m h ws gs =
      let published =
        after (λ _. Unit) stage (Has (with_tmp n) P) (publish (with_tmp n) n) ws gs
          (publish-Works (with_tmp n) n P h) in
      let stands =
        >>=-Gives (λ _. Unit) stage (λ _. Has (with_tmp n) P) (λ _. publish (with_tmp n) n)
          (λ _. Has n P) gs (λ _. publish-Gives (with_tmp n) n P h) in
      let kept : Gives (Has n P) (λ fs. (done m, fs)) (λ _. Has n P) = λ fs q a e. q in
      let layer =
        after (λ _. Unit) (stage >> publish (with_tmp n) n) (Has n P) (λ fs. (done m, fs)) published
          stands (return-Works (Has n P) m) in
      >>=-Works (λ _. Unit) _ (λ _. Has n P) (λ a. write_manifest json n a) layer
        (>>=-Gives (λ _. Unit) (stage >> publish (with_tmp n) n) (λ _. Has n P)
          (λ _ fs. (done m, fs)) (λ _. Has n P) stands (λ _. kept))
        (λ a. write_file-Works n manifest (json.manifest_to_vec a) P)

  write_named-Works :
      (parent : Option Name) (n : Name) (dirty : Option (List ℕ))
      → n ≢ with_tmp n
      → (parent ≡ none)
        ⊎ ((pages : List ℕ) × (files : List ℕ × List ℕ) × (dirty ≡ some pages)
            × (write_diff_pages pages ram ≡ ok files))
      → Works (λ _. Unit) (write_named json parent n accepted dirty)
  unfolding write_named write_layer write_snapshot write_diff_snapshot
  write_named-Works none n dirty h k =
      named-Works n (stage_full json (with_tmp n) accepted) _ (full_manifest json accepted n) h
        (stage_full-Works (with_tmp n)) (stage_full-Gives json accepted (with_tmp n))
  write_named-Works (some p) n (some pages) h (inr (pages', files, e, k)) =
      let same_pages : pages' ≡ pages = cc in
      let fits = subst (λ x. write_diff_pages x ram ≡ ok files) same_pages k in
      named-Works n (stage_diff json (with_tmp n) accepted pages) _
        (diff_manifest json accepted n p) h (stage_diff-Works (with_tmp n) pages files fits)
        (stage_diff-Gives json accepted (with_tmp n) pages files fits)
  write_named-Works (some p) n none h (inr (pages, files, e, k)) = elim (none-some e) [ ]
  write_named-Works (some p) n dirty h (inl e) = elim (some-none e) [ ]

  -- A layer whose name is its own staging directory's.
  own_stage-Fails :
      (n : Name) (stage : Io (Unit {0})) (m : SnapshotManifest)
      → n ≡ with_tmp n
      → Works (λ _. Unit) stage
      → Fails n
          (λ _. Unit)
          (((stage >> publish (with_tmp n) n) >> (λ fs. (done m, fs))) >>= λ a.
            write_manifest json n a)
  own_stage-Fails n stage m h ws =
      let last = subst (λ tmp. Fails n (λ _. Unit) (publish tmp n)) h (publish-Fails n) in
      >>=-Fails n _ _ (λ a. write_manifest json n a)
        (>>=-Fails n _ (stage >> publish (with_tmp n) n) (λ _ fs. (done m, fs))
          (after-Fails n _ stage (publish (with_tmp n) n) ws last))

  write_named-Fails :
      (parent : Option Name) (n : Name) (dirty : Option (List ℕ))
      → n ≡ with_tmp n
      → (parent ≡ none)
        ⊎ ((pages : List ℕ) × (files : List ℕ × List ℕ) × (dirty ≡ some pages)
            × (write_diff_pages pages ram ≡ ok files))
      → Fails n (λ _. Unit) (write_named json parent n accepted dirty)
  unfolding write_named write_layer write_snapshot write_diff_snapshot
  write_named-Fails none n dirty h k =
      own_stage-Fails n (stage_full json (with_tmp n) accepted) (full_manifest json accepted n) h
        (stage_full-Works (with_tmp n))
  write_named-Fails (some p) n (some pages) h (inr (pages', files, e, k)) =
      let same_pages : pages' ≡ pages = cc in
      let fits = subst (λ x. write_diff_pages x ram ≡ ok files) same_pages k in
      own_stage-Fails n (stage_diff json (with_tmp n) accepted pages)
        (diff_manifest json accepted n p) h (stage_diff-Works (with_tmp n) pages files fits)
  write_named-Fails (some p) n none h (inr (pages, files, e, k)) = elim (none-some e) [ ]
  write_named-Fails (some p) n dirty h (inl e) = elim (some-none e) [ ]

-- If every call of the operating system succeeds, the disk is there, the name is neither the
-- parent's nor the one restored from, and a diff's pages are given and lie in RAM, a capture under
-- any name that is not its own staging name (`x.tmp` is) is accepted; under such a name it fails,
-- and the snapshot that stood there is gone.
pub write-accepted :
    {J : Type 0} (json : Json J) (w : SnapshotWriter) (requested : Option Name)
    (snap : VmSnapshot J) (ram gic_blob image : List ℕ) (dirty : Option (List ℕ)) (fs : Fs)
    → fs.os ≡ []
    → is_name w.parent (chosen w requested) ≡ false
    → is_name w.restored_from (chosen w requested) ≡ false
    → (w.parent ≡ none)
      ⊎ ((pages : List ℕ) × (files : List ℕ × List ℕ) × (dirty ≡ some pages)
          × (write_diff_pages pages ram ≡ ok files))
    → let n = chosen w requested in
      let (r, _, fs') = write json w requested (accepted json snap ram gic_blob image) dirty fs in
      ((n ≢ with_tmp n) × (r ≡ done tt))
      ⊎ ((n ≡ with_tmp n) × (r ≡ fail not_found) × (dir_at fs' n ≡ none))
unfolding write Works Fails
write-accepted json w requested snap ram gic_blob image dirty fs os not_parent not_source k =
    let n = chosen w requested in
    elim (Bool-cases (same n (with_tmp n))) [
      | inl s ↦
          let own = same-eq n (with_tmp n) s in
          let (r, gone) =
            write_named-Fails json snap ram gic_blob image w.parent n dirty own k fs tt os in
          inr (own, ground arith, ground arith)
      | inr s ↦
          let apart : n ≢ with_tmp n = λ e. cc (subst (λ x. same n x ≡ true) e (same_refl n)) in
          let ((a, r), e) =
            write_named-Works json snap ram gic_blob image w.parent n dirty apart k fs tt os in
          inl (apart, ground arith)
    ]
