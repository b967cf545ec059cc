-- ===== src/Snapshot/Recapture.antt =====
-- A capture of a tracked guest on top of a chain: the new name leads to the old chain and one layer
-- more, and restoring it gives the RAM that was captured.
use ignition.Base.{
  ℕ, ◌*◌, Option, some, List, [], ◌∷◌, ◌++◌, length, ◌≡◌, ◌≢◌, refl, sym, subst, ◌∙◌, arith, All,
  All-append, All-map,
}
use ignition.Dirty.{DirtyTracker, page, pages}
use ignition.Ram.{GuestRam}
use ignition.Ram.Tracking.{Tracks}
use ignition.Snapshot.{ok, write_diff_pages, read_diff_pages}
use ignition.Snapshot.Diff.{diff_restores}
use ignition.Snapshot.Names.{Name, with_tmp}
use ignition.Snapshot.Files.{done, Fs, dir_at}
use ignition.Snapshot.Writer.{
  Json, LawfulJson, Capture, SnapshotManifest, SnapshotWriter, read_manifest, write_named, write,
  chosen,
}
use ignition.Snapshot.Restore.{reverse, resolved, resolve_chain, layer_files, restore_ram}
use ignition.Snapshot.Effects.{Keeps}
use ignition.Snapshot.Frame.{write_named-Keeps}
use ignition.Snapshot.Published.{Gives}
use ignition.Snapshot.Success.{DiffDir, Written, write_named-diff, diff_manifest}
use ignition.Snapshot.Chain.{Chain, root, layer, read, resolve_chain-Chain}
use ignition.Snapshot.Layers.{SameDir, restore_ram-SameDir, restore_ram-snoc}

-- A chain is still there where every name in it reads the same.
Chain-moves :
    (f g : Name → Option SnapshotManifest) (n : Name) (ms : List SnapshotManifest)
    → ((k : Name) (m : SnapshotManifest) → f k ≡ some m → m.name ≡ k)
    → All (λ m. g m.name ≡ f m.name) ms
    → Chain f n ms
    → Chain g n ms
Chain-moves f g n _ named h (root {m = m} r e) =
    root (subst (λ x. g x ≡ f x) (named n m r) h.0 ∙ r) e
Chain-moves f g n _ named h (layer {p = p} {m = m} {ms = ms} r e c) =
    layer (subst (λ x. g x ≡ f x) (named n m r) h.0 ∙ r) e (Chain-moves f g p ms named h.1 c)

All-reverse :
    (P : SnapshotManifest → Type 0) (ms : List SnapshotManifest) → All P ms → All P (reverse ms)
unfolding reverse
All-reverse P [] h = tt
All-reverse P (m ∷ ms) h = All-append P (reverse ms) (m ∷ []) (All-reverse P ms h.1) (h.0, tt)

-- No layer has the name `n` or the temporary name beside it.
abbrev pub Apart : Name → List SnapshotManifest → Type 0
Apart n ms = All (λ m. (with_tmp n ≢ m.name) × (n ≢ m.name)) ms

module _ {J : Type 0} (json : Json J) where
  -- Every manifest stands in the directory of its own name.
  abbrev pub Named : Fs → Type 0
  Named fs = (k : Name) (m : SnapshotManifest) → read json fs k ≡ some m → m.name ≡ k

  pub read_manifest-same :
      (fs fs' : Fs) (n : Name) → dir_at fs' n ≡ dir_at fs n → read json fs' n ≡ read json fs n
  unfolding read_manifest
  read_manifest-same fs fs' n h = ground arith

  -- The manifest and the pages of a layer that was written.
  pub Written-read :
      (c : Capture J) (n : Name) (m : SnapshotManifest) (files : List ℕ × List ℕ) (fs : Fs)
      → LawfulJson json
      → Written json c n m (DiffDir json c files) fs
      → (read json fs n ≡ some m) × (layer_files fs n ≡ done (read_diff_pages files))
  unfolding read_manifest DiffDir layer_files
  Written-read c n m files fs law (d, at, p) =
      let back = law.manifest_back m in ground (arith, back)

  -- The directories after a capture that succeeds are those after its calls.
  pub write-done :
      (w : SnapshotWriter) (requested : Option Name) (c : Capture J) (pages : List ℕ) (fs : Fs)
      → (write json w requested c (some pages) fs).0 ≡ done tt
      → (let io = write_named json w.parent (chosen w requested) c (some pages) in
          ((io fs).0 ≡ done tt)
          × ((write json w requested c (some pages) fs).2 ≡ (io fs).1)
          × ((write json w requested c (some pages) fs).1.parent ≡ some (chosen w requested)))
  unfolding write
  write-done w requested c pages fs e = ground arith

  -- What the calls leave alone is still a chain, and restores the same.
  Chain-kept :
      (parent : Option Name) (n : Name) (c : Capture J) (dirty : Option (List ℕ)) (fs : Fs)
      (p : Name) (ms : List SnapshotManifest)
      → Named fs
      → Apart n ms
      → Chain (read json fs) p ms
      → (let fs' = (write_named json parent n c dirty fs).1 in
          Chain (read json fs') p ms × (restore_ram fs' (reverse ms) ≡ restore_ram fs (reverse ms)))
  unfolding Keeps
  Chain-kept parent n c dirty fs p ms named apart chain =
      let fs' = (write_named json parent n c dirty fs).1 in
      let same_dirs : All (SameDir fs fs') ms =
        All-map _ (SameDir fs fs') ms
          (λ m a. write_named-Keeps json m.name parent n c dirty a.0 a.1 fs) apart in
      let same_read =
        All-map _ (λ m. read json fs' m.name ≡ read json fs m.name) ms
          (λ m a. read_manifest-same fs fs' m.name a) same_dirs in
      (
        Chain-moves (read json fs) (read json fs') p ms named same_read chain,
        restore_ram-SameDir fs fs' (reverse ms) (All-reverse (SameDir fs fs') ms same_dirs),
      )

-- The guest's RAM was restored from the chain of the writer's parent, or captured in it, and is
-- tracked since. A capture that succeeds under a new name then becomes the writer's parent,
-- `resolve_chain` gives the old chain and the new diff layer on top, and restoring these layers gives
-- the RAM at the time of the capture.
pub write-restores :
    {J : Type 0} (json : Json J) (w : SnapshotWriter) (requested : Option Name) (c : Capture J)
    (g : GuestRam) (t : DirtyTracker) (fs : Fs) (p : Name) (ms : List SnapshotManifest)
    (image : List ℕ)
    → LawfulJson json
    → w.parent ≡ some p
    → chosen w requested ≢ with_tmp (chosen w requested)
    → Named json fs
    → Chain (read json fs) p ms
    → Apart (chosen w requested) ms
    → restore_ram fs (reverse ms) ≡ done image
    → Tracks image g t
    → length g.bytes ≡ t.page_count * page
    → c.ram ≡ g.bytes
    → c.snap.config.mem_size ≡ length g.bytes
    → (write json w requested c (some (pages t)) fs).0 ≡ done tt
    → (let (r, w', fs') = write json w requested c (some (pages t)) fs in
        let n = chosen w requested in
        let layers = reverse ms ++ (diff_manifest json c n p ∷ []) in
        (w'.parent ≡ some n)
        × (resolve_chain json fs' n ≡ resolved layers)
        × (restore_ram fs' layers ≡ done g.bytes))
unfolding Gives reverse
write-restores json w requested c g t fs p ms image law parent fresh named chain apart old k whole
      same_ram size success =
    let n = chosen w requested in
    let m = diff_manifest json c n p in
    let (files, wrote, applied) = diff_restores image g t k whole in
    let packed = subst (λ x. write_diff_pages (pages t) x ≡ ok files) (sym same_ram) wrote in
    let (ran, ends, advanced) = write-done json w requested c (pages t) fs success in
    let fs' = (write_named json w.parent n c (some (pages t)) fs).1 in
    let (below, kept) = Chain-kept json w.parent n c (some (pages t)) fs p ms named apart chain in
    let there : Written json c n m (DiffDir json c files) fs' =
      subst
        (λ x.
          Gives (λ _. Unit) (write_named json x n c (some (pages t)))
            (λ _. Written json c n m (DiffDir json c files)))
        (sym parent) (write_named-diff json c p n (pages t) files fresh packed) fs tt tt ran in
    let (found, layer_there) = Written-read json c n m files fs' law there in
    let top = layer found refl below in
    let resolves = resolve_chain-Chain json fs' n (m ∷ ms) top in
    let same_size : c.snap.config.mem_size ≡ length image = size ∙ k.same_length in
    let restores =
      restore_ram-snoc fs' (reverse ms) m image g.bytes (read_diff_pages files) (kept ∙ old) refl
        same_size layer_there applied in
    (
      advanced,
      subst (λ x. resolve_chain json x n ≡ resolved (reverse (m ∷ ms))) (sym ends) resolves,
      subst (λ x. restore_ram x (reverse (m ∷ ms)) ≡ done g.bytes) (sym ends) restores,
    )
