-- ===== src/Snapshot/Overwrite.antt =====
-- Captures that replace a layer that stands already: an ancestor of the writer's parent, and a
-- replacement that stops half-way.
use ignition.Base.{
  ℕ, ◌≤◌, false, Option, none, some, List, ◌∷◌, length, ◌≡◌, ◌≢◌, refl, sym, ap, subst, ◌∙◌, inl,
  inr, arith, Bool-cases,
}
use ignition.Snapshot.{ok, write_diff_pages}
use ignition.Snapshot.Names.{Name, same, same_refl, same-eq, with_tmp}
use ignition.Snapshot.Files.{
  Dir, IoError, done, fail, os_error, Fs, call, dir_at, remove_dir_all, rename,
}
use ignition.Snapshot.Writer.{
  Json, LawfulJson, Capture, SnapshotManifest, SnapshotWriter, read_manifest, write_named, write,
  chosen, publish,
}
use ignition.Snapshot.Restore.{rejected, resolve_chain}
use ignition.Snapshot.Effects.{Keeps, find-delete_same}
use ignition.Snapshot.Frame.{write_named-Keeps}
use ignition.Snapshot.Published.{Gives}
use ignition.Snapshot.Success.{DiffDir, Written, write_named-diff, diff_manifest}
use ignition.Snapshot.Chain.{Chain, read, Chain-unique, Chain-parent, resolve_chain-decides}
use ignition.Snapshot.Recapture.{write-done, Written-read, read_manifest-same}

-- `n` is `x`, or a layer below it.
pub data Leads (read : Name → Option SnapshotManifest) (n : Name) : Name → Type 0 where
  here : Leads read n n
  up :
      {x y : Name} {m : SnapshotManifest}
      → read x ≡ some m
      → m.parent ≡ some y
      → Leads read n y
      → Leads read n x

-- Where the layers from `x` down to `n` read the same, a chain at `x` has a chain at `n` in it.
Chain-below :
    (f g : Name → Option SnapshotManifest) (n x : Name) (ks : List SnapshotManifest)
    → ((k : Name) (m : SnapshotManifest) → f k ≡ some m → k ≢ n → g k ≡ some m)
    → Leads f n x
    → Chain g x ks
    → (js : List SnapshotManifest) × Chain g n js × (length js ≤ length ks)
Chain-below f g n _ ks h here c = (ks, c, omega arith)
Chain-below f g n x ks h (up {y = y} {m = m} r e l) c = elim (Bool-cases (same x n)) [
  | inl this ↦ (ks, subst (λ z. Chain g z ks) (same-eq x n this) c, omega arith)
  | inr other ↦
      let apart : x ≢ n = λ z. cc (subst (λ y. same x y ≡ false) (sym z) other, same_refl x) in
      let (below, c', split) = Chain-parent g x y m ks (h x m r apart) e c in
      let (js, j, shorter) = Chain-below f g n y below h l c' in
      let size = ap (λ z. length z) split in (js, j, omega arith)
]

-- A name whose parent leads back to it has no chain.
Chain-cycle :
    (f g : Name → Option SnapshotManifest) (n p : Name) (m : SnapshotManifest)
    → ((k : Name) (m : SnapshotManifest) → f k ≡ some m → k ≢ n → g k ≡ some m)
    → Leads f n p
    → g n ≡ some m
    → m.parent ≡ some p
    → (ks : List SnapshotManifest) → ¬ Chain g n ks
Chain-cycle f g n p m h l r e ks c =
    let (below, c', split) = Chain-parent g n p m ks r e c in
    let (js, j, shorter) = Chain-below f g n p below h l c' in
    let size = ap (λ z. length z) split in
    let again = ap (λ z. length z) (Chain-unique g n js ks j c) in omega arith

none-some : {a : SnapshotManifest} → ◌≡◌ {A = Option SnapshotManifest} none (some a) → ⊥
none-some h = cc

read-none :
    {J : Type 0} (json : Json J) (fs : Fs) (n : Name) → dir_at fs n ≡ none → read json fs n ≡ none
unfolding read_manifest
read-none json fs n h = ground arith

-- The name of a capture is that of an ancestor of the writer's parent, which the guard lets pass
-- unless the ancestor is the parent itself or the layer restored from. Once the capture succeeds,
-- `resolve_chain` rejects the name and every layer that led down to it, the parent among them.
pub write-ancestor_lost :
    {J : Type 0} (json : Json J) (w : SnapshotWriter) (requested : Option Name) (c : Capture J)
    (pages : List ℕ) (files : List ℕ × List ℕ) (fs : Fs) (p leaf : Name)
    → LawfulJson json
    → w.parent ≡ some p
    → Leads (read json fs) (chosen w requested) p
    → Leads (read json fs) (chosen w requested) leaf
    → dir_at fs (with_tmp (chosen w requested)) ≡ none
    → chosen w requested ≢ with_tmp (chosen w requested)
    → write_diff_pages pages c.ram ≡ ok files
    → (write json w requested c (some pages) fs).0 ≡ done tt
    → (e : IoError) × (resolve_chain json (write json w requested c (some pages) fs).2 leaf
        ≡ rejected e)
unfolding Gives Keeps
write-ancestor_lost json w requested c pages files fs p leaf law parent leads from_leaf clear fresh
      packed success =
    let n = chosen w requested in
    let m = diff_manifest json c n p in
    let io = write_named json w.parent n c (some pages) in
    let (ran, ends, advanced) = write-done json w requested c pages fs success in
    let fs' = (io fs).1 in
    let there : Written json c n m (DiffDir json c files) fs' =
      subst
        (λ x.
          Gives (λ _. Unit) (write_named json x n c (some pages))
            (λ _. Written json c n m (DiffDir json c files)))
        (sym parent) (write_named-diff json c p n pages files fresh packed) fs tt tt ran in
    let (found, layer_there) = Written-read json c n m files fs' law there in
    let others : (k : Name) (a : SnapshotManifest)
        → read json fs k ≡ some a
        → k ≢ n
        → read json fs' k ≡ some a =
      λ k a r apart.
        let not_tmp : with_tmp n ≢ k = λ z.
          none-some (sym (subst (λ x. read json fs x ≡ none) z (read-none json fs _ clear)) ∙ r) in
        let kept =
          write_named-Keeps json k w.parent n c (some pages) not_tmp (λ z. apart (sym z)) fs in
        read_manifest-same json fs fs' k kept ∙ r in
    let lost = Chain-cycle (read json fs) (read json fs') n p m others leads found refl in
    elim (resolve_chain-decides json fs' leaf) [
      | inl (ms, r, chain) ↦
          let (js, j, shorter) =
            Chain-below (read json fs) (read json fs') n leaf ms others from_leaf chain in
          elim (lost js j) [ ]
      | inr (e, r, never) ↦ (e, subst (λ x. resolve_chain json x leaf ≡ rejected e) (sym ends) r)
    ]

-- `publish` is not atomic: when `rename` fails after the old directory was removed, no snapshot
-- stands under the name any more, although one stood there before.
pub publish-lost :
    (tmp dir : Name) (fs : Fs) (d : Dir) (errno : ℕ) (rest : List (Option ℕ))
    → dir_at fs dir ≡ some d
    → fs.os ≡ none ∷ some errno ∷ rest
    → ((publish tmp dir fs).0 ≡ fail (os_error errno)) × (dir_at (publish tmp dir fs).1 dir ≡ none)
unfolding publish remove_dir_all rename call
publish-lost tmp dir fs d errno rest there answers =
    ground (arith, find-delete_same fs.snapshots dir)
