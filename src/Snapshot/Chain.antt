-- ===== src/Snapshot/Chain.antt =====
-- `resolve_chain` against the chains of layers that the manifests describe.
use ignition.Base.{
  ℕ, zero, suc, ◌+◌, ◌≤◌, ◌<◌, true, false, if◌then◌else◌, Option, none, some, List, [], ◌∷◌, ◌++◌,
  length, ◌≡◌, ◌≢◌, refl, sym, ap, ◌∙◌, subst, ◌⊎◌, inl, inr, Bool-cases, Option-cases, arith,
}
use mathlib.Core.List.{append_assoc}
use ignition.Snapshot.Names.{Name, same, same-eq}
use ignition.Snapshot.Files.{Dir, IoError, chain_cycle, missing_layer, Fs, dir_at, find_dir}
use ignition.Snapshot.Writer.{SnapshotManifest, Json, read_manifest}
use ignition.Snapshot.Restore.{
  mem, reverse, Resolved, resolved, rejected, resolve_from, resolve_chain,
}

-- The manifests from a layer down to its root, leaf first: `read` finds each, and each but the last
-- names the next as its parent.
pub data Chain (read : Name → Option SnapshotManifest) : Name → List SnapshotManifest → Type 0 where
  root :
      {n : Name} {m : SnapshotManifest} → read n ≡ some m → m.parent ≡ none → Chain read n (m ∷ [])
  layer :
      {n p : Name} {m : SnapshotManifest} {ms : List SnapshotManifest}
      → read n ≡ some m
      → m.parent ≡ some p
      → Chain read p ms
      → Chain read n (m ∷ ms)

-- A name has one chain at most.
pub Chain-unique :
    (read : Name → Option SnapshotManifest) (n : Name) (ms ks : List SnapshotManifest)
    → Chain read n ms
    → Chain read n ks
    → ms ≡ ks
Chain-unique read n _ _ (root {m = a} r e) (root {m = b} r' e') = let same : a ≡ b = cc in cc
Chain-unique read n _ _ (root {m = a} r e) (layer {m = b} r' e' c') = let same : a ≡ b = cc in cc
Chain-unique read n _ _ (layer {m = a} r e c) (root {m = b} r' e') = let same : a ≡ b = cc in cc
Chain-unique read n _ _ (layer {p = p} {m = a} {ms = ms} r e c)
      (layer {p = q} {m = b} {ms = ks} r' e' c') =
    let same : a ≡ b = cc in
    let next : p ≡ q = cc in
    let rest = Chain-unique read q ms ks (subst (λ x. Chain read x ms) next c) c' in cc

Chain-found :
    (read : Name → Option SnapshotManifest) (n : Name) (ms : List SnapshotManifest)
    → Chain read n ms
    → read n ≢ none
Chain-found read n _ (root r e) h = cc
Chain-found read n _ (layer r e c) h = cc

-- Below a layer stands the chain of its parent.
pub Chain-parent :
    (read : Name → Option SnapshotManifest) (n p : Name) (m : SnapshotManifest)
    (ms : List SnapshotManifest)
    → read n ≡ some m
    → m.parent ≡ some p
    → Chain read n ms
    → (ks : List SnapshotManifest) × Chain read p ks × (ms ≡ m ∷ ks)
Chain-parent read n p m _ r e (root {m = a} r' e') = let same : a ≡ m = cc in cc
Chain-parent read n p m _ r e (layer {p = q} {m = a} {ms = ks} r' e' c) =
    let same : a ≡ m = cc in let next : q ≡ p = cc in (ks, subst (λ x. Chain read x ks) next c, cc)

-- How many directories the walk has not seen.
unseen : List Name → List (Name × Dir) → ℕ
unseen seen [] = 0
unseen seen ((k, d) ∷ ds) = let rest = unseen seen ds in if mem k seen then rest else suc rest

unseen-le : (seen : List Name) (ds : List (Name × Dir)) → unseen seen ds ≤ length ds
unfolding unseen
unseen-le seen [] = omega arith
unseen-le seen ((k, d) ∷ ds) = ground (arith, unseen-le seen ds)

unseen-cons :
    (c : Name) (seen : List Name) (ds : List (Name × Dir)) → unseen (c ∷ seen) ds ≤ unseen seen ds
unfolding unseen mem
unseen-cons c seen [] = omega arith
unseen-cons c seen ((k, d) ∷ ds) = ground (arith, unseen-cons c seen ds)

-- Seeing a directory for the first time leaves fewer.
unseen-found :
    (c : Name) (seen : List Name) (ds : List (Name × Dir)) (d : Dir)
    → find_dir ds c ≡ some d
    → mem c seen ≡ false
    → unseen (c ∷ seen) ds < unseen seen ds
unfolding unseen mem find_dir
unseen-found c seen [] d f h = cc
unseen-found c seen ((k, d') ∷ ds) d f h = elim (Bool-cases (same k c)) [
  | inl e ↦
      let fresh : mem k seen ≡ false = subst (λ x. mem x seen ≡ false) (sym (same-eq k c e)) h in
      ground (arith, unseen-cons c seen ds)
  | inr e ↦ ground (arith, unseen-found c seen ds d)
]

-- What a walk from `cur` may return: the chain that is there, or an error where there is none.
abbrev pub Decided :
    (Name → Option SnapshotManifest) → Name → List SnapshotManifest → Resolved → Type 0
Decided read cur chain r =
    ((ms : List SnapshotManifest) × (r ≡ resolved (reverse (chain ++ ms))) × Chain read cur ms)
    ⊎ ((e : IoError) × (r ≡ rejected e) × ((ms : List SnapshotManifest) → ¬ Chain read cur ms))

module _ {J : Type 0} (json : Json J) (fs : Fs) where
  abbrev pub read : Name → Option SnapshotManifest
  read n = read_manifest json fs n

  read_manifest-dir :
      (n : Name) (m : SnapshotManifest) → read n ≡ some m → (d : Dir) × (dir_at fs n ≡ some d)
  unfolding read_manifest
  read_manifest-dir n m h = elim (Option-cases (dir_at fs n)) [ inl e ↦ cc | inr (d, e) ↦ (d, e) ]

  -- Each name seen stands above `cur`.
  Above : List Name → Name → Type 0
  Above seen cur =
      (n : Name)
      → mem n seen ≡ true
      → (ms : List SnapshotManifest) → Chain read cur ms
      → (ks : List SnapshotManifest) × Chain read n ks × (length ms < length ks)

  Above-step :
      (seen : List Name) (cur p : Name) (m : SnapshotManifest)
      → read cur ≡ some m
      → m.parent ≡ some p
      → Above seen cur
      → Above (cur ∷ seen) p
  unfolding Above mem
  Above-step seen cur p m r e above n h ms c =
      let here : Chain read cur (m ∷ ms) = layer r e c in
      elim (Bool-cases (same n cur)) [
        | inl this ↦ (
          m ∷ ms,
          subst (λ x. Chain read x (m ∷ ms)) (sym (same-eq n cur this)) here,
          omega arith,
        )
        | inr other ↦
            let (ks, k, longer) = above n (ground arith) (m ∷ ms) here in (ks, k, omega arith)
      ]

  none_below : {n : ℕ} → n < 0 → ⊥
  none_below h = omega arith

  resolve_from-decides :
      (fuel : ℕ) (seen : List Name) (chain : List SnapshotManifest) (cur : Name)
      → unseen seen fs.snapshots < fuel
      → Above seen cur
      → Decided read cur chain (resolve_from json fuel fs seen chain cur)
  unfolding resolve_from Above
  resolve_from-decides zero seen chain cur enough above = elim (none_below enough) [ ]
  resolve_from-decides (suc fuel) seen chain cur enough above = elim (Bool-cases (mem cur seen)) [
    | inl cycle ↦ inr (
      chain_cycle cur,
      rw (cycle) refl,
      λ ms c.
          let (ks, k, longer) = above cur cycle ms c in
          let e = ap (λ x. length x) (Chain-unique read cur ms ks c k) in omega arith,
    )
    | inr fresh ↦ elim (Option-cases (read cur)) [
      | inl missing ↦
          inr
            (missing_layer cur, rw (fresh, missing) refl, λ ms c. Chain-found read cur ms c missing)
      | inr (m, found) ↦
          let (d, at) = read_manifest-dir cur m found in
          let less = unseen-found cur seen fs.snapshots d at fresh in
          elim (Option-cases m.parent) [
            | inl e ↦ inl (m ∷ [], ground arith, root found e)
            | inr (p, e) ↦
                let run : resolve_from json (suc fuel) fs seen chain cur
                    ≡ resolve_from json fuel fs (cur ∷ seen) (chain ++ (m ∷ [])) p =
                  ground arith in
                let rest =
                  resolve_from-decides fuel (cur ∷ seen) (chain ++ (m ∷ [])) p (omega arith)
                    (Above-step seen cur p m found e above) in
                elim rest [
                  | inl (ms, r, c) ↦ inl (
                    m ∷ ms,
                    run ∙ r ∙ ap (λ x. resolved (reverse x)) (append_assoc chain (m ∷ []) ms),
                    layer found e c,
                  )
                  | inr (why, r, never) ↦ inr (
                    why,
                    run ∙ r,
                    λ ms c. let (ks, k, e') = Chain-parent read cur p m ms found e c in never ks k,
                  )
                ]
          ]
    ]
  ]

  -- `resolve_chain` always returns: the layers root..leaf if the manifests lead from the leaf to a
  -- root, and otherwise an error, so a missing layer and a cycle are both rejected.
  pub resolve_chain-decides :
      (leaf : Name)
      → ((ms : List SnapshotManifest) × (resolve_chain json fs leaf ≡ resolved (reverse ms))
          × Chain read leaf ms)
        ⊎ ((e : IoError) × (resolve_chain json fs leaf ≡ rejected e)
            × ((ms : List SnapshotManifest) → ¬ Chain read leaf ms))
  unfolding resolve_chain Above mem
  resolve_chain-decides leaf =
      resolve_from-decides (length fs.snapshots + 1) [] [] leaf
        (omega (arith, unseen-le [] fs.snapshots)) (λ n h. cc)

  -- A chain that is there is what `resolve_chain` returns.
  pub resolve_chain-Chain :
      (leaf : Name) (ms : List SnapshotManifest)
      → Chain read leaf ms
      → resolve_chain json fs leaf ≡ resolved (reverse ms)
  resolve_chain-Chain leaf ms c = elim (resolve_chain-decides leaf) [
    | inl (ks, r, k) ↦ r ∙ ap (λ x. resolved (reverse x)) (Chain-unique read leaf ks ms k c)
    | inr (e, r, never) ↦ elim (never ms c) [ ]
  ]
