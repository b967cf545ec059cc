-- ===== src/Snapshot/Published.antt =====
-- What stands in a snapshot's directory once its capture has succeeded.
use ignition.Base.{
  ℕ, Option, none, some, List, [], ◌≡◌, ◌≢◌, refl, sym, ap, subst, ◌∙◌, inl, inr, arith, Bool-cases,
  Option-cases,
}
use ignition.Snapshot.Names.{Name, same, same-eq}
use ignition.Snapshot.Files.{
  File, disk, Dir, IoError, IoResult, done, fail, Fs, Io, ◌>>=◌, ignore, call, dir_at, find_dir,
  put_file, empty_dir, remove_dir_all, create_dir_all, set_file, write_file, rename, cannot_clone,
  clonefile_or_copy,
}
use ignition.Snapshot.Writer.{publish}
use ignition.Snapshot.Effects.{
  Keeps, ignore-Keeps, remove_dir_all-Keeps, IoResult-cases, find-put_same, call-snapshots,
}

-- From a state with `P`, a run of `io` that succeeds with `a` ends in a state with `Q a`.
unfoldable pub Gives : {A : Type 0} → (Fs → Type 0) → Io A → (A → Fs → Type 0) → Type 0
Gives P io Q = (fs : Fs) → P fs → (a : _) → (io fs).0 ≡ done a → Q a (io fs).1

fail-done : {A : Type 0} {e : IoError} {a : A} → ◌≡◌ {A = IoResult A} (fail e) (done a) → ⊥
fail-done h = cc

pub >>=-Gives :
    {A B : Type 0} (P : Fs → Type 0) (m : Io A) (Q : A → Fs → Type 0) (k : A → Io B)
    (R : B → Fs → Type 0)
    → Gives P m Q
    → ((a : A) → Gives (Q a) (k a) R)
    → Gives P (m >>= k) R
unfolding Gives
>>=-Gives P m Q k R hm hk fs p b e = elim (IoResult-cases (m fs).0) [
  | inl (a, r) ↦
      let split : (m >>= k) fs ≡ k a (m fs).1 = rw (◌>>=◌, r) refl in
      subst (λ x. R b x.1) (sym split)
        (hk a (m fs).1 (hm fs p a r) b (ap (λ x. x.0) (sym split) ∙ e))
  | inr (why, r) ↦
      let split : (m >>= k) fs ≡ (fail why, (m fs).1) = rw (◌>>=◌, r) refl in
      elim (fail-done (ap (λ x. x.0) (sym split) ∙ e)) [ ]
]

-- A directory stands at `n`, with `P`.
abbrev pub Has : Name → (Dir → Type 0) → Fs → Type 0
Has n P fs = (d : Dir) × (dir_at fs n ≡ some d) × P d

pub set_file-Gives :
    (n : Name) (f : File) (bytes : List ℕ) (P Q : Dir → Type 0)
    → ((d : Dir) → P d → Q (put_file f bytes d))
    → Gives (Has n P) (set_file n f bytes) (λ _. Has n Q)
unfolding set_file Gives
set_file-Gives n f bytes P Q k fs (d, at, p) u e = (
  put_file f bytes d,
  ground (arith, call-snapshots fs, find-put_same (call fs).1.snapshots n (put_file f bytes d)),
  k d p,
)

pub write_file-Gives :
    (n : Name) (f : File) (bytes : List ℕ) (P Q : Dir → Type 0)
    → ((d : Dir) → P d → Q (put_file f bytes (put_file f [] d)))
    → Gives (Has n P) (write_file n f bytes) (λ _. Has n Q)
unfolding write_file
write_file-Gives n f bytes P Q k =
    >>=-Gives (Has n P) (set_file n f []) (λ _. Has n (λ d. Q (put_file f bytes d)))
      (λ _. set_file n f bytes) (λ _. Has n Q) (set_file-Gives n f [] P _ k)
      (λ _. set_file-Gives n f bytes _ Q (λ d q. q))

-- A call on a file that fails changes no directory.
set_file-fails :
    (n : Name) (f : File) (bytes : List ℕ) (fs : Fs) (e : IoError)
    → (set_file n f bytes fs).0 ≡ fail e
    → (set_file n f bytes fs).1.snapshots ≡ fs.snapshots
unfolding set_file
set_file-fails n f bytes fs e r = ground (arith, call-snapshots fs)

pub clonefile_or_copy-Gives :
    (src : Option (List ℕ)) (n : Name) (P Q : Dir → Type 0)
    → ((d : Dir) (bytes : List ℕ) → src ≡ some bytes → P d → Q (put_file disk bytes d))
    → Gives (Has n P) (clonefile_or_copy src n) (λ _. Has n Q)
unfolding clonefile_or_copy Gives
clonefile_or_copy-Gives none n P Q k fs h u e = cc
clonefile_or_copy-Gives (some bytes) n P Q k fs h u e =
    let one = set_file-Gives n disk bytes P Q (λ d p. k d bytes refl p) in
    elim (IoResult-cases (set_file n disk bytes fs).0) [
      | inl (v, r) ↦
          let same_dirs : dir_at (clonefile_or_copy (some bytes) n fs).1 n
              ≡ dir_at (set_file n disk bytes fs).1 n =
            rw (clonefile_or_copy, r) refl in
          let (d, at, q) = one fs h v r in (d, same_dirs ∙ at, q)
      | inr (why, r) ↦
          let (d, at, p) = h in
          let there : dir_at (set_file n disk bytes fs).1 n ≡ some d =
            ap (λ x. find_dir x n) (set_file-fails n disk bytes fs why r) ∙ at in
          elim (Bool-cases (cannot_clone why)) [
            | inl copy ↦
                let split : clonefile_or_copy (some bytes) n fs
                    ≡ set_file n disk bytes (set_file n disk bytes fs).1 =
                  rw (clonefile_or_copy, r, copy) refl in
                subst (λ x. Has n Q x.1) (sym split)
                  (one (set_file n disk bytes fs).1 (d, there, p) u (ap (λ x. x.0) (sym split) ∙ e))
            | inr refused ↦
                let split : clonefile_or_copy (some bytes) n fs
                    ≡ (fail why, (set_file n disk bytes fs).1) =
                  rw (clonefile_or_copy, r, refused) refl in
                elim (fail-done (ap (λ x. x.0) (sym split) ∙ e)) [ ]
          ]
    ]

pub create_dir_all-Gives :
    (n : Name) → Gives (λ _. Unit) (create_dir_all n) (λ _. Has n (λ _. Unit))
unfolding create_dir_all Gives
create_dir_all-Gives n fs p u e = elim (Option-cases (dir_at fs n)) [
  | inl none_there ↦ (
    empty_dir,
    ground (arith, call-snapshots fs, find-put_same (call fs).1.snapshots n empty_dir),
    tt,
  )
  | inr (d, there) ↦ (d, ground (arith, call-snapshots fs), tt)
]

rename-Gives :
    (src dst : Name) (P : Dir → Type 0) → Gives (Has src P) (rename src dst) (λ _. Has dst P)
unfolding rename Gives
rename-Gives src dst P fs (d, at, p) u e = elim (Bool-cases (same src dst)) [
  | inl s ↦ (d, ground (arith, call-snapshots fs, same-eq src dst), p)
  | inr apart ↦ (d, grind (arith, call-snapshots, find-put_same), p)
]

pub kept-Gives :
    (n k : Name) (P : Dir → Type 0)
    → k ≢ n
    → Gives (Has n P) (ignore (remove_dir_all k)) (λ _. Has n P)
unfolding Gives Keeps
kept-Gives n k P h fs (d, at, p) u e =
    (d, ignore-Keeps n (remove_dir_all k) (remove_dir_all-Keeps k n h) fs ∙ at, p)

pub publish-Gives :
    (tmp dir : Name) (P : Dir → Type 0)
    → dir ≢ tmp
    → Gives (Has tmp P) (publish tmp dir) (λ _. Has dir P)
unfolding publish
publish-Gives tmp dir P h =
    >>=-Gives (Has tmp P) (ignore (remove_dir_all dir)) (λ _. Has tmp P) (λ _. rename tmp dir)
      (λ _. Has dir P) (kept-Gives tmp dir P h) (λ _. rename-Gives tmp dir P)
