-- ===== src/Snapshot/Works.antt =====
-- Calls on the directories that succeed, because every call of the operating system does.
use ignition.Base.{
  ℕ, none, some, List, [], ◌≡◌, ◌≢◌, refl, sym, ap, ◌∙◌, inl, inr, arith, Option-cases,
}
use ignition.Snapshot.Names.{Name, same-ne}
use ignition.Snapshot.Files.{
  File, disk, Dir, done, Fs, Io, ◌>>=◌, ◌>>◌, ignore, call, dir_at, remove_dir_all, create_dir_all,
  set_file, write_file, rename, clonefile_or_copy,
}
use ignition.Snapshot.Writer.{publish}
use ignition.Snapshot.Effects.{Keeps, remove_dir_all-Keeps, find-delete_same}
use ignition.Snapshot.Published.{
  Gives, Has, set_file-Gives, write_file-Gives, clonefile_or_copy-Gives, create_dir_all-Gives,
}

-- From a state with `P` whose calls all succeed, `io` succeeds, and so do the calls after it.
unfoldable pub Works : {A : Type 0} → (Fs → Type 0) → Io A → Type 0
Works P io = (fs : Fs) → P fs → fs.os ≡ [] → ((a : _) × ((io fs).0 ≡ done a)) × ((io fs).1.os ≡ [])

pub >>=-Works :
    {A B : Type 0} (P : Fs → Type 0) (m : Io A) (Q : A → Fs → Type 0) (k : A → Io B)
    → Works P m
    → Gives P m Q
    → ((a : A) → Works (Q a) (k a))
    → Works P (m >>= k)
unfolding Works Gives
>>=-Works P m Q k hm gm hk fs p e =
    let ((a, r), e') = hm fs p e in
    let split : (m >>= k) fs ≡ k a (m fs).1 = rw (◌>>=◌, r) refl in
    let ((b, r'), e'') = hk a (m fs).1 (gm fs p a r) e' in
    ((b, ap (λ x. x.0) split ∙ r'), ap (λ x. x.1.os) split ∙ e'')

set_file-Works :
    (n : Name) (f : File) (bytes : List ℕ) (P : Dir → Type 0) → Works (Has n P) (set_file n f bytes)
unfolding Works set_file call
set_file-Works n f bytes P fs (d, at, p) e = ((tt, ground arith), ground arith)

pub write_file-Works :
    (n : Name) (f : File) (bytes : List ℕ) (P : Dir → Type 0)
    → Works (Has n P) (write_file n f bytes)
unfolding write_file
write_file-Works n f bytes P =
    >>=-Works (Has n P) (set_file n f []) (λ _. Has n (λ _. Unit)) (λ _. set_file n f bytes)
      (set_file-Works n f [] P) (set_file-Gives n f [] P _ (λ d p. tt))
      (λ _. set_file-Works n f bytes _)

pub clonefile_or_copy-Works :
    (bytes : List ℕ) (n : Name) (P : Dir → Type 0)
    → Works (Has n P) (clonefile_or_copy (some bytes) n)
unfolding Works clonefile_or_copy
clonefile_or_copy-Works bytes n P fs h e =
    let ((a, r), e') = set_file-Works n disk bytes P fs h e in ((tt, ground arith), ground arith)

create_dir_all-Works : (n : Name) → Works (λ _. Unit) (create_dir_all n)
unfolding Works create_dir_all call
create_dir_all-Works n fs p e = elim (Option-cases (dir_at fs n)) [
  | inl r ↦ ((tt, ground arith), ground arith)
  | inr (d, r) ↦ ((tt, ground arith), ground arith)
]

ignore-Works : (n : Name) (P : Fs → Type 0) → Works P (ignore (remove_dir_all n))
unfolding Works remove_dir_all call
ignore-Works n P fs p e = elim (Option-cases (dir_at fs n)) [
  | inl r ↦ ((tt, refl), ground arith)
  | inr (d, r) ↦ ((tt, refl), ground arith)
]

pub removed :
    (n : Name) (fs : Fs)
    → fs.os ≡ []
    → (dir_at (remove_dir_all n fs).1 n ≡ none) × ((remove_dir_all n fs).1.os ≡ [])
unfolding remove_dir_all call
removed n fs e = elim (Option-cases (dir_at fs n)) [
  | inl r ↦ (ground arith, ground arith)
  | inr (d, r) ↦ (ground (arith, find-delete_same fs.snapshots n), ground arith)
]

rename-Works :
    (src dst : Name) (fs : Fs) (d : Dir)
    → src ≢ dst
    → dir_at fs src ≡ some d
    → dir_at fs dst ≡ none
    → fs.os ≡ []
    → ((a : _) × ((rename src dst fs).0 ≡ done a)) × ((rename src dst fs).1.os ≡ [])
unfolding rename call
rename-Works src dst fs d h at free e =
    let apart = same-ne src dst h in ((tt, ground arith), ground arith)

pub publish-Works :
    (tmp dir : Name) (P : Dir → Type 0) → dir ≢ tmp → Works (Has tmp P) (publish tmp dir)
unfolding Works publish Keeps
publish-Works tmp dir P h fs (d, at, p) e =
    let (free, e') = removed dir fs e in
    let kept = remove_dir_all-Keeps dir tmp h fs in
    rename-Works tmp dir (remove_dir_all dir fs).1 d (λ z. h (sym z)) (kept ∙ at) free e'

pub return-Works : {A : Type 0} (P : Fs → Type 0) (a : A) → Works P (λ fs. (done a, fs))
unfolding Works
return-Works P a fs p e = ((a, refl), e)

-- Two steps that work, the first giving what the second starts from.
abbrev pub after :
    {B : Type 0} (P : Fs → Type 0) (m : Io (Unit {0})) (Q : Fs → Type 0) (k : Io B)
    → Works P m
    → Gives P m (λ _. Q)
    → Works Q k
    → Works P (m >> k)
after P m Q k hm gm hk = >>=-Works P m (λ _. Q) (λ _. k) hm gm (λ _. hk)

abbrev pub Anything : Dir → Type 0
Anything d = Unit

-- The file is written, and the directory is still there.
abbrev pub file :
    {B : Type 0} (n : Name) (f : File) (bytes : List ℕ) (k : Io B)
    → Works (Has n Anything) k
    → Works (Has n Anything) (write_file n f bytes >> k)
file n f bytes k hk =
    after (Has n Anything) (write_file n f bytes) (Has n Anything) k
      (write_file-Works n f bytes Anything)
      (write_file-Gives n f bytes Anything Anything (λ d p. tt)) hk

-- The directory is cleared and made.
pub fresh_dir :
    {B : Type 0} (n : Name) (k : Io B)
    → Works (Has n Anything) k
    → Works (λ _. Unit) (ignore (remove_dir_all n) >> (create_dir_all n >> k))
unfolding Gives
fresh_dir n k hk =
    after (λ _. Unit) (ignore (remove_dir_all n)) (λ _. Unit) (create_dir_all n >> k)
      (ignore-Works n (λ _. Unit)) (λ fs p a e. tt)
      (after (λ _. Unit) (create_dir_all n) (Has n Anything) k (create_dir_all-Works n)
        (create_dir_all-Gives n) hk)

abbrev pub cloned :
    {B : Type 0} (n : Name) (bytes : List ℕ) (k : Io B)
    → Works (Has n Anything) k
    → Works (Has n Anything) (clonefile_or_copy (some bytes) n >> k)
cloned n bytes k hk =
    after (Has n Anything) (clonefile_or_copy (some bytes) n) (Has n Anything) k
      (clonefile_or_copy-Works bytes n Anything)
      (clonefile_or_copy-Gives (some bytes) n Anything Anything (λ d b e p. tt)) hk
