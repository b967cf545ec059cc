-- ===== src/Snapshot/Effects.antt =====
-- What the calls on directories leave alone, whatever the operating system answers.
use ignition.Base.{
  ℕ, false, if◌then◌else◌, Option, none, some, List, [], ◌∷◌, ◌≡◌, ◌≢◌, refl, sym, ◌∙◌, ap, ◌⊎◌,
  inl, inr, Bool-cases, arith,
}
use ignition.Snapshot.Names.{Name, same, same_refl, same-eq, same-ne}
use ignition.Snapshot.Files.{
  File, disk, Dir, IoError, IoResult, done, fail, Fs, Io, ◌>>=◌, ◌>>◌, ignore, find_dir, delete_dir,
  put_dir, dir_at, empty_dir, call, remove_dir_all, create_dir_all, set_file, write_file, rename,
  clonefile_or_copy,
}

pub find-delete_other :
    (ds : List (Name × Dir)) (k n : Name) → k ≢ n → find_dir (delete_dir ds k) n ≡ find_dir ds n
unfolding find_dir delete_dir
find-delete_other [] k n h = refl
find-delete_other ((c, d) ∷ ds) k n h = elim (Bool-cases (same c k)) [
  | inl e ↦
      let apart : same c n ≡ false = same-ne c n (λ e'. h (sym (same-eq c k e) ∙ e')) in
      rw (e, apart) (find-delete_other ds k n h)
  | inr e ↦ rw (e) (ap (λ r. if same c n then some d else r) (find-delete_other ds k n h))
]

pub find-delete_same : (ds : List (Name × Dir)) (k : Name) → find_dir (delete_dir ds k) k ≡ none
unfolding find_dir delete_dir
find-delete_same [] k = refl
find-delete_same ((c, d) ∷ ds) k = elim (Bool-cases (same c k)) [
  | inl e ↦ rw (e) (find-delete_same ds k)
  | inr e ↦ ground (arith, find-delete_same ds k)
]

pub find-put_same :
    (ds : List (Name × Dir)) (k : Name) (d : Dir) → find_dir (put_dir ds k d) k ≡ some d
unfolding find_dir
find-put_same ds k d = rw (same_refl k) refl

pub find-put_other :
    (ds : List (Name × Dir)) (k n : Name) (d : Dir)
    → k ≢ n
    → find_dir (put_dir ds k d) n ≡ find_dir ds n
unfolding find_dir
find-put_other ds k n d h = rw (same-ne k n h) (find-delete_other ds k n h)

-- The directory of `n` is the same after `io`.
unfoldable pub Keeps : {A : Type 0} → Name → Io A → Type 0
Keeps n io = (fs : Fs) → dir_at (io fs).1 n ≡ dir_at fs n

pub IoResult-cases :
    {A : Type 0} (r : IoResult A) → ((a : A) × (r ≡ done a)) ⊎ ((e : IoError) × (r ≡ fail e))
IoResult-cases (done a) = inl (a, refl)
IoResult-cases (fail e) = inr (e, refl)

pub >>=-Keeps :
    {A B : Type 0} (n : Name) (m : Io A) (k : A → Io B)
    → Keeps n m
    → ((a : A) → Keeps n (k a))
    → Keeps n (m >>= k)
unfolding Keeps
>>=-Keeps n m k hm hk fs = elim (IoResult-cases (m fs).0) [
  | inl (a, e) ↦ rw (◌>>=◌, e) (hk a (m fs).1 ∙ hm fs)
  | inr (why, e) ↦ rw (◌>>=◌, e) (hm fs)
]

pub >>-Keeps :
    {B : Type 0} (n : Name) (m : Io (Unit {0})) (k : Io B)
    → Keeps n m
    → Keeps n k
    → Keeps n (m >> k)
>>-Keeps n m k hm hk = >>=-Keeps n m (λ _. k) hm (λ _. hk)

pub ignore-Keeps : (n : Name) (m : Io (Unit {0})) → Keeps n m → Keeps n (ignore m)
unfolding Keeps
ignore-Keeps n m h fs = h fs

-- A call changes no directory.
pub call-snapshots : (fs : Fs) → (call fs).1.snapshots ≡ fs.snapshots
unfolding call
call-snapshots fs = ground arith

call-Keeps : (n : Name) → Keeps n call
unfolding Keeps
call-Keeps n fs = rw (call-snapshots fs) refl

pub remove_dir_all-Keeps : (k n : Name) → k ≢ n → Keeps n (remove_dir_all k)
unfolding remove_dir_all Keeps
remove_dir_all-Keeps k n h fs =
    ground (arith, call-snapshots fs, find-delete_other fs.snapshots k n h)

pub create_dir_all-Keeps : (k n : Name) → k ≢ n → Keeps n (create_dir_all k)
unfolding create_dir_all Keeps
create_dir_all-Keeps k n h fs =
    ground (arith, call-snapshots fs, find-put_other fs.snapshots k n empty_dir h)

pub set_file-Keeps : (k n : Name) (f : File) (bytes : List ℕ) → k ≢ n → Keeps n (set_file k f bytes)
unfolding set_file Keeps
set_file-Keeps k n f bytes h fs = grind (arith, call-snapshots, find-put_other)

pub rename-Keeps : (src dst n : Name) → src ≢ n → dst ≢ n → Keeps n (rename src dst)
unfolding rename Keeps
rename-Keeps src dst n h k fs = grind (arith, call-snapshots, find-put_other, find-delete_other)

pub write_file-Keeps :
    (k n : Name) (f : File) (bytes : List ℕ) → k ≢ n → Keeps n (write_file k f bytes)
unfolding write_file
write_file-Keeps k n f bytes h =
    >>-Keeps n (set_file k f []) (set_file k f bytes) (set_file-Keeps k n f [] h)
      (set_file-Keeps k n f bytes h)

pub clonefile_or_copy-Keeps :
    (src : Option (List ℕ)) (k n : Name) → k ≢ n → Keeps n (clonefile_or_copy src k)
unfolding clonefile_or_copy Keeps
clonefile_or_copy-Keeps none k n h fs = refl
clonefile_or_copy-Keeps (some bytes) k n h fs =
    let first = set_file-Keeps k n disk bytes h fs in
    let again = set_file-Keeps k n disk bytes h (set_file k disk bytes fs).1 in
    ground (arith, first, again)

pub return-Keeps : {A : Type 0} (n : Name) (r : IoResult A) → Keeps n (λ fs. (r, fs))
unfolding Keeps
return-Keeps n r fs = refl
