-- ===== src/Snapshot/Files.antt =====
-- crates/vmm/src/snapshot.rs, the directories under `snapshots` and the calls that change them.
-- A fallible call asks `os` for its outcome: the next answer, an errno or none; past the end of
-- the list every call succeeds. A file that `write_all` leaves unfinished is empty here.
use ignition.Base.{ℕ, ◌==◌, ◌||◌, Bool, false, if◌then◌else◌, Option, none, some, List, [], ◌∷◌}
use ignition.Snapshot.Names.{Name, same}
use ignition.Snapshot.{Error}

-- The files of a snapshot, as `paths` and `write_diff_pages` name them.
pub data File : Type 0 where
  memory gic disk state manifest dirty_idx : File

pub record Dir : Type 0 where
  pub memory_bin : Option (List ℕ)
  pub gic_bin : Option (List ℕ)
  pub disk_img : Option (List ℕ)
  pub vmstate_json : Option (List ℕ)
  pub manifest_json : Option (List ℕ)
  pub dirty_idx_bin : Option (List ℕ)

abbrev pub empty_dir : Dir
empty_dir = record {
  memory_bin = none;
  gic_bin = none;
  disk_img = none;
  vmstate_json = none;
  manifest_json = none;
  dirty_idx_bin = none;
}

abbrev pub put_file : File → List ℕ → Dir → Dir
put_file memory bytes d = record d { memory_bin = some bytes }
put_file gic bytes d = record d { gic_bin = some bytes }
put_file disk bytes d = record d { disk_img = some bytes }
put_file state bytes d = record d { vmstate_json = some bytes }
put_file manifest bytes d = record d { manifest_json = some bytes }
put_file dirty_idx bytes d = record d { dirty_idx_bin = some bytes }

pub data IoError : Type 0 where
  os_error : ℕ → IoError
  not_found not_empty : IoError
  overwrite_refused tracking_required : IoError
  unsupported_version bad_json : IoError
  chain_cycle missing_layer : Name → IoError
  root_not_full layer_not_diff layer_mem_size : Name → IoError
  leaf_mem_size root_length : IoError
  diff_error : Error → IoError

pub data IoResult (A : Type 0) : Type 0 where
  done : A → IoResult A
  fail : IoError → IoResult A

pub record Fs : Type 0 where
  pub snapshots : List (Name × Dir)
  pub os : List (Option ℕ)

abbrev pub Io : Type 0 → Type 0
Io A = Fs → IoResult A × Fs

infixl 5 ◌>>=◌ ◌>>◌
abbrev pub ◌>>=◌ : {A B : Type 0} → Io A → (A → Io B) → Io B
◌>>=◌ m f fs = let (r, fs') = m fs in elim r [ done a ↦ f a fs' | fail e ↦ (fail e, fs') ]

abbrev pub ◌>>◌ : {B : Type 0} → Io (Unit {0}) → Io B → Io B
m >> k = m >>= λ _. k

-- `let _ = m`.
abbrev pub ignore : Io (Unit {0}) → Io (Unit {0})
ignore m fs = (done tt, (m fs).1)

unfoldable pub find_dir : List (Name × Dir) → Name → Option Dir
find_dir [] n = none
find_dir ((k, d) ∷ ds) n = let rest = find_dir ds n in if same k n then some d else rest

unfoldable pub delete_dir : List (Name × Dir) → Name → List (Name × Dir)
delete_dir [] n = []
delete_dir ((k, d) ∷ ds) n = let rest = delete_dir ds n in if same k n then rest else (k, d) ∷ rest

abbrev pub put_dir : List (Name × Dir) → Name → Dir → List (Name × Dir)
put_dir ds n d = (n, d) ∷ delete_dir ds n

abbrev pub dir_at : Fs → Name → Option Dir
dir_at fs n = find_dir fs.snapshots n

-- The outcome of the next call.
unfoldable pub call : Io (Unit {0})
call fs = elim fs.os [
  | [] ↦ (done tt, fs)
  | a ∷ rest ↦
      let fs' = record fs { os = rest } in
      elim a [ none ↦ (done tt, fs') | some errno ↦ (fail (os_error errno), fs') ]
]

-- `fs::remove_dir_all`, on a directory that it can remove whole or not at all.
unfoldable pub remove_dir_all : Name → Io (Unit {0})
remove_dir_all n = do
  call
  λ fs. elim (dir_at fs n) [
    | none ↦ (fail not_found, fs)
    | some d ↦ (done tt, record fs { snapshots = delete_dir fs.snapshots n })
  ]

unfoldable pub create_dir_all : Name → Io (Unit {0})
create_dir_all n = do
  call
  λ fs. elim (dir_at fs n) [
    | none ↦ (done tt, record fs { snapshots = put_dir fs.snapshots n empty_dir })
    | some d ↦ (done tt, fs)
  ]

-- One call on a file: its contents become `bytes`.
unfoldable pub set_file : Name → File → List ℕ → Io (Unit {0})
set_file n f bytes = do
  call
  λ fs. elim (dir_at fs n) [
    | none ↦ (fail not_found, fs)
    | some d ↦ (done tt, record fs { snapshots = put_dir fs.snapshots n (put_file f bytes d) })
  ]

-- `File::create` and `write_all`, and `fs::write`.
unfoldable pub write_file : Name → File → List ℕ → Io (Unit {0})
write_file n f bytes = do set_file n f []; set_file n f bytes

-- `fs::rename`. A directory that stands at `dst` holds files, which the system refuses to replace.
unfoldable pub rename : Name → Name → Io (Unit {0})
rename src dst = do
  call
  λ fs. elim (dir_at fs src) [
    | none ↦ (fail not_found, fs)
    | some d ↦ if same src dst then (done tt, fs) else elim (dir_at fs dst) [
      | some there ↦ (fail not_empty, fs)
      | none ↦ (done tt, record fs { snapshots = put_dir (delete_dir fs.snapshots src) dst d })
    ]
  ]

-- ENOTSUP, EXDEV and ENOSYS: the file system cannot clone.
unfoldable pub cannot_clone : IoError → Bool
cannot_clone (os_error errno) = errno == 45 || errno == 18 || errno == 78
cannot_clone _ = false

-- `clonefile_or_copy` of the disk, a file outside the store with the contents `src`.
unfoldable pub clonefile_or_copy : Option (List ℕ) → Name → Io (Unit {0})
clonefile_or_copy none n fs = (fail not_found, fs)
clonefile_or_copy (some bytes) n fs =
    let (r, fs') = set_file n disk bytes fs in
    let copied = set_file n disk bytes fs' in
    elim r [ done u ↦ (done u, fs') | fail e ↦ if cannot_clone e then copied else (fail e, fs') ]
