-- ===== src/Snapshot/Writer.antt =====
-- crates/vmm/src/snapshot.rs: the manifest and machine state of a snapshot, and the writer that
-- names it and chooses between a full snapshot and a diff. How serde lays values out as JSON is the
-- parameter `Json`. `J` is the saved state of a device.
use ignition.Base.{
  ℕ, ◌==◌, ◌&&◌, ◌||◌, Bool, false, not, if◌then◌else◌, Option, none, some, List, [], ◌∷◌, ◌≡◌,
}
use ignition.Manager.{DeviceRecord}
use ignition.Snapshot.{ok, err, write_diff_pages}
use ignition.Snapshot.Names.{Name, same, with_tmp}
use ignition.Snapshot.Files.{
  memory, gic, state, manifest, dirty_idx, overwrite_refused, tracking_required,
  unsupported_version, diff_error, IoResult, done, fail, Fs, Io, ◌>>=◌, ◌>>◌, ignore, dir_at,
  remove_dir_all, create_dir_all, set_file, write_file, rename, clonefile_or_copy,
}

pub record VmConfig : Type 0 where
  pub mem_size : ℕ
  pub vcpu_count : ℕ

pub data SnapshotType : Type 0 where
  full diff : SnapshotType

pub record SnapshotManifest : Type 0 where
  pub name : Name
  pub mem_size : ℕ
  pub vcpu_count : ℕ
  pub snapshot_type : SnapshotType
  pub parent : Option Name

abbrev pub new_full : Name → ℕ → ℕ → SnapshotManifest
new_full n size count = record {
  name = n;
  mem_size = size;
  vcpu_count = count;
  snapshot_type = full;
  parent = none;
}

abbrev pub new_diff : Name → Name → ℕ → ℕ → SnapshotManifest
new_diff n p size count = record {
  name = n;
  mem_size = size;
  vcpu_count = count;
  snapshot_type = diff;
  parent = some p;
}

-- The registers that the hypervisor saves for one vCPU, each with its number where it has one.
pub record VcpuState : Type 0 where
  pub gp : List ℕ
  pub sysregs : List (ℕ × ℕ)
  pub vtimer_mask : Bool
  pub vtimer_offset : ℕ
  pub simd : List ℕ
  pub fpcr : ℕ
  pub fpsr : ℕ
  pub icc : List (ℕ × ℕ)
  pub host_counter : ℕ

pub record VcpuCheckpoint : Type 0 where
  pub mpidr : ℕ
  pub state : VcpuState

pub record VmSnapshot (J : Type 0) : Type 0 where
  pub magic : Name
  pub version : ℕ
  pub config : VmConfig
  pub vcpus : List VcpuCheckpoint
  pub devices : List (DeviceRecord J)

-- The bytes of "ignition-snapshot-v3".
abbrev pub snap_magic : Name
snap_magic =
    105 ∷ 103 ∷ 110 ∷ 105 ∷ 116 ∷ 105 ∷ 111 ∷ 110 ∷ 45 ∷ 115 ∷ 110 ∷ 97 ∷ 112 ∷ 115 ∷ 104 ∷ 111
    ∷ 116 ∷ 45 ∷ 118 ∷ 51 ∷ []

abbrev pub snap_version : ℕ
snap_version = 3

abbrev pub new_snapshot :
    {J : Type 0} → VmConfig → List VcpuCheckpoint → List (DeviceRecord J) → VmSnapshot J
new_snapshot c vs ds = record {
  magic = snap_magic;
  version = snap_version;
  config = c;
  vcpus = vs;
  devices = ds;
}

unfoldable pub check_version : {J : Type 0} → VmSnapshot J → IoResult (Unit {0})
check_version s =
    if not (same s.magic snap_magic) || not (s.version == snap_version)
    then fail unsupported_version
    else done tt

-- `to_vec_pretty` and `from_slice` of serde_json.
pub record Json (J : Type 0) : Type 0 where
  pub manifest_to_vec : SnapshotManifest → List ℕ
  pub manifest_from_slice : List ℕ → Option SnapshotManifest
  pub state_to_vec : VmSnapshot J → List ℕ
  pub state_from_slice : List ℕ → Option (VmSnapshot J)

-- A manifest that is written is read back.
pub record LawfulJson {J : Type 0} (json : Json J) : Type 0 where
  pub manifest_back :
      (m : SnapshotManifest) → json.manifest_from_slice (json.manifest_to_vec m) ≡ some m

pub record SnapshotWriter : Type 0 where
  pub name : Name
  pub parent : Option Name
  pub restored_from : Option Name
  pub force : Bool

-- What one capture hands to the writer.
pub record Capture (J : Type 0) : Type 0 where
  pub snap : VmSnapshot J
  pub ram : List ℕ
  pub gic_blob : List ℕ
  pub disk_src : Option (List ℕ)

abbrev pub is_name : Option Name → Name → Bool
is_name none n = false
is_name (some k) n = same k n

-- The pages of a diff layer, written once they all lie in RAM; else `memory.bin` is left empty.
unfoldable pub write_diff_files : Name → List ℕ → List ℕ → Io (Unit {0})
write_diff_files n pages ram = elim (write_diff_pages pages ram) [
  | err e ↦ do set_file n memory []; λ fs. (fail (diff_error e), fs)
  | ok files ↦ do write_file n memory files.0; write_file n dirty_idx files.1
]

-- The last two calls of `write_snapshot` and of `write_diff_snapshot`: what stands at `dir` is
-- removed, and `tmp` takes its place.
unfoldable pub publish : Name → Name → Io (Unit {0})
publish tmp dir = do ignore (remove_dir_all dir); rename tmp dir

-- The name that a capture is written under.
unfoldable pub chosen : SnapshotWriter → Option Name → Name
chosen w none = w.name
chosen w (some given) = given

module _ {J : Type 0} (json : Json J) where
  unfoldable pub write_manifest : Name → SnapshotManifest → Io (Unit {0})
  write_manifest n m = write_file n manifest (json.manifest_to_vec m)

  unfoldable pub read_manifest : Fs → Name → Option SnapshotManifest
  read_manifest fs n = elim (dir_at fs n) [
    | none ↦ none
    | some d ↦ elim d.manifest_json [ none ↦ none | some bytes ↦ json.manifest_from_slice bytes ]
  ]

  -- `write_snapshot` up to the directory `tmp` that is not yet in place.
  unfoldable pub stage_full : Name → Capture J → Io (Unit {0})
  stage_full tmp c = do
    ignore (remove_dir_all tmp)
    create_dir_all tmp
    write_file tmp memory c.ram
    write_file tmp gic c.gic_blob
    clonefile_or_copy c.disk_src tmp
    write_file tmp state (json.state_to_vec c.snap)

  -- `write_diff_snapshot` up to the same point.
  unfoldable pub stage_diff : Name → Capture J → List ℕ → Io (Unit {0})
  stage_diff tmp c pages = do
    ignore (remove_dir_all tmp)
    create_dir_all tmp
    write_file tmp gic c.gic_blob
    clonefile_or_copy c.disk_src tmp
    write_file tmp state (json.state_to_vec c.snap)
    write_diff_files tmp pages c.ram

  unfoldable pub write_snapshot : Name → Capture J → Io (Unit {0})
  write_snapshot dir c = do stage_full (with_tmp dir) c; publish (with_tmp dir) dir

  unfoldable pub write_diff_snapshot : Name → Capture J → List ℕ → Io (Unit {0})
  write_diff_snapshot dir c pages = do stage_diff (with_tmp dir) c pages; publish (with_tmp dir) dir

  -- The match of `SnapshotWriter::write` on the parent.
  unfoldable pub write_layer :
      Option Name → Name → Capture J → Option (List ℕ) → Io SnapshotManifest
  write_layer none n c dirty = do
    write_snapshot n c
    λ fs. (done (new_full n c.snap.config.mem_size c.snap.config.vcpu_count), fs)
  write_layer (some p) n c none = λ fs. (fail tracking_required, fs)
  write_layer (some p) n c (some pages) = do
    write_diff_snapshot n c pages
    λ fs. (done (new_diff n p c.snap.config.mem_size c.snap.config.vcpu_count), fs)

  -- `SnapshotWriter::write` behind its guard, for the name chosen.
  unfoldable pub write_named : Option Name → Name → Capture J → Option (List ℕ) → Io (Unit {0})
  write_named parent n c dirty = do m ← write_layer parent n c dirty; write_manifest n m

  -- `SnapshotWriter::write`: the result, the writer afterwards and the directories.
  unfoldable pub write :
      SnapshotWriter
      → Option Name
      → Capture J
      → Option (List ℕ)
      → Fs
      → IoResult (Unit {0}) × SnapshotWriter × Fs
  write w requested c dirty fs =
      let n = chosen w requested in
      if not w.force && (is_name w.parent n || is_name w.restored_from n)
      then (fail overwrite_refused, w, fs)
      else let (r, fs') = write_named w.parent n c dirty fs in
        elim r [
          | fail e ↦ (fail e, w, fs')
          | done u ↦
              (done tt, elim dirty [ none ↦ w | some pages ↦ record w { parent = some n } ], fs')
        ]
