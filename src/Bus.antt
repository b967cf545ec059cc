-- ===== src/Bus.antt =====
-- crates/devices/src/bus.rs and the trait and error types of crates/devices/src/device.rs: the MMIO
-- bus, which routes a guest access to the device whose range holds the address.
-- Devices are shared behind `Arc<Mutex<…>>`: a handle is an index into a store of device states,
-- and a call locks, runs and unlocks in one step.
pub mod Register
pub mod Routing
mod Tests
use ignition.Base.{
  ℕ, ◌+◌, ◌-◌, ◌^◌, min, ltb, leb, ◌&&◌, not, if◌then◌else◌, Bool, true, false, Option, none, some,
  List, [], ◌∷◌, ◌++◌, get_elem?, set,
}
use Prim.Native.String.{String}

-- The trait `BusDevice`: `base`, `offset` and the bytes of the access.
pub record BusDevice (D : Type 0) : Type 0 where
  pub read : D → ℕ → ℕ → List ℕ → D × List ℕ
  pub write : D → ℕ → ℕ → List ℕ → D

pub data FdtKind : Type 0 where
  ns16550a virtio_mmio pl031 ignition_fuzz : FdtKind

-- `Overlap` with `base`, `len`, `existing_base` and `existing_len`.
pub data BusError : Type 0 where
  overlap : ℕ → ℕ → ℕ → ℕ → BusError

pub data DeviceMgrError : Type 0 where
  window_exhausted : ℕ → ℕ → DeviceMgrError
  spi_exhausted : DeviceMgrError
  bus_overlap : BusError → DeviceMgrError
  unknown_device_id : String → DeviceMgrError
  state_invalid : String → String → DeviceMgrError

-- The trait `MmioDevice`, whose saved states are values of `J` (JSON in the source).
pub record MmioDevice (D J : Type 0) : Type 0 where
  pub bus_device : BusDevice D
  pub fdt_kind : D → FdtKind
  pub snapshot_id : D → String
  pub save : D → J
  pub restore : D → J → Option DeviceMgrError × D

-- `(base, len, device)`.
pub record BusEntry : Type 0 where
  pub base : ℕ
  pub len : ℕ
  pub dev : ℕ

abbrev pub Bus : Type 0
Bus = List BusEntry

-- `u64::saturating_add`.
abbrev pub saturating_add : ℕ → ℕ → ℕ
saturating_add a b = min (a + b) (2 ^ 64 - 1)

-- The test of `register` for one registered range.
abbrev pub overlaps : ℕ → ℕ → BusEntry → Bool
overlaps base len e = ltb base (saturating_add e.base e.len) && ltb e.base (saturating_add base len)

unfoldable pub find_overlap : ℕ → ℕ → Bus → Option BusEntry
find_overlap base len [] = none
find_overlap base len (e ∷ bus) =
    let rest = find_overlap base len bus in if overlaps base len e then some e else rest

unfoldable pub register : Bus → ℕ → ℕ → ℕ → Option BusError × Bus
register bus base len dev = elim (find_overlap base len bus) [
  | some e ↦ (some (overlap base len e.base e.len), bus)
  | none ↦ (none, bus ++ (record { base = base; len = len; dev = dev } ∷ []))
]

-- `addr.checked_sub(base).is_some_and(|off| off < len)`.
abbrev pub holds : BusEntry → ℕ → Bool
holds e addr = leb e.base addr && ltb (addr - e.base) e.len

unfoldable pub find : Bus → ℕ → Option BusEntry
find [] addr = none
find (e ∷ bus) addr = let rest = find bus addr in if holds e addr then some e else rest

module _ {D : Type 0} (trait : BusDevice D) where
  -- A miss leaves the store and the data alone.
  unfoldable pub read : Bus → List D → ℕ → List ℕ → List D × List ℕ
  read bus store addr data' = elim (find bus addr) [
    | none ↦ (store, data')
    | some e ↦ elim (get_elem? store e.dev) [
      | none ↦ (store, data')
      | some d ↦
          let (d', out) = trait.read d e.base (addr - e.base) data' in (set store e.dev d', out)
    ]
  ]

  unfoldable pub write : Bus → List D → ℕ → List ℕ → List D
  write bus store addr data' = elim (find bus addr) [
    | none ↦ store
    | some e ↦ elim (get_elem? store e.dev) [
      | none ↦ store
      | some d ↦ set store e.dev (trait.write d e.base (addr - e.base) data')
    ]
  ]
