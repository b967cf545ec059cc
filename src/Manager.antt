-- ===== src/Manager.antt =====
-- crates/vmm/src/device_manager.rs: placing devices on the bus, with MMIO windows and interrupts
-- (SPIs) handed out in order, and saving and restoring the frozen set.
-- A device is built from its interrupt line, which is named here by its INTID; the interrupt
-- controller behind the line belongs to the hypervisor. The log lines are not modelled.
pub mod Alloc
pub mod Place
pub mod Frozen
mod Tests
use ignition.Base.{
  ℕ, ◌+◌, ◌-◌, ◌^◌, ◌%◌, max, ltb, leb, ◌==◌, if◌then◌else◌, Bool, true, false, Option, none, some,
  List, [], ◌∷◌, ◌++◌, get_elem?, set, length,
}
use Prim.Native.String.{String}
use ignition.Bus.{
  Bus, BusEntry, BusDevice, MmioDevice, FdtKind, ns16550a, virtio_mmio, pl031, ignition_fuzz,
  DeviceMgrError, window_exhausted, spi_exhausted, bus_overlap, BusError, register,
}

pub data Result (A : Type 0) : Type 0 where
  ok : A → Result A
  err : DeviceMgrError → Result A

pub record Resources : Type 0 where
  pub mmio_next : ℕ
  pub mmio_end : ℕ
  pub spi_next : ℕ
  pub spi_end : ℕ

-- `saturating_sub` is the subtraction of ℕ.
unfoldable pub alloc : Resources → ℕ → Result (ℕ × ℕ) × Resources
alloc r size =
    if ltb (r.mmio_end - r.mmio_next) size
    then (err (window_exhausted size (r.mmio_end - r.mmio_next)), r)
    else if leb r.spi_end r.spi_next
    then (err spi_exhausted, r)
    else (
      ok (r.mmio_next, r.spi_next),
      record r { mmio_next = r.mmio_next + size; spi_next = r.spi_next + 1 },
    )

-- One placed device; `dev` is a handle, as in the bus.
pub record Record : Type 0 where
  pub id : String
  pub base : ℕ
  pub size : ℕ
  pub spi : ℕ
  pub fdt_kind : FdtKind
  pub dev : ℕ

pub record DeviceRecord (J : Type 0) : Type 0 where
  pub id : String
  pub base : ℕ
  pub size : ℕ
  pub spi : ℕ
  pub fdt_kind : FdtKind
  pub state : J

pub record DeviceManager (D : Type 0) : Type 0 where
  pub store : List D
  pub bus : Bus
  pub resources : Resources
  pub records : List Record

unfoldable pub new : (D : Type 0) → ℕ → ℕ → ℕ → ℕ → DeviceManager D
new D mmio_base mmio_len spi_base spi_count = record {
  store = [];
  bus = [];
  resources = record {
    mmio_next = mmio_base;
    mmio_end = (mmio_base + mmio_len) % 2 ^ 64;
    spi_next = spi_base;
    spi_end = (spi_base + spi_count) % 2 ^ 32;
  };
  records = [];
}

-- The INTID of an SPI's line.
abbrev pub irq_for : ℕ → ℕ
irq_for spi = (spi + 32) % 2 ^ 32

pub data FdtDevice : Type 0 where
  serial virtio rtc : ℕ → ℕ → ℕ → FdtDevice

-- `none` is the panic on a device that is not placed this way.
unfoldable pub fdt_device : Record → Option FdtDevice
fdt_device r = elim r.fdt_kind [
  | ns16550a ↦ some (serial r.base r.size r.spi)
  | virtio_mmio ↦ some (virtio r.base r.size r.spi)
  | pl031 ↦ some (rtc r.base r.size r.spi)
  | ignition_fuzz ↦ none
]

unfoldable pub fdt_devices : List Record → Option (List FdtDevice)
fdt_devices [] = some []
fdt_devices (r ∷ rs) = elim (fdt_device r) [
  | none ↦ none
  | some d ↦ elim (fdt_devices rs) [ none ↦ none | some ds ↦ some (d ∷ ds) ]
]

module _ {D J : Type 0} (trait : MmioDevice D J) where
  -- The new device's handle is the place it takes in the store. The result is the `Err`, if any.
  unfoldable pub place : DeviceManager D → ℕ → ℕ → ℕ → D → Option DeviceMgrError × DeviceManager D
  place m base size spi dev =
      let handle = length m.store in
      let (overlap, bus) = register m.bus base size handle in
      elim overlap [
        | some e ↦ (some (bus_overlap e), m)
        | none ↦ (
          none,
          record m {
            store = m.store ++ (dev ∷ []);
            bus = bus;
            records =
                m.records
                ++ (record {
                  id = trait.snapshot_id dev;
                  base = base;
                  size = size;
                  spi = spi;
                  fdt_kind = trait.fdt_kind dev;
                  dev = handle;
                }
                    ∷ []);
          },
        )
      ]

  -- The typed handle that is returned is the new device's place in the store.
  unfoldable pub add : DeviceManager D → ℕ → (ℕ → D) → Result ℕ × DeviceManager D
  add m window_size build =
      let (got, r) = alloc m.resources window_size in
      let m1 : DeviceManager D = record m { resources = r } in
      elim got [
        | err e ↦ (err e, m1)
        | ok (base, spi) ↦
            let (failed, m2) = place m1 base window_size spi (build (irq_for spi)) in
            elim failed [ some e ↦ (err e, m2) | none ↦ (ok (length m.store), m2) ]
      ]

  unfoldable pub add_restored :
      DeviceManager D → DeviceRecord J → (ℕ → D) → Result ℕ × DeviceManager D
  add_restored m rec build =
      let (refused, dev) = trait.restore (build (irq_for rec.spi)) rec.state in
      elim refused [
        | some e ↦ (err e, m)
        | none ↦
            let (failed, m2) = place m rec.base rec.size rec.spi dev in
            elim failed [
              | some e ↦ (err e, m2)
              | none ↦ (
                ok (length m.store),
                record m2 {
                  resources = record m2.resources {
                    mmio_next = max m2.resources.mmio_next ((rec.base + rec.size) % 2 ^ 64);
                    spi_next = max m2.resources.spi_next ((rec.spi + 1) % 2 ^ 32);
                  };
                },
              )
            ]
      ]

  -- A plain bus device: it has a place in the store, and no record.
  unfoldable pub add_fixed : DeviceManager D → ℕ → ℕ → D → Option DeviceMgrError × DeviceManager D
  add_fixed m base len dev =
      let (overlap, bus) = register m.bus base len (length m.store) in
      elim overlap [
        | some e ↦ (some (bus_overlap e), m)
        | none ↦ (none, record m { store = m.store ++ (dev ∷ []); bus = bus })
      ]

  -- `FrozenDevices::save`; a handle always names a device.
  unfoldable pub save : List D → List Record → List (DeviceRecord J)
  save store [] = []
  save store (r ∷ rs) =
      let rest = save store rs in
      elim (get_elem? store r.dev) [
        | none ↦ rest
        | some d ↦
            record {
              id = r.id;
              base = r.base;
              size = r.size;
              spi = r.spi;
              fdt_kind = r.fdt_kind;
              state = trait.save d;
            }
            ∷ rest
      ]

  unfoldable pub find_base : List Record → ℕ → Option Record
  find_base [] base = none
  find_base (r ∷ rs) base = let rest = find_base rs base in if r.base == base then some r else rest

  -- One round of the loop in `FrozenDevices::restore`: a device that refuses its state keeps what
  -- `restore` left it with.
  unfoldable pub restore_one : List Record → List D → DeviceRecord J → List D
  restore_one live store rec = elim (find_base live rec.base) [
    | none ↦ store
    | some r ↦ elim (get_elem? store r.dev) [
      | none ↦ store
      | some d ↦ set store r.dev (trait.restore d rec.state).1
    ]
  ]

  -- `FrozenDevices::restore`.
  unfoldable pub restore : List Record → List D → List (DeviceRecord J) → List D
  restore live store [] = store
  restore live store (rec ∷ recs) = restore live (restore_one live store rec) recs
