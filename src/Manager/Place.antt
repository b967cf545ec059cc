-- ===== src/Manager/Place.antt =====
-- Adding devices: the manager's invariant, and what `add` and `add_restored` have placed.
use ignition.Base.{
  ℕ, ◌+◌, ◌-◌, ◌^◌, ◌%◌, max, ◌≤◌, ◌<◌, ◌≡◌, refl, ◌⊎◌, inl, inr, none, some, List, [], ◌∷◌, ◌++◌,
  length, arith, All, All-append, All-map, Option-cases, length-append,
}
use native.Mathlib.Decide.{dec_lt, dec_le}
use ignition.Bus.{
  BusEntry, MmioDevice, DeviceMgrError, window_exhausted, spi_exhausted, bus_overlap, write,
}
use ignition.Bus.Register.{
  AllDisjoint, IsValid, InSpace, register-accepted, IsValid-append, register-cases,
}
use ignition.Bus.Routing.{write-last}
use ignition.Manager.{
  Record, Resources, DeviceManager, DeviceRecord, ok, err, irq_for, place, add, add_restored,
}
use ignition.Manager.Alloc.{
  HasRoom, advance, alloc-room, alloc-no_window, alloc-no_spi, Clear, Clear-AllDisjoint, Clear-mono,
}

-- The record of a device that `place` puts at the end of the store.
abbrev pub record_of : {D J : Type 0} → MmioDevice D J → DeviceManager D → ℕ → ℕ → ℕ → D → Record
record_of trait m base size spi dev = record {
  id = trait.snapshot_id dev;
  base = base;
  size = size;
  spi = spi;
  fdt_kind = trait.fdt_kind dev;
  dev = length m.store;
}

-- The manager with one more device.
abbrev pub placed :
    {D J : Type 0} → MmioDevice D J → DeviceManager D → ℕ → ℕ → ℕ → D → DeviceManager D
placed trait m base size spi dev = record m {
  store = m.store ++ (dev ∷ []);
  bus = m.bus ++ (record { base = base; len = size; dev = length m.store } ∷ []);
  records = m.records ++ (record_of trait m base size spi dev ∷ []);
}

-- The ranges on the bus are apart and clear of the windows to come, their handles name devices,
-- every device has an interrupt below the next one, and the allocator does not wrap.
pub record IsReady {D : Type 0} (m : DeviceManager D) : Type 0 where
  pub valid : IsValid m.bus
  pub clear : All (Clear m.resources) m.bus
  pub handles : All (λ (e : BusEntry). e.dev < length m.store) m.bus
  pub spis : All (λ (r : Record). r.spi < m.resources.spi_next) m.records
  pub ends : m.resources.mmio_end < 2 ^ 64

module _ {D J : Type 0} (trait : MmioDevice D J) where
  place-placed :
      (m : DeviceManager D) (base size spi : ℕ) (dev : D)
      → IsValid m.bus
      → InSpace base size
      → AllDisjoint base size m.bus
      → place trait m base size spi dev ≡ (none, placed trait m base size spi dev)
  unfolding place
  place-placed m base size spi dev v s d =
      ground (arith, register-accepted m.bus base size (length m.store) v s d)

  place-refused :
      (m : DeviceManager D) (base size spi : ℕ) (dev : D) {e : DeviceMgrError}
      → (place trait m base size spi dev).0 ≡ some e
      → place trait m base size spi dev ≡ (some e, m)
  unfolding place
  place-refused m base size spi dev h = ground arith

  add-room :
      (m : DeviceManager D) (size : ℕ) (build : ℕ → D)
      → IsReady m
      → 0 < size
      → HasRoom m.resources size
      → let r = m.resources in
        add trait m size build ≡ (
          ok (length m.store),
          placed trait
              (record m { resources = advance r size })
              r.mmio_next
              size
              r.spi_next
              (build (irq_for r.spi_next)),
        )
  unfolding add
  add-room m size build k p room =
      let r = m.resources in
      let m1 = record m { resources = advance r size } in
      let apart = Clear-AllDisjoint r size m.bus p room.0 k.clear in
      let done =
        place-placed m1 r.mmio_next size r.spi_next (build (irq_for r.spi_next)) k.valid
          (ground (arith, k.ends)) apart in
      ground (arith, alloc-room r size room, done)

  -- On a ready manager `add` of a window that is not empty has three outcomes. With a window and an SPI left, the device, built
  -- on its interrupt, is placed at the next window. Without, the error says which has run out and
  -- nothing changes. It never meets a range that is taken.
  pub add-cases :
      (m : DeviceManager D) (size : ℕ) (build : ℕ → D)
      → IsReady m
      → 0 < size
      → let r = m.resources in
        HasRoom r size
          × (add trait m size build ≡ (
            ok (length m.store),
            placed trait
                (record m { resources = advance r size })
                r.mmio_next
                size
                r.spi_next
                (build (irq_for r.spi_next)),
          ))
        ⊎ (r.mmio_end - r.mmio_next < size)
          × (add trait m size build ≡ (err (window_exhausted size (r.mmio_end - r.mmio_next)), m))
        ⊎ (r.spi_end ≤ r.spi_next) × (add trait m size build ≡ (err spi_exhausted, m))
  unfolding add
  add-cases m size build k p =
      let r = m.resources in
      elim (dec_le size (r.mmio_end - r.mmio_next)) [
        | no big ↦ inr (inl (omega arith, ground (arith, alloc-no_window r size)))
        | yes fits ↦ elim (dec_lt r.spi_next r.spi_end) [
          | yes left ↦ inl ((fits, left), add-room m size build k p (fits, left))
          | no gone ↦ inr (inr (omega arith, ground (arith, alloc-no_spi r size)))
        ]
      ]

  placed-IsReady :
      (m : DeviceManager D) (r : Resources) (base size spi : ℕ) (dev : D)
      → IsReady m
      → InSpace base size
      → AllDisjoint base size m.bus
      → All (Clear r) m.bus
      → (base + size ≤ r.mmio_next) ⊎ (r.mmio_end ≤ base)
      → m.resources.spi_next ≤ r.spi_next
      → spi < r.spi_next
      → r.mmio_end < 2 ^ 64
      → IsReady (record (placed trait m base size spi dev) { resources = r })
  placed-IsReady m r base size spi dev k s d c mine grows below ends = record {
    valid = IsValid-append m.bus base size (length m.store) k.valid s d;
    clear = All-append (Clear r) m.bus _ c (mine, tt);
    handles =
        let old =
          All-map (λ (e : BusEntry). e.dev < length m.store)
            (λ (e : BusEntry). e.dev < length (m.store ++ (dev ∷ []))) m.bus
            (λ e h. omega (arith, length-append m.store (dev ∷ []))) k.handles in
        All-append (λ (e : BusEntry). e.dev < length (m.store ++ (dev ∷ []))) m.bus _ old
          (omega (arith, length-append m.store (dev ∷ [])), tt);
    spis =
        let old =
          All-map (λ (x : Record). x.spi < m.resources.spi_next)
            (λ (x : Record). x.spi < r.spi_next) m.records (λ x h. omega arith) k.spis in
        All-append (λ (x : Record). x.spi < r.spi_next) m.records _ old (below, tt);
    ends = ends;
  }

  -- Every call of `add` with a window that is not empty leaves a ready manager ready, whether the
  -- device was placed or refused.
  pub add-IsReady :
      (m : DeviceManager D) (size : ℕ) (build : ℕ → D)
      → IsReady m
      → 0 < size
      → IsReady (add trait m size build).1
  add-IsReady m size build k p =
      let r = m.resources in
      elim (add-cases m size build k p) [
        | inl (room, e) ↦
            let dev = build (irq_for r.spi_next) in
            rw e (
              placed-IsReady m (advance r size) r.mmio_next size r.spi_next dev k
                (ground (arith, k.ends)) (Clear-AllDisjoint r size m.bus p room.0 k.clear)
                (Clear-mono r (advance r size) m.bus (omega arith) refl k.clear) (inl (omega arith))
                (omega arith) (omega arith) k.ends)
        | inr (inl (_, e)) ↦ rw e k
        | inr (inr (_, e)) ↦ rw e k
      ]

  place-cases :
      (m : DeviceManager D) (base size spi : ℕ) (dev : D)
      → IsValid m.bus
      → InSpace base size
      → (AllDisjoint base size m.bus
          × (place trait m base size spi dev ≡ (none, placed trait m base size spi dev)))
        ⊎ ((e : DeviceMgrError) × (place trait m base size spi dev ≡ (some e, m)))
  unfolding place
  place-cases m base size spi dev v s = elim (register-cases m.bus base size (length m.store) v s) [
    | inl (d, e) ↦ inl (d, ground (arith, e))
    | inr (x, e) ↦ inr (bus_overlap x, ground (arith, e))
  ]

  -- The allocator behind a restored device: never in its window or at its interrupt.
  abbrev beyond : Resources → DeviceRecord J → Resources
  beyond r rec = record r {
    mmio_next = max r.mmio_next ((rec.base + rec.size) % 2 ^ 64);
    spi_next = max r.spi_next ((rec.spi + 1) % 2 ^ 32);
  }

  -- The three outcomes of `add_restored`: the state is refused, the window meets a taken range, or
  -- the device stands at its saved window and interrupt with the allocator behind them.
  add_restored-cases :
      (m : DeviceManager D) (rec : DeviceRecord J) (build : ℕ → D)
      → IsValid m.bus
      → InSpace rec.base rec.size
      → let (refused, dev) = trait.restore (build (irq_for rec.spi)) rec.state in
        ((e : DeviceMgrError) × (add_restored trait m rec build ≡ (err e, m)))
        ⊎ (refused ≡ none)
          × AllDisjoint rec.base rec.size m.bus
          × (add_restored trait m rec build ≡ (
            ok (length m.store),
            record (placed trait m rec.base rec.size rec.spi dev) {
              resources = beyond m.resources rec;
            },
          ))
  unfolding add_restored
  add_restored-cases m rec build v s =
      let (refused, dev) = trait.restore (build (irq_for rec.spi)) rec.state in
      elim (Option-cases refused) [
        | inr (x, e) ↦ inl (x, ground (arith, e))
        | inl e ↦ elim (place-cases m rec.base rec.size rec.spi dev v s) [
          | inr (x, p) ↦ inl (x, ground (arith, e, p))
          | inl (d, p) ↦ inr (e, d, ground (arith, e, p))
        ]
      ]

  -- `add_restored` leaves a ready manager ready, for a saved window and interrupt within their
  -- ranges, whether the state is refused, the window is taken or the device is placed.
  pub add_restored-IsReady :
      (m : DeviceManager D) (rec : DeviceRecord J) (build : ℕ → D)
      → IsReady m
      → InSpace rec.base rec.size
      → rec.spi + 1 < 2 ^ 32
      → IsReady (add_restored trait m rec build).1
  add_restored-IsReady m rec build k s b =
      let dev = (trait.restore (build (irq_for rec.spi)) rec.state).1 in
      let r = beyond m.resources rec in
      elim (add_restored-cases m rec build k.valid s) [
        | inl (x, e) ↦ rw e k
        | inr (_, d, e) ↦ rw e (
            placed-IsReady m r rec.base rec.size rec.spi dev k s d
              (Clear-mono m.resources r m.bus (omega arith) refl k.clear) (inl (omega arith))
              (omega arith) (omega arith) k.ends)
      ]

  -- A guest write into the window of a device that `add` has just placed reaches that device, and
  -- no other device changes.
  pub add-routed :
      (m : DeviceManager D) (size : ℕ) (build : ℕ → D) (addr : ℕ) (block : List ℕ)
      → IsReady m
      → 0 < size
      → HasRoom m.resources size
      → m.resources.mmio_next ≤ addr
      → addr < m.resources.mmio_next + size
      → let m' = (add trait m size build).1 in
        let off = addr - m.resources.mmio_next in
        let dev = build (irq_for m.resources.spi_next) in
        write trait.bus_device m'.bus m'.store addr block
        ≡ m.store ++ (trait.bus_device.write dev m.resources.mmio_next off block ∷ [])
  add-routed m size build addr block k p room lo hi =
      let r = m.resources in
      let dev = build (irq_for r.spi_next) in
      let e = add-room m size build k p room in
      let valid =
        IsValid-append m.bus r.mmio_next size (length m.store) k.valid (ground (arith, k.ends))
          (Clear-AllDisjoint r size m.bus p room.0 k.clear) in
      rw e
        (write-last trait.bus_device m.bus m.store dev r.mmio_next size addr block valid (lo, hi))
