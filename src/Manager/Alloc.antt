-- ===== src/Manager/Alloc.antt =====
-- The windows and SPIs that the manager hands out, and what it keeps of them as devices are added.
use ignition.Base.{ℕ, ◌+◌, ◌-◌, ◌≤◌, ◌<◌, ◌≡◌, ◌⊎◌, [], ◌∷◌, arith, All, All-map}
use ignition.Bus.{Bus, BusEntry, window_exhausted, spi_exhausted}
use ignition.Bus.Register.{AllDisjoint}
use ignition.Manager.{Resources, ok, err, alloc}

-- There is a window of `size` bytes and an SPI left.
abbrev pub HasRoom : Resources → ℕ → Type 0
HasRoom r size = (size ≤ r.mmio_end - r.mmio_next) × (r.spi_next < r.spi_end)

-- The resources after one more window and SPI.
abbrev pub advance : Resources → ℕ → Resources
advance r size = record r { mmio_next = r.mmio_next + size; spi_next = r.spi_next + 1 }

pub alloc-room :
    (r : Resources) (size : ℕ)
    → HasRoom r size
    → alloc r size ≡ (ok (r.mmio_next, r.spi_next), advance r size)
unfolding alloc
alloc-room r size h = ground arith

pub alloc-no_window :
    (r : Resources) (size : ℕ)
    → r.mmio_end - r.mmio_next < size
    → alloc r size ≡ (err (window_exhausted size (r.mmio_end - r.mmio_next)), r)
unfolding alloc
alloc-no_window r size h = ground arith

pub alloc-no_spi :
    (r : Resources) (size : ℕ)
    → size ≤ r.mmio_end - r.mmio_next
    → r.spi_end ≤ r.spi_next
    → alloc r size ≡ (err spi_exhausted, r)
unfolding alloc
alloc-no_spi r size h k = ground arith

-- A range that no later window can meet: it ends before the next one, or starts behind the last.
abbrev pub Clear : Resources → BusEntry → Type 0
Clear r e = (e.base + e.len ≤ r.mmio_next) ⊎ (r.mmio_end ≤ e.base)

-- So the next window lies apart from all of them.
pub Clear-AllDisjoint :
    (r : Resources) (size : ℕ) (bus : Bus)
    → 0 < size
    → size ≤ r.mmio_end - r.mmio_next
    → All (Clear r) bus
    → AllDisjoint r.mmio_next size bus
Clear-AllDisjoint r size [] p h c = tt
Clear-AllDisjoint r size (e ∷ bus) p h c = (omega arith, Clear-AllDisjoint r size bus p h c.1)

-- Clear ranges stay clear when the allocator moves on.
pub Clear-mono :
    (r s : Resources) (bus : Bus)
    → r.mmio_next ≤ s.mmio_next
    → s.mmio_end ≡ r.mmio_end
    → All (Clear r) bus
    → All (Clear s) bus
Clear-mono r s bus h k c = All-map (Clear r) (Clear s) bus (λ e old. omega arith) c
