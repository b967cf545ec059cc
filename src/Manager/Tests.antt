-- ===== src/Manager/Tests.antt =====
-- A manager of two devices, and the theorems about it at concrete data.
use ignition.Base.{ℕ, ◌≤◌, ◌<◌, ◌≡◌, ◌⊎◌, refl, none, List, [], ◌∷◌, arith}
use ignition.Bus.{MmioDevice, virtio_mmio, window_exhausted, spi_exhausted, register, find_overlap}
use ignition.Manager.{
  Record, DeviceManager, DeviceRecord, ok, err, new, alloc, place, add, save, restore, restore_one,
  find_base,
}
use ignition.Manager.Alloc.{HasRoom, advance}
use ignition.Manager.Place.{IsReady, placed, add-cases, add-IsReady}
use ignition.Manager.Frozen.{save-restore}

-- A device that keeps the last offset written; state 99 is refused.
abbrev recorder : MmioDevice ℕ ℕ
recorder = record {
  bus_device = record { read = λ d base off block. (d, d ∷ []); write = λ d base off block. off };
  fdt_kind = λ d. virtio_mmio;
  snapshot_id = λ d. "recorder";
  save = λ d. d;
  restore = λ d s. (none, s);
}

abbrev empty : DeviceManager ℕ
empty = record {
  store = [];
  bus = [];
  resources = record { mmio_next = 0x1000; mmio_end = 0x3000; spi_next = 0; spi_end = 2 };
  records = [];
}

new-empty : new ℕ 0x1000 0x2000 0 2 ≡ empty
unfolding new
new-empty = refl

empty-IsReady : IsReady empty
empty-IsReady = record {
  valid = record { in_space = tt; apart = tt };
  clear = tt;
  handles = tt;
  spis = tt;
  ends = omega arith;
}

one : DeviceManager ℕ
one = (add recorder empty 0x1000 (λ irq. irq)).1

one-IsReady : IsReady one
unfolding one
one-IsReady = add-IsReady recorder empty 0x1000 (λ irq. irq) empty-IsReady (omega arith)

full_window : (add recorder empty 0x4000 (λ irq. irq)).0 ≡ err (window_exhausted 0x4000 0x2000)
unfolding add alloc
full_window = refl

first_place : (add recorder empty 0x1000 (λ irq. irq)).1.store ≡ 32 ∷ []
unfolding add alloc place register find_overlap
first_place = refl

add-cases_example :
    HasRoom empty.resources 0x1000
      × (add recorder empty 0x1000 (λ irq. irq) ≡ (
        ok 0,
        placed recorder
            (record empty { resources = advance empty.resources 0x1000 })
            0x1000
            0x1000
            0
            32,
      ))
    ⊎ (0x2000 < 0x1000)
      × (add recorder empty 0x1000 (λ irq. irq) ≡ (err (window_exhausted 0x1000 0x2000), empty))
    ⊎ (2 ≤ 0) × (add recorder empty 0x1000 (λ irq. irq) ≡ (err spi_exhausted, empty))
add-cases_example = add-cases recorder empty 0x1000 (λ irq. irq) empty-IsReady (omega arith)

add-IsReady_example : IsReady (add recorder empty 0x1000 (λ irq. irq)).1
add-IsReady_example = add-IsReady recorder empty 0x1000 (λ irq. irq) empty-IsReady (omega arith)

abbrev saved_device : DeviceRecord ℕ
saved_device = record {
  id = "recorder";
  base = 0x2000;
  size = 0x1000;
  spi = 1;
  fdt_kind = virtio_mmio;
  state = 7;
}

abbrev first_record : Record
first_record = record {
  id = "recorder";
  base = 0x1000;
  size = 0x1000;
  spi = 0;
  fdt_kind = virtio_mmio;
  dev = 0;
}

abbrev second_record : Record
second_record = record first_record { base = 0x2000; spi = 1; dev = 1 }

abbrev live : List Record
live = first_record ∷ second_record ∷ []

restored_in_place :
    restore recorder live (5 ∷ 6 ∷ []) (save recorder (1 ∷ 2 ∷ []) live) ≡ 1 ∷ 2 ∷ []
unfolding restore restore_one find_base save
restored_in_place = refl

save-restore_example :
    save recorder (restore recorder live (5 ∷ 6 ∷ []) (save recorder (1 ∷ 2 ∷ []) live)) live
    ≡ save recorder (1 ∷ 2 ∷ []) live
save-restore_example =
    save-restore recorder live (1 ∷ 2 ∷ []) (5 ∷ 6 ∷ [])
      ((((omega arith, omega arith), tt), (tt, tt)))
      (
        record { saved = 1; device = 5; was = refl; is = refl; takes_up = refl },
        (record { saved = 2; device = 6; was = refl; is = refl; takes_up = refl }, tt),
      )
