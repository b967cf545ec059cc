-- ===== src/Queue/Buffers.antt =====
-- crates/devices/src/virtio/queue.rs: the buffers of a chain, as the devices fill and read them.
use ignition.Base.{ℕ, ◌+◌, ◌≤◌, ◌⊎◌, List, [], ◌∷◌}
use ignition.Queue.{Desc}

-- The bytes of two descriptors do not overlap.
abbrev pub Apart : Desc → Desc → Type 0
Apart d e = (d.addr + d.len ≤ e.addr) ⊎ (e.addr + e.len ≤ d.addr)

abbrev pub total : List Desc → ℕ
total [] = 0
total (d ∷ ds) = d.len + total ds
