-- ===== src/Mmio/Saved.antt =====
-- A transport's state survives a snapshot, and a snapshot of another shape is refused.
use ignition.Base.{
  ℕ, suc, ◌≡◌, ◌≢◌, refl, ap, ◌⊎◌, inl, inr, none, some, List, [], ◌∷◌, map, length, arith, All,
}
use Prim.Native.String.{String}
use ignition.Bus.{state_invalid}
use ignition.Queue.{set_indices, indices}
use ignition.Mmio.{VirtioDevice, VirtioMmio, QueueState, VirtioMmioState, programmed}
use ignition.Mmio.State.{
  save_queue, save_state, restore_queue, restore_queues, restore_state, restore,
}

-- A queue whose ring is the one that its registers describe: no driver has written them since it
-- set the queue ready.
abbrev pub IsCoherent : QueueState → Type 0
IsCoherent q =
    ((q.ready ≡ 0) × (q.vq ≡ none))
    ⊎ ((q.ready ≢ 0)
        × (last_avail : ℕ) × (used : ℕ) × (q.vq
            ≡ some (set_indices (programmed q) last_avail used)))

restore_queue-save_queue : (q : QueueState) → IsCoherent q → restore_queue (save_queue q) ≡ q
unfolding restore_queue set_indices indices
restore_queue-save_queue q (inl (idle, e)) = ground arith
restore_queue-save_queue q (inr (ready, last_avail, used, e)) = ground arith

restore_queues-save :
    (now qs : List QueueState)
    → length now ≡ length qs
    → All IsCoherent qs
    → restore_queues now (map save_queue qs) ≡ qs
unfolding restore_queues
restore_queues-save [] [] l c = refl
restore_queues-save [] (q ∷ qs) l c = absurd (omega arith)
restore_queues-save (x ∷ now) [] l c = absurd (omega arith)
restore_queues-save (x ∷ now) (q ∷ qs) l c =
    let rest = restore_queues-save now qs (omega arith) c.1 in
    cc (restore_queue-save_queue q c.0, rest)

length-map_save : (qs : List QueueState) → length (map save_queue qs) ≡ length qs
length-map_save [] = refl
length-map_save (q ∷ qs) = ap suc (length-map_save qs)

module _ {S J : Type 0} (trait : VirtioDevice S J) (mismatch : ℕ → ℕ → String)
    (m now : VirtioMmio S) where
  -- A transport whose rings are those that its registers describe comes back from a snapshot in any
  -- other transport with as many queues, if the device takes up what it has saved: the restore
  -- succeeds, the queues are the saved ones with their ring positions, and a second snapshot is
  -- the same as the first.
  pub restore-save_state :
      length now.queues ≡ length m.queues
      → All IsCoherent m.queues
      → (trait.restore now.dev (trait.save m.dev)).0 ≡ none
      → trait.save (trait.restore now.dev (trait.save m.dev)).1 ≡ trait.save m.dev
      → let (refused, back) = restore trait mismatch now (save_state trait m) in
        (refused ≡ none) × (back.queues ≡ m.queues) × (save_state trait back ≡ save_state trait m)
  unfolding restore restore_state save_state
  restore-save_state l c takes same =
      let queues = restore_queues-save now.queues m.queues l c in
      ground (arith, length-map_save m.queues, queues)

  -- A snapshot with another number of queues is refused and changes nothing.
  pub restore-mismatch :
      (s : VirtioMmioState J)
      → length s.queues ≢ length now.queues
      → restore trait mismatch now s
        ≡ (some (state_invalid now.id (mismatch (length s.queues) (length now.queues))), now)
  unfolding restore
  restore-mismatch s h = ground arith
