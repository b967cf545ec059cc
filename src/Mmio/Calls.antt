-- ===== src/Mmio/Calls.antt =====
-- The calls that change a transport, as steps, and what holds after any sequence of them.
use ignition.Base.{
  ℕ, Bool, true, false, ◌≡◌, refl, Option, some, List, [], ◌∷◌, Option-cases, Bool-cases, inl, inr,
  arith, leb, ◌==◌, length, subst, All, All-replicate, if-both,
}
use Prim.Native.String.{String}
use ignition.Ram.{GuestRam}
use ignition.Mmio.{
  VirtioDevice, VirtioMmio, VirtioMmioState, QueueState, QueueSnapshot, InputEvent, default,
  ready_vq, finish, new, signal_config_change,
}
use ignition.Mmio.State.{restore_queue, restore_queues, restore_state, restore}
use ignition.Mmio.Regs.{
  inject_rx, inject_input, poll_vsock_rx, net_set_link, display_set_mode, display_set_enabled,
  write,
}
use ignition.Mmio.Line.{
  IsConsistent, IsBuilt, finish-IsConsistent, signal-IsConsistent, write_reg-IsConsistent,
}

with_dev :
    {S : Type 0} {r : Bool} (m : VirtioMmio S) (dev : S)
    → IsConsistent r m
    → IsConsistent r (record m { dev = dev })
with_dev m dev k = record { line = k.line; built = k.built }

restore_queue-IsBuilt : (snap : QueueSnapshot) → IsBuilt (restore_queue snap)
unfolding restore_queue
restore_queue-IsBuilt snap = elim (Bool-cases (snap.ready == 0)) [
  | inl e ↦ rw (restore_queue, e) (inl (ground arith, refl))
  | inr e ↦ rw (restore_queue, e) (inr (ground arith, _, refl))
]

restore_queues-IsBuilt :
    (qs : List QueueState) (snaps : List QueueSnapshot)
    → All IsBuilt qs
    → All IsBuilt (restore_queues qs snaps)
unfolding restore_queues
restore_queues-IsBuilt [] snaps k = k
restore_queues-IsBuilt (q ∷ qs) [] k = k
restore_queues-IsBuilt (q ∷ qs) (snap ∷ snaps) k =
    (restore_queue-IsBuilt snap, restore_queues-IsBuilt qs snaps k.1)

module _ {S J : Type 0} (trait : VirtioDevice S J) where
  -- One call of the guest or of a host thread, the restore apart. `vsock_accept_control` hands the
  -- device a host's stream, which is not modelled: the device may change in any way. The guest also
  -- writes its memory itself.
  pub data Step (m : VirtioMmio S) : VirtioMmio S → Type 0 where
    guest_write :
        (off : ℕ) (block : List ℕ) {m' : VirtioMmio S}
        → write trait m off block ≡ some m'
        → Step m m'
    memory : (mem : GuestRam) → Step m (record m { mem = mem })
    frame : (bytes : List ℕ) → Step m (inject_rx trait m bytes).1
    input : (events : List InputEvent) → Step m (inject_input trait m events).1
    poll :
        {delivered : Bool} {m' : VirtioMmio S}
        → poll_vsock_rx trait m ≡ some (delivered, m')
        → Step m m'
    accept : (dev : S) → Step m (record m { dev = dev })
    config_change : Step m (signal_config_change m)
    link : (up : Bool) → Step m (net_set_link trait m up)
    mode : (w h : ℕ) → Step m (display_set_mode trait m w h)
    enabled : (en : Bool) → Step m (display_set_enabled trait m en)

  -- Sequences of calls, and whether one of them restored a snapshot's state.
  pub data Reach (m : VirtioMmio S) : Bool → VirtioMmio S → Type 0 where
    here : Reach m false m
    next : {r : Bool} {n o : VirtioMmio S} → Reach m r n → Step n o → Reach m r o
    restored :
        {r : Bool} {n : VirtioMmio S} (mismatch : ℕ → ℕ → String) (s : VirtioMmioState J)
        → Reach m r n
        → Reach m true (restore trait mismatch n s).1

  write-IsConsistent :
      {r : Bool} (m : VirtioMmio S) (off : ℕ) (block : List ℕ) {m' : VirtioMmio S}
      → write trait m off block ≡ some m'
      → IsConsistent r m
      → IsConsistent r m'
  unfolding write
  write-IsConsistent {r} m off block {m'} h k =
      let P = λ (o : Option (VirtioMmio S)). (o ≡ some m') → IsConsistent r m' in
      let at = λ (x : VirtioMmio S) (c : IsConsistent r x) (e : some x ≡ some m').
        let same : x ≡ m' = cc in subst (IsConsistent r) same c in
      if-both P (leb 0x100 off) (at _ (with_dev m _ k))
        (if-both P (length block == 4) (λ e. write_reg-IsConsistent trait m off _ e k) (at m k)) h

  inject_rx-IsConsistent :
      {r : Bool} (m : VirtioMmio S) (bytes : List ℕ)
      → IsConsistent r m
      → IsConsistent r (inject_rx trait m bytes).1
  unfolding inject_rx
  inject_rx-IsConsistent {r} m bytes k = elim (Option-cases (ready_vq m 0)) [
    | inl e ↦ rw (e, inject_rx) k
    | inr (vq, e) ↦ rw (e, inject_rx) (finish-IsConsistent m 0 vq _ e k)
  ]

  inject_input-IsConsistent :
      {r : Bool} (m : VirtioMmio S) (events : List InputEvent)
      → IsConsistent r m
      → IsConsistent r (inject_input trait m events).1
  unfolding inject_input
  inject_input-IsConsistent {r} m events k = elim (Option-cases (ready_vq m 0)) [
    | inl e ↦ rw (e, inject_input) k
    | inr (vq, e) ↦ rw (e, inject_input) (finish-IsConsistent m 0 vq _ e k)
  ]

  poll-IsConsistent :
      {r : Bool} (m : VirtioMmio S) {delivered : Bool} {m' : VirtioMmio S}
      → poll_vsock_rx trait m ≡ some (delivered, m')
      → IsConsistent r m
      → IsConsistent r m'
  unfolding poll_vsock_rx
  poll-IsConsistent {r} m {delivered} {m'} h k = elim (Option-cases (ready_vq m 0)) [
    | inl e ↦ let same : m ≡ m' = ground arith in subst (IsConsistent r) same k
    | inr (vq, e) ↦ elim (Option-cases (trait.fill_rx m.dev vq m.mem)) [
      | inl stuck ↦ absurd (ground arith)
      | inr (out, o) ↦
          let same : (finish m 0 out).1 ≡ m' = ground arith in
          subst (IsConsistent r) same (finish-IsConsistent m 0 vq out e k)
    ]
  ]

  Step-IsConsistent :
      {r : Bool} {m m' : VirtioMmio S} → Step m m' → IsConsistent r m → IsConsistent r m'
  unfolding net_set_link display_set_mode display_set_enabled
  Step-IsConsistent {r} {m} (guest_write off block e) k = write-IsConsistent m off block e k
  Step-IsConsistent {r} {m} (memory mem) k = record { line = k.line; built = k.built }
  Step-IsConsistent {r} {m} (frame bytes) k = inject_rx-IsConsistent m bytes k
  Step-IsConsistent {r} {m} (input events) k = inject_input-IsConsistent m events k
  Step-IsConsistent {r} {m} (poll e) k = poll-IsConsistent m e k
  Step-IsConsistent {r} {m} (accept dev) k = with_dev m dev k
  Step-IsConsistent {r} {m} config_change k = signal-IsConsistent m k
  Step-IsConsistent {r} {m} (link up) k = signal-IsConsistent _ (with_dev m _ k)
  Step-IsConsistent {r} {m} (mode w h) k =
      let new_mode = with_dev m (trait.set_display_mode m.dev w h).1 k in
      if-both (IsConsistent r) _ (signal-IsConsistent _ new_mode) new_mode
  Step-IsConsistent {r} {m} (enabled en) k =
      let toggled = with_dev m (trait.set_display_enabled m.dev en).1 k in
      if-both (IsConsistent r) _ (signal-IsConsistent _ toggled) toggled

  restore-IsConsistent :
      {r : Bool} (mismatch : ℕ → ℕ → String) (m : VirtioMmio S) (s : VirtioMmioState J)
      → IsConsistent r m
      → IsConsistent true (restore trait mismatch m s).1
  unfolding restore restore_state
  restore-IsConsistent mismatch m s k =
      let back = restore_queues-IsBuilt m.queues s.queues k.built in
      elim (Bool-cases (length s.queues == length m.queues)) [
        | inl e ↦ elim (Option-cases (trait.restore m.dev s.dev).0) [
          | inl t ↦ rw (restore, e, t) (record { line = inl refl; built = back })
          | inr (why, t) ↦ rw (restore, e, t) (record { line = inl refl; built = back })
        ]
        | inr e ↦ rw (restore, e) (record { line = inl refl; built = k.built })
      ]

  -- From a new transport on, after any sequence of guest writes, frames, input events, host calls
  -- and restores, a queue has a ring exactly while it is ready; and if no snapshot's state was
  -- restored, the interrupt line is high exactly while an interrupt is pending. (A restore takes up
  -- the pending interrupt and leaves the line.)
  pub Reach-IsConsistent :
      (id : String) (dev : S) (mem : GuestRam) {r : Bool} {m : VirtioMmio S}
      → Reach (new trait id dev mem) r m
      → IsConsistent r m
  unfolding new
  Reach-IsConsistent id dev mem here = record {
    line = inr refl;
    built = All-replicate IsBuilt (trait.queue_count dev) default (inl (refl, refl));
  }
  Reach-IsConsistent id dev mem (next p s) = Step-IsConsistent s (Reach-IsConsistent id dev mem p)
  Reach-IsConsistent id dev mem (restored {n = n} mismatch s p) =
      restore-IsConsistent mismatch n s (Reach-IsConsistent id dev mem p)
