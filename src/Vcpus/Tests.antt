-- ===== src/Vcpus/Tests.antt =====
-- The rendezvous with two vCPUs.
use ignition.Base.{ℕ, [], ◌∷◌, ◌<◌, true, false, Option, none, some, ◌≡◌, refl, arith}
use ignition.Vcpus.{
  snapshot, wait1, Exit, back, error, Manager, already_running, frozen, unknown, claim,
  begin_rendezvous, request, collect, enter, wait, advance, run, ask, Steps, stop, step, start,
}
use ignition.Vcpus.Rendezvous.{inside, leads}
use ignition.Vcpus.Exclusive.{lead-parked, finished-blocks}

abbrev boot : Manager
boot = start 2 (0 ∷ 1 ∷ [])

or_boot : Option Manager → Manager
or_boot none = boot
or_boot (some m) = m

-- Thread `i` makes one step.
turn : ℕ → Exit → Manager → Manager
unfolding advance wait enter collect or_boot
turn i x m = or_boot (advance x i m (m.pc i))

asked : Manager → Manager
unfolding request begin_rendezvous or_boot
asked m = or_boot (request 2 snapshot m)

abbrev leading : Manager
leading = turn 1 back (turn 1 back (turn 0 back (turn 0 back (asked boot))))

boot-leading : Steps 2 boot leading
unfolding turn asked or_boot advance wait enter collect request begin_rendezvous
boot-leading =
    step
      (step
        (step (step (step stop (ask snapshot refl)) (run 0 back (omega arith) refl))
          (run 0 back (omega arith) refl))
        (run 1 back (omega arith) refl))
      (run 1 back (omega arith) refl)

lead-parked_example : (inside 1 (leading.pc 0) ≡ true) × (leads 1 (leading.pc 0) ≡ false)
unfolding turn asked or_boot advance wait enter collect request begin_rendezvous
lead-parked_example =
    lead-parked 2 (0 ∷ 1 ∷ []) leading 1 0 1 boot-leading (omega arith) refl (omega arith)
      (λ e. absurd (omega arith))

-- Thread 1 has left on an error of its vCPU, and thread 0 waits for it.
abbrev waiting : Manager
waiting = turn 0 back (turn 0 back (asked (turn 1 error (turn 1 back boot))))

boot-waiting : Steps 2 boot waiting
unfolding turn asked or_boot advance wait enter collect request begin_rendezvous
boot-waiting =
    step
      (step
        (step (step (step stop (run 1 back (omega arith) refl)) (run 1 error (omega arith) refl))
          (ask snapshot refl))
        (run 0 back (omega arith) refl))
      (run 0 back (omega arith) refl)

finished-blocks_example :
    (waiting.pc 0 ≡ wait1 1 0)
    × (waiting.rendezvous_active ≡ true)
    × ((k : ℕ) → k < 2 → leads 1 (waiting.pc k) ≡ false)
unfolding turn asked or_boot advance wait enter collect request begin_rendezvous
finished-blocks_example =
    finished-blocks 2 (0 ∷ 1 ∷ []) waiting waiting 0 1 boot-waiting (omega arith) refl refl refl
      stop

-- A bring-up is refused while the rendezvous is in flight.
claim_frozen : (claim waiting 0).0 ≡ frozen
unfolding claim turn asked or_boot advance wait enter collect request begin_rendezvous
claim_frozen = refl

claim_running : (claim boot 1).0 ≡ already_running
unfolding claim
claim_running = refl

claim_unknown : (claim boot 7).0 ≡ unknown
unfolding claim
claim_unknown = refl
