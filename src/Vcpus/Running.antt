-- ===== src/Vcpus/Running.antt =====
-- Every step of the threads keeps the phases.
use ignition.Base.{ℕ, ◌+◌, ◌<◌, ==_iff, Bool, true, false, ◌≡◌, ◌≢◌, refl, arith, sym, ◌∙◌, ap}
use ignition.Vcpus.{
  Barrier, Pc, top, guest, finished, arrive1, lead, arrive2, wait1, wait2, Manager, put,
}
use ignition.Vcpus.Tally.{bit, tally-put, tally-apart}
use ignition.Vcpus.Rendezvous.{waits2, leads, inside, Place, Leading, Inv, put-each, put_same}

-- A thread enters the second wait while the leader is at work: the barrier stays shut.
abbrev pub entered2 : Manager → ℕ → Manager
entered2 m i =
    let c = m.snap_barrier in
    record m {
      barriers = put m.barriers c (record (m.barriers c) { count = (m.barriers c).count + 1 });
      pc = put m.pc i (wait2 c (m.barriers c).generation);
    }

-- While the leader is at work, one place at least is missing at the second wait.
pub leading-few :
    (n c : ℕ) (m : Manager) (i : ℕ)
    → i < n
    → m.pc i ≡ arrive2 c
    → Leading n c m
    → (m.barriers c).count + 1 < n
leading-few n c m i l at g =
    let p' : Pc = wait2 c 1 in
    let w = tally-put (waits2 c) n m.pc i p' l in
    let d = tally-put (leads c) n m.pc i p' l in
    let not_waits : waits2 c (m.pc i) ≡ false = rw (at) refl in
    let not_leads : leads c (m.pc i) ≡ false = rw (at) refl in
    let here : waits2 c p' ≡ true = (==_iff c c).1 refl in
    let both = tally-apart (waits2 c) (leads c) n (put m.pc i p') (apart c) in
    omega (arith, w, d, both, g.one, g.counted, ap bit not_waits, ap bit not_leads, ap bit here)
  where
    apart : (c : ℕ) (p : Pc) → waits2 c p ≡ true → leads c p ≡ false
    apart c _ h = ground arith

pub entered2-Inv :
    (n : ℕ) (m : Manager) (i : ℕ)
    → i < n
    → m.pc i ≡ arrive2 m.snap_barrier
    → m.rendezvous_active ≡ true
    → (m.barriers m.snap_barrier).generation ≢ 0
    → Inv n m
    → Inv n (entered2 m i)
entered2-Inv n m i l at a z v =
    let c = m.snap_barrier in
    let bar' : Barrier = record (m.barriers c) { count = (m.barriers c).count + 1 } in
    let made = put_same m.barriers c bar' in
    let g = v.leading a z in
    let p' : Pc = wait2 c (m.barriers c).generation in
    let not_waits : waits2 c (m.pc i) ≡ false = rw (at) refl in
    let not_leads : leads c (m.pc i) ≡ false = rw (at) refl in
    record {
      reqs = v.reqs;
      places = rw (made) (
          put-each (Place c (m.barriers c).generation m.rendezvous_active) n m.pc i p' v.places
            (omega arith));
      gather = λ e. absurd (z (ap (λ b. b.generation) (sym made) ∙ e));
      leading = λ a' z'. record {
        opened = ap (λ b. b.generation) made ∙ g.opened;
        size = ap (λ b. b.size) made ∙ g.size;
        parked =
            put-each (λ p. inside c p ≡ true) n m.pc i p' g.parked
              (ground (arith, ==_iff c c, g.opened, ==_iff (m.barriers c).generation 1));
        one = omega (arith, tally-put (leads c) n m.pc i p' l, g.one, ap bit not_leads);
        counted =
            ap (λ b. b.count) made
            ∙ omega (
              arith,
              tally-put (waits2 c) n m.pc i p' l,
              g.counted,
              ap bit not_waits,
              ap bit ((==_iff c c).1 refl),
            );
      };
    }

-- With no rendezvous in flight, nothing hangs on the current barrier once it has opened.
Place-off :
    (c g g' : ℕ) (active : Bool) (p : Pc)
    → active ≡ false
    → g ≢ 0
    → Place c g active p
    → Place c g' active p
Place-off c g g' active (arrive1 b) a z h = absurd (z h.1)
Place-off c g g' active (lead b) a z h = absurd (ground arith)
Place-off c g g' active top a z h = h
Place-off c g g' active guest a z h = h
Place-off c g g' active finished a z h = h
Place-off c g g' active (arrive2 b) a z h = h
Place-off c g g' active (wait1 b k) a z h = h
Place-off c g g' active (wait2 b k) a z h = h

pub idle-Inv :
    (n : ℕ) (m : Manager) (i : ℕ) (bar : Barrier) (q : Pc)
    → m.rendezvous_active ≡ false
    → (m.barriers m.snap_barrier).generation ≢ 0
    → bar.generation ≢ 0
    → Place m.snap_barrier bar.generation m.rendezvous_active q
    → Inv n m
    → Inv n (record m { barriers = put m.barriers m.snap_barrier bar; pc = put m.pc i q })
idle-Inv n m i bar q a z z' h v =
    let c = m.snap_barrier in
    let made = put_same m.barriers c bar in
    record {
      reqs = v.reqs;
      places = rw (made) (
          put-each (Place c bar.generation m.rendezvous_active) n m.pc i q
            (λ j k.
              Place-off c (m.barriers c).generation bar.generation m.rendezvous_active (m.pc j) a z
                (v.places j k))
            h);
      gather = λ e. absurd (z' (ap (λ b. b.generation) (sym made) ∙ e));
      leading = λ a' e. cc;
    }
