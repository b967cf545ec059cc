-- ===== src/Vcpus/Opening.antt =====
-- The two waits of a rendezvous and the leader between them keep the phases.
use ignition.Base.{
  ℕ, ◌+◌, ◌<◌, ◌==◌, ==_iff, Bool, true, false, ◌≡◌, ◌≢◌, refl, arith, inl, inr, Bool-cases, sym,
  ◌∙◌, ap, subst,
}
use ignition.Vcpus.{
  Barrier, Pc, top, guest, finished, arrive1, lead, arrive2, wait1, wait2, Manager, put, run_leader,
}
use ignition.Vcpus.Tally.{bit, tally, tally-put, tally-none, tally-full, tally-some}
use ignition.Vcpus.Rendezvous.{
  waits1, waits2, leads, past, inside, Place, Inv, put-each, put_same, put_other,
}

-- Another barrier than the current one changes.
pub elsewhere-Inv :
    (n : ℕ) (m : Manager) (b : ℕ) (bar : Barrier)
    → b ≢ m.snap_barrier
    → Inv n m
    → Inv n (record m { barriers = put m.barriers b bar })
elsewhere-Inv n m b bar h v =
    let same = put_other m.barriers b m.snap_barrier bar h in
    record {
      reqs = v.reqs;
      places = λ j l. rw (same) (v.places j l);
      gather = λ z.
          let g = v.gather (ap (λ x. x.generation) (sym same) ∙ z) in
          record {
            active = g.active;
            size = ap (λ x. x.size) same ∙ g.size;
            counted = ap (λ x. x.count) same ∙ g.counted;
            few = subst (λ x. x.count < n) (sym same) g.few;
            behind = g.behind;
          };
      leading = λ a z.
          let g = v.leading a (λ e. z (ap (λ x. x.generation) same ∙ e)) in
          record {
            opened = ap (λ x. x.generation) same ∙ g.opened;
            size = ap (λ x. x.size) same ∙ g.size;
            parked = g.parked;
            one = g.one;
            counted = ap (λ x. x.count) same ∙ g.counted;
          };
    }

-- Inside an open barrier and not leading, a thread's place does not depend on the rendezvous.
Place-calm :
    (c g : ℕ) (active : Bool) (p : Pc)
    → inside c p ≡ true
    → leads c p ≡ false
    → Place c g active p
    → Place c g false p
Place-calm c g active top i h p = cc
Place-calm c g active guest i h p = cc
Place-calm c g active finished i h p = cc
Place-calm c g active (arrive1 b) i h p = cc
Place-calm c g active (lead b) i h p = cc
Place-calm c g active (arrive2 b) i h p = p
Place-calm c g active (wait1 b k) i h p = p
Place-calm c g active (wait2 b k) i h p = p

-- The leader is done: another rendezvous may begin.
pub led-Inv :
    (n : ℕ) (m : Manager) (i b : ℕ)
    → i < n
    → m.pc i ≡ lead b
    → Inv n m
    → Inv n (record (run_leader m) { pc = put m.pc i (arrive2 b) })
unfolding run_leader
led-Inv n m i b l at v =
    let c = m.snap_barrier in
    let g = (m.barriers c).generation in
    let here : Place c g m.rendezvous_active (lead b) =
      subst (λ p. Place c g m.rendezvous_active p) at (v.places i l) in
    let led = v.leading here.1 here.2 in
    let pc' : ℕ → Pc = put m.pc i (arrive2 b) in
    let leads_there : leads c (m.pc i) ≡ true = rw (at) ((==_iff b c).1 here.0) in
    let none_leads : tally (leads c) n pc' ≡ 0 =
      omega (arith, tally-put (leads c) n m.pc i (arrive2 b) l, led.one, ap bit leads_there) in
    let parked =
      put-each (λ p. inside c p ≡ true) n m.pc i (arrive2 b) led.parked ((==_iff b c).1 here.0) in
    let places =
      put-each (Place c g m.rendezvous_active) n m.pc i (arrive2 b) v.places
        (omega (arith, here.0)) in
    record {
      reqs = λ k e. cc;
      places = λ j k. elim (Bool-cases (leads c (pc' j))) [
        | inl e ↦ absurd (omega (arith, tally-some (leads c) n pc' j k e))
        | inr e ↦ Place-calm c g m.rendezvous_active (pc' j) (parked j k) e (places j k)
      ];
      gather = λ z. absurd (here.2 z);
      leading = λ a z. cc;
    }

pub past-leads : (c : ℕ) (p : Pc) → past c p ≡ false → (leads c p ≡ false) × (waits2 c p ≡ false)
past-leads c _ h = ground arith

waits1-inside : (c : ℕ) (p : Pc) → waits1 c p ≡ true → inside c p ≡ true
waits1-inside c _ h = ground arith

-- A thread in the first wait is placed however often its barrier has opened.
Place-open :
    (c g g' : ℕ) (active : Bool) (p : Pc)
    → waits1 c p ≡ true
    → Place c g active p
    → Place c g' active p
Place-open c g g' active top w h = h
Place-open c g g' active guest w h = h
Place-open c g g' active finished w h = h
Place-open c g g' active (arrive1 b) w h = cc
Place-open c g g' active (lead b) w h = cc
Place-open c g g' active (arrive2 b) w h = h
Place-open c g g' active (wait1 b k) w h = h
Place-open c g g' active (wait2 b k) w h = h

ne-of : (i j : ℕ) → (i == j) ≡ false → i ≢ j
ne-of i j e z = absurd (ground (arith, ==_iff i j))

-- A thread in the first wait opens the barrier, and leads.
abbrev pub opened : Manager → ℕ → Manager
opened m i =
    let c = m.snap_barrier in
    record m {
      barriers =
          put m.barriers c
            (record (m.barriers c) { count = 0; generation = (m.barriers c).generation + 1 });
      pc = put m.pc i (lead c);
    }

pub opened-Inv :
    (n : ℕ) (m : Manager) (i : ℕ)
    → i < n
    → m.pc i ≡ arrive1 m.snap_barrier
    → (m.barriers m.snap_barrier).count + 1 ≡ n
    → Inv n m
    → Inv n (opened m i)
opened-Inv n m i l at last v =
    let c = m.snap_barrier in
    let bar' : Barrier = record (m.barriers c) {
      count = 0;
      generation = (m.barriers c).generation + 1;
    } in
    let made = put_same m.barriers c bar' in
    let here : Place c (m.barriers c).generation m.rendezvous_active (arrive1 c) =
      subst (λ p. Place c (m.barriers c).generation m.rendezvous_active p) at (v.places i l) in
    let g = v.gather here.1 in
    let p' : Pc = wait1 c 0 in
    let not_there : waits1 c (m.pc i) ≡ false = rw (at) refl in
    let full : tally (waits1 c) n (put m.pc i p') ≡ n = omega (
      arith,
      tally-put (waits1 c) n m.pc i p' l,
      g.counted,
      ap bit not_there,
      ap bit ((==_iff c c).1 refl),
    ) in
    let waiting : (j : ℕ) → j < n → i ≢ j → waits1 c (m.pc j) ≡ true = λ j k apart.
      subst (λ p. waits1 c p ≡ true) (put_other m.pc i j p' apart)
        (tally-full (waits1 c) n (put m.pc i p') j full k) in
    let no_leader : tally (leads c) n m.pc ≡ 0 =
      tally-none (leads c) n m.pc (λ j k. (past-leads c (m.pc j) (g.behind j k)).0) in
    let not_leading : leads c (m.pc i) ≡ false = (past-leads c (m.pc i) (g.behind i l)).0 in
    record {
      reqs = v.reqs;
      places = λ j k. elim (Bool-cases (i == j)) [
        | inl e ↦ rw (made, e) (refl, g.active, λ z. absurd (omega arith))
        | inr e ↦
            rw (made, e)
              (Place-open c _ _ _ (m.pc j) (waiting j k (λ z. ne-of i j e z)) (v.places j k))
      ];
      gather = λ z. absurd (omega (arith, ap (λ b. b.generation) made));
      leading = λ a z. record {
        opened = ap (λ b. b.generation) made ∙ omega (arith, here.1);
        size = ap (λ b. b.size) made ∙ g.size;
        parked = λ j k. elim (Bool-cases (i == j)) [
          | inl e ↦ rw (e) ((==_iff c c).1 refl)
          | inr e ↦ rw (e) (waits1-inside c (m.pc j) (waiting j k (λ z. ne-of i j e z)))
        ];
        one = omega (
          arith,
          tally-put (leads c) n m.pc i (lead c) l,
          no_leader,
          ap bit not_leading,
          ap bit ((==_iff c c).1 refl),
        );
        counted =
            ap (λ b. b.count) made
            ∙ sym (
                tally-none (waits2 c) n (put m.pc i (lead c)) (
                  put-each (λ p. waits2 c p ≡ false) n m.pc i (lead c)
                    (λ j k. (past-leads c (m.pc j) (g.behind j k)).1) refl));
      };
    }

-- A thread enters the first wait, and others are still to come.
abbrev pub entered1 : Manager → ℕ → Manager
entered1 m i =
    let c = m.snap_barrier in
    record m {
      barriers = put m.barriers c (record (m.barriers c) { count = (m.barriers c).count + 1 });
      pc = put m.pc i (wait1 c (m.barriers c).generation);
    }

pub entered1-Inv :
    (n : ℕ) (m : Manager) (i : ℕ)
    → i < n
    → m.pc i ≡ arrive1 m.snap_barrier
    → (m.barriers m.snap_barrier).count + 1 < n
    → Inv n m
    → Inv n (entered1 m i)
entered1-Inv n m i l at more v =
    let c = m.snap_barrier in
    let bar' : Barrier = record (m.barriers c) { count = (m.barriers c).count + 1 } in
    let made = put_same m.barriers c bar' in
    let here : Place c (m.barriers c).generation m.rendezvous_active (arrive1 c) =
      subst (λ p. Place c (m.barriers c).generation m.rendezvous_active p) at (v.places i l) in
    let g = v.gather here.1 in
    let p' : Pc = wait1 c (m.barriers c).generation in
    let not_there : waits1 c (m.pc i) ≡ false = rw (at) refl in
    let there : waits1 c p' ≡ true = (==_iff c c).1 refl in
    record {
      reqs = v.reqs;
      places = rw (made) (
          put-each (Place c (m.barriers c).generation m.rendezvous_active) n m.pc i p' v.places
            (omega arith, here.1));
      gather = λ z. record {
        active = g.active;
        size = ap (λ b. b.size) made ∙ g.size;
        counted =
            ap (λ b. b.count) made
            ∙ omega (
              arith,
              tally-put (waits1 c) n m.pc i p' l,
              g.counted,
              ap bit not_there,
              ap bit there,
            );
        few = subst (λ b. b.count < n) (sym made) more;
        behind = put-each (λ p. past c p ≡ false) n m.pc i p' g.behind refl;
      };
      leading = λ a z. absurd (z (ap (λ b. b.generation) made ∙ here.1));
    }
