-- ===== src/Vcpus/Waits.antt =====
-- The waits of a thread, at the current barrier and at older ones, keep the phases.
use ignition.Base.{
  ℕ, List, ◌+◌, ◌≤◌, ◌<◌, ◌==◌, ==_iff, Bool, true, false, Option, none, some, ◌≡◌, ◌≢◌, refl,
  arith, inl, inr, Bool-cases, ◌⊎◌, sym, ◌∙◌, ap, subst,
}
use native.Mathlib.Decide.{dec_lt, ℕ_discrete}
use ignition.Vcpus.{
  Barrier, Pc, top, arrive1, lead, arrive2, wait1, wait2, Manager, put, enter, wait,
}
use ignition.Vcpus.Rendezvous.{waits1, past, inside, Place, Inv, moved, moved-Inv}
use ignition.Vcpus.Opening.{elsewhere-Inv, opened-Inv, entered1-Inv}
use ignition.Vcpus.Running.{entered2-Inv, leading-few, idle-Inv}

-- The two results of a wait.
wait_shut :
    (m : Manager) (i b : ℕ) (p : Pc) (f : ℕ → Pc)
    → (m.barriers b).count + 1 < (m.barriers b).size
    → wait m i b p f ≡ record m {
      barriers = put m.barriers b (record (m.barriers b) { count = (m.barriers b).count + 1 });
      pc = put m.pc i (f (m.barriers b).generation);
    }
unfolding wait enter
wait_shut m i b p f h = ground arith

wait_opens :
    (m : Manager) (i b : ℕ) (p : Pc) (f : ℕ → Pc)
    → (m.barriers b).size ≤ (m.barriers b).count + 1
    → wait m i b p f ≡ record m {
      barriers =
          put m.barriers b
            (record (m.barriers b) { count = 0; generation = (m.barriers b).generation + 1 });
      pc = put m.pc i p;
    }
unfolding wait enter
wait_opens m i b p f h = ground arith

pub none-some : {a : Manager} → ◌≡◌ {A = Option Manager} none (some a) → ⊥
none-some e = cc

pub some_same : {a b : Manager} → ◌≡◌ {A = Option Manager} (some a) (some b) → a ≡ b
some_same e = cc

pub true-false : ◌≡◌ {A = Bool} true false → ⊥
true-false e = cc

-- A thread that may leave its second wait is not at a barrier that has opened once.
pub wait2-outside :
    (b c g : ℕ) (m : Manager)
    → (m.barriers c).generation ≡ 1
    → ((m.barriers b).generation == g) ≡ false
    → inside c (wait2 b g) ≡ false
wait2-outside b c g m z o = elim (Bool-cases (b == c)) [
  | inl s ↦
      let same = (==_iff b c).0 s in
      let one : (m.barriers b).generation ≡ 1 = ap (λ y. (m.barriers y).generation) same ∙ z in
      ground (arith, ==_iff (m.barriers b).generation g, ==_iff g 1)
  | inr s ↦ rw (s) refl
]

module _ (n : ℕ) (m : Manager) (i : ℕ) (l : i < n) (v : Inv n m) where
  pub placed :
      (p : Pc)
      → m.pc i ≡ p
      → Place m.snap_barrier (m.barriers m.snap_barrier).generation m.rendezvous_active p
  placed p at =
      subst (λ p. Place m.snap_barrier (m.barriers m.snap_barrier).generation m.rendezvous_active p)
        at (v.places i l)

  -- A thread that is not at the current barrier moves to another such place.
  pub apart-Inv :
      (p q : Pc) (down : Bool) (xs : List ℕ)
      → m.pc i ≡ p
      → Place m.snap_barrier (m.barriers m.snap_barrier).generation m.rendezvous_active q
      → ((m.barriers m.snap_barrier).generation ≡ 0
          → (waits1 m.snap_barrier q ≡ waits1 m.snap_barrier p) × (past m.snap_barrier q ≡ false))
      → ((m.barriers m.snap_barrier).generation ≡ 1 → inside m.snap_barrier p ≡ false)
      → Inv n (moved m i q down xs)
  apart-Inv p q down xs at h g o =
      moved-Inv n m i q down xs l h
        (λ z. let r = g z in (r.0 ∙ ap (λ x. waits1 m.snap_barrier x) (sym at), r.1))
        (λ z w. absurd (true-false (sym w ∙ ap (λ x. inside m.snap_barrier x) at ∙ o z))) v

  pub arrive1-Inv : (b : ℕ) → m.pc i ≡ arrive1 b → Inv n (wait m i b (lead b) (wait1 b))
  arrive1-Inv b at =
      let c = m.snap_barrier in
      let here = placed (arrive1 b) at in
      let g = v.gather here.1 in
      let at' : m.pc i ≡ arrive1 c = at ∙ ap (λ x. arrive1 x) here.0 in
      subst (λ x. Inv n (wait m i x (lead x) (wait1 x))) (sym here.0)
        (elim (dec_lt ((m.barriers c).count + 1) n) [
          | yes more ↦
              let e = wait_shut m i c (lead c) (wait1 c) (omega (arith, g.size)) in
              subst (λ x. Inv n x) (sym e) (entered1-Inv n m i l at' more v)
          | no last ↦
              let e = wait_opens m i c (lead c) (wait1 c) (omega (arith, g.size)) in
              subst (λ x. Inv n x) (sym e) (opened-Inv n m i l at' (omega (arith, g.few)) v)
        ])

  -- At the second wait of the current barrier, with the leader at work or gone.
  arrive2_here-Inv :
      m.pc i ≡ arrive2 m.snap_barrier → Inv n (wait m i m.snap_barrier top (wait2 m.snap_barrier))
  arrive2_here-Inv at =
      let c = m.snap_barrier in
      let bar = m.barriers c in
      let beyond : past c (m.pc i) ≡ true = rw (at) ((==_iff c c).1 refl) in
      let open_now : bar.generation ≢ 0 = λ z. true-false (sym beyond ∙ (v.gather z).behind i l) in
      elim (Bool-cases m.rendezvous_active) [
        | inl a ↦
            let g = v.leading a open_now in
            let few = leading-few n c m i l at g in
            let e = wait_shut m i c top (wait2 c) (omega (arith, g.size)) in
            subst (λ x. Inv n x) (sym e) (entered2-Inv n m i l at a open_now v)
        | inr a ↦ elim (dec_lt (bar.count + 1) bar.size) [
          | yes more ↦
              let e = wait_shut m i c top (wait2 c) more in
              subst (λ x. Inv n x) (sym e)
                (idle-Inv n m i (record bar { count = bar.count + 1 }) (wait2 c bar.generation) a
                  open_now open_now (omega arith) v)
          | no last ↦
              let e = wait_opens m i c top (wait2 c) (omega arith) in
              subst (λ x. Inv n x) (sym e)
                (idle-Inv n m i (record bar { count = 0; generation = bar.generation + 1 }) top a
                  open_now (λ z. absurd (omega arith)) tt v)
        ]
      ]

  -- At the second wait of an older barrier.
  arrive2_old-Inv :
      (b : ℕ) (q : Pc) (bar : Barrier)
      → m.pc i ≡ arrive2 b
      → b ≢ m.snap_barrier
      → (q ≡ top) ⊎ (q ≡ wait2 b (m.barriers b).generation)
      → Inv n (record m { barriers = put m.barriers b bar; pc = put m.pc i q })
  arrive2_old-Inv b q bar at old k =
      let c = m.snap_barrier in
      let m1 : Manager = record m { barriers = put m.barriers b bar } in
      let apart : (b == c) ≡ false = ground (arith, ==_iff b c) in
      let outside : inside c (m.pc i) ≡ false = rw (at) apart in
      let before : waits1 c (m.pc i) ≡ false = rw (at) refl in
      let below : b ≤ c = placed (arrive2 b) at in
      let v1 = elsewhere-Inv n m b bar old v in
      elim k [
        | inl e ↦
            subst (λ x. Inv n (record m1 { pc = put m.pc i x })) (sym e)
              (moved-Inv n m1 i top m.shutdown m.collected l tt (λ z. (sym before, refl))
                (λ z w. absurd (true-false (sym w ∙ outside))) v1)
        | inr e ↦
            subst (λ x. Inv n (record m1 { pc = put m.pc i x })) (sym e)
              (moved-Inv n m1 i (wait2 b (m.barriers b).generation) m.shutdown m.collected l below
                (λ z. (sym before, apart)) (λ z w. absurd (true-false (sym w ∙ outside))) v1)
      ]

  pub arrive2-Inv : (b : ℕ) → m.pc i ≡ arrive2 b → Inv n (wait m i b top (wait2 b))
  arrive2-Inv b at = elim (ℕ_discrete b m.snap_barrier) [
    | yes e ↦
        subst (λ x. Inv n (wait m i x top (wait2 x))) (sym e)
          (arrive2_here-Inv (at ∙ ap (λ x. arrive2 x) e))
    | no old ↦ elim (dec_lt ((m.barriers b).count + 1) (m.barriers b).size) [
      | yes more ↦
          subst (λ x. Inv n x) (sym (wait_shut m i b top (wait2 b) more))
            (arrive2_old-Inv b _ _ at old (inr refl))
      | no last ↦
          subst (λ x. Inv n x) (sym (wait_opens m i b top (wait2 b) (omega arith)))
            (arrive2_old-Inv b _ _ at old (inl refl))
    ]
  ]
