-- ===== src/Vcpus/Parked.antt =====
-- Every state that the threads reach keeps the phases of the rendezvous.
use ignition.Base.{
  ℕ, List, ◌<◌, ◌==◌, ==_iff, true, false, none, some, ◌≡◌, ◌≢◌, refl, arith, inl, inr, Bool-cases,
  Option-cases, sym, ◌∙◌, ap, subst,
}
use native.Mathlib.Decide.{ℕ_discrete}
use ignition.Vcpus.{
  Kind, Pc, top, guest, finished, arrive1, lead, arrive2, wait1, wait2, Exit, back, off, error,
  Manager, move, begin_rendezvous, request, run_leader, advance, collect, Step, run, ask, Steps,
  stop, step, start,
}
use ignition.Vcpus.Rendezvous.{inside, Inv, begun, begun-Inv, start-Inv, moved, moved-Inv}
use ignition.Vcpus.Opening.{led-Inv}
use ignition.Vcpus.Waits.{
  none-some, some_same, true-false, wait2-outside, placed, apart-Inv, arrive1-Inv, arrive2-Inv,
}

module _ (n : ℕ) (m : Manager) (i : ℕ) (l : i < n) (v : Inv n m) where
  -- The top of the loop: shutdown, then the request, then the guest.
  top-Inv : (x : Exit) (m' : Manager) → m.pc i ≡ top → advance x i m top ≡ some m' → Inv n m'
  unfolding advance
  top-Inv x m' at e = elim (Bool-cases m.shutdown) [
    | inl down ↦
        let r : advance x i m top ≡ some (move m i finished) = ground arith in
        subst (λ z. Inv n z) (some_same (sym r ∙ e))
          (apart-Inv n m i l v top finished m.shutdown m.collected at tt (λ z. (refl, refl))
            (λ z. refl))
    | inr up ↦ elim (Option-cases m.req) [
      | inl idle ↦
          let r : advance x i m top ≡ some (move m i guest) = ground arith in
          subst (λ z. Inv n z) (some_same (sym r ∙ e))
            (apart-Inv n m i l v top guest m.shutdown m.collected at tt (λ z. (refl, refl))
              (λ z. refl))
      | inr (k, asked) ↦
          let xs = collect k i m.collected in
          let r : advance x i m top ≡ some (moved m i (arrive1 m.snap_barrier) m.shutdown xs) =
            ground arith in
          let shut : (m.barriers m.snap_barrier).generation ≡ 0 =
            elim (ℕ_discrete (m.barriers m.snap_barrier).generation 0) [
              | yes z ↦ z
              | no z ↦
                  let g = v.leading (v.reqs k asked) z in
                  absurd (true-false (sym (g.parked i l) ∙ ap (λ x. inside m.snap_barrier x) at))
            ] in
          subst (λ z. Inv n z) (some_same (sym r ∙ e))
            (apart-Inv n m i l v top (arrive1 m.snap_barrier) m.shutdown xs at (refl, shut)
              (λ z. (refl, refl)) (λ z. refl))
    ]
  ]

  wait1-Inv :
      (x : Exit) (b g : ℕ) (m' : Manager)
      → m.pc i ≡ wait1 b g
      → advance x i m (wait1 b g) ≡ some m'
      → Inv n m'
  unfolding advance
  wait1-Inv x b g m' at e = elim (Bool-cases ((m.barriers b).generation == g)) [
    | inl shut ↦
        let r : advance x i m (wait1 b g) ≡ none = ground arith in absurd (none-some (sym r ∙ e))
    | inr opened_now ↦
        let c = m.snap_barrier in
        let r : advance x i m (wait1 b g) ≡ some (move m i (arrive2 b)) = ground arith in
        let h = placed n m i l v (wait1 b g) at in
        subst (λ z. Inv n z) (some_same (sym r ∙ e))
          (moved-Inv n m i (arrive2 b) m.shutdown m.collected l h.0
            (λ z.
              let apart : (b == c) ≡ false = elim (Bool-cases (b == c)) [
                | inl s ↦
                    let same = (==_iff b c).0 s in
                    let z' : (m.barriers b).generation ≡ 0 =
                      ap (λ y. (m.barriers y).generation) same ∙ z in
                    absurd (
                      true-false
                        (sym ((==_iff (m.barriers b).generation g).1 (z' ∙ sym h.1)) ∙ opened_now))
                | inr s ↦ s
              ] in
              (rw (at) (sym apart), apart))
            (λ z w. (sym (ap (λ y. inside c y) at) ∙ w, rw (at) refl, rw (at) refl)) v)
  ]

  wait2-Inv :
      (x : Exit) (b g : ℕ) (m' : Manager)
      → m.pc i ≡ wait2 b g
      → advance x i m (wait2 b g) ≡ some m'
      → Inv n m'
  unfolding advance
  wait2-Inv x b g m' at e = elim (Bool-cases ((m.barriers b).generation == g)) [
    | inl shut ↦
        let r : advance x i m (wait2 b g) ≡ none = ground arith in absurd (none-some (sym r ∙ e))
    | inr opened_now ↦
        let c = m.snap_barrier in
        let r : advance x i m (wait2 b g) ≡ some (move m i top) = ground arith in
        subst (λ z. Inv n z) (some_same (sym r ∙ e))
          (apart-Inv n m i l v (wait2 b g) top m.shutdown m.collected at tt (λ z. (refl, refl))
            (λ z. wait2-outside b c g m z opened_now))
  ]

  -- A step of thread `i`, by where it stands.
  advance-Inv :
      (x : Exit) (p : Pc) (m' : Manager) → m.pc i ≡ p → advance x i m p ≡ some m' → Inv n m'
  unfolding advance run_leader
  advance-Inv x top m' at e = top-Inv x m' at e
  advance-Inv back guest m' at e =
      subst (λ z. Inv n z) (some_same e)
        (apart-Inv n m i l v guest top m.shutdown m.collected at tt (λ z. (refl, refl)) (λ z. refl))
  advance-Inv off guest m' at e =
      subst (λ z. Inv n z) (some_same e)
        (apart-Inv n m i l v guest finished true m.collected at tt (λ z. (refl, refl)) (λ z. refl))
  advance-Inv error guest m' at e =
      subst (λ z. Inv n z) (some_same e)
        (apart-Inv n m i l v guest finished m.shutdown m.collected at tt (λ z. (refl, refl))
          (λ z. refl))
  advance-Inv x finished m' at e = cc
  advance-Inv x (arrive1 b) m' at e =
      subst (λ z. Inv n z) (some_same e) (arrive1-Inv n m i l v b at)
  advance-Inv x (wait1 b g) m' at e = wait1-Inv x b g m' at e
  advance-Inv x (lead b) m' at e = subst (λ z. Inv n z) (some_same e) (led-Inv n m i b l at v)
  advance-Inv x (arrive2 b) m' at e =
      subst (λ z. Inv n z) (some_same e) (arrive2-Inv n m i l v b at)
  advance-Inv x (wait2 b g) m' at e = wait2-Inv x b g m' at e

-- A request is let in only when none is in flight.
pub request-begun :
    (n : ℕ) (k : Kind) (m m' : Manager)
    → request n k m ≡ some m'
    → (m.rendezvous_active ≡ false) × (n ≢ 0) × (begun n k m ≡ m')
unfolding request begin_rendezvous
request-begun n k m m' e = elim (Bool-cases m.rendezvous_active) [
  | inl a ↦ let r : request n k m ≡ none = ground arith in absurd (none-some (sym r ∙ e))
  | inr a ↦ elim (ℕ_discrete n 0) [
    | yes z ↦
        let r : request n k m ≡ none = ground (arith, ==_iff n 0) in absurd (none-some (sym r ∙ e))
    | no z ↦
        let r : request n k m ≡ some (begun n k m) = ground (arith, ==_iff n 0) in
        (a, z, some_same (sym r ∙ e))
  ]
]

-- A step keeps the phases.
pub Step-Inv : (n : ℕ) (m m' : Manager) → Step n m m' → Inv n m → Inv n m'
Step-Inv n m m' (run i x l e) v = advance-Inv n m i l v x (m.pc i) m' refl e
Step-Inv n m m' (ask k e) v =
    let (idle, some_there, same) = request-begun n k m m' e in
    subst (λ x. Inv n x) same (begun-Inv n k m idle (omega arith) v)

pub Steps-Inv : (n : ℕ) (ids : List ℕ) (m : Manager) → Steps n (start n ids) m → Inv n m
Steps-Inv n ids _ stop = start-Inv n ids
Steps-Inv n ids m (step {a = a} r s) = Step-Inv n a m s (Steps-Inv n ids a r)
