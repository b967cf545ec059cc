-- ===== src/Vcpus/Exclusive.antt =====
-- Who runs while a thread leads, and what a thread that has returned does to a rendezvous.
use ignition.Base.{
  ℕ, List, ◌+◌, ◌<◌, ◌==◌, ==_iff, true, false, some, ◌≡◌, ◌≢◌, refl, arith, inl, inr, Bool-cases,
  sym, ◌∙◌, ap, subst,
}
use ignition.Vcpus.{
  Pc, top, guest, finished, arrive1, lead, arrive2, wait1, wait2, Exit, back, off, error, Manager,
  put, run_leader, enter, wait, advance, Step, run, ask, Steps, stop, step, start,
}
use ignition.Vcpus.Tally.{bit, tally, tally-put, tally-some, tally-le}
use ignition.Vcpus.Rendezvous.{waits1, leads, past, inside, Place, Inv, put_other}
use ignition.Vcpus.Opening.{past-leads}
use ignition.Vcpus.Waits.{placed, true-false}
use ignition.Vcpus.Parked.{Steps-Inv, Step-Inv, request-begun}

-- When a thread leads, which is when RAM, the interrupt controller and the devices are read or
-- rolled back, every other thread has come to the first wait of the same barrier and not yet left
-- the second one, and none of them leads: no thread is in the guest or at the top of its loop.
pub lead-parked :
    (n : ℕ) (ids : List ℕ) (m : Manager) (i j b : ℕ)
    → Steps n (start n ids) m
    → i < n
    → m.pc i ≡ lead b
    → j < n
    → i ≢ j
    → (inside b (m.pc j) ≡ true) × (leads b (m.pc j) ≡ false)
lead-parked n ids m i j b r l at k apart =
    let v = Steps-Inv n ids m r in
    let c = m.snap_barrier in
    let here : Place c (m.barriers c).generation m.rendezvous_active (lead b) =
      subst (λ p. Place c (m.barriers c).generation m.rendezvous_active p) at (v.places i l) in
    let g = v.leading here.1 here.2 in
    let same : c ≡ b = sym here.0 in
    let leads_i : leads c (m.pc i) ≡ true = rw (at) ((==_iff b c).1 here.0) in
    let none_left : tally (leads c) n (put m.pc i top) ≡ 0 =
      omega (arith, tally-put (leads c) n m.pc i top l, g.one, ap bit leads_i) in
    let still = put_other m.pc i j top apart in
    let other : leads c (m.pc j) ≡ false = elim (Bool-cases (leads c (m.pc j))) [
      | inl e ↦ absurd (
          omega
            (arith, tally-some (leads c) n (put m.pc i top) j k (ap (λ p. leads c p) still ∙ e)))
      | inr e ↦ e
    ] in
    (
      subst (λ x. inside x (m.pc j) ≡ true) same (g.parked j k),
      subst (λ x. leads x (m.pc j) ≡ false) same other,
    )

-- A rendezvous that gathers with a thread that has returned, and one that waits.
abbrev Stuck : ℕ → ℕ → ℕ → ℕ → Manager → Type 0
Stuck n c j i m =
    (m.snap_barrier ≡ c)
    × ((m.barriers c).generation ≡ 0)
    × (m.pc j ≡ finished)
    × (m.pc i ≡ wait1 c 0)

-- With one thread gone, the barrier is never full.
stuck-few :
    (n : ℕ) (m : Manager) (j k : ℕ)
    → Inv n m
    → j < n
    → k < n
    → (m.barriers m.snap_barrier).generation ≡ 0
    → m.pc k ≡ arrive1 m.snap_barrier
    → m.pc j ≡ finished
    → (m.barriers m.snap_barrier).count + 1 < n
stuck-few n m j k v lj lk z at gone =
    let c = m.snap_barrier in
    let g = v.gather z in
    let f : ℕ → Pc = put m.pc k (wait1 c 0) in
    let k_out : waits1 c (m.pc k) ≡ false = rw (at) refl in
    let apart : k ≢ j = λ e. cc (at, gone, e) in
    let j_out : waits1 c (f j) ≡ false =
      ap (λ p. waits1 c p) (put_other m.pc k j (wait1 c 0) apart ∙ gone) in
    let there : waits1 c (wait1 c 0) ≡ true = (==_iff c c).1 refl in
    omega (
      arith,
      tally-put (waits1 c) n m.pc k (wait1 c 0) lk,
      tally-put (waits1 c) n f j (wait1 c 0) lj,
      tally-le (waits1 c) n (put f j (wait1 c 0)),
      g.counted,
      ap bit k_out,
      ap bit j_out,
      ap bit there,
    )

advance-Stuck :
    (n c j i k : ℕ) (x : Exit) (p : Pc) (m m' : Manager)
    → Inv n m
    → j < n
    → k < n
    → Stuck n c j i m
    → m.pc k ≡ p
    → advance x k m p ≡ some m'
    → Stuck n c j i m'
unfolding advance run_leader wait enter
advance-Stuck n c j i k x top m m' v lj lk s at e =
    (ground arith, ground arith, ground (arith, ==_iff k j), ground (arith, ==_iff k i))
advance-Stuck n c j i k back guest m m' v lj lk s at e =
    (ground arith, ground arith, ground (arith, ==_iff k j), ground (arith, ==_iff k i))
advance-Stuck n c j i k off guest m m' v lj lk s at e =
    (ground arith, ground arith, ground (arith, ==_iff k j), ground (arith, ==_iff k i))
advance-Stuck n c j i k error guest m m' v lj lk s at e =
    (ground arith, ground arith, ground (arith, ==_iff k j), ground (arith, ==_iff k i))
advance-Stuck n c j i k x finished m m' v lj lk s at e = cc
advance-Stuck n c j i k x (arrive1 b) m m' v lj lk s at e =
    let here = placed n m k lk v (arrive1 b) at in
    let few = stuck-few n m j k v lj lk (ground arith) (at ∙ ap (λ y. arrive1 y) here.0) (s.2) in
    let size = (v.gather here.1).size in
    let same : b ≡ c = here.0 ∙ s.0 in
    (
      ground arith,
      ground (arith, few, size, same, ==_iff c c),
      ground (arith, ==_iff k j),
      ground (arith, ==_iff k i),
    )
advance-Stuck n c j i k x (wait1 b g) m m' v lj lk s at e =
    let shut = ==_iff (m.barriers b).generation g in
    let moves : k ≢ i = λ z. ground (arith, shut) in
    (ground arith, ground arith, ground (arith, ==_iff k j), ground (arith, ==_iff k i, moves))
advance-Stuck n c j i k x (lead b) m m' v lj lk s at e =
    let here = placed n m k lk v (lead b) at in
    absurd (here.2 (ap (λ y. (m.barriers y).generation) s.0 ∙ s.1))
advance-Stuck n c j i k x (arrive2 b) m m' v lj lk s at e =
    let shut : (m.barriers m.snap_barrier).generation ≡ 0 =
      ap (λ y. (m.barriers y).generation) s.0 ∙ s.1 in
    let behind : past m.snap_barrier (m.pc k) ≡ false = (v.gather shut).behind k lk in
    let old : (b == c) ≡ false = ground (arith, behind) in
    (ground arith, ground (arith, old), ground (arith, ==_iff k j), ground (arith, ==_iff k i))
advance-Stuck n c j i k x (wait2 b g) m m' v lj lk s at e =
    (ground arith, ground arith, ground (arith, ==_iff k j), ground (arith, ==_iff k i))

Step-Stuck :
    (n c j i : ℕ) (m m' : Manager)
    → Inv n m
    → j < n
    → Stuck n c j i m
    → Step n m m'
    → Stuck n c j i m'
Step-Stuck n c j i m m' v lj s (run k x lk e) =
    advance-Stuck n c j i k x (m.pc k) m m' v lj lk s refl e
Step-Stuck n c j i m m' v lj s (ask k e) =
    let (idle, some_there, same) = request-begun n k m m' e in
    let z : (m.barriers m.snap_barrier).generation ≡ 0 =
      ap (λ y. (m.barriers y).generation) s.0 ∙ s.1 in
    absurd (true-false (sym (v.gather z).active ∙ idle))

Steps-Stuck :
    (n c j i : ℕ) (m m' : Manager)
    → Inv n m
    → j < n
    → Stuck n c j i m
    → Steps n m m'
    → Inv n m' × Stuck n c j i m'
Steps-Stuck n c j i m _ v lj s stop = (v, s)
Steps-Stuck n c j i m m' v lj s (step {a = a} r t) =
    let (v', s') = Steps-Stuck n c j i m a v lj s r in
    (Step-Inv n a m' t v', Step-Stuck n c j i a m' v' lj s' t)

-- Thread `j` has returned, on a shutdown or an error of its vCPU, and thread `i` waits at the current
-- barrier, which has not opened. Whatever steps follow, thread `i` waits there still and the
-- rendezvous is in flight: no thread ever leads, so the request is never answered.
pub finished-blocks :
    (n : ℕ) (ids : List ℕ) (m m' : Manager) (i j : ℕ)
    → Steps n (start n ids) m
    → j < n
    → m.pc j ≡ finished
    → m.pc i ≡ wait1 m.snap_barrier 0
    → (m.barriers m.snap_barrier).generation ≡ 0
    → Steps n m m'
    → (m'.pc i ≡ wait1 m.snap_barrier 0)
      × (m'.rendezvous_active ≡ true)
      × ((k : ℕ) → k < n → leads m.snap_barrier (m'.pc k) ≡ false)
finished-blocks n ids m m' i j r lj gone waiting shut later =
    let c = m.snap_barrier in
    let v = Steps-Inv n ids m r in
    let (v', s) = Steps-Stuck n c j i m m' v lj (refl, shut, gone, waiting) later in
    let z : (m'.barriers m'.snap_barrier).generation ≡ 0 =
      ap (λ y. (m'.barriers y).generation) s.0 ∙ s.1 in
    let g = v'.gather z in
    (
      s.3,
      g.active,
      λ k lk.
          subst (λ y. leads y (m'.pc k) ≡ false) s.0
            (past-leads m'.snap_barrier (m'.pc k) (g.behind k lk)).0,
    )
