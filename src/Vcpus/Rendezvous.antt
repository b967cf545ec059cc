-- ===== src/Vcpus/Rendezvous.antt =====
-- The phases of a rendezvous: gathering until all threads wait, then leading with all of them parked.
use ignition.Base.{
  ℕ, List, ◌+◌, ◌≤◌, ◌<◌, ◌==◌, ==_iff, Bool, true, false, ◌&&◌, some, ◌≡◌, ◌≢◌, refl, arith, inl,
  inr, Bool-cases, sym, ◌∙◌, ap,
}
use ignition.Vcpus.{
  Kind, Pc, top, guest, finished, arrive1, lead, arrive2, wait1, wait2, Manager, put,
  keep_collected, start,
}
use ignition.Vcpus.Tally.{bit, tally, tally-put, tally-none}

-- In the first wait of barrier `c`.
abbrev pub waits1 : ℕ → Pc → Bool
waits1 c (wait1 b g) = b == c
waits1 c _ = false

abbrev pub waits2 : ℕ → Pc → Bool
waits2 c (wait2 b g) = b == c
waits2 c _ = false

abbrev pub leads : ℕ → Pc → Bool
leads c (lead b) = b == c
leads c _ = false

-- Beyond the first wait of `c`.
abbrev pub past : ℕ → Pc → Bool
past c (lead b) = b == c
past c (arrive2 b) = b == c
past c (wait2 b g) = b == c
past c _ = false

-- Parked at `c` once it has opened, or leading there.
abbrev pub inside : ℕ → Pc → Bool
inside c (wait1 b g) = b == c
inside c (lead b) = b == c
inside c (arrive2 b) = b == c
inside c (wait2 b g) = b == c && g == 1
inside c _ = false

-- What the place of one thread says of its barrier; `c` is the current one, and `g` how often it
-- has opened.
abbrev pub Place : ℕ → ℕ → Bool → Pc → Type 0
Place c g active (arrive1 b) = (b ≡ c) × (g ≡ 0)
Place c g active (wait1 b k) = (b ≤ c) × (k ≡ 0)
Place c g active (lead b) = (b ≡ c) × (active ≡ true) × (g ≢ 0)
Place c g active (arrive2 b) = b ≤ c
Place c g active (wait2 b k) = b ≤ c
Place c g active _ = Unit

pub record Gathering (n c : ℕ) (m : Manager) : Type 0 where
  pub active : m.rendezvous_active ≡ true
  pub size : (m.barriers c).size ≡ n
  pub counted : (m.barriers c).count ≡ tally (waits1 c) n m.pc
  pub few : (m.barriers c).count < n
  pub behind : (j : ℕ) → j < n → past c (m.pc j) ≡ false

pub record Leading (n c : ℕ) (m : Manager) : Type 0 where
  pub opened : (m.barriers c).generation ≡ 1
  pub size : (m.barriers c).size ≡ n
  pub parked : (j : ℕ) → j < n → inside c (m.pc j) ≡ true
  pub one : tally (leads c) n m.pc ≡ 1
  pub counted : (m.barriers c).count ≡ tally (waits2 c) n m.pc

pub record Inv (n : ℕ) (m : Manager) : Type 0 where
  pub reqs : (k : Kind) → m.req ≡ some k → m.rendezvous_active ≡ true
  pub places :
      (j : ℕ)
      → j < n
      → Place m.snap_barrier (m.barriers m.snap_barrier).generation m.rendezvous_active (m.pc j)
  pub gather : (m.barriers m.snap_barrier).generation ≡ 0 → Gathering n m.snap_barrier m
  pub leading :
      m.rendezvous_active ≡ true
      → (m.barriers m.snap_barrier).generation ≢ 0
      → Leading n m.snap_barrier m

-- What holds of every thread still holds when one moves to a place where it holds.
pub put-each :
    {A : Type 0} (P : A → Type 0) (n : ℕ) (f : ℕ → A) (i : ℕ) (a : A)
    → ((j : ℕ) → j < n → P (f j))
    → P a
    → (j : ℕ) → j < n
    → P (put f i a j)
put-each P n f i a h p j l = elim (Bool-cases (i == j)) [
  | inl e ↦ rw (e) p
  | inr e ↦ rw (e) (h j l)
]

two : {P : Type 0} → ◌≡◌ {A = ℕ} 2 0 → P
two e = absurd (omega arith)

pub start-Inv : (n : ℕ) (ids : List ℕ) → Inv n (start n ids)
start-Inv n ids = record {
  reqs = λ k e. cc;
  places = λ j l. tt;
  gather = λ e. two e;
  leading = λ e. cc;
}

abbrev pub begun : ℕ → Kind → Manager → Manager
begun n k m = record m {
  rendezvous_active = true;
  req = some k;
  collected = keep_collected k m.collected;
  snap_barrier = m.snap_barrier + 1;
  barriers = put m.barriers (m.snap_barrier + 1) (record { size = n; count = 0; generation = 0 });
}

pub put_same : {A : Type 0} (f : ℕ → A) (i : ℕ) (a : A) → put f i a i ≡ a
put_same f i a = ground (arith, ==_iff i i)

pub put_other : {A : Type 0} (f : ℕ → A) (i j : ℕ) (a : A) → i ≢ j → put f i a j ≡ f j
put_other f i j a h = ground (arith, ==_iff i j)

-- No thread stands at a barrier beyond `c` when it is made.
Place-next :
    (c g : ℕ) (active : Bool) (p : Pc)
    → active ≡ false
    → (g ≡ 0 → active ≡ true)
    → Place c g active p
    → Place (c + 1) 0 true p × (past (c + 1) p ≡ false) × (waits1 (c + 1) p ≡ false)
Place-next c g active top a h p = (tt, refl, refl)
Place-next c g active guest a h p = (tt, refl, refl)
Place-next c g active finished a h p = (tt, refl, refl)
Place-next c g active (arrive1 b) a h p = absurd (ground (arith, h))
Place-next c g active (lead b) a h p = absurd (ground arith)
Place-next c g active (arrive2 b) a h p = (omega arith, ground arith, refl)
Place-next c g active (wait1 b k) a h p = ((omega arith, p.1), refl, ground arith)
Place-next c g active (wait2 b k) a h p = (omega arith, ground arith, refl)

pub begun-Inv :
    (n : ℕ) (k : Kind) (m : Manager)
    → m.rendezvous_active ≡ false
    → 0 < n
    → Inv n m
    → Inv n (begun n k m)
begun-Inv n k m a h v =
    let c = m.snap_barrier in
    let g = (m.barriers c).generation in
    let active_then : g ≡ 0 → m.rendezvous_active ≡ true = λ e. (v.gather e).active in
    let made = put_same m.barriers (c + 1) (record { size = n; count = 0; generation = 0 }) in
    let next = λ (j : ℕ) (l : j < n).
      Place-next c g m.rendezvous_active (m.pc j) a active_then (v.places j l) in
    let zero_waits = tally-none (waits1 (c + 1)) n m.pc (λ j l. (next j l).2) in
    record {
      reqs = λ k e. refl;
      places = λ j l. rw (made) (next j l).0;
      gather = λ e. record {
        active = refl;
        size = ap (λ b. b.size) made;
        counted = ap (λ b. b.count) made ∙ sym zero_waits;
        few = omega (arith, ap (λ b. b.count) made);
        behind = λ j l. (next j l).1;
      };
      leading = λ e r. absurd (r (ap (λ b. b.generation) made));
    }

-- The manager with thread `i` moved and nothing else that the phases read changed.
abbrev pub moved : Manager → ℕ → Pc → Bool → List ℕ → Manager
moved m i q down c = record m { shutdown = down; collected = c; pc = put m.pc i q }

-- A move that neither changes who waits while gathering nor leaves the barrier while it is led.
pub moved-Inv :
    (n : ℕ) (m : Manager) (i : ℕ) (q : Pc) (down : Bool) (xs : List ℕ)
    → i < n
    → Place m.snap_barrier (m.barriers m.snap_barrier).generation m.rendezvous_active q
    → ((m.barriers m.snap_barrier).generation ≡ 0
        → (waits1 m.snap_barrier q ≡ waits1 m.snap_barrier (m.pc i))
          × (past m.snap_barrier q ≡ false))
    → ((m.barriers m.snap_barrier).generation ≡ 1
        → inside m.snap_barrier (m.pc i) ≡ true
        → (inside m.snap_barrier q ≡ true)
          × (leads m.snap_barrier q ≡ leads m.snap_barrier (m.pc i))
          × (waits2 m.snap_barrier q ≡ waits2 m.snap_barrier (m.pc i)))
    → Inv n m
    → Inv n (moved m i q down xs)
moved-Inv n m i q down xs l place g1 g2 v =
    let c = m.snap_barrier in
    record {
      reqs = v.reqs;
      places =
          put-each (Place c (m.barriers c).generation m.rendezvous_active) n m.pc i q v.places
            place;
      gather = λ z.
          let h = v.gather z in
          let same_count = tally-put (waits1 c) n m.pc i q l in
          record {
            active = h.active;
            size = h.size;
            counted = omega (arith, same_count, h.counted, ap bit (g1 z).0);
            few = h.few;
            behind = put-each (λ p. past c p ≡ false) n m.pc i q h.behind (g1 z).1;
          };
      leading = λ a z.
          let h = v.leading a z in
          let stays = g2 h.opened (h.parked i l) in
          record {
            opened = h.opened;
            size = h.size;
            parked = put-each (λ p. inside c p ≡ true) n m.pc i q h.parked stays.0;
            one = omega (arith, tally-put (leads c) n m.pc i q l, h.one, ap bit stays.1);
            counted = omega (arith, tally-put (waits2 c) n m.pc i q l, h.counted, ap bit stays.2);
          };
    }
