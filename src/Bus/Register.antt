-- ===== src/Bus/Register.antt =====
-- `register` keeps the ranges apart, and refuses exactly those that would meet one.
use ignition.Base.{
  ℕ, ◌+◌, ◌≤◌, ◌<◌, ◌^◌, ◌≡◌, refl, ◌⊎◌, ◌↔◌, inl, inr, none, some, [], ◌∷◌, ◌++◌, arith,
  Bool-cases, Option-cases,
}
use ignition.Bus.{BusEntry, Bus, BusError, overlap, overlaps, find_overlap, register}

-- The range ends below the top of the address space.
abbrev pub InSpace : ℕ → ℕ → Type 0
InSpace base len = base + len < 2 ^ 64

-- Two ranges have no address in common, or one is empty and lies outside the other.
abbrev pub Disjoint : ℕ → ℕ → BusEntry → Type 0
Disjoint base len e = (base + len ≤ e.base) ⊎ (e.base + e.len ≤ base)

abbrev pub AllDisjoint : ℕ → ℕ → Bus → Type 0
AllDisjoint base len [] = Unit
AllDisjoint base len (e ∷ bus) = Disjoint base len e × AllDisjoint base len bus

abbrev pub AllInSpace : Bus → Type 0
AllInSpace [] = Unit
AllInSpace (e ∷ bus) = InSpace e.base e.len × AllInSpace bus

-- Every range lies apart from those after it.
abbrev pub Apart : Bus → Type 0
Apart [] = Unit
Apart (e ∷ bus) = AllDisjoint e.base e.len bus × Apart bus

pub record IsValid (bus : Bus) : Type 0 where
  pub in_space : AllInSpace bus
  pub apart : Apart bus

find_overlap-none :
    (base len : ℕ) (bus : Bus)
    → InSpace base len
    → AllInSpace bus
    → (find_overlap base len bus ≡ none) ↔ AllDisjoint base len bus
unfolding find_overlap
find_overlap-none base len [] s a = ((λ _. tt), λ _. refl)
find_overlap-none base len (e ∷ bus) s a =
    let rest = find_overlap-none base len bus s a.1 in
    elim (Bool-cases (overlaps base len e)) [
      | inl met ↦ rw met ((λ h. cc), λ h. absurd (ground arith))
      | inr clear ↦ rw clear ((λ h. (ground arith, rest.0 h)), λ h. rest.1 h.1)
    ]

AllDisjoint-append :
    (base len : ℕ) (bus : Bus) (e : BusEntry)
    → AllDisjoint base len bus
    → Disjoint base len e
    → AllDisjoint base len (bus ++ (e ∷ []))
AllDisjoint-append base len [] e a d = (d, tt)
AllDisjoint-append base len (x ∷ bus) e a d = (a.0, AllDisjoint-append base len bus e a.1 d)

Apart-append :
    (bus : Bus) (e : BusEntry) → Apart bus → AllDisjoint e.base e.len bus → Apart (bus ++ (e ∷ []))
Apart-append [] e a d = (tt, tt)
Apart-append (x ∷ bus) e a d =
    (AllDisjoint-append x.base x.len bus e a.0 (ground arith), Apart-append bus e a.1 d.1)

AllInSpace-append :
    (bus : Bus) (e : BusEntry)
    → AllInSpace bus
    → InSpace e.base e.len
    → AllInSpace (bus ++ (e ∷ []))
AllInSpace-append [] e a h = (h, tt)
AllInSpace-append (x ∷ bus) e a h = (a.0, AllInSpace-append bus e a.1 h)

-- Registering a range in the address space keeps the registered ranges pairwise apart, whether it
-- is accepted or refused.
pub register-IsValid :
    (bus : Bus) (base len dev : ℕ)
    → IsValid bus
    → InSpace base len
    → IsValid (register bus base len dev).1
unfolding register
register-IsValid bus base len dev v s = elim (Option-cases (find_overlap base len bus)) [
  | inl e ↦
      let clear = (find_overlap-none base len bus s v.in_space).0 e in
      rw (e, register)
        (record {
          in_space = AllInSpace-append bus _ v.in_space s;
          apart = Apart-append bus _ v.apart clear;
        })
  | inr (x, e) ↦ rw (e, register) v
]

-- A range is accepted exactly if it lies apart from every registered one; a refused range leaves
-- the bus as it was.
register-none :
    (bus : Bus) (base len dev : ℕ)
    → IsValid bus
    → InSpace base len
    → ((register bus base len dev).0 ≡ none) ↔ AllDisjoint base len bus
unfolding register
register-none bus base len dev v s =
    let iff = find_overlap-none base len bus s v.in_space in
    elim (Option-cases (find_overlap base len bus)) [
      | inl e ↦ rw (e, register) ((λ _. iff.0 e), λ _. refl)
      | inr (x, e) ↦ rw (e, register) ((λ h. cc), λ h. cc (iff.1 h, e))
    ]

pub register-refused :
    (bus : Bus) (base len dev : ℕ) {err : BusError}
    → (register bus base len dev).0 ≡ some err
    → (register bus base len dev).1 ≡ bus
unfolding register
register-refused bus base len dev e = ground arith

-- An accepted range is added behind the others.
pub register-accepted :
    (bus : Bus) (base len dev : ℕ)
    → IsValid bus
    → InSpace base len
    → AllDisjoint base len bus
    → register bus base len dev ≡ (none, bus ++ (record { base = base; len = len; dev = dev } ∷ []))
unfolding register
register-accepted bus base len dev v s d =
    rw ((find_overlap-none base len bus s v.in_space).1 d, register) refl

pub IsValid-append :
    (bus : Bus) (base len dev : ℕ)
    → IsValid bus
    → InSpace base len
    → AllDisjoint base len bus
    → IsValid (bus ++ (record { base = base; len = len; dev = dev } ∷ []))
IsValid-append bus base len dev v s d = record {
  in_space = AllInSpace-append bus _ v.in_space s;
  apart = Apart-append bus _ v.apart d;
}

-- Both outcomes of `register`.
pub register-cases :
    (bus : Bus) (base len dev : ℕ)
    → IsValid bus
    → InSpace base len
    → (AllDisjoint base len bus
        × (register bus base len dev
            ≡ (none, bus ++ (record { base = base; len = len; dev = dev } ∷ []))))
      ⊎ ((e : BusError) × (register bus base len dev ≡ (some e, bus)))
unfolding register
register-cases bus base len dev v s = elim (Option-cases (find_overlap base len bus)) [
  | inl e ↦ inl ((find_overlap-none base len bus s v.in_space).0 e, ground (arith, e))
  | inr (x, e) ↦ inr (overlap base len x.base x.len, ground (arith, e))
]
