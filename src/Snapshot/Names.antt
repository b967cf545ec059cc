-- ===== src/Snapshot/Names.antt =====
-- crates/vmm/src/snapshot.rs, the directory names: a name is the list of its bytes.
use ignition.Base.{
  ℕ, ◌==◌, ==_iff, Bool, true, false, ◌&&◌, if◌then◌else◌, Option, none, some, List, [], ◌∷◌, ◌++◌,
  ◌≡◌, ◌≢◌, refl, Bool-cases, inl, inr, arith,
}

abbrev pub Name : Type 0
Name = List ℕ

unfoldable pub same : Name → Name → Bool
same [] [] = true
same (a ∷ s) (b ∷ t) = a == b && same s t
same _ _ = false

-- What stands before the last dot of a file name.
unfoldable pub rsplit_dot : Name → Option Name
rsplit_dot [] = none
rsplit_dot (c ∷ s) = elim (rsplit_dot s) [
  | some before ↦ some (c ∷ before)
  | none ↦ if c == 46 then some [] else none
]

-- `Path::file_stem`: a dot that stands first is a part of the stem.
unfoldable pub file_stem : Name → Name
file_stem s = elim (rsplit_dot s) [
  | none ↦ s
  | some before ↦ elim before [ [] ↦ s | c ∷ rest ↦ c ∷ rest ]
]

-- `dir.with_extension("tmp")`.
unfoldable pub with_tmp : Name → Name
with_tmp s = file_stem s ++ (46 ∷ 116 ∷ 109 ∷ 112 ∷ [])

pub same_refl : (s : Name) → same s s ≡ true
unfolding same
same_refl [] = refl
same_refl (a ∷ s) = ground (arith, ==_iff a a, same_refl s)

pub same-eq : (s t : Name) → same s t ≡ true → s ≡ t
unfolding same
same-eq [] [] h = refl
same-eq [] (b ∷ t) h = cc
same-eq (a ∷ s) [] h = cc
same-eq (a ∷ s) (b ∷ t) h =
    let rest = same-eq s t (ground (arith, ==_iff a b)) in
    let first : a ≡ b = ground (arith, ==_iff a b) in cc

pub same-ne : (s t : Name) → s ≢ t → same s t ≡ false
same-ne s t h = elim (Bool-cases (same s t)) [ inl e ↦ elim (h (same-eq s t e)) [ ] | inr e ↦ e ]
