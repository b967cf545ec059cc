-- ===== src/Bus/Routing.antt =====
-- `find`, `read` and `write`: an access goes to the one device whose range holds the address.
use ignition.Base.{
  ℕ, ◌+◌, ◌-◌, ◌≤◌, ◌<◌, false, ◌≡◌, refl, sym, ◌⊎◌, inl, inr, some, List, [], ◌∷◌, arith,
  Bool-cases, get_elem?, set, get_elem?-set_ne, get_elem?-set_self, length, get_elem?-append_last,
  set-append_last, ◌++◌,
}
use native.Mathlib.Decide.{ℕ_discrete}
use ignition.Bus.{BusEntry, Bus, BusDevice, holds, find, read, write}
use ignition.Bus.Register.{IsValid, Apart, AllDisjoint}

-- `e` is one of the registered entries.
abbrev pub Registered : BusEntry → Bus → Type 0
Registered e [] = ⊥
Registered e (x ∷ bus) = (x ≡ e) ⊎ Registered e bus

abbrev pub Holds : BusEntry → ℕ → Type 0
Holds e addr = (e.base ≤ addr) × (addr < e.base + e.len)

find-Registered :
    (bus : Bus) (addr : ℕ) {e : BusEntry} → find bus addr ≡ some e → Registered e bus × Holds e addr
unfolding find
find-Registered [] addr h = cc
find-Registered (x ∷ bus) addr {e} h = elim (Bool-cases (holds x addr)) [
  | inl hit ↦ ground arith
  | inr miss ↦
      let later : find bus addr ≡ some e = ground arith in
      let (r, inside) = find-Registered bus addr later in (inr r, inside)
]

-- In a bus of ranges that are apart, only one of them holds an address.
not_before :
    (x e : BusEntry) (bus : Bus) (addr : ℕ)
    → AllDisjoint x.base x.len bus
    → Registered e bus
    → Holds e addr
    → holds x addr ≡ false
not_before x e [] addr d r h = absurd r
not_before x e (y ∷ bus) addr d (inl same) h = ground (arith, d.0)
not_before x e (y ∷ bus) addr d (inr r) h = not_before x e bus addr d.1 r h

-- An address in a registered range of a valid bus is routed to that range's device.
pub find-some :
    (bus : Bus) (addr : ℕ) (e : BusEntry)
    → IsValid bus
    → Registered e bus
    → Holds e addr
    → find bus addr ≡ some e
unfolding find
find-some bus addr e v r h = go bus v.apart r
  where
    go : (bus : Bus) → Apart bus → Registered e bus → find bus addr ≡ some e
    go [] a r = absurd r
    go (x ∷ bus) a (inl same) = ground arith
    go (x ∷ bus) a (inr r) =
        let miss = not_before x e bus addr a.0 r h in rw (miss, find) (go bus a.1 r)

module _ {D : Type 0} (trait : BusDevice D) (bus : Bus) (store : List D) (addr : ℕ)
    (block : List ℕ) where
  -- A write to an address of a registered range runs that device's `write`, at the range's base and
  -- the distance from it, and changes no other device.
  pub write-routed :
      (e : BusEntry) (d : D)
      → IsValid bus
      → Registered e bus
      → Holds e addr
      → e.dev < length store
      → get_elem? store e.dev ≡ some d
      → let store' = write trait bus store addr block in
        (get_elem? store' e.dev ≡ some (trait.write d e.base (addr - e.base) block))
        × ((j : ℕ) → (j ≡ e.dev) ⊎ (get_elem? store' j ≡ get_elem? store j))
  unfolding write
  write-routed e d v r h lt at =
      rw (find-some bus addr e v r h, write, at)
        (
          get_elem?-set_self store e.dev _ lt,
          λ j. elim (ℕ_discrete j e.dev) [
            | yes same ↦ inl same
            | no other ↦ inr (get_elem?-set_ne store e.dev j _ (λ q. other (sym q)))
          ],
        )

  -- A read returns what that device's `read` fills in, and stores the device's new state.
  pub read-routed :
      (e : BusEntry) (d : D)
      → IsValid bus
      → Registered e bus
      → Holds e addr
      → get_elem? store e.dev ≡ some d
      → let (d', out) = trait.read d e.base (addr - e.base) block in
        read trait bus store addr block ≡ (set store e.dev d', out)
  unfolding read
  read-routed e d v r h at = rw (find-some bus addr e v r h, read, at) refl

Registered-last : (bus : Bus) (e : BusEntry) → Registered e (bus ++ (e ∷ []))
Registered-last [] e = inl refl
Registered-last (x ∷ bus) e = inr (Registered-last bus e)

-- A write into the range registered last reaches the device stored last.
pub write-last :
    {D : Type 0} (trait : BusDevice D) (bus : Bus) (store : List D) (dev : D) (base len addr : ℕ)
    (block : List ℕ)
    → let e : BusEntry = record { base = base; len = len; dev = length store } in
      IsValid (bus ++ (e ∷ []))
      → Holds e addr
      → write trait (bus ++ (e ∷ [])) (store ++ (dev ∷ [])) addr block
        ≡ store ++ (trait.write dev base (addr - base) block ∷ [])
unfolding write
write-last trait bus store dev base len addr block v h =
    let e : BusEntry = record { base = base; len = len; dev = length store } in
    rw
      (
        find-some (bus ++ (e ∷ [])) addr e v (Registered-last bus e) h,
        write,
        get_elem?-append_last store dev,
        set-append_last store dev,
      )
      refl
