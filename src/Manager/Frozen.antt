-- ===== src/Manager/Frozen.antt =====
-- Saving the frozen devices and restoring them in place.
use ignition.Base.{
  ℕ, ◌≡◌, ◌≢◌, refl, sym, subst, ◌∙◌, some, List, [], ◌∷◌, get_elem?, set, arith, All, All-map,
  get_elem?-set_self, get_elem?-set_ne, get_elem?-some_lt,
}
use ignition.Bus.{MmioDevice}
use ignition.Manager.{Record, DeviceRecord, find_base, save, restore_one, restore}

-- No two records share a window's base or a device.
abbrev pub Distinct : List Record → Type 0
Distinct [] = Unit
Distinct (r ∷ rs) = All (λ (s : Record). (s.base ≢ r.base) × (s.dev ≢ r.dev)) rs × Distinct rs

module _ {D J : Type 0} (trait : MmioDevice D J) where
  -- The device of `r` now, the one that was saved, and that the first takes up the other's state.
  pub record Accepts (store now : List D) (r : Record) : Type 0 where
    pub saved : D
    pub device : D
    pub was : get_elem? store r.dev ≡ some saved
    pub is : get_elem? now r.dev ≡ some device
    pub takes_up : trait.save (trait.restore device (trait.save saved)).1 ≡ trait.save saved

  abbrev Found : List Record → Record → Type 0
  Found live r = find_base trait live r.base ≡ some r

  Found-later :
      (r : Record) (live rs : List Record)
      → All (λ (s : Record). (s.base ≢ r.base) × (s.dev ≢ r.dev)) rs
      → All (Found live) rs
      → All (Found (r ∷ live)) rs
  unfolding find_base
  Found-later r live [] d f = tt
  Found-later r live (s ∷ rs) d f = (ground (arith, d.0.0, f.0), Found-later r live rs d.1 f.1)

  -- Every record is the one found at its base.
  Found-All : (live : List Record) → Distinct live → All (Found live) live
  unfolding find_base
  Found-All [] d = tt
  Found-All (r ∷ rs) d = (ground arith, Found-later r rs rs d.0 (Found-All rs d.1))

  -- The record as `save` writes it.
  abbrev saved_as : Record → D → DeviceRecord J
  saved_as r d = record {
    id = r.id;
    base = r.base;
    size = r.size;
    spi = r.spi;
    fdt_kind = r.fdt_kind;
    state = trait.save d;
  }

  save-cons :
      (store : List D) (r : Record) (rs : List Record) (d : D)
      → get_elem? store r.dev ≡ some d
      → save trait store (r ∷ rs) ≡ saved_as r d ∷ save trait store rs
  unfolding save
  save-cons store r rs d e = ground arith

  restore_one-Found :
      (live : List Record) (now : List D) (r : Record) (saved device : D)
      → Found live r
      → get_elem? now r.dev ≡ some device
      → restore_one trait live now (saved_as r saved)
        ≡ set now r.dev (trait.restore device (trait.save saved)).1
  unfolding restore_one
  restore_one-Found live now r saved device f e = ground arith

  restore-cons :
      (live : List Record) (store now : List D) (r : Record) (rs : List Record)
      (a : Accepts store now r)
      → Found live r
      → restore trait live now (save trait store (r ∷ rs))
        ≡ restore trait live
            (set now r.dev (trait.restore a.device (trait.save a.saved)).1)
            (save trait store rs)
  unfolding restore
  restore-cons live store now r rs a f =
      rw
        (
          save-cons store r rs a.saved a.was,
          restore,
          restore_one-Found live now r a.saved a.device f a.is,
        )
        refl

  -- Writing one device leaves the others' readiness alone.
  Accepts-set :
      (store now : List D) (r : Record) (d : D) (rs : List Record)
      → All (λ (s : Record). (s.base ≢ r.base) × (s.dev ≢ r.dev)) rs
      → All (Accepts store now) rs
      → All (Accepts store (set now r.dev d)) rs
  Accepts-set store now r d [] k a = tt
  Accepts-set store now r d (s ∷ rs) k (a, rest) = (
    record {
      saved = a.saved;
      device = a.device;
      was = a.was;
      is = get_elem?-set_ne now r.dev s.dev d (λ e. k.0.1 (sym e)) ∙ a.is;
      takes_up = a.takes_up;
    },
    Accepts-set store now r d rs k.1 rest,
  )

  -- A device that no restored record names keeps its state.
  restore-frame :
      (live : List Record) (store now : List D) (rs : List Record) (j : ℕ)
      → All (Found live) rs
      → Distinct rs
      → All (λ (s : Record). s.dev ≢ j) rs
      → All (Accepts store now) rs
      → get_elem? (restore trait live now (save trait store rs)) j ≡ get_elem? now j
  unfolding restore save
  restore-frame live store now [] j f d k a = refl
  restore-frame live store now (r ∷ rs) j f d k (a, rest) =
      let d' = (trait.restore a.device (trait.save a.saved)).1 in
      let now' = set now r.dev d' in
      let later =
        restore-frame live store now' rs j f.1 d.1 k.1 (Accepts-set store now r d' rs d.0 rest) in
      rw (restore-cons live store now r rs a f.0) (later ∙ get_elem?-set_ne now r.dev j d' k.0)

  -- A device of `rs` after the restore saves what it saved before.
  abbrev SavesAs : List D → List D → Record → Type 0
  SavesAs store after r =
      (d : D) × (d' : D) × (get_elem? store r.dev ≡ some d)
      × (get_elem? after r.dev ≡ some d')
      × (trait.save d' ≡ trait.save d)

  dev_apart :
      (r : Record) (rs : List Record)
      → All (λ (s : Record). (s.base ≢ r.base) × (s.dev ≢ r.dev)) rs
      → All (λ (s : Record). s.dev ≢ r.dev) rs
  dev_apart r rs d = All-map _ _ rs (λ s h. h.1) d

  restore-SavesAs :
      (live : List Record) (store now : List D) (rs : List Record)
      → All (Found live) rs
      → Distinct rs
      → All (Accepts store now) rs
      → All (SavesAs store (restore trait live now (save trait store rs))) rs
  unfolding restore
  restore-SavesAs live store now [] f d a = tt
  restore-SavesAs live store now (r ∷ rs) f d (a, rest) =
      let d' = (trait.restore a.device (trait.save a.saved)).1 in
      let now' = set now r.dev d' in
      let ready = Accepts-set store now r d' rs d.0 rest in
      let mine =
        restore-frame live store now' rs r.dev f.1 d.1 (dev_apart r rs d.0) ready
        ∙ get_elem?-set_self now r.dev d' (get_elem?-some_lt now r.dev a.device a.is) in
      let later = restore-SavesAs live store now' rs f.1 d.1 ready in
      subst (λ after. All (SavesAs store after) (r ∷ rs))
        (sym (restore-cons live store now r rs a f.0))
        ((a.saved, d', a.was, mine, a.takes_up), later)

  save-SavesAs :
      (store after : List D) (rs : List Record)
      → All (SavesAs store after) rs
      → save trait after rs ≡ save trait store rs
  unfolding save
  save-SavesAs store after [] h = refl
  save-SavesAs store after (r ∷ rs) ((d, d', was, is, same), rest) =
      ground (arith, save-SavesAs store after rs rest)

  -- Restoring what was saved brings every device back to a state that saves the same, whatever
  -- its state has become, if the records have bases and devices of their own and each device takes
  -- up what it has saved itself.
  pub save-restore :
      (live : List Record) (store now : List D)
      → Distinct live
      → All (Accepts store now) live
      → save trait (restore trait live now (save trait store live)) live ≡ save trait store live
  save-restore live store now d a =
      save-SavesAs store _ live (restore-SavesAs live store now live (Found-All live d) d a)
