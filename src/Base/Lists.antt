-- ===== src/Base/Lists.antt =====
-- Arrays and vectors as lists, measured and indexed by native numbers.
use Prim.Native.Nat.{ℕ, zero, suc, ◌+◌, ◌-◌, ◌≤◌, ◌<◌}
use mathlib.Core.Path.{◌≡◌, refl, ap}
use mathlib.Core.Logic.{◌≢◌, ◌⊎◌, inl, inr}
use mathlib.Core.List.{List, [], ◌∷◌, ◌++◌}
use mathlib.Core.Option.{Option, none, some}
use native.Mathlib.Omega.{arith}

module _ {ℓ} {A : Type ℓ} where
  abbrev pub length : List A → ℕ
  length [] = 0
  length (x ∷ xs) = suc (length xs)

  abbrev pub get_elem? : List A → ℕ → Option A
  get_elem? [] i = none
  get_elem? (x ∷ xs) zero = some x
  get_elem? (x ∷ xs) (suc i) = get_elem? xs i

  -- A write out of bounds changes nothing.
  abbrev pub set : List A → ℕ → A → List A
  set [] i v = []
  set (x ∷ xs) zero v = v ∷ xs
  set (x ∷ xs) (suc i) v = x ∷ set xs i v

  abbrev pub take : ℕ → List A → List A
  take zero xs = []
  take (suc n) [] = []
  take (suc n) (x ∷ xs) = x ∷ take n xs

  abbrev pub drop : ℕ → List A → List A
  drop zero xs = xs
  drop (suc n) [] = []
  drop (suc n) (x ∷ xs) = drop n xs

  abbrev pub replicate : ℕ → A → List A
  replicate zero a = []
  replicate (suc n) a = a ∷ replicate n a

  -- `xs[i..i + n]`.
  abbrev pub slice : List A → ℕ → ℕ → List A
  slice xs zero n = take n xs
  slice [] (suc i) n = []
  slice (x ∷ xs) (suc i) n = slice xs i n

  -- `xs[i..i + ys.len()].copy_from_slice(ys)`; what would fall behind the end is lost.
  abbrev pub overwrite : List A → ℕ → List A → List A
  overwrite [] i ys = []
  overwrite (x ∷ xs) (suc i) ys = x ∷ overwrite xs i ys
  overwrite (x ∷ xs) zero [] = x ∷ xs
  overwrite (x ∷ xs) zero (y ∷ ys) = y ∷ overwrite xs zero ys

module _ {ℓ} {A : Type ℓ} where
  pub length-append : (xs ys : List A) → length (xs ++ ys) ≡ length xs + length ys
  length-append [] ys = omega arith
  length-append (x ∷ xs) ys = omega (arith, length-append xs ys)

  pub length-set : (xs : List A) (i : ℕ) (v : A) → length (set xs i v) ≡ length xs
  length-set [] i v = refl
  length-set (x ∷ xs) zero v = refl
  length-set (x ∷ xs) (suc i) v = ap suc (length-set xs i v)

  pub get_elem?-set_self :
      (xs : List A) (i : ℕ) (v : A) → i < length xs → get_elem? (set xs i v) i ≡ some v
  get_elem?-set_self [] i v h = elim h [ ]
  get_elem?-set_self (x ∷ xs) zero v h = refl
  get_elem?-set_self (x ∷ xs) (suc i) v h = get_elem?-set_self xs i v (omega arith)

  pub get_elem?-set_ne :
      (xs : List A) (i j : ℕ) (v : A) → i ≢ j → get_elem? (set xs i v) j ≡ get_elem? xs j
  get_elem?-set_ne [] i j v h = refl
  get_elem?-set_ne (x ∷ xs) zero zero v h = absurd (h refl)
  get_elem?-set_ne (x ∷ xs) zero (suc j) v h = refl
  get_elem?-set_ne (x ∷ xs) (suc i) zero v h = refl
  get_elem?-set_ne (x ∷ xs) (suc i) (suc j) v h = get_elem?-set_ne xs i j v (λ e. h (ap suc e))

  pub length-overwrite :
      (xs : List A) (i : ℕ) (ys : List A) → length (overwrite xs i ys) ≡ length xs
  length-overwrite [] i ys = refl
  length-overwrite (x ∷ xs) (suc i) ys = ap suc (length-overwrite xs i ys)
  length-overwrite (x ∷ xs) zero [] = refl
  length-overwrite (x ∷ xs) zero (y ∷ ys) = ap suc (length-overwrite xs zero ys)

  take-all : (xs : List A) → take (length xs) xs ≡ xs
  take-all [] = refl
  take-all (x ∷ xs) = ap (λ t. x ∷ t) (take-all xs)

  -- What was written is read back.
  pub slice-overwrite_self :
      (xs : List A) (i : ℕ) (ys : List A)
      → i + length ys ≤ length xs
      → slice (overwrite xs i ys) i (length ys) ≡ ys
  slice-overwrite_self [] zero [] h = refl
  slice-overwrite_self [] zero (y ∷ ys) h = absurd (omega arith)
  slice-overwrite_self [] (suc i) ys h = absurd (omega arith)
  slice-overwrite_self (x ∷ xs) (suc i) ys h = slice-overwrite_self xs i ys (omega arith)
  slice-overwrite_self (x ∷ xs) zero [] h = refl
  slice-overwrite_self (x ∷ xs) zero (y ∷ ys) h =
      ap (λ t. y ∷ t) (slice-overwrite_self xs zero ys (omega arith))

  -- A range that the write does not meet keeps its contents.
  pub slice-overwrite_apart :
      (xs : List A) (i : ℕ) (ys : List A) (j n : ℕ)
      → (j + n ≤ i) ⊎ (i + length ys ≤ j)
      → slice (overwrite xs i ys) j n ≡ slice xs j n
  slice-overwrite_apart [] i ys j n h = refl
  slice-overwrite_apart (x ∷ xs) (suc i) ys zero zero h = refl
  slice-overwrite_apart (x ∷ xs) (suc i) ys zero (suc n) h =
      ap (λ t. x ∷ t) (slice-overwrite_apart xs i ys zero n (omega arith))
  slice-overwrite_apart (x ∷ xs) (suc i) ys (suc j) n h =
      slice-overwrite_apart xs i ys j n (omega arith)
  slice-overwrite_apart (x ∷ xs) zero [] j n h = refl
  slice-overwrite_apart (x ∷ xs) zero (y ∷ ys) zero zero h = refl
  slice-overwrite_apart (x ∷ xs) zero (y ∷ ys) zero (suc n) h = absurd (omega arith)
  slice-overwrite_apart (x ∷ xs) zero (y ∷ ys) (suc j) n h =
      slice-overwrite_apart xs zero ys j n (omega arith)

  -- A single element outside the range of a write is left alone.
  pub get_elem?-overwrite_apart :
      (xs : List A) (i : ℕ) (ys : List A) (j : ℕ)
      → (j < i) ⊎ (i + length ys ≤ j)
      → get_elem? (overwrite xs i ys) j ≡ get_elem? xs j
  get_elem?-overwrite_apart [] i ys j h = refl
  get_elem?-overwrite_apart (x ∷ xs) (suc i) ys zero h = refl
  get_elem?-overwrite_apart (x ∷ xs) (suc i) ys (suc j) h =
      get_elem?-overwrite_apart xs i ys j (omega arith)
  get_elem?-overwrite_apart (x ∷ xs) zero [] j h = refl
  get_elem?-overwrite_apart (x ∷ xs) zero (y ∷ ys) zero h = absurd (omega arith)
  get_elem?-overwrite_apart (x ∷ xs) zero (y ∷ ys) (suc j) h =
      get_elem?-overwrite_apart xs zero ys j (omega arith)

  pub length-slice : (xs : List A) (i n : ℕ) → i + n ≤ length xs → length (slice xs i n) ≡ n
  length-slice xs zero zero h = refl
  length-slice [] zero (suc n) h = absurd (omega arith)
  length-slice (x ∷ xs) zero (suc n) h = ap suc (length-slice xs zero n (omega arith))
  length-slice [] (suc i) n h = absurd (omega arith)
  length-slice (x ∷ xs) (suc i) n h = length-slice xs i n (omega arith)

module _ {ℓ} {A : Type ℓ} where
  -- An element inside the range of a write is the one written.
  pub get_elem?-overwrite_in :
      (xs : List A) (i : ℕ) (ys : List A) (j : ℕ)
      → i ≤ j
      → j < i + length ys
      → j < length xs
      → get_elem? (overwrite xs i ys) j ≡ get_elem? ys (j - i)
  get_elem?-overwrite_in [] i ys j a b c = absurd (omega arith)
  get_elem?-overwrite_in (x ∷ xs) (suc i) ys zero a b c = absurd (omega arith)
  get_elem?-overwrite_in (x ∷ xs) (suc i) ys (suc j) a b c =
      let e : suc j - suc i ≡ j - i = omega arith in
      rw e (get_elem?-overwrite_in xs i ys j (omega arith) (omega arith) (omega arith))
  get_elem?-overwrite_in (x ∷ xs) zero [] j a b c = absurd (omega arith)
  get_elem?-overwrite_in (x ∷ xs) zero (y ∷ ys) zero a b c = refl
  get_elem?-overwrite_in (x ∷ xs) zero (y ∷ ys) (suc j) a b c =
      let e : j - 0 ≡ j = omega arith in
      let e' : suc j - 0 ≡ suc j = omega arith in
      rw e'
        (rw e at (get_elem?-overwrite_in xs zero ys j (omega arith) (omega arith) (omega arith)))

  pub get_elem?-slice :
      (xs : List A) (i n k : ℕ) → k < n → get_elem? (slice xs i n) k ≡ get_elem? xs (i + k)
  get_elem?-slice [] zero zero k h = absurd (omega arith)
  get_elem?-slice [] zero (suc n) k h = refl
  get_elem?-slice [] (suc i) n k h = refl
  get_elem?-slice (x ∷ xs) zero zero k h = absurd (omega arith)
  get_elem?-slice (x ∷ xs) zero (suc n) zero h = refl
  get_elem?-slice (x ∷ xs) zero (suc n) (suc k) h =
      let e : 0 + suc k ≡ suc (0 + k) = omega arith in
      rw e (get_elem?-slice xs zero n k (omega arith))
  get_elem?-slice (x ∷ xs) (suc i) n k h =
      let e : suc i + k ≡ suc (i + k) = omega arith in rw e (get_elem?-slice xs i n k h)

  pub get_elem?-ge : (xs : List A) (i : ℕ) → length xs ≤ i → get_elem? xs i ≡ none
  get_elem?-ge [] i h = refl
  get_elem?-ge (x ∷ xs) zero h = absurd (omega arith)
  get_elem?-ge (x ∷ xs) (suc i) h = get_elem?-ge xs i (omega arith)

  -- Lists with the same elements at the same places are equal.
  pub get_elem?_ext : (xs ys : List A) → ((i : ℕ) → get_elem? xs i ≡ get_elem? ys i) → xs ≡ ys
  get_elem?_ext [] [] h = refl
  get_elem?_ext [] (y ∷ ys) h = cc (h 0)
  get_elem?_ext (x ∷ xs) [] h = cc (h 0)
  get_elem?_ext (x ∷ xs) (y ∷ ys) h =
      let head : some x ≡ some y = h 0 in cc (head, get_elem?_ext xs ys (λ i. h (suc i)))

  pub slice-append_skip : (xs ys : List A) (n : ℕ) → slice (xs ++ ys) (length xs) n ≡ slice ys 0 n
  slice-append_skip [] ys n = refl
  slice-append_skip (x ∷ xs) ys n = slice-append_skip xs ys n

  pub slice-append_head : (xs ys : List A) → slice (xs ++ ys) 0 (length xs) ≡ xs
  slice-append_head [] ys = refl
  slice-append_head (x ∷ xs) ys = ap (λ t. x ∷ t) (slice-append_head xs ys)

module _ {ℓ} {A : Type ℓ} where
  pub length-replicate : (n : ℕ) (a : A) → length (replicate n a) ≡ n
  length-replicate zero a = refl
  length-replicate (suc n) a = ap suc (length-replicate n a)

  pub get_elem?-replicate : (n : ℕ) (a : A) (i : ℕ) → i < n → get_elem? (replicate n a) i ≡ some a
  get_elem?-replicate zero a i h = absurd (omega arith)
  get_elem?-replicate (suc n) a zero h = refl
  get_elem?-replicate (suc n) a (suc i) h = get_elem?-replicate n a i (omega arith)

module _ {ℓ} {A : Type ℓ} where
  pub get_elem?-append_last :
      (xs : List A) (a : A) → get_elem? (xs ++ (a ∷ [])) (length xs) ≡ some a
  get_elem?-append_last [] a = refl
  get_elem?-append_last (x ∷ xs) a = get_elem?-append_last xs a

  pub set-append_last :
      (xs : List A) (a b : A) → set (xs ++ (a ∷ [])) (length xs) b ≡ xs ++ (b ∷ [])
  set-append_last [] a b = refl
  set-append_last (x ∷ xs) a b = ap (λ t. x ∷ t) (set-append_last xs a b)

  pub get_elem?-some_lt : (xs : List A) (i : ℕ) (a : A) → get_elem? xs i ≡ some a → i < length xs
  get_elem?-some_lt [] i a e = cc
  get_elem?-some_lt (x ∷ xs) zero a e = omega arith
  get_elem?-some_lt (x ∷ xs) (suc i) a e = omega (arith, get_elem?-some_lt xs i a e)

  pub set-set : (xs : List A) (i : ℕ) (a b : A) → set (set xs i a) i b ≡ set xs i b
  set-set [] i a b = refl
  set-set (x ∷ xs) zero a b = refl
  set-set (x ∷ xs) (suc i) a b = ap (λ t. x ∷ t) (set-set xs i a b)

  pub set-get_elem? : (xs : List A) (i : ℕ) (a : A) → get_elem? xs i ≡ some a → set xs i a ≡ xs
  set-get_elem? [] i a e = refl
  set-get_elem? (x ∷ xs) zero a e = let same : x ≡ a = cc in rw same refl
  set-get_elem? (x ∷ xs) (suc i) a e = ap (λ t. x ∷ t) (set-get_elem? xs i a e)

  pub List-cases : (xs : List A) → (xs ≡ []) ⊎ ((x : A) × (rest : List A) × (xs ≡ x ∷ rest))
  List-cases [] = inl refl
  List-cases (x ∷ xs) = inr (x, xs, refl)

  pub take-append_drop : (n : ℕ) (xs : List A) → take n xs ++ drop n xs ≡ xs
  take-append_drop zero xs = refl
  take-append_drop (suc n) [] = refl
  take-append_drop (suc n) (x ∷ xs) = ap (λ t. x ∷ t) (take-append_drop n xs)

  pub length-drop : (n : ℕ) (xs : List A) → length (drop n xs) ≡ length xs - n
  length-drop zero xs = omega arith
  length-drop (suc n) [] = omega arith
  length-drop (suc n) (x ∷ xs) = omega (arith, length-drop n xs)
