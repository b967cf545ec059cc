-- ===== src/Fuzz/Inputs.antt =====
-- The next input: its length, and where it lies.
use ignition.Base.{
  ℕ, zero, suc, ◌+◌, ◌≤◌, ◌<◌, min, max, List, [], ◌∷◌, length, take, overwrite, replicate,
  length-set, length-overwrite, ◌≡◌, refl, sym, ap, subst, ◌∙◌, none, arith,
}
use ignition.Fuzz.{
  Rng, below, mutate_byte, mutate_rounds, clamp, mutate, FuzzController, seed_at,
  prepare_next_input,
}

length-take : (n : ℕ) (xs : List ℕ) → length (take n xs) ≡ min n (length xs)
length-take zero xs = omega arith
length-take (suc n) [] = omega arith
length-take (suc n) (x ∷ xs) = omega (arith, length-take n xs)

take-overwrite :
    (xs ys : List ℕ) → length ys ≤ length xs → take (length ys) (overwrite xs 0 ys) ≡ ys
take-overwrite [] [] h = refl
take-overwrite (x ∷ xs) [] h = refl
take-overwrite [] (y ∷ ys) h = absurd (omega arith)
take-overwrite (x ∷ xs) (y ∷ ys) h = cc (take-overwrite xs ys (omega arith))

length-mutate_byte :
    (out : List ℕ) (i choice : ℕ) (r : Rng) → length (mutate_byte out i choice r).0 ≡ length out
unfolding mutate_byte
length-mutate_byte out i zero r = length-set out i _
length-mutate_byte out i (suc zero) r = length-set out i _
length-mutate_byte out i (suc (suc k)) r = length-set out i _

length-mutate_rounds :
    (k : ℕ) (out : List ℕ) (r : Rng) → length (mutate_rounds k out r).0 ≡ length out
unfolding mutate_rounds
length-mutate_rounds zero out r = refl
length-mutate_rounds (suc k) out r =
    let a = below r (length out) in
    let b = below a.1 3 in
    let c = mutate_byte out a.0 b.0 b.1 in
    length-mutate_rounds k c.0 c.1 ∙ length-mutate_byte out a.0 b.0 b.1

-- A mutated input is as long as its seed, but has at least one byte, and is cut to the limit where
-- the limit is one or more.
pub length-mutate :
    (seed : List ℕ) (r : Rng) (max_len : ℕ)
    → length (mutate seed r max_len).0 ≡ min (max max_len 1) (max (length seed) 1)
unfolding mutate clamp
length-mutate [] r max_len =
    length-mutate_rounds (1 + (below r 8).0) (take (max max_len 1) (0 ∷ [])) (below r 8).1
    ∙ length-take (max max_len 1) (0 ∷ [])
length-mutate (b ∷ seed) r max_len =
    let e =
      length-mutate_rounds (1 + (below r 8).0) (take (max max_len 1) (b ∷ seed)) (below r 8).1
      ∙ length-take (max max_len 1) (b ∷ seed) in
    omega (arith, e)

-- With no replay, and a window that is not empty, the next input fits in the window and has at least
-- one byte: the window starts with it, it is remembered as the last input, and the counters are zero
-- for the run.
pub prepare_next_input_lem :
    (c : FuzzController)
    → c.replay ≡ none
    → 0 < length c.window
    → (let (n, c') = prepare_next_input c in
        (n ≤ length c'.window)
        × (0 < n)
        × (n ≡ length c'.last_input)
        × (take n c'.window ≡ c'.last_input)
        × (c'.cov ≡ replicate (length c.cov) 0))
unfolding prepare_next_input
prepare_next_input_lem c e h =
    let pick = below c.rng (length c.corpus) in
    let drawn = mutate (seed_at c.corpus pick.0) pick.1 (length c.window) in
    let input : List ℕ = drawn.0 in
    let n = min (length input) (length c.window) in
    let c' : FuzzController = record c {
      cov = replicate (length c.cov) 0;
      rng = drawn.1;
      window = overwrite c.window 0 (take n input);
      last_input = take n input;
    } in
    let run : prepare_next_input c ≡ (n, c') = ground arith in
    let size = length-mutate (seed_at c.corpus pick.0) pick.1 (length c.window) in
    let kept = length-overwrite c.window 0 (take n input) in
    let cut = length-take n input in
    let same : n ≡ length (take n input) = omega (arith, cut) in
    subst
      (λ r.
        (r.0 ≤ length r.1.window)
        × (0 < r.0)
        × (r.0 ≡ length r.1.last_input)
        × (take r.0 r.1.window ≡ r.1.last_input)
        × (r.1.cov ≡ replicate (length c.cov) 0))
      (sym run)
      (
        omega (arith, kept),
        omega (arith, size),
        same,
        ap (λ k. take k (overwrite c.window 0 (take n input))) same
            ∙ take-overwrite c.window (take n input) (omega (arith, cut)),
        refl,
      )
