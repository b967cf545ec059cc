-- ===== src/Vcpus/Tally.antt =====
-- How many of the first `n` threads stand where a test says.
use ignition.Base.{ℕ, zero, suc, ◌+◌, ◌≤◌, ◌<◌, Bool, true, false, ◌≡◌, refl, arith}
use native.Mathlib.Decide.{ℕ_discrete}
use ignition.Vcpus.{put}

abbrev pub bit : Bool → ℕ
bit true = 1
bit false = 0

module _ {A : Type 0} (p : A → Bool) where
  pub tally : ℕ → (ℕ → A) → ℕ
  tally zero f = 0
  tally (suc n) f = bit (p (f n)) + tally n f

  tally-put_beyond : (n : ℕ) (f : ℕ → A) (i : ℕ) (a : A) → n ≤ i → tally n (put f i a) ≡ tally n f
  unfolding tally
  tally-put_beyond zero f i a h = refl
  tally-put_beyond (suc n) f i a h = ground (arith, tally-put_beyond n f i a)

  -- Moving one thread changes the count by that thread.
  pub tally-put :
      (n : ℕ) (f : ℕ → A) (i : ℕ) (a : A)
      → i < n
      → tally n (put f i a) + bit (p (f i)) ≡ tally n f + bit (p a)
  unfolding tally
  tally-put zero f i a h = omega arith
  tally-put (suc n) f i a h = elim (ℕ_discrete i n) [
    | yes last ↦ ground (arith, tally-put_beyond n f i a)
    | no other ↦ ground (arith, tally-put n f i a)
  ]

  pub tally-le : (n : ℕ) (f : ℕ → A) → tally n f ≤ n
  unfolding tally
  tally-le zero f = omega arith
  tally-le (suc n) f = ground (arith, tally-le n f)

  pub tally-none : (n : ℕ) (f : ℕ → A) → ((j : ℕ) → j < n → p (f j) ≡ false) → tally n f ≡ 0
  unfolding tally
  tally-none zero f h = refl
  tally-none (suc n) f h =
      let rest = tally-none n f (λ j l. h j (omega arith)) in
      ground (arith, rest, h n (omega arith))

  -- A full count has every thread in it.
  pub tally-full : (n : ℕ) (f : ℕ → A) (j : ℕ) → tally n f ≡ n → j < n → p (f j) ≡ true
  unfolding tally
  tally-full zero f j e h = absurd (omega arith)
  tally-full (suc n) f j e h = elim (ℕ_discrete j n) [
    | yes last ↦ ground (arith, tally-le n f)
    | no other ↦ ground (arith, tally-le n f, tally-full n f j)
  ]

  -- A thread that is in the count makes it at least one.
  pub tally-some : (n : ℕ) (f : ℕ → A) (j : ℕ) → j < n → p (f j) ≡ true → 1 ≤ tally n f
  unfolding tally
  tally-some zero f j h e = omega arith
  tally-some (suc n) f j h e = elim (ℕ_discrete j n) [
    | yes last ↦ ground arith
    | no other ↦ ground (arith, tally-some n f j)
  ]

-- Two tests that exclude each other count different threads.
pub tally-apart :
    {A : Type 0} (p q : A → Bool) (n : ℕ) (f : ℕ → A)
    → ((a : A) → p a ≡ true → q a ≡ false)
    → tally p n f + tally q n f ≤ n
unfolding tally
tally-apart p q zero f h = omega arith
tally-apart p q (suc n) f h = ground (arith, tally-apart p q n f h, h (f n))
