-- ===== src/Base/Bits.antt =====
-- Single bits of a word: what `|` and `&` do to each of them, and the word with one bit set.
use Prim.Native.Nat.{ℕ, zero, suc, ◌+◌, ◌*◌, ◌/◌, ◌%◌, ◌^◌, ◌≤◌, ◌<◌, min, max}
use Prim.Native.Nat.{digits, bit_or, bit_and, bit_or-bitwise, bit_and-bitwise}
use mathlib.Core.Path.{◌≡◌, ◌∙◌, refl, ap}
use mathlib.Core.Logic.{◌≢◌}
use native.Mathlib.Nat.{pow-suc}
use native.Mathlib.Omega.{arith}

-- `v >> k`: `k` halvings.
abbrev pub shr : ℕ → ℕ → ℕ
shr v zero = v
shr v (suc k) = shr (v / 2) k

-- `(v >> k) & 1`.
abbrev pub bit_at : ℕ → ℕ → ℕ
bit_at v k = shr v k % 2

pub shr-zero : (k : ℕ) → shr 0 k ≡ 0
shr-zero zero = refl
shr-zero (suc k) = shr-zero k

-- An operation `op` on single digits, applied digit by digit while `left` has digits; `tail` says
-- what becomes of the rest of the other word.
module _ (tail : ℕ → ℕ) (op : ℕ → ℕ → ℕ) (binary : (x y : ℕ) → op (x % 2) (y % 2) < 2)
    (ended : (right k : ℕ) → bit_at (tail right) k ≡ op 0 (bit_at right k)) where
  bit_at-digits :
      (k count left right : ℕ)
      → left ≤ count
      → bit_at (digits tail op count left right) k ≡ op (bit_at left k) (bit_at right k)
  bit_at-digits k zero zero right fits = rw (shr-zero k) (ended right k)
  bit_at-digits k zero (suc left) right fits = absurd (omega arith)
  bit_at-digits k (suc count) zero right fits = rw (shr-zero k) (ended right k)
  bit_at-digits zero (suc count) (suc left) right fits =
      let low = binary (suc left) right in omega arith
  bit_at-digits (suc k) (suc count) (suc left) right fits =
      let low = binary (suc left) right in
      let deeper = digits tail op count (suc left / 2) (right / 2) in
      let halved : (deeper * 2 + op (suc left % 2) (right % 2)) / 2 ≡ deeper = omega arith in
      rw halved (bit_at-digits k count (suc left / 2) (right / 2) (omega arith))

pub bit_at-bit_or : (k a b : ℕ) → bit_at (bit_or a b) k ≡ max (bit_at a k) (bit_at b k)
bit_at-bit_or k a b = rw (bit_or-bitwise a b) (
    bit_at-digits (λ right. right) max (λ x y. omega arith) (λ right i. omega arith) k a a b
      (omega arith))

pub bit_at-bit_and : (k a b : ℕ) → bit_at (bit_and a b) k ≡ min (bit_at a k) (bit_at b k)
bit_at-bit_and k a b = rw (bit_and-bitwise a b) (
    bit_at-digits (λ _. 0) min (λ x y. omega arith) (λ right i. omega (arith, shr-zero i)) k a a b
      (omega arith))

-- The word with bit `k` alone.
pub bit_at-pow_self : (k : ℕ) → bit_at (2 ^ k) k ≡ 1
bit_at-pow_self zero = refl
bit_at-pow_self (suc k) =
    let halved : 2 ^ suc k / 2 ≡ 2 ^ k = omega (arith, pow-suc 2 k) in rw halved (bit_at-pow_self k)

pub bit_at-pow_ne : (k j : ℕ) → k ≢ j → bit_at (2 ^ k) j ≡ 0
bit_at-pow_ne zero zero apart = absurd (apart refl)
bit_at-pow_ne zero (suc j) apart = ap (λ t. t % 2) (shr-zero j)
bit_at-pow_ne (suc k) zero apart = omega (arith, pow-suc 2 k)
bit_at-pow_ne (suc k) (suc j) apart =
    let halved : 2 ^ suc k / 2 ≡ 2 ^ k = omega (arith, pow-suc 2 k) in
    rw halved (bit_at-pow_ne k j (λ e. apart (ap suc e)))

-- A word in which a nonzero single bit was set is not zero.
pub bit_or-pow_ne : (a k : ℕ) → bit_or a (2 ^ k) ≢ 0
bit_or-pow_ne a k e =
    let bit = bit_at-bit_or k a (2 ^ k) in
    let zeroed : bit_at (bit_or a (2 ^ k)) k ≡ 0 = rw e (ap (λ t. t % 2) (shr-zero k)) in
    absurd (omega (arith, bit_at-pow_self k))

pub bit_and-zero : (a : ℕ) → bit_and 0 a ≡ 0
bit_and-zero a = rw (bit_and-bitwise 0 a) refl

-- Digits put beside digits that are all zero.
digits_zero : (count x : ℕ) → x ≤ count → digits (λ right. right) max count x 0 ≡ x
digits_zero zero zero fits = refl
digits_zero zero (suc x) fits = absurd (omega arith)
digits_zero (suc count) zero fits = refl
digits_zero (suc count) (suc x) fits =
    rw (digits_zero count (suc x / 2) (omega arith)) (omega arith)

digits_beside :
    (k count h left l : ℕ)
    → left ≡ h * 2 ^ k
    → left ≤ count
    → l < 2 ^ k
    → digits (λ right. right) max count left l ≡ left + l
digits_beside zero count h left l shape fits low =
    let none_left : l ≡ 0 = omega arith in rw none_left (digits_zero count left fits ∙ omega arith)
digits_beside (suc k) zero h zero l shape fits low = omega arith
digits_beside (suc k) zero h (suc left) l shape fits low = absurd (omega arith)
digits_beside (suc k) (suc count) h zero l shape fits low = omega arith
digits_beside (suc k) (suc count) h (suc left) l shape fits low =
    let even : suc left ≡ (h * 2 ^ k) * 2 = shape ∙ rw (pow-suc 2 k) (grind arith) in
    let rec =
      digits_beside k count h (suc left / 2) (l / 2) (omega (arith, even)) (omega arith)
        (omega (arith, pow-suc 2 k)) in
    rw rec (omega (arith, even))

-- The upper and the lower half of a word, put together.
pub bit_or-beside : (k h l : ℕ) → l < 2 ^ k → bit_or (h * 2 ^ k) l ≡ h * 2 ^ k + l
bit_or-beside k h l low =
    rw (bit_or-bitwise (h * 2 ^ k) l) (digits_beside k _ h _ l refl (omega arith) low)
