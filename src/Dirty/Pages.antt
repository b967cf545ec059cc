-- ===== src/Dirty/Pages.antt =====
-- What `pages` and `drain` report, and what `drain` leaves behind.
use ignition.Base.{
  ℕ, zero, suc, ◌+◌, ◌-◌, ◌*◌, ◌/◌, ◌%◌, ◌≤◌, ◌==◌, ltb, leb, ◌&&◌, false, ◌≡◌, refl, List, [], ◌∷◌,
  ◌++◌, arith, ◌∙◌, bit_at, elem, elem-append, shr-zero, length, ap, Bool-cases, inl, inr,
  if◌then◌else◌,
}
use native.Mathlib.Decide.{dec_lt}
use ignition.Dirty.{
  DirtyTracker, collect_word, collect_from, collect_pages, load, swap_zero, pages, drain, is_dirty,
  is_set, IsValid,
}

elem-collect_word :
    (wi v b n q : ℕ)
    → elem q (collect_word wi v b n)
      ≡ (leb (wi * 64 + b) q && ltb q (wi * 64 + b + n) && bit_at v (q - wi * 64) == 1)
unfolding collect_word
elem-collect_word wi v b zero q = ground arith
elem-collect_word wi v b (suc n) q = elim (dec_lt q (wi * 64 + b + 1)) [
  | yes h ↦ elim (dec_lt q (wi * 64 + b)) [
    | yes below ↦ ground (arith, elem-collect_word wi v (b + 1) n q)
    | no above ↦
        let e : q - wi * 64 ≡ b = omega arith in
        ground (arith, elem-collect_word wi v (b + 1) n q, ap (bit_at v) e)
  ]
  | no h ↦ ground (arith, elem-collect_word wi v (b + 1) n q)
]

-- A word that is zero is skipped, and has no bit to report.
elem-word :
    (wi v q : ℕ)
    → elem q (if v == 0 then [] else collect_word wi v 0 64)
      ≡ (leb (wi * 64) q && ltb q (wi * 64 + 64) && bit_at v (q - wi * 64) == 1)
elem-word wi zero q = ground (arith, shr-zero (q - wi * 64))
elem-word wi (suc v) q = ground (arith, elem-collect_word wi (suc v) 0 64 q)

is_set-cons :
    (v : ℕ) (vs : List ℕ) (r : ℕ)
    → is_set (v ∷ vs) r ≡ (if ltb r 64 then bit_at v r == 1 else is_set vs (r - 64))
is_set-cons v vs r = elim (dec_lt r 64) [
  | yes h ↦
      let e : r / 64 ≡ 0 = omega arith in
      let m : r % 64 ≡ r = omega arith in ground (arith, e, m, ap (bit_at v) m)
  | no h ↦
      let e : r / 64 ≡ suc ((r - 64) / 64) = omega arith in
      let m : r % 64 ≡ (r - 64) % 64 = omega arith in ground (arith, e, m)
]

module _ (read : ℕ → ℕ × ℕ) (whole : (w : ℕ) → (read w).0 ≡ w) where
  elem-collect_from :
      (wi : ℕ) (words : List ℕ) (q : ℕ)
      → elem q (collect_from read wi words).0 ≡ (leb (wi * 64) q && is_set words (q - wi * 64))
  unfolding collect_from
  elem-collect_from wi [] q = ground arith
  elem-collect_from wi (v ∷ vs) q =
      let e : q - (wi + 1) * 64 ≡ q - wi * 64 - 64 = omega arith in
      rw
        (
          whole v,
          elem-append,
          elem-word wi v q,
          elem-collect_from (wi + 1) vs q,
          is_set-cons v vs (q - wi * 64),
          e,
        )
        (ground arith)

length-swapped :
    (wi : ℕ) (words : List ℕ) → length (collect_from swap_zero wi words).1 ≡ length words
unfolding collect_from
length-swapped wi [] = refl
length-swapped wi (v ∷ vs) = ap suc (length-swapped (wi + 1) vs)

-- `xs` rises strictly from `lo` or more, and stays below `hi`.
abbrev pub Within : ℕ → ℕ → List ℕ → Type 0
Within lo hi [] = lo ≤ hi
Within lo hi (x ∷ xs) = (lo ≤ x) × Within (suc x) hi xs

Within-weaken : (lo mid hi : ℕ) (xs : List ℕ) → lo ≤ mid → Within mid hi xs → Within lo hi xs
Within-weaken lo mid hi [] h w = omega arith
Within-weaken lo mid hi (x ∷ xs) h w = (omega arith, w.1)

Within-append :
    (lo mid hi : ℕ) (xs ys : List ℕ) → Within lo mid xs → Within mid hi ys → Within lo hi (xs ++ ys)
Within-append lo mid hi [] ys h w = Within-weaken lo mid hi ys h w
Within-append lo mid hi (x ∷ xs) ys h w = (h.0, Within-append (suc x) mid hi xs ys h.1 w)

collect_word-Within :
    (wi v b n : ℕ) {lo hi : ℕ}
    → lo ≡ wi * 64 + b
    → hi ≡ lo + n
    → Within lo hi (collect_word wi v b n)
unfolding collect_word
collect_word-Within wi v b zero from to = omega arith
collect_word-Within wi v b (suc n) {lo} {hi} from to =
    let rest : Within (suc (wi * 64 + b)) hi (collect_word wi v (b + 1) n) =
      collect_word-Within wi v (b + 1) n (omega arith) (omega arith) in
    elim (Bool-cases (bit_at v b == 1)) [
      | inl e ↦ rw e (omega arith, rest)
      | inr e ↦
          rw e (
            Within-weaken lo (suc (wi * 64 + b)) hi (collect_word wi v (b + 1) n) (omega arith)
              rest)
    ]

word-Within :
    (wi v : ℕ) → Within (wi * 64) ((wi + 1) * 64) (if v == 0 then [] else collect_word wi v 0 64)
word-Within wi v = elim (Bool-cases (v == 0)) [
  | inl e ↦ rw e (omega arith)
  | inr e ↦ rw e (collect_word-Within wi v 0 64 (omega arith) (omega arith))
]

collect_from-Within :
    (wi : ℕ) (words : List ℕ)
    → Within (wi * 64) ((wi + length words) * 64) (collect_from load wi words).0
unfolding collect_from
collect_from-Within wi [] = omega arith
collect_from-Within wi (v ∷ vs) =
    let to : (wi + length (v ∷ vs)) * 64 ≡ (wi + 1 + length vs) * 64 = omega arith in
    rw to (
      Within-append _ _ _ (if v == 0 then [] else collect_word wi v 0 64) _ (word-Within wi v)
        (collect_from-Within (wi + 1) vs))

swap_zero-same :
    (wi : ℕ) (words : List ℕ) → (collect_from swap_zero wi words).0 ≡ (collect_from load wi words).0
unfolding collect_from
swap_zero-same wi [] = refl
swap_zero-same wi (v ∷ vs) = rw (swap_zero-same (wi + 1) vs)

is_set-swapped :
    (wi : ℕ) (words : List ℕ) (q : ℕ) → is_set (collect_from swap_zero wi words).1 q ≡ false
unfolding collect_from
is_set-swapped wi [] q = refl
is_set-swapped wi (v ∷ vs) q =
    rw
      (
        is_set-cons 0 (collect_from swap_zero (wi + 1) vs).1 q,
        is_set-swapped (wi + 1) vs (q - 64),
        shr-zero q,
      )
      (ground arith)

-- `pages` lists exactly the dirty pages, in strictly rising order.
pub pages-is_dirty :
    (t : DirtyTracker)
    → ((q : ℕ) → elem q (pages t) ≡ is_dirty t q) × Within 0 (length t.bits * 64) (pages t)
unfolding pages collect_pages is_dirty
pages-is_dirty t = (
  λ q. rw (elem-collect_from load (λ w. refl) 0 t.bits q) (ground arith),
  rw (let e : length t.bits * 64 ≡ (0 + length t.bits) * 64 = omega arith in e)
      (collect_from-Within 0 t.bits),
)

-- `drain` reports what `pages` would, leaves no page dirty, and keeps the range tracked.
pub drain_lem :
    (t : DirtyTracker)
    → IsValid t
    → let (out, t') = drain t in
      (out ≡ pages t)
      × ((q : ℕ) → is_dirty t' q ≡ false)
      × (t'.base ≡ t.base)
      × (t'.page_count ≡ t.page_count)
      × IsValid t'
unfolding drain pages collect_pages is_dirty
drain_lem t v =
    (swap_zero-same 0 t.bits, is_set-swapped 0 t.bits, refl, refl, length-swapped 0 t.bits ∙ v)
