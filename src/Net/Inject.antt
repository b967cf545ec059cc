-- ===== src/Net/Inject.antt =====
-- A frame into the guest: its bytes lie in the buffers of the chain, in order.
use ignition.Base.{
  ℕ, zero, suc, ◌+◌, ◌-◌, ◌≤◌, leb, min, true, ◌≡◌, refl, sym, ap, ◌∙◌, ◌⊎◌, inl, inr, some, List,
  [], ◌∷◌, length, arith, All, All-map, subst, Bool-cases, slice, length-slice,
}
use ignition.Ram.{GuestRam, read_slice, write_slice}
use ignition.Ram.Slices.{
  Fits, Inside, offset-cases, write_slice-true, write_slice-place, read_slice-write_slice,
  read_slice-write_apart,
}
use ignition.Queue.{Desc}
use ignition.Queue.Buffers.{Apart, total}
use ignition.Net.{place, place_all}

-- The buffers are writable, lie in memory and do not overlap.
abbrev pub Receivable : GuestRam → List Desc → Type 0
Receivable mem [] = Unit
Receivable mem (d ∷ ds) =
    (d.writable ≡ true) × Inside mem d.addr d.len × All (Apart d) ds × Receivable mem ds

-- The bytes of the payload from `off` on lie in the buffers, each filled before the next.
abbrev pub Laid : GuestRam → List Desc → List ℕ → ℕ → Type 0
Laid mem [] payload off = Unit
Laid mem (d ∷ ds) payload off =
    let n = min d.len (length payload - off) in
    (read_slice mem d.addr n ≡ some (slice payload off n)) × Laid mem ds payload (off + n)

pub Receivable-moved :
    (mem mem' : GuestRam) (ds : List Desc)
    → mem'.base ≡ mem.base
    → length mem'.bytes ≡ length mem.bytes
    → Receivable mem ds
    → Receivable mem' ds
Receivable-moved mem mem' [] b l h = tt
Receivable-moved mem mem' (d ∷ ds) b l h =
    (h.0, (omega (arith, h.1.0), omega (arith, h.1.1)), h.2, Receivable-moved mem mem' ds b l h.3)

slice-zero : (xs : List ℕ) (i : ℕ) → slice xs i 0 ≡ []
slice-zero xs zero = refl
slice-zero [] (suc i) = refl
slice-zero (x ∷ xs) (suc i) = slice-zero xs i

read_slice-empty :
    (mem : GuestRam) (d : Desc)
    → Fits mem
    → Inside mem d.addr d.len
    → read_slice mem d.addr 0 ≡ some []
unfolding read_slice
read_slice-empty mem d f h = elim (offset-cases mem d.addr 0 f) [
  | inl (_, e) ↦ rw (read_slice, e) (ap some (slice-zero mem.bytes (d.addr - mem.base)))
  | inr (outside, _) ↦ absurd (outside (h.0, omega (arith, h.1)))
]

-- What one round does: the bytes are in the buffer, and nothing else has changed.
unfoldable pub Placed : GuestRam → Desc → List ℕ → ℕ → ℕ × GuestRam → Type 0
Placed mem d payload off (off', mem') =
    let n = min d.len (length payload - off) in
    (off' ≡ off + n)
    × (read_slice mem' d.addr n ≡ some (slice payload off n))
    × (mem'.base ≡ mem.base)
    × (length mem'.bytes ≡ length mem.bytes)
    × ((a k : ℕ)
        → (a + k ≤ d.addr) ⊎ (d.addr + d.len ≤ a)
        → read_slice mem' a k ≡ read_slice mem a k)

pub place-Placed :
    (mem : GuestRam) (d : Desc) (payload : List ℕ) (off : ℕ)
    → Fits mem
    → d.writable ≡ true
    → Inside mem d.addr d.len
    → off ≤ length payload
    → Placed mem d payload off (place mem d payload off)
unfolding place Placed
place-Placed mem d payload off f w inside within = elim (Bool-cases (leb (length payload) off)) [
  | inl e ↦
      let run : place mem d payload off ≡ (off, mem) = ground arith in
      let none_left : min d.len (length payload - off) ≡ 0 = ground arith in
      subst (λ r. Placed mem d payload off r) (sym run)
        (
          omega arith,
          rw (none_left, slice-zero payload off) (read_slice-empty mem d f inside),
          refl,
          refl,
          λ a k h. refl,
        )
  | inr e ↦
      let n = min d.len (length payload - off) in
      let buf = slice payload off n in
      let long : length buf ≡ n = length-slice payload off n (ground arith) in
      let put = write_slice-place mem d.addr buf in
      let done : (write_slice mem d.addr buf).0 ≡ true =
        (write_slice-true mem d.addr buf f).1 (inside.0, omega (arith, inside.1, long)) in
      let run : place mem d payload off ≡ (off + n, (write_slice mem d.addr buf).1) =
        ground arith in
      subst (λ r. Placed mem d payload off r) (sym run)
        (
          refl,
          subst (λ l. read_slice (write_slice mem d.addr buf).1 d.addr l ≡ some buf) long
              (read_slice-write_slice mem d.addr buf done),
          put.0,
          put.1,
          λ a k h.
              read_slice-write_apart mem d.addr buf a k
                (elim h [ inl x ↦ inl x | inr x ↦ inr (omega (arith, long, x)) ]),
        )
]

-- Writable buffers that lie in memory and do not overlap are filled in order with the payload's
-- bytes from `off` on, as many as fit; that many are counted, and memory outside them stays.
pub place_all-lays :
    (mem : GuestRam) (ds : List Desc) (payload : List ℕ) (off : ℕ)
    → Fits mem
    → Receivable mem ds
    → off ≤ length payload
    → (mem' : GuestRam) × (place_all mem ds payload off
        ≡ (off + min (total ds) (length payload - off), mem'))
      × Laid mem' ds payload off
      × ((a k : ℕ)
          → All (λ d. (a + k ≤ d.addr) ⊎ (d.addr + d.len ≤ a)) ds
          → read_slice mem' a k ≡ read_slice mem a k)
unfolding place_all Placed
place_all-lays mem [] payload off f h within =
    (mem, ap (λ n. (n, mem)) (omega arith), tt, λ a k apart. refl)
place_all-lays mem (d ∷ ds) payload off f h within =
    let placed = place-Placed mem d payload off f h.0 h.1 within in
    let (off1, mem1) = place mem d payload off in
    let n = min d.len (length payload - off) in
    let fits : Fits mem1 = omega (arith, placed.2, placed.3, f) in
    let (mem', run, laid, frame) =
      place_all-lays mem1 ds payload (off + n) fits
        (Receivable-moved mem mem1 ds placed.2 placed.3 h.3) (omega arith) in
    let start : place_all mem1 ds payload off1 ≡ place_all mem1 ds payload (off + n) =
      ap (λ o. place_all mem1 ds payload o) placed.0 in
    (
      mem',
      start ∙ run ∙ ap (λ o. (o, mem')) (omega arith),
      (
        frame d.addr n (
              All-map (Apart d) (λ e. (d.addr + n ≤ e.addr) ⊎ (e.addr + e.len ≤ d.addr)) ds
                (λ e o. elim o [ inl x ↦ inl (omega arith) | inr x ↦ inr x ]) h.2)
            ∙ placed.1,
        laid,
      ),
      λ a k apart. frame a k apart.1 ∙ placed.4 a k apart.0,
    )
