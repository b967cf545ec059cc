-- ===== src/Dirty.antt =====
-- crates/vmm/src/dirty.rs: the bitmap of guest pages written since the last snapshot.
-- The atomic words are a list; `fetch_or`, `load` and `swap` are single steps on one word, and a
-- word is 64 bits wide. `DirtyTracker` is the one implementation of the trait `DirtySink` of
-- crates/devices/src/virtio/guest_ram.rs.
pub mod Mark
pub mod Pages
pub mod Range
mod Tests
use ignition.Base.{
  ℕ, zero, suc, ◌+◌, ◌-◌, ◌*◌, ◌/◌, ◌%◌, ◌^◌, ◌==◌, ltb, leb, min, if◌then◌else◌, Bool, false, none,
  some, List, [], ◌∷◌, ◌++◌, bit_or, bit_at, get_elem?, set, replicate, ◌≡◌, length,
}

-- The tracking granule.
abbrev pub page : ℕ
page = 16384

pub record DirtyTracker : Type 0 where
  pub base : ℕ
  pub page_count : ℕ
  pub bits : List ℕ

unfoldable pub new : ℕ → ℕ → DirtyTracker
new base size =
    let page_count = (size + (page - 1)) / page in
    record { base = base; page_count = page_count; bits = replicate ((page_count + 63) / 64) 0 }

-- `bits[i]` out of range panics in the source; `IsValid` rules that out.
unfoldable pub mark : DirtyTracker → ℕ → DirtyTracker
mark t ipa =
    if ltb ipa t.base
    then t
    else let p = (ipa - t.base) / page in
      if leb t.page_count p then t else elim (get_elem? t.bits (p / 64)) [
        | none ↦ t
        | some w ↦ record t { bits = set t.bits (p / 64) (bit_or w (2 ^ (p % 64))) }
      ]

-- The inner loop of `collect_pages`, from bit `b` with `n` rounds left.
unfoldable pub collect_word : ℕ → ℕ → ℕ → ℕ → List ℕ
collect_word wi v b zero = []
collect_word wi v b (suc n) =
    let rest = collect_word wi v (b + 1) n in if bit_at v b == 1 then (wi * 64 + b) ∷ rest else rest

-- `read` gives the value read and what it leaves in the word.
unfoldable pub collect_from : (ℕ → ℕ × ℕ) → ℕ → List ℕ → List ℕ × List ℕ
collect_from read wi [] = ([], [])
collect_from read wi (word ∷ words) =
    let (v, left) = read word in
    let (out, lefts) = collect_from read (wi + 1) words in
    ((if v == 0 then [] else collect_word wi v 0 64) ++ out, left ∷ lefts)

unfoldable pub collect_pages : DirtyTracker → (ℕ → ℕ × ℕ) → List ℕ × DirtyTracker
collect_pages t read =
    let (out, words) = collect_from read 0 t.bits in (out, record t { bits = words })

abbrev pub load : ℕ → ℕ × ℕ
load w = (w, w)

abbrev pub swap_zero : ℕ → ℕ × ℕ
swap_zero w = (w, 0)

unfoldable pub pages : DirtyTracker → List ℕ
pages t = (collect_pages t load).0

unfoldable pub drain : DirtyTracker → List ℕ × DirtyTracker
drain t = collect_pages t swap_zero

-- The loop of `mark_dirty` on fuel; it ends by `p > last` or at the top of the address space.
unfoldable pub mark_loop : ℕ → ℕ → ℕ → DirtyTracker → DirtyTracker
mark_loop zero p last t = t
mark_loop (suc fuel) p last t =
    let t' = mark t p in
    let rest = mark_loop fuel (p + page) last t' in
    if leb p last then if leb (2 ^ 64) (p + page) then t' else rest else t

-- `gpa & !(PAGE - 1)` is `gpa / PAGE * PAGE`. The loop runs once for each granule.
unfoldable pub mark_dirty : DirtyTracker → ℕ → ℕ → DirtyTracker
mark_dirty t gpa len =
    if len == 0
    then t
    else let last = min (gpa + (len - 1)) (2 ^ 64 - 1) in
      mark_loop (last / page - gpa / page + 2) (gpa / page * page) last t

-- What the bitmap says of a page.
abbrev pub is_set : List ℕ → ℕ → Bool
is_set words p = elim (get_elem? words (p / 64)) [ none ↦ false | some w ↦ bit_at w (p % 64) == 1 ]

unfoldable pub is_dirty : DirtyTracker → ℕ → Bool
is_dirty t p = is_set t.bits p

-- There is a word for each page.
abbrev pub IsValid : DirtyTracker → Type 0
IsValid t = length t.bits ≡ (t.page_count + 63) / 64
