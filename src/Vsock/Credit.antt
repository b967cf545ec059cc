-- ===== src/Vsock/Credit.antt =====
-- The credit of a stream from host to guest: what is read from the host fits in the guest.
use ignition.Base.{
  ℕ, ◌+◌, ◌-◌, ◌%◌, ◌^◌, ◌≤◌, ◌<◌, ◌==◌, min, ◌≡◌, refl, sym, inl, inr, Option, none, some, List,
  [], ◌∷◌, length, arith, Bool-cases, subst,
}
use ignition.Vsock.Connection.{
  IoResult, got, would_block, interrupted, failed, UnixStream, Connection, ConnState-cases,
  wrapping_add, wrapping_sub, peer_free, received, read_host, read_chunk, update_peer_credit,
}

-- The bytes that were sent to the guest and that it has not yet taken, modulo 2^32.
abbrev pub in_flight : {K : Type 0} → Connection K → ℕ
in_flight c = wrapping_sub c.rx_cnt c.peer_fwd_cnt

-- The counters are words of 32 bits, and what is in flight is within the guest's buffer.
abbrev pub Credited : {K : Type 0} → Connection K → Type 0
Credited c =
    (c.rx_cnt < 2 ^ 32)
    × (c.peer_fwd_cnt < 2 ^ 32)
    × (c.peer_buf_alloc < 2 ^ 32)
    × (in_flight c ≤ c.peer_buf_alloc)

-- A read gets no more than was asked for.
abbrev pub Bounded : {K : Type 0} → ℕ → IoResult (List ℕ) × K → Type 0
Bounded n (got bytes, k') = length bytes ≤ n
Bounded n (would_block, k') = Unit
Bounded n (interrupted, k') = Unit
Bounded n (failed, k') = Unit

peer_free-Credited :
    {K : Type 0} (c : Connection K) → Credited c → peer_free c ≡ c.peer_buf_alloc - in_flight c
unfolding peer_free
peer_free-Credited c w = omega (arith, w.0, w.1, w.2, w.3)

pub wrapping_sub-add :
    (a b l : ℕ)
    → a < 2 ^ 32
    → b < 2 ^ 32
    → wrapping_sub a b + l < 2 ^ 32
    → wrapping_sub (wrapping_add a (l % 2 ^ 32)) b ≡ wrapping_sub a b + l
wrapping_sub-add a b l a_word b_word fits = omega arith

-- What a read hands on: nothing, or some bytes within the credit, which has fallen by them.
abbrev pub Handed : {K : Type 0} → Connection K → Option (List ℕ) × Connection K → Type 0
Handed c (none, c') = peer_free c' ≡ peer_free c
Handed c (some bytes, c') =
    (0 < length bytes) × (length bytes ≤ peer_free c) × (peer_free c' + length bytes ≡ peer_free c)

received-Handed :
    {K : Type 0} (c : Connection K) (n : ℕ) (r : IoResult (List ℕ)) (k' : K)
    → Credited c
    → n ≤ peer_free c
    → Bounded n (r, k')
    → Handed c (received c r) × Credited (received c r).1
unfolding peer_free
received-Handed c n (got []) k' w fits b = (refl, w)
received-Handed c n (got (x ∷ xs)) k' w fits b =
    let l = length (x ∷ xs) in
    let free = peer_free-Credited c w in
    let grown : in_flight (received c (got (x ∷ xs))).1 ≡ in_flight c + l =
      wrapping_sub-add c.rx_cnt c.peer_fwd_cnt l w.0 w.1 (omega (arith, w.2, w.3)) in
    let still : Credited (received c (got (x ∷ xs))).1 =
      (omega arith, w.1, w.2, omega (arith, w.3)) in
    (
      (
        omega arith,
        omega arith,
        omega (arith, peer_free-Credited (received c (got (x ∷ xs))).1 still),
      ),
      still,
    )
received-Handed c n would_block k' w fits b = (refl, w)
received-Handed c n interrupted k' w fits b = (refl, w)
received-Handed c n failed k' w fits b = (refl, w)

module _ {K : Type 0} (stream : UnixStream K)
    (reads : (k : K) (n : ℕ) → Bounded n (stream.read k n)) where
  -- A read of the host's socket by a connection whose counters are words and whose bytes in
  -- flight are within the guest's buffer keeps that so. It hands on no byte and leaves the free
  -- credit as it was, or it hands on some bytes, no more than the free credit, which falls by them.
  pub read_host-Handed :
      (c : Connection K)
      → Credited c
      → Handed c (read_host stream c) × Credited (read_host stream c).1
  unfolding read_host peer_free
  read_host-Handed c w = elim (ConnState-cases c.state) [
    | inl e ↦ rw e (refl, w)
    | inr (inl e) ↦ elim (Bool-cases (min (peer_free c) read_chunk == 0)) [
      | inl z ↦ rw (e, z) (refl, w)
      | inr z ↦
          let budget = min (peer_free c) read_chunk in
          let r = stream.read c.host budget in
          let after : Connection K = record c { host = r.1 } in
          let run : read_host stream c ≡ received after r.0 = ground arith in
          subst (λ x. Handed c x × Credited x.1) (sym run)
            (received-Handed after budget r.0 r.1 w (omega arith) (reads c.host budget))
    ]
    | inr (inr e) ↦ rw e (refl, w)
  ]

-- After a credit update whose buffer is smaller by `d` than what is then in flight, the free
-- credit is not zero but `2 ^ 32 - d`.
pub peer_free-shrunk :
    {K : Type 0} (c : Connection K) (alloc fwd d : ℕ)
    → alloc + d ≡ wrapping_sub c.rx_cnt fwd
    → 0 < d
    → peer_free (update_peer_credit c alloc fwd) ≡ 2 ^ 32 - d
unfolding peer_free update_peer_credit
peer_free-shrunk c alloc fwd d short some_short = omega arith
