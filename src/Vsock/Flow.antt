-- ===== src/Vsock/Flow.antt =====
-- The stream from guest to host: nothing is lost, doubled or reordered, and the loop ends.
use ignition.Base.{
  ℕ, zero, suc, ◌+◌, ◌%◌, ◌^◌, ◌≤◌, ◌<◌, ◌==◌, ◌≡◌, refl, sym, ap, ◌∙◌, ◌⊎◌, inl, inr, some, List,
  ◌∷◌, ◌++◌, length, take, drop, arith, List-cases, Bool-cases, take-append_drop, length-drop,
  length-append, subst,
}
use mathlib.Core.List.{append_assoc, append-nil}
use ignition.Vsock.Connection.{
  IoResult, got, would_block, interrupted, failed, UnixStream, Connection, ConnState-cases, Round,
  leave, again, flush_step, flush_loop, flush_tx, enqueue_tx,
}

-- What a write does to the bytes that the host has been sent: some of the block from its start
-- is appended, as many as it says, or none.
abbrev pub Written : {K : Type 0} → (K → List ℕ) → K → List ℕ → IoResult ℕ × K → Type 0
Written sent k block (got n, k') = (n ≤ length block) × (sent k' ≡ sent k ++ take n block)
Written sent k block (would_block, k') = sent k' ≡ sent k
Written sent k block (interrupted, k') = sent k' ≡ sent k
Written sent k block (failed, k') = sent k' ≡ sent k

-- A write is interrupted finitely often before it is not, which `patience` counts.
abbrev pub Patient : {K : Type 0} → (K → ℕ) → K → IoResult ℕ × K → Type 0
Patient patience k (got n, k') = patience k' ≤ patience k
Patient patience k (would_block, k') = Unit
Patient patience k (interrupted, k') = patience k' < patience k
Patient patience k (failed, k') = Unit

-- How far the stream has come: what was sent, then what waits.
abbrev pub stream_of : {K : Type 0} → (K → List ℕ) → Connection K → List ℕ
stream_of sent c = sent c.host ++ c.txbuf

-- The bytes forwarded and still to forward, as the credit counts them.
abbrev pub accepted : {K : Type 0} → Connection K → ℕ
accepted c = (c.fwd_cnt + length c.txbuf) % 2 ^ 32

abbrev pub Carries : {K : Type 0} → (K → List ℕ) → Connection K → Connection K → Type 0
Carries sent c c' = (stream_of sent c' ≡ stream_of sent c) × (accepted c' ≡ accepted c)

-- What a round spends: bytes that wait, or the patience of the host.
abbrev pub spend : {K : Type 0} → (K → ℕ) → Connection K → ℕ
spend patience c = length c.txbuf + patience c.host

abbrev pub conn_of : {K : Type 0} → Round K → Connection K
conn_of (leave c) = c
conn_of (again c) = c

pub Round-cases :
    {K : Type 0} (r : Round K)
    → ((c : Connection K) × (r ≡ leave c)) ⊎ ((c : Connection K) × (r ≡ again c))
Round-cases (leave c) = inl (c, refl)
Round-cases (again c) = inr (c, refl)

flush_step-Carries :
    {K : Type 0} (sent : K → List ℕ) (c : Connection K) (r : IoResult ℕ × K)
    → Written sent c.host c.txbuf r
    → Carries sent c (conn_of (flush_step c r))
unfolding flush_step
flush_step-Carries sent c (got n, host) w = elim (Bool-cases (n == 0)) [
  | inl e ↦
      let z : n ≡ 0 = ground arith in
      let same : sent host ≡ sent c.host = w.1 ∙ rw z (append-nil (sent c.host)) in
      rw e (ap (λ t. t ++ c.txbuf) same, refl)
  | inr e ↦ rw e (
    ap (λ t. t ++ drop n c.txbuf) w.1
        ∙ append_assoc (sent c.host) (take n c.txbuf) (drop n c.txbuf)
        ∙ ap (λ t. sent c.host ++ t) (take-append_drop n c.txbuf),
    omega (arith, w.0, length-drop n c.txbuf),
  )
]
flush_step-Carries sent c (would_block, host) w = (ap (λ t. t ++ c.txbuf) w, refl)
flush_step-Carries sent c (interrupted, host) w = (ap (λ t. t ++ c.txbuf) w, refl)
flush_step-Carries sent c (failed, host) w = (ap (λ t. t ++ c.txbuf) w, refl)

Carries-trans :
    {K : Type 0} (sent : K → List ℕ) (a b c : Connection K)
    → Carries sent a b
    → Carries sent b c
    → Carries sent a c
Carries-trans sent a b c x y = (y.0 ∙ x.0, y.1 ∙ x.1)

module _ {K : Type 0} (stream : UnixStream K) (sent : K → List ℕ)
    (writes : (k : K) (block : List ℕ) → Written sent k block (stream.write k block)) where
  flush_loop-Carries :
      (fuel : ℕ) (c : Connection K) {c' : Connection K}
      → flush_loop stream fuel c ≡ some c'
      → Carries sent c c'
  unfolding flush_loop
  flush_loop-Carries zero c h = cc
  flush_loop-Carries (suc fuel) c {c'} h = elim (List-cases c.txbuf) [
    | inl e ↦ let same : c ≡ c' = ground arith in rw (← same) (refl, refl)
    | inr (b, bs, e) ↦
        let step = flush_step c (stream.write c.host (b ∷ bs)) in
        let one : Carries sent c (conn_of step) =
          flush_step-Carries sent c (stream.write c.host (b ∷ bs))
            (rw e (writes c.host (b ∷ bs))) in
        elim (Round-cases step) [
          | inl (d, out) ↦
              let same : d ≡ c' = ground arith in
              subst (λ r. Carries sent c r) (ap conn_of out ∙ same) one
          | inr (d, on) ↦
              let more : flush_loop stream fuel d ≡ some c' = ground arith in
              Carries-trans sent c d c' (subst (λ r. Carries sent c r) (ap conn_of on) one)
                (flush_loop-Carries fuel d more)
        ]
  ]

  flush_tx-Carries :
      (fuel : ℕ) (c : Connection K) {c' : Connection K}
      → flush_tx stream fuel c ≡ some c'
      → Carries sent c c'
  unfolding flush_tx
  flush_tx-Carries fuel c {c'} h = elim (ConnState-cases c.state) [
    | inl e ↦ let same : c ≡ c' = ground arith in rw (← same) (refl, refl)
    | inr (inl e) ↦ flush_loop-Carries fuel c {c' = c'} (ground arith)
    | inr (inr e) ↦ let same : c ≡ c' = ground arith in rw (← same) (refl, refl)
  ]

  enqueue_tx-Carries :
      (fuel : ℕ) (c : Connection K) (block : List ℕ) {c' : Connection K}
      → enqueue_tx stream fuel c block ≡ some c'
      → (stream_of sent c' ≡ stream_of sent c ++ block)
        × (accepted c' ≡ (accepted c + length block) % 2 ^ 32)
  unfolding enqueue_tx
  enqueue_tx-Carries fuel c block h =
      let both = flush_tx-Carries fuel (record c { txbuf = c.txbuf ++ block }) h in
      (
        both.0 ∙ sym (append_assoc (sent c.host) c.txbuf block),
        both.1 ∙ omega (arith, length-append c.txbuf block),
      )

  module _ (patience : K → ℕ)
      (patient : (k : K) (block : List ℕ) → Patient patience k (stream.write k block)) where
    abbrev Spends : Connection K → Round K → Type 0
    Spends c (leave d) = Unit
    Spends c (again d) = spend patience d < spend patience c

    flush_step-Spends :
        (c : Connection K) (r : IoResult ℕ × K)
        → Written sent c.host c.txbuf r
        → Patient patience c.host r
        → Spends c (flush_step c r)
    unfolding flush_step
    flush_step-Spends c (got n, host) w p = elim (Bool-cases (n == 0)) [
      | inl e ↦ rw e tt
      | inr e ↦
          let some_bytes : 0 < n = ground arith in rw e (omega (arith, w.0, length-drop n c.txbuf))
    ]
    flush_step-Spends c (would_block, host) w p = tt
    flush_step-Spends c (interrupted, host) w p = omega arith
    flush_step-Spends c (failed, host) w p = tt

    flush_loop_total :
        (fuel : ℕ) (c : Connection K)
        → spend patience c < fuel
        → (c' : Connection K) × (flush_loop stream fuel c ≡ some c')
    unfolding flush_loop
    flush_loop_total zero c enough = ground arith
    flush_loop_total (suc fuel) c enough = elim (List-cases c.txbuf) [
      | inl e ↦ (c, ground arith)
      | inr (b, bs, e) ↦ elim (Round-cases (flush_step c (stream.write c.host (b ∷ bs)))) [
        | inl (d, out) ↦ (d, ground arith)
        | inr (d, on) ↦
            let r = stream.write c.host (b ∷ bs) in
            let less : spend patience d < spend patience c =
              subst (λ r. Spends c r) on
                (flush_step-Spends c r (rw e (writes c.host (b ∷ bs))) (patient c.host (b ∷ bs))) in
            let (c', rest) = flush_loop_total fuel d (omega arith) in (c', ground arith)
      ]
    ]

    pub flush_tx_total :
        (fuel : ℕ) (c : Connection K)
        → spend patience c < fuel
        → (c' : Connection K) × (flush_tx stream fuel c ≡ some c')
    unfolding flush_tx
    flush_tx_total fuel c enough = elim (ConnState-cases c.state) [
      | inl e ↦ (c, ground arith)
      | inr (inl e) ↦ let (c', h) = flush_loop_total fuel c enough in (c', ground arith)
      | inr (inr e) ↦ (c, ground arith)
    ]

    -- With fuel above the bytes that wait and the interruptions of the host's socket, queueing
    -- a block ends, the bytes sent and waiting afterwards are those of before and the block at
    -- their end, and the count of bytes forwarded and waiting has grown by the block.
    pub enqueue_tx_total :
        (fuel : ℕ) (c : Connection K) (block : List ℕ)
        → length c.txbuf + length block + patience c.host < fuel
        → (c' : Connection K) × (enqueue_tx stream fuel c block ≡ some c')
          × (stream_of sent c' ≡ stream_of sent c ++ block)
          × (accepted c' ≡ (accepted c + length block) % 2 ^ 32)
    unfolding enqueue_tx
    enqueue_tx_total fuel c block enough =
        let queued : Connection K = record c { txbuf = c.txbuf ++ block } in
        let (c', done) = flush_tx_total fuel queued (omega (arith, length-append c.txbuf block)) in
        let both = enqueue_tx-Carries fuel c block {c' = c'} done in (c', done, both.0, both.1)
