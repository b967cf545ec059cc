-- ===== src/Vsock/Pass.antt =====
-- What a pass of `service` does: it ends, and no closed connection is left in the table.
use ignition.Base.{
  Option-cases, ℕ, zero, suc, ◌^◌, ◌≤◌, ◌<◌, ◌==◌, if◌then◌else◌, Bool, true, false, ◌≡◌, refl, sym,
  ap, ◌∙◌, ◌⊎◌, inl, inr, Option, none, some, List, [], ◌∷◌, ◌++◌, map, arith, Bool-cases,
  List-cases, subst, All, All-map, min, ◌||◌,
}
use mathlib.Core.List.{append_assoc, append-nil}
use ignition.Vsock.Connection.{
  UnixStream, Connection, ConnState-cases, flush_step, flush_loop, flush_tx, read_host, peer_free,
  read_chunk, got, would_block, interrupted, failed, IoResult, received,
}
use ignition.Vsock.Flow.{Written, Patient, Round-cases, conn_of, spend, flush_tx_total}
use ignition.Vsock.Credit.{Bounded}
use ignition.Vsock.Muxer.{RxPacket, Key, key_eq, Muxer, get, remove, control, queue}
use ignition.Vsock.Packet.{op_rst}
use ignition.Vsock.Service.{
  rw_packet, is_closed, read_all, service_conn, service_conns, drop_closed, service,
}

-- The counters are words of 32 bits.
abbrev pub IsWords : {K : Type 0} → Connection K → Type 0
IsWords c = (c.rx_cnt < 2 ^ 32) × (c.peer_fwd_cnt < 2 ^ 32) × (c.peer_buf_alloc < 2 ^ 32)

flush_step-IsWords :
    {K : Type 0} (c : Connection K) (r : IoResult ℕ × K)
    → IsWords c
    → IsWords (conn_of (flush_step c r))
unfolding flush_step
flush_step-IsWords c (got n, host) w = elim (Bool-cases (n == 0)) [
  | inl e ↦ rw e w
  | inr e ↦ rw e w
]
flush_step-IsWords c (would_block, host) w = w
flush_step-IsWords c (interrupted, host) w = w
flush_step-IsWords c (failed, host) w = w

module _ {K : Type 0} (stream : UnixStream K) where
  flush_loop-IsWords :
      (fuel : ℕ) (c : Connection K) {c' : Connection K}
      → flush_loop stream fuel c ≡ some c'
      → IsWords c
      → IsWords c'
  unfolding flush_loop
  flush_loop-IsWords zero c h w = cc
  flush_loop-IsWords (suc fuel) c {c'} h w = elim (List-cases c.txbuf) [
    | inl e ↦ let same : c ≡ c' = ground arith in rw (← same) w
    | inr (b, bs, e) ↦
        let r = stream.write c.host (b ∷ bs) in
        elim (Round-cases (flush_step c r)) [
          | inl (d, out) ↦
              let same : d ≡ c' = ground arith in
              subst (λ x. IsWords x) (ap conn_of out ∙ same) (flush_step-IsWords c r w)
          | inr (d, on) ↦
              let more : flush_loop stream fuel d ≡ some c' = ground arith in
              flush_loop-IsWords fuel d {c' = c'} more
                (subst (λ x. IsWords x) (ap conn_of on) (flush_step-IsWords c r w))
        ]
  ]

  flush_tx-IsWords :
      (fuel : ℕ) (c : Connection K) {c' : Connection K}
      → flush_tx stream fuel c ≡ some c'
      → IsWords c
      → IsWords c'
  unfolding flush_tx
  flush_tx-IsWords fuel c {c'} h w = elim (ConnState-cases c.state) [
    | inl e ↦ let same : c ≡ c' = ground arith in rw (← same) w
    | inr (inl e) ↦ flush_loop-IsWords fuel c {c' = c'} (ground arith) w
    | inr (inr e) ↦ let same : c ≡ c' = ground arith in rw (← same) w
  ]

-- A read that hands bytes on has less credit left.
abbrev Falls : {K : Type 0} → Connection K → Option (List ℕ) × Connection K → Type 0
Falls c (none, c') = Unit
Falls c (some bytes, c') = (peer_free c' < peer_free c) × IsWords c'

received-Falls :
    {K : Type 0} (c : Connection K) (n : ℕ) (r : IoResult (List ℕ)) (k' : K)
    → IsWords c
    → n ≤ peer_free c
    → Bounded n (r, k')
    → Falls c (received c r)
unfolding peer_free
received-Falls c n (got []) k' w fits b = tt
received-Falls c n (got (x ∷ xs)) k' w fits b =
    (omega (arith, w.0, w.1, w.2), (omega arith, w.1, w.2))
received-Falls c n would_block k' w fits b = tt
received-Falls c n interrupted k' w fits b = tt
received-Falls c n failed k' w fits b = tt

module _ {K : Type 0} (stream : UnixStream K)
    (reads : (k : K) (n : ℕ) → Bounded n (stream.read k n)) where
  read_host-Falls : (c : Connection K) → IsWords c → Falls c (read_host stream c)
  unfolding read_host peer_free
  read_host-Falls c w = elim (ConnState-cases c.state) [
    | inl e ↦ rw e tt
    | inr (inl e) ↦ elim (Bool-cases (min (peer_free c) read_chunk == 0)) [
      | inl z ↦ rw (e, z) tt
      | inr z ↦
          let budget = min (peer_free c) read_chunk in
          let r = stream.read c.host budget in
          let after : Connection K = record c { host = r.1 } in
          let run : read_host stream c ≡ received after r.0 = ground arith in
          subst (λ x. Falls c x) (sym run)
            (received-Falls after budget r.0 r.1 w (omega arith) (reads c.host budget))
    ]
    | inr (inr e) ↦ rw e tt
  ]

  read_all_total :
      (fuel : ℕ) (c : Connection K)
      → IsWords c
      → peer_free c < fuel
      → (out : List RxPacket × Connection K) × (read_all stream fuel c ≡ some out)
  unfolding read_all
  read_all_total zero c w enough = ground arith
  read_all_total (suc fuel) c w enough = elim (Option-cases (read_host stream c).0) [
    | inl e ↦ (([], (read_host stream c).1), ground (arith))
    | inr (bytes, e) ↦
        let d = (read_host stream c).1 in
        let falls : Falls c (some bytes, d) = subst (λ o. Falls c (o, d)) e (read_host-Falls c w) in
        let (out, rest) = read_all_total fuel d falls.1 (omega (arith, falls.0)) in
        ((rw_packet d bytes ∷ out.0, out.1), ground (arith))
  ]

held : List Key → Key → Bool
held [] k = false
held (k' ∷ keys) k = key_eq k k' || held keys k

-- Every closed connection's key is among `keys`.
abbrev Noted : {K : Type 0} → List Key → List (Key × Connection K) → Type 0
Noted keys conns = All (λ e. (is_closed e.1 ≡ false) ⊎ (held keys e.0 ≡ true)) conns

held_here : (k : Key) (keys : List Key) → held (k ∷ keys) k ≡ true
unfolding key_eq held
held_here k keys = ground arith

Noted-later :
    {K : Type 0} (k : Key) (keys : List Key) (conns : List (Key × Connection K))
    → Noted keys conns
    → Noted (k ∷ keys) conns
unfolding held
Noted-later k keys [] h = tt
Noted-later k keys ((k', c) ∷ rest) h =
    (elim h.0 [ inl e ↦ inl e | inr e ↦ inr (ground (arith, e)) ], Noted-later k keys rest h.1)

Noted-noting :
    {K : Type 0} (k : Key) (c : Connection K) (keys : List Key) (conns : List (Key × Connection K))
    → Noted keys conns
    → Noted (if is_closed c then k ∷ keys else keys) ((k, c) ∷ conns)
Noted-noting k c keys conns h =
    let family : Bool → Type 0 = λ b. Noted (if b then k ∷ keys else keys) ((k, c) ∷ conns) in
    elim (Bool-cases (is_closed c)) [
      | inl e ↦ subst family (sym e) (inr (held_here k keys), Noted-later k keys conns h)
      | inr e ↦ subst family (sym e) (inl e, h)
    ]

-- Taking the entries of a noted key out, the others stay noted without it.
remove-Noted :
    {K : Type 0} (k : Key) (keys : List Key) (conns : List (Key × Connection K))
    → Noted (k ∷ keys) conns
    → Noted keys (remove conns k)
unfolding held remove
remove-Noted k keys [] h = tt
remove-Noted k keys ((k', c) ∷ rest) h = elim (Bool-cases (key_eq k' k)) [
  | inl e ↦ rw e (remove-Noted k keys rest h.1)
  | inr e ↦
      let kept : (is_closed c ≡ false) ⊎ (held keys k' ≡ true) = elim h.0 [
        | inl o ↦ inl o
        | inr o ↦ inr (ground (arith, o))
      ] in
      rw e (kept, remove-Noted k keys rest h.1)
]

remove-absent :
    {K : Type 0} (k : Key) (conns : List (Key × Connection K))
    → get conns k ≡ none
    → remove conns k ≡ conns
unfolding remove get
remove-absent k [] h = refl
remove-absent k ((k', c) ∷ rest) h = elim (Bool-cases (key_eq k' k)) [
  | inl e ↦ ground arith
  | inr e ↦ rw e (ap (λ t. (k', c) ∷ t) (remove-absent k rest (ground arith)))
]

-- No closed connection is left in the table.
abbrev pub IsReaped : {K : Type 0} → Muxer K → Type 0
IsReaped m = All (λ e. is_closed e.1 ≡ false) m.conns

module _ {K : Type 0} where
  drop_closed-absent :
      (k : Key) (keys : List Key) (m : Muxer K)
      → get m.conns k ≡ none
      → drop_closed (k ∷ keys) m ≡ drop_closed keys m
  unfolding drop_closed
  drop_closed-absent k keys m e = ground arith

  announced : Key → Connection K → Muxer K → Muxer K
  announced k c m = queue (record m { conns = remove m.conns k }) op_rst c.guest_port c.host_port 0

  drop_closed-present :
      (k : Key) (keys : List Key) (m : Muxer K) (c : Connection K)
      → get m.conns k ≡ some c
      → drop_closed (k ∷ keys) m ≡ drop_closed keys (announced k c m)
  unfolding drop_closed announced
  drop_closed-present k keys m c e = ground arith

drop_closed-IsReaped :
    {K : Type 0} (keys : List Key) (m : Muxer K)
    → Noted keys m.conns
    → IsReaped (drop_closed keys m)
unfolding drop_closed announced queue held
drop_closed-IsReaped [] m h = All-map _ _ m.conns (λ e o. elim o [ inl x ↦ x | inr x ↦ cc ]) h
drop_closed-IsReaped (k ∷ keys) m h = elim (Option-cases (get m.conns k)) [
  | inl e ↦
      subst (λ x. IsReaped x) (sym (drop_closed-absent k keys m e))
        (drop_closed-IsReaped keys m
          (subst (λ t. Noted keys t) (remove-absent k m.conns e) (remove-Noted k keys m.conns h)))
  | inr (c, e) ↦
      subst (λ x. IsReaped x) (sym (drop_closed-present k keys m c e))
        (drop_closed-IsReaped keys (announced k c m) (remove-Noted k keys m.conns h))
]

-- What is dropped is announced after what waits already.
Announces : {K : Type 0} → Muxer K → Muxer K → Type 0
Announces m m' =
    (tail : List RxPacket) × (m'.rxq ≡ m.rxq ++ tail) × (m'.pending_rst ≡ m.pending_rst)

drop_closed-Announces :
    {K : Type 0} (keys : List Key) (m : Muxer K) → Announces m (drop_closed keys m)
unfolding drop_closed announced queue Announces
drop_closed-Announces [] m = ([], sym (append-nil m.rxq), refl)
drop_closed-Announces (k ∷ keys) m = elim (Option-cases (get m.conns k)) [
  | inl e ↦
      subst (λ x. Announces m x) (sym (drop_closed-absent k keys m e))
        (drop_closed-Announces keys m)
  | inr (c, e) ↦
      let (tail, rxq, pending) = drop_closed-Announces keys (announced k c m) in
      subst (λ x. Announces m x) (sym (drop_closed-present k keys m c e))
        (_, rxq ∙ append_assoc m.rxq _ tail, pending)
]

-- What a pass needs of a connection: words for counters, and fuel for what waits in it.
abbrev pub Serviceable : {K : Type 0} → (K → ℕ) → ℕ → Connection K → Type 0
Serviceable patience fuel c = IsWords c × (spend patience c < fuel)

peer_free_word : {K : Type 0} (c : Connection K) → peer_free c < 2 ^ 32
unfolding peer_free
peer_free_word c = omega arith

module _ {K : Type 0} (stream : UnixStream K)
    (reads : (k : K) (n : ℕ) → Bounded n (stream.read k n)) (sent : K → List ℕ)
    (writes : (k : K) (block : List ℕ) → Written sent k block (stream.write k block))
    (patience : K → ℕ)
    (patient : (k : K) (block : List ℕ) → Patient patience k (stream.write k block)) (fuel : ℕ)
    (long : 2 ^ 32 ≤ fuel) where
  service_conn_total :
      (c : Connection K)
      → Serviceable patience fuel c
      → (out : List RxPacket × Connection K) × (service_conn stream fuel c ≡ some out)
  unfolding service_conn
  service_conn_total c ok =
      let (d, flushed) = flush_tx_total stream sent writes patience patient fuel c ok.1 in
      let (out, all) =
        read_all_total stream reads fuel d (flush_tx-IsWords stream fuel c {c' = d} flushed ok.0)
          (omega (arith, peer_free_word d)) in
      (out, ground (arith))

  service_conns_total :
      (conns : List (Key × Connection K))
      → All (λ e. Serviceable patience fuel e.1) conns
      → (out : List (Key × Connection K) × List RxPacket × List Key) × (service_conns stream fuel
            conns
          ≡ some out)
        × Noted out.2 out.0
  unfolding service_conns
  service_conns_total [] ok = (([], [], []), refl, tt)
  service_conns_total ((k, c) ∷ rest) ok =
      let (one, run) = service_conn_total c ok.0 in
      let (more, runs, noted) = service_conns_total rest ok.1 in
      let keys = if is_closed one.1 then k ∷ more.2 else more.2 in
      (
        ((k, one.1) ∷ more.0, one.0 ++ more.1, keys),
        ground (arith),
        Noted-noting k one.1 more.2 more.0 noted,
      )

  -- With sockets that read no more than asked, write as they say and are interrupted finitely
  -- often, counters that are words, and fuel of 2^32 and above what each connection can spend, a
  -- pass ends: no closed connection is left in the table, and what waited for the guest is
  -- followed by one reset for each key carried over a snapshot, in order, which are then forgotten.
  pub service_total :
      (m : Muxer K)
      → All (λ e. Serviceable patience fuel e.1) m.conns
      → (m' : Muxer K) × (service stream fuel m ≡ some m')
        × IsReaped m'
        × (m'.pending_rst ≡ [])
        × ((tail : List RxPacket) × (m'.rxq
              ≡ m.rxq ++ map (λ k. control op_rst k.0 k.1 0) m.pending_rst ++ tail))
  unfolding service Announces
  service_total m ok =
      let (out, run, noted) = service_conns_total m.conns ok in
      let rsts = map (λ k. control op_rst k.0 k.1 0) m.pending_rst in
      let passed : Muxer K = record m {
        conns = out.0;
        rxq = (m.rxq ++ rsts) ++ out.1;
        pending_rst = [];
      } in
      let (tail, rxq, pending) = drop_closed-Announces out.2 passed in
      (
        drop_closed out.2 passed,
        ground (arith),
        drop_closed-IsReaped out.2 passed noted,
        pending,
        (out.1 ++ tail, rxq ∙ append_assoc (m.rxq ++ rsts) out.1 tail),
      )
