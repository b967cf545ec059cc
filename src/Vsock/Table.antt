-- ===== src/Vsock/Table.antt =====
-- The table of connections: a packet reaches the connection of its ports and no other.
use ignition.Base.{
  Option-cases, ℕ, ◌+◌, ◌<◌, if◌then◌else◌, Bool, true, false, ◌≡◌, refl, sym, ap, ◌∙◌, ◌⊎◌, inl,
  inr, Option, none, some, List, [], ◌∷◌, ◌++◌, arith, Bool-cases, subst, All, length,
}
use mathlib.Core.List.{append-nil}
use ignition.Vsock.Packet.{VsockHeader, op_rst, op_shutdown, op_credit_update}
use ignition.Vsock.Connection.{UnixStream, Connection, update_peer_credit}
use ignition.Vsock.Flow.{Written, Patient, spend, enqueue_tx_total}
use ignition.Vsock.Muxer.{
  RxPacket, control, Key, key_eq, Muxer, get, put, remove, insert, queue, on_request, on_rw,
  on_credit, on_close, on_response, on_unknown, handle_tx,
}

key_eq_same : (a b c : Key) → key_eq a b ≡ true → key_eq a c ≡ key_eq b c
unfolding key_eq
key_eq_same a b c e =
    let one : a.0 ≡ b.0 = ground arith in let two : a.1 ≡ b.1 = ground arith in rw (one, two) refl

module _ {K : Type 0} where
  get-remove_same : (conns : List (Key × Connection K)) (k : Key) → get (remove conns k) k ≡ none
  unfolding get remove
  get-remove_same [] k = refl
  get-remove_same ((k', c) ∷ rest) k = elim (Bool-cases (key_eq k' k)) [
    | inl e ↦ rw e (get-remove_same rest k)
    | inr e ↦ rw (e, e) (get-remove_same rest k)
  ]

  get-remove_other :
      (conns : List (Key × Connection K)) (k other : Key)
      → key_eq k other ≡ false
      → get (remove conns k) other ≡ get conns other
  unfolding get remove
  get-remove_other [] k other ne = refl
  get-remove_other ((k', c) ∷ rest) k other ne = elim (Bool-cases (key_eq k' k)) [
    | inl e ↦
        let apart : key_eq k' other ≡ false = key_eq_same k' k other e ∙ ne in
        rw (e, apart) (get-remove_other rest k other ne)
    | inr e ↦ elim (Bool-cases (key_eq k' other)) [
      | inl o ↦ rw (e, o) refl
      | inr o ↦ rw (e, o) (get-remove_other rest k other ne)
    ]
  ]

  get-put_other :
      (conns : List (Key × Connection K)) (k other : Key) (c : Connection K)
      → key_eq k other ≡ false
      → get (put conns k c) other ≡ get conns other
  unfolding get put
  get-put_other [] k other c ne = refl
  get-put_other ((k', c') ∷ rest) k other c ne = elim (Bool-cases (key_eq k' k)) [
    | inl e ↦
        let apart : key_eq k' other ≡ false = key_eq_same k' k other e ∙ ne in
        rw (e, apart) (get-put_other rest k other c ne)
    | inr e ↦ elim (Bool-cases (key_eq k' other)) [
      | inl o ↦ rw (e, o) refl
      | inr o ↦ rw (e, o) (get-put_other rest k other c ne)
    ]
  ]

  get-insert_other :
      (conns : List (Key × Connection K)) (k other : Key) (c : Connection K)
      → key_eq k other ≡ false
      → get (insert conns k c) other ≡ get conns other
  unfolding get insert
  get-insert_other conns k other c ne = rw ne (get-remove_other conns k other ne)

-- The key of a packet.
abbrev pub key_of : VsockHeader → Key
key_of hdr = (hdr.src_port, hdr.dst_port)

module _ {K : Type 0} (stream : UnixStream K) (connect : ℕ → Option K) (ok_line : ℕ → List ℕ)
    (m : Muxer K) (hdr : VsockHeader) (other : Key) (ne : key_eq (key_of hdr) other ≡ false) where
  on_request-other : get (on_request stream connect ok_line m hdr).conns other ≡ get m.conns other
  unfolding on_request queue
  on_request-other = elim (Option-cases (connect hdr.dst_port)) [
    | inl e ↦ ground arith
    | inr (host, e) ↦ grind (arith, get-insert_other)
  ]

  on_rw-other :
      (fuel : ℕ) (payload : List ℕ) {m' : Muxer K}
      → on_rw stream connect ok_line fuel m hdr payload ≡ some m'
      → get m'.conns other ≡ get m.conns other
  unfolding on_rw queue
  on_rw-other fuel payload {m'} h = grind (arith, get-put_other)

  on_credit-other :
      (answer : Bool)
      → get (on_credit stream connect ok_line answer m hdr).conns other ≡ get m.conns other
  unfolding on_credit queue
  on_credit-other answer = grind (arith, get-put_other)

  on_close-other : get (on_close stream connect ok_line m hdr).conns other ≡ get m.conns other
  unfolding on_close queue
  on_close-other = ground (arith, get-remove_other m.conns (key_of hdr) other ne)

  on_response-other : get (on_response stream connect ok_line m hdr).conns other ≡ get m.conns other
  unfolding on_response queue
  on_response-other = grind (arith, get-put_other)

  on_unknown-other : get (on_unknown stream connect ok_line m hdr).conns other ≡ get m.conns other
  unfolding on_unknown queue
  on_unknown-other = ground arith

-- A result that keeps the connection of the key `other`.
Keeps : {K : Type 0} → Muxer K → Key → Option (Muxer K) → Type 0
Keeps {K = K} m other o = (m' : Muxer K) × (o ≡ some m') × (get m'.conns other ≡ get m.conns other)

Keeps-if :
    {K : Type 0} (m : Muxer K) (other : Key) (b : Bool) (x y : Option (Muxer K))
    → Keeps m other x
    → Keeps m other y
    → Keeps m other (if b then x else y)
Keeps-if m other true x y h k = h
Keeps-if m other false x y h k = k

-- The reset that answers the end of a connection.
abbrev pub resets : {K : Type 0} → Option (Connection K) → VsockHeader → List RxPacket
resets none hdr = []
resets (some c) hdr = control op_rst hdr.src_port hdr.dst_port 0 ∷ []

get-All :
    {K : Type 0} (P : Connection K → Type 0) (conns : List (Key × Connection K)) (k : Key)
    (c : Connection K)
    → All (λ e. P e.1) conns
    → get conns k ≡ some c
    → P c
unfolding get
get-All P [] k c h e = cc
get-All P ((k', c') ∷ rest) k c h e = elim (Bool-cases (key_eq k' k)) [
  | inl here ↦ let same : c' ≡ c = ground arith in subst (λ x. P x) same h.0
  | inr there ↦ get-All P rest k c h.1 (ground arith)
]

module _ {K : Type 0} (stream : UnixStream K) (connect : ℕ → Option K) (ok_line : ℕ → List ℕ) where
  -- A `SHUTDOWN` or `RST` packet is handled with any fuel: its connection leaves the table, and
  -- the guest is sent one reset, behind what waits, if and only if there was one.
  pub handle_tx-closes :
      (fuel : ℕ) (m : Muxer K) (hdr : VsockHeader) (payload : List ℕ)
      → (hdr.op ≡ op_shutdown) ⊎ (hdr.op ≡ op_rst)
      → (m' : Muxer K) × (handle_tx stream connect ok_line fuel m hdr payload ≡ some m')
        × (get m'.conns (key_of hdr) ≡ none)
        × (m'.rxq ≡ m.rxq ++ resets (get m.conns (key_of hdr)) hdr)
  unfolding handle_tx on_close queue
  handle_tx-closes fuel m hdr payload closing =
      let queued : Option (Connection K) → List RxPacket = λ o. m.rxq ++ resets o hdr in
      let run : handle_tx stream connect ok_line fuel m hdr payload
          ≡ some (on_close stream connect ok_line m hdr) =
        ground arith in
      (
        on_close stream connect ok_line m hdr,
        run,
        ground (arith, get-remove_same m.conns (key_of hdr)),
        elim (Option-cases (get m.conns (key_of hdr))) [
          | inl e ↦
              let same : on_close stream connect ok_line m hdr ≡ m = ground arith in
              ap (λ x. x.rxq) same ∙ sym (append-nil m.rxq) ∙ ap queued (sym e)
          | inr (c, e) ↦
              let sent : (on_close stream connect ok_line m hdr).rxq
                  ≡ m.rxq ++ control op_rst hdr.src_port hdr.dst_port 0 ∷ [] =
                ground arith in
              sent ∙ ap queued (sym e)
        ],
      )

  module _ (sent : K → List ℕ)
      (writes : (k : K) (block : List ℕ) → Written sent k block (stream.write k block))
      (patience : K → ℕ)
      (patient : (k : K) (block : List ℕ) → Patient patience k (stream.write k block)) where
    on_rw_total :
        (fuel : ℕ) (m : Muxer K) (hdr : VsockHeader) (payload : List ℕ)
        → All (λ e. length payload + spend patience e.1 < fuel) m.conns
        → (m' : Muxer K) × (on_rw stream connect ok_line fuel m hdr payload ≡ some m')
    unfolding on_rw update_peer_credit
    on_rw_total fuel m hdr payload enough = elim (Option-cases (get m.conns (key_of hdr))) [
      | inl e ↦ (queue m op_rst hdr.src_port hdr.dst_port 0, ground arith)
      | inr (c, e) ↦
          let fits : length payload + spend patience c < fuel =
            get-All (λ c. length payload + spend patience c < fuel) m.conns (key_of hdr) c enough
              e in
          let (c', run, stream_kept, count_kept) =
            enqueue_tx_total stream sent writes patience patient fuel
              (update_peer_credit c hdr.buf_alloc hdr.fwd_cnt) payload (omega (arith, fits)) in
          (
            queue (record m { conns = put m.conns (key_of hdr) c' }) op_credit_update hdr.src_port
                hdr.dst_port c'.fwd_cnt,
            ground (arith, run),
          )
    ]

    -- A packet, handled with fuel above what each connection can spend and the packet's bytes,
    -- leaves the connections of all other keys as they were.
    pub handle_tx-others :
        (fuel : ℕ) (m : Muxer K) (hdr : VsockHeader) (payload : List ℕ) (other : Key)
        → All (λ e. length payload + spend patience e.1 < fuel) m.conns
        → key_eq (key_of hdr) other ≡ false
        → (m' : Muxer K) × (handle_tx stream connect ok_line fuel m hdr payload ≡ some m')
          × (get m'.conns other ≡ get m.conns other)
    unfolding handle_tx Keeps
    handle_tx-others fuel m hdr payload other enough ne =
        let (n, rw_run) = on_rw_total fuel m hdr payload enough in
        let kept : (m' : Muxer K)
            → get m'.conns other ≡ get m.conns other
            → Keeps m other (some m') =
          λ m' h. (m', refl, h) in
        Keeps-if m other _ _ _ (kept _ (on_request-other stream connect ok_line m hdr other ne)) (
          Keeps-if m other _ _ _
            (
              n,
              rw_run,
              on_rw-other stream connect ok_line m hdr other ne fuel payload {m' = n} rw_run,
            )
            (Keeps-if m other _ _ _
              (kept _ (on_credit-other stream connect ok_line m hdr other ne true))
              (Keeps-if m other _ _ _
                (kept _ (on_credit-other stream connect ok_line m hdr other ne false))
                (Keeps-if m other _ _ _
                  (kept _ (on_close-other stream connect ok_line m hdr other ne))
                  (Keeps-if m other _ _ _
                    (kept _ (on_response-other stream connect ok_line m hdr other ne))
                    (kept _ (on_unknown-other stream connect ok_line m hdr other ne)))))))
