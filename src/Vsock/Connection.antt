-- ===== src/Vsock/Connection.antt =====
-- crates/devices/src/virtio/vsock/connection.rs: one guest-host stream and its credit.
-- The host's socket is the standard library's: a record of the calls made on it, over its state
-- `K`. The loop of `flush_tx` takes fuel; `none` means that it ran out.
use ignition.Base.{
  ℕ, zero, suc, ◌+◌, ◌-◌, ◌*◌, ◌%◌, ◌^◌, ◌==◌, min, if◌then◌else◌, ◌≡◌, refl, ◌⊎◌, inl, inr, Option,
  none, some, List, [], ◌∷◌, ◌++◌, length, drop,
}

pub data IoResult (A : Type 0) : Type 0 where
  got : A → IoResult A
  would_block interrupted failed : IoResult A

-- The calls on a non-blocking `UnixStream`: `read` gets at most so many bytes, the result of
-- `write_all` is dropped by the callers.
pub record UnixStream (K : Type 0) : Type 0 where
  pub read : K → ℕ → IoResult (List ℕ) × K
  pub write : K → List ℕ → IoResult ℕ × K
  pub write_all : K → List ℕ → K

-- 64 KiB.
abbrev pub buf_alloc : ℕ
buf_alloc = 64 * 1024

abbrev pub read_chunk : ℕ
read_chunk = 4096

pub data ConnState : Type 0 where
  local_init established closed : ConnState

pub ConnState-cases : (s : ConnState) → (s ≡ local_init) ⊎ ((s ≡ established) ⊎ (s ≡ closed))
ConnState-cases local_init = inl refl
ConnState-cases established = inr (inl refl)
ConnState-cases closed = inr (inr refl)

pub record Connection (K : Type 0) : Type 0 where
  pub guest_port : ℕ
  pub host_port : ℕ
  pub host : K
  pub state : ConnState
  pub peer_buf_alloc : ℕ
  pub peer_fwd_cnt : ℕ
  pub rx_cnt : ℕ
  pub fwd_cnt : ℕ
  pub txbuf : List ℕ

-- `Wrapping<u32>` addition and subtraction.
abbrev pub wrapping_add : ℕ → ℕ → ℕ
wrapping_add a b = (a + b) % 2 ^ 32

abbrev pub wrapping_sub : ℕ → ℕ → ℕ
wrapping_sub a b = (a + 2 ^ 32 - b) % 2 ^ 32

module _ {K : Type 0} where
  unfoldable pub new : ℕ → ℕ → K → ℕ → ℕ → Connection K
  new guest_port host_port host peer_buf_alloc peer_fwd_cnt = record {
    guest_port = guest_port;
    host_port = host_port;
    host = host;
    state = established;
    peer_buf_alloc = peer_buf_alloc;
    peer_fwd_cnt = peer_fwd_cnt;
    rx_cnt = 0;
    fwd_cnt = 0;
    txbuf = [];
  }

  unfoldable pub new_local_init : ℕ → ℕ → K → Connection K
  new_local_init guest_port host_port host = record {
    guest_port = guest_port;
    host_port = host_port;
    host = host;
    state = local_init;
    peer_buf_alloc = 0;
    peer_fwd_cnt = 0;
    rx_cnt = 0;
    fwd_cnt = 0;
    txbuf = [];
  }

  unfoldable pub confirm_established : Connection K → ℕ → ℕ → Connection K
  confirm_established c alloc fwd = record c {
    peer_buf_alloc = alloc;
    peer_fwd_cnt = fwd;
    state = established;
  }

  unfoldable pub update_peer_credit : Connection K → ℕ → ℕ → Connection K
  update_peer_credit c alloc fwd = record c { peer_buf_alloc = alloc; peer_fwd_cnt = fwd }

  unfoldable pub peer_free : Connection K → ℕ
  peer_free c = wrapping_sub c.peer_buf_alloc (wrapping_sub c.rx_cnt c.peer_fwd_cnt)

  unfoldable pub close : Connection K → Connection K
  close c = record c { state = closed }

-- One round of the `while` loop of `flush_tx` either returns or goes on.
pub data Round (K : Type 0) : Type 0 where
  leave again : Connection K → Round K

module _ {K : Type 0} where
  -- The `match` on the result of the round's write.
  unfoldable pub flush_step : Connection K → IoResult ℕ × K → Round K
  unfolding close
  flush_step c (got n, host) =
      let c1 : Connection K = record c { host = host } in
      if n == 0
      then leave (close c1)
      else again
          (record c1 { txbuf = drop n c.txbuf; fwd_cnt = wrapping_add c.fwd_cnt (n % 2 ^ 32) })
  flush_step c (would_block, host) = leave (record c { host = host })
  flush_step c (interrupted, host) = again (record c { host = host })
  flush_step c (failed, host) = leave (close (record c { host = host }))

  -- What `read_host` does with the result of its one read.
  abbrev pub received : Connection K → IoResult (List ℕ) → Option (List ℕ) × Connection K
  received c (got []) = (none, record c { state = closed })
  received c (got (b ∷ bs)) =
      (some (b ∷ bs), record c { rx_cnt = wrapping_add c.rx_cnt (length (b ∷ bs) % 2 ^ 32) })
  received c would_block = (none, c)
  received c interrupted = (none, c)
  received c failed = (none, record c { state = closed })

module _ {K : Type 0} (stream : UnixStream K) where
  unfoldable pub write_host_raw : Connection K → List ℕ → Connection K
  write_host_raw c block = record c { host = stream.write_all c.host block }

  -- The `while` loop of `flush_tx`. The buffer is made contiguous, so all of it is offered.
  unfoldable pub flush_loop : ℕ → Connection K → Option (Connection K)
  unfolding flush_step
  flush_loop zero c = none
  flush_loop (suc fuel) c = elim c.txbuf [
    | [] ↦ some c
    | b ∷ bs ↦ elim (flush_step c (stream.write c.host (b ∷ bs))) [
      | leave c' ↦ some c'
      | again c' ↦ flush_loop fuel c'
    ]
  ]

  unfoldable pub flush_tx : ℕ → Connection K → Option (Connection K)
  unfolding flush_loop
  flush_tx fuel c = elim c.state [ established ↦ flush_loop fuel c | _ ↦ some c ]

  unfoldable pub enqueue_tx : ℕ → Connection K → List ℕ → Option (Connection K)
  unfolding flush_tx
  enqueue_tx fuel c block = flush_tx fuel (record c { txbuf = c.txbuf ++ block })

  unfoldable pub read_host : Connection K → Option (List ℕ) × Connection K
  unfolding peer_free
  read_host c = elim c.state [
    | established ↦
        let budget = min (peer_free c) read_chunk in
        if budget == 0
        then (none, c)
        else let (result, host) = stream.read c.host budget in
          received (record c { host = host }) result
    | _ ↦ (none, c)
  ]
