-- ===== src/Vcpus.antt =====
-- crates/vmm/src/vstate/vcpu_manager.rs: the vCPU threads and the rendezvous at which a snapshot, a
-- checkpoint or a reset is made while all of them are parked.
-- `n` threads are registered, and each is named by its MPIDR, its index. A step is what one thread
-- does between two points where another can come in; the loads of the shutdown flag and of the
-- request flag, one after the other at the top of the loop, are one step. What the hypervisor does in `vcpu.run` and in
-- the handlers is the caller's; a guest that brings up a further vCPU is not in these steps.
pub mod Tally
pub mod Rendezvous
pub mod Opening
pub mod Running
pub mod Waits
pub mod Parked
pub mod Exclusive
mod Tests
use ignition.Base.{
  ℕ, suc, ◌+◌, ◌<◌, ◌==◌, ltb, if◌then◌else◌, Bool, true, false, Option, none, some, List, [], ◌∷◌,
  ◌≡◌, elem,
}

pub data Kind : Type 0 where
  snapshot checkpoint reset : Kind

-- The result of `claim`.
pub data Claim : Type 0 where
  claimed unknown already_running frozen : Claim

-- `std::sync::Barrier`: how many wait, and how often it has opened.
pub record Barrier : Type 0 where
  pub size : ℕ
  pub count : ℕ
  pub generation : ℕ

-- Where a thread stands: at the top of `run_loop`, in `vcpu.run`, or in `try_rendezvous`, before or
-- in the first wait of barrier `b`, leading, before or in the second wait; or its function returned.
pub data Pc : Type 0 where
  top guest finished : Pc
  arrive1 lead arrive2 : ℕ → Pc
  wait1 wait2 : ℕ → ℕ → Pc

-- What `vcpu.run` returns: an exit after which the loop goes on, SYSTEM_OFF, or an error.
pub data Exit : Type 0 where
  back off error : Exit

-- `req` is the request flag that is set: only the requester that `begin_rendezvous` let in sets one.
-- `barriers` are those made so far, by their number, and `snap_barrier` is the current one.
pub record Manager : Type 0 where
  pub mpidrs : List ℕ
  pub running : List ℕ
  pub shutdown : Bool
  pub rendezvous_active : Bool
  pub req : Option Kind
  pub snap_barrier : ℕ
  pub barriers : ℕ → Barrier
  pub collected : List ℕ
  pub pc : ℕ → Pc

-- A family with one member replaced.
abbrev pub put {ℓ} : {A : Type ℓ} → (ℕ → A) → ℕ → A → ℕ → A
put f i a j = if i == j then a else f j

abbrev pub move : Manager → ℕ → Pc → Manager
move m i p = record m { pc = put m.pc i p }

-- `claim`: a bring-up of `mpidr`.
unfoldable pub claim : Manager → ℕ → Claim × Manager
claim m mpidr =
    if elem mpidr m.mpidrs
    then if m.rendezvous_active
      then (frozen, m)
      else if elem mpidr m.running
      then (already_running, m)
      else (claimed, record m { running = mpidr ∷ m.running })
    else (unknown, m)

-- `begin_rendezvous` with the `n` registered vCPUs: none if another one is in flight.
unfoldable pub begin_rendezvous : ℕ → Manager → Option Manager
begin_rendezvous n m =
    if m.rendezvous_active
    then none
    else if n == 0
    then none
    else some (record m {
      rendezvous_active = true;
      snap_barrier = m.snap_barrier + 1;
      barriers =
          put m.barriers (m.snap_barrier + 1) (record { size = n; count = 0; generation = 0 });
    })

abbrev pub keep_collected : Kind → List ℕ → List ℕ
keep_collected reset c = c
keep_collected _ c = []

-- `request_snapshot`, `request_checkpoint` and `request_reset` up to the broadcast: `collected` is
-- cleared but for a reset, and the flag is set. No thread reads what `begin_rendezvous` has changed
-- before the flag, so that the two are one step.
unfoldable pub request : ℕ → Kind → Manager → Option Manager
unfolding begin_rendezvous
request n k m = elim (begin_rendezvous n m) [
  | none ↦ none
  | some m' ↦ some (record m' { req = some k; collected = keep_collected k m'.collected })
]

-- The saved states: a reset collects none.
unfoldable pub collect : Kind → ℕ → List ℕ → List ℕ
collect reset i c = c
collect _ i c = i ∷ c

-- `run_collect_leader` and `run_reset_leader`: the request is done with and CPU_ON allowed again.
unfoldable pub run_leader : Manager → Manager
run_leader m = record m {
  req = none;
  rendezvous_active = false;
  collected = elim m.req [ none ↦ m.collected | some k ↦ keep_collected k m.collected ];
}

-- `Barrier::wait` up to the point where it blocks or opens the barrier; true for the one that opens.
unfoldable pub enter : Barrier → Bool × Barrier
enter b =
    if ltb (b.count + 1) b.size
    then (false, record b { count = b.count + 1 })
    else (true, record b { count = 0; generation = b.generation + 1 })

-- A wait of `run_loop` at barrier `b`: on to `opener` for the one that opens it, else to `blocked`.
unfoldable pub wait : Manager → ℕ → ℕ → Pc → (ℕ → Pc) → Manager
wait m i b opener blocked =
    let bar = m.barriers b in
    let (opens, bar') = enter bar in
    let m' = record m { barriers = put m.barriers b bar' } in
    move m' i (if opens then opener else blocked bar.generation)

-- One step of thread `i` of the run loop, from where it stands; `x` is what `vcpu.run` returns.
-- None if the thread is blocked in a barrier that has not opened since, or has returned.
unfoldable pub advance : Exit → ℕ → Manager → Pc → Option Manager
advance x i m top = some (
    if m.shutdown then move m i finished else elim m.req [
      | none ↦ move m i guest
      | some k ↦ move (record m { collected = collect k i m.collected }) i (arrive1 m.snap_barrier)
    ])
advance back i m guest = some (move m i top)
advance off i m guest = some (move (record m { shutdown = true }) i finished)
advance error i m guest = some (move m i finished)
advance x i m finished = none
advance x i m (arrive1 b) = some (wait m i b (lead b) (wait1 b))
advance x i m (wait1 b g) =
    if (m.barriers b).generation == g then none else some (move m i (arrive2 b))
advance x i m (lead b) = some (move (run_leader m) i (arrive2 b))
advance x i m (arrive2 b) = some (wait m i b top (wait2 b))
advance x i m (wait2 b g) = if (m.barriers b).generation == g then none else some (move m i top)

-- Any thread may make the next step, and any requester may come in.
pub data Step (n : ℕ) (m : Manager) : Manager → Type 0 where
  run : (i : ℕ) (x : Exit) {m' : Manager} → i < n → advance x i m (m.pc i) ≡ some m' → Step n m m'
  ask : (k : Kind) {m' : Manager} → request n k m ≡ some m' → Step n m m'

pub data Steps (n : ℕ) (m : Manager) : Manager → Type 0 where
  stop : Steps n m m
  step : {a b : Manager} → Steps n m a → Step n a b → Steps n m b

-- All threads at the top of their loops, and no request made.
abbrev pub start : ℕ → List ℕ → Manager
start n ids = record {
  mpidrs = ids;
  running = ids;
  shutdown = false;
  rendezvous_active = false;
  req = none;
  snap_barrier = 0;
  barriers = λ b. record { size = n; count = 0; generation = 2 };
  collected = [];
  pc = λ i. top;
}
