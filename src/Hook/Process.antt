-- ===== src/Hook/Process.antt =====
-- crates/hook/src/lib.rs: the two process-wide variables behind each intercepted call: which
-- process has started a supervisor thread, and the scheduler client with the process that made
-- it. A fork copies both. A call runs with no other thread of its process between. Whether a
-- thread can be spawned, and what `SchedulerClient::new` makes (`none` if it panics), are
-- arguments; a client is a value of any type.
pub mod Forks
pub mod Dropped
use hami_vnpu_core_hhy.Common.{
  [], ℕ, ◌+◌, Bool, true, false, Option, none, some, List, ◌∷◌, ◌==◌, if◌then◌else◌,
}

-- Whether a supervisor is started, and the value that SUPERVISOR_PID is left with.
unfoldable pub ensure_supervisor : ℕ → Bool → ℕ → Bool × ℕ
ensure_supervisor me can_spawn cur =
    if cur == me then (false, cur) else if can_spawn then (true, me) else (false, cur)

module _ {A : Type 0} (stub : A) where
  -- The client of a new registration, or the stub.
  abbrev pub made : Option A → A
  made none = stub
  made (some client) = client

  -- The body behind `ensure_supervisor`: the client returned, the guarded pair, and the client
  -- that the assignment to the guard drops. What that drop does to the shared memory is in
  -- Hook/Process/Dropped.
  unfoldable pub client_for : ℕ → Option A → Option (ℕ × A) → A × Option (ℕ × A) × Option A
  client_for me new none = (made new, some (me, made new), none)
  client_for me new (some (old_pid, client)) =
      if old_pid == me
      then (client, some (old_pid, client), none)
      else (made new, some (me, made new), some client)

-- SUPERVISOR_PID and LIMITER.
pub record Statics (A : Type 0) : Type 0 where
  pub supervisor_pid : ℕ
  pub limiter : Option (ℕ × A)

-- What surrounds a call.
pub record Attempt (A : Type 0) : Type 0 where
  pub can_spawn : Bool
  pub new : Option A

-- What a call returns, starts and drops.
pub record Limiter (A : Type 0) : Type 0 where
  pub client : A
  pub started : Bool
  pub dropped : Option A
  pub statics : Statics A

module _ {A : Type 0} (stub : A) (me : ℕ) where
  unfoldable pub npu_limiter : Attempt A → Statics A → Limiter A
  unfolding ensure_supervisor client_for
  npu_limiter a st =
      let (started, supervisor_pid) = ensure_supervisor me a.can_spawn st.supervisor_pid in
      let (client, limiter, dropped) = client_for stub me a.new st.limiter in
      record {
        client = client;
        started = started;
        dropped = dropped;
        statics = record { supervisor_pid = supervisor_pid; limiter = limiter };
      }

  -- The calls of one process in order: the clients returned, and how many supervisors are
  -- started.
  unfoldable pub npu_calls : List (Attempt A) → Statics A → List A × ℕ × Statics A
  unfolding npu_limiter
  npu_calls [] st = ([], 0, st)
  npu_calls (a ∷ attempts) st =
      let l = npu_limiter a st in
      let (clients, started, st') = npu_calls attempts l.statics in
      (l.client ∷ clients, (if l.started then started + 1 else started), st')
