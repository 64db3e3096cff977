-- ===== src/Worker/Compute.antt =====
-- crates/limiter/src/worker.rs, "Limit computing power": the loop that waits for a launch token,
-- and the report of a batch's time. The runtime's functions are a parameter, and the calls of
-- them are collected in order. A poll is one round of the loop, from the read of `state` on; its
-- accesses run with no other process between, but for the decrement of `tokens_remaining`, which
-- is told the value that it finds. `none` is a panic: a report slot out of range.
pub mod Tokens
pub mod Launch
mod Tests
use hami_vnpu_core_hhy.Common.{
  [], ℕ, ◌-◌, true, false, not, ◌&&◌, Option, some, List, ◌∷◌, ltb, ◌==◌, if◌then◌else◌, ◌>>=◌,
  get_elem?, set,
}
use hami_vnpu_core_hhy.Common.Words.{add_u64, dec_u64, inc_u32}
use hami_vnpu_core_hhy.Shmem.{
  LocalContainerShmem, state_idle, state_running, state_measuring, zeroed_shmem,
}
use hami_vnpu_core_hhy.Worker.{InnerLock, SchedulerClient}

-- The calls of the runtime that a poll makes.
pub data RtCall : Type 0 where
  get_capture_info : (stream : ℕ) → RtCall
  device_synchronize : RtCall
  event_record : (event stream : ℕ) → RtCall
  stream_wait_event : (stream event : ℕ) → RtCall
  stream_synchronize : (stream : ℕ) → RtCall
  event_elapsed_time : (start_event end_event : ℕ) → RtCall

-- What the runtime answers in one round: the capture status of a stream, and the elapsed time
-- between two events, as microseconds; and what the clock shows.
pub record Runtime : Type 0 where
  pub capture_status : ℕ → ℕ
  pub elapsed_us : ℕ → ℕ → ℕ
  pub now_us : ℕ

-- The time of a batch, and how it was taken.
pub record Measured : Type 0 where
  pub duration_us : ℕ
  pub calls : List RtCall

abbrev pub wall_clock_us : Runtime → InnerLock → ℕ
wall_clock_us rt lock = if lock.start_time_us == 0 then 0 else rt.now_us - lock.start_time_us

unfoldable pub measure_duration : Runtime → InnerLock → Measured
measure_duration rt lock =
    if lock.last_user_stream == 0
    then record { duration_us = wall_clock_us rt lock; calls = device_synchronize ∷ [] }
    else if rt.capture_status lock.last_user_stream == 0
    then record {
      duration_us = rt.elapsed_us lock.start_event lock.end_event;
      calls =
          get_capture_info lock.last_user_stream
          ∷ event_record lock.tracking_event lock.last_user_stream
          ∷ stream_wait_event lock.internal_stream lock.tracking_event
          ∷ event_record lock.end_event lock.internal_stream
          ∷ stream_synchronize lock.internal_stream
          ∷ event_elapsed_time lock.start_event lock.end_event
          ∷ [];
    }
    else record {
      duration_us = wall_clock_us rt lock;
      calls = get_capture_info lock.last_user_stream ∷ device_synchronize ∷ [];
    }

-- What a poll leaves: `turn` says how the round ends.
pub data Turn : Type 0 where
  launch : Turn
  yields : Turn
  retries : Turn
  sleeps : (expected : ℕ) → Turn

pub record Polled : Type 0 where
  pub turn : Turn
  pub calls : List RtCall
  pub lock : InnerLock
  pub shmem : LocalContainerShmem

-- "Reset Logic (If Manager moved to new batch)".
unfoldable pub reset_stale_batch : InnerLock → LocalContainerShmem → InnerLock
reset_stale_batch lock s =
    if lock.batch_active && not (s.batch_id == lock.current_batch_id)
    then record lock { batch_active = false; start_time_us = 0 }
    else lock

module _ (rt : Runtime) (slot_idx : ℕ) where
  unfoldable pub measure_and_report_batch :
      InnerLock → LocalContainerShmem → Option (List RtCall × InnerLock × LocalContainerShmem)
  unfolding measure_duration
  measure_and_report_batch lock s = get_elem? s.reports slot_idx >>= λ report.
      let m = measure_duration rt lock in
      let report' = record report {
        batch_id = lock.current_batch_id;
        duration_us = m.duration_us;
      } in
      some (
        m.calls,
        record lock { batch_active = false; start_time_us = 0 },
        record s {
          reports = set s.reports slot_idx report';
          reported_count = inc_u32 s.reported_count;
        },
      )

  -- What follows a successful decrement.
  unfoldable pub take_token : InnerLock → LocalContainerShmem → Option Polled
  take_token lock s =
      if lock.batch_active
      then some (record { turn = launch; calls = []; lock = lock; shmem = s })
      else (get_elem? s.reports slot_idx >>= λ report. some (record {
        turn = launch;
        calls = event_record lock.start_event lock.internal_stream ∷ [];
        lock = record lock {
          current_batch_id = s.batch_id;
          batch_active = true;
          start_time_us = rt.now_us;
        };
        shmem = record s {
          active_workers = inc_u32 s.active_workers;
          reports = set s.reports slot_idx (record report { cpu_start_us = rt.now_us });
        };
      }))

  -- One round of the loop of `wait_for_token`. `found` is what the decrement finds.
  unfoldable pub poll : ℕ → InnerLock → LocalContainerShmem → Option Polled
  unfolding measure_and_report_batch reset_stale_batch take_token
  poll found lock0 s =
      let lock = reset_stale_batch lock0 s in
      if s.state == state_running
      then if s.tokens_remaining == 0
        then some (record { turn = yields; calls = []; lock = lock; shmem = s })
        else if ltb 0 found
        then take_token lock (record s { tokens_remaining = dec_u64 found })
        else some (record {
          turn = retries;
          calls = [];
          lock = lock;
          shmem = record s { tokens_remaining = add_u64 (dec_u64 found) 1 };
        })
      else if s.state == state_measuring
      then if lock.batch_active && s.batch_id == lock.current_batch_id
        then (measure_and_report_batch lock s >>= λ (calls, lock', s').
            some
              (record { turn = sleeps state_measuring; calls = calls; lock = lock'; shmem = s' }))
        else some (record { turn = sleeps state_measuring; calls = []; lock = lock; shmem = s })
      else some (record { turn = sleeps state_idle; calls = []; lock = lock; shmem = s })

-- What surrounds a round: the shared memory that it meets, what the decrement finds, the
-- runtime's answers, and what other threads of the process do to the locked state if the round
-- ends by unlocking it.
pub record Round : Type 0 where
  pub shmem : LocalContainerShmem
  pub found : ℕ
  pub runtime : Runtime
  pub unlocked : InnerLock → InnerLock

-- How a wait stands when the rounds are over.
pub data Wait : Type 0 where
  launched : InnerLock → LocalContainerShmem → Wait
  waiting : InnerLock → Wait

-- The wait after a round: `kept` is how it goes on with the lock held, `unlocked` after the mutex
-- was free.
abbrev pub after_round : Polled → Turn → Option Wait → Option Wait → Option Wait
after_round p launch kept unlocked = some (launched p.lock p.shmem)
after_round p yields kept unlocked = unlocked
after_round p retries kept unlocked = kept
after_round p (sleeps expected) kept unlocked = unlocked

unfoldable pub wait_rounds : ℕ → List Round → InnerLock → Option Wait
wait_rounds slot_idx [] lock = some (waiting lock)
wait_rounds slot_idx (r ∷ rounds) lock = poll r.runtime slot_idx r.found lock r.shmem >>= λ p.
    let kept = wait_rounds slot_idx rounds p.lock in
    let unlocked = wait_rounds slot_idx rounds (r.unlocked p.lock) in
    after_round p p.turn kept unlocked

-- `wait_for_token`: the launch of a kernel on `user_stream` waits through the rounds.
unfoldable pub wait_for_token : SchedulerClient → ℕ → List Round → Option Wait
unfolding wait_rounds
wait_for_token client user_stream rounds =
    if client.is_stub
    then some (launched client.lock zeroed_shmem)
    else wait_rounds client.my_slot_idx rounds
        (record client.lock { last_user_stream = user_stream })
