-- ===== src/Manager/Round.antt =====
-- crates/limiter/src/manager.rs: one local round: the batch that is opened for the workers, the
-- wait until its tokens are spent or its time is up, the wait for the reports, and their
-- aggregate. Times are microseconds. What the manager reads in each turn of its loops is given as
-- a list, and the times of its heartbeats are collected.
pub mod Aggregate
pub mod Consumed
use hami_vnpu_core_hhy.Common.{
  [], ℕ, ◌+◌, ◌-◌, ◌/◌, max, Bool, true, false, not, ◌&&◌, ◌||◌, Option, none, some, List, ◌∷◌,
  ◌++◌, ltb, leb, ◌==◌, if◌then◌else◌,
}
use hami_vnpu_core_hhy.Common.Words.{u64_max, add_u64}
use hami_vnpu_core_hhy.Shmem.{
  LocalContainerShmem, LocalWorkerReport, state_idle, state_running, state_measuring,
}

unfoldable pub start_local_batch : ℕ → ℕ → LocalContainerShmem → LocalContainerShmem
start_local_batch batch_id tokens s = record s {
  batch_id = batch_id;
  tokens_remaining = tokens;
  active_workers = 0;
  reported_count = 0;
  state = state_running;
}

-- Without the heartbeat between the two stores.
unfoldable pub enter_measuring_state : LocalContainerShmem → LocalContainerShmem
enter_measuring_state s = record s { tokens_remaining = 0; state = state_measuring }

-- What one turn of the first loop reads.
pub record Glance : Type 0 where
  pub current_tokens : ℕ
  pub active_workers : ℕ
  pub elapsed_us : ℕ
  pub elapsed_later_us : ℕ
  pub remaining : ℕ
  pub now_us : ℕ

pub record Limits : Type 0 where
  pub fixed_share_ratio : Bool
  pub tokens : ℕ
  pub time_limit_us : ℕ
  pub expected_run_us : ℕ

-- How the first loop stands: the tokens counted for the statistics, and the heartbeats; `done`
-- says that it has ended.
pub record Spending : Type 0 where
  pub done : Bool
  pub tokens_consumed_for_stats : ℕ
  pub heartbeats : List ℕ

abbrev ends : ℕ → Spending
ends consumed = record { done = true; tokens_consumed_for_stats = consumed; heartbeats = [] }

abbrev beats : ℕ → Spending → Spending
beats now s = record s { heartbeats = now ∷ s.heartbeats }

abbrev pub no_progress_us : ℕ
no_progress_us = 5_000

unfoldable pub spend_loop : Limits → List Glance → Bool → ℕ → Spending
spend_loop lim [] saw_progress last_tokens = record {
  done = false;
  tokens_consumed_for_stats = 0;
  heartbeats = [];
}
spend_loop lim (v ∷ later) saw_progress last_tokens =
    let progress =
      saw_progress
      || (not lim.fixed_share_ratio
          && (ltb v.current_tokens last_tokens || ltb 0 v.active_workers)) in
    let rest = spend_loop lim later progress v.current_tokens in
    if v.current_tokens == 0
    then ends 0
    else if lim.fixed_share_ratio && leb lim.expected_run_us v.elapsed_us
    then ends (lim.tokens - v.current_tokens)
    else if not lim.fixed_share_ratio && (not progress && ltb no_progress_us v.elapsed_us)
    then ends 0
    else if ltb lim.time_limit_us v.elapsed_later_us
    then ends (lim.tokens - v.remaining)
    else beats v.now_us rest

-- The count after the loop, where the loop left 0: `remaining` is read once more.
abbrev pub consumed_for_stats : Limits → ℕ → ℕ → ℕ
consumed_for_stats lim remaining consumed =
    if consumed == 0 then lim.tokens - remaining else consumed

-- What one turn of the second loop reads.
pub record ReportGlance : Type 0 where
  pub active : ℕ
  pub reported : ℕ
  pub elapsed_us : ℕ
  pub since_heartbeat_us : ℕ
  pub now_us : ℕ

abbrev pub local_report_grace_us : ℕ
local_report_grace_us = 500_000

abbrev pub grace_us : ℕ → ℕ
grace_us time_limit_us = max local_report_grace_us (time_limit_us / 4 + 10_000)

-- The wait for the reports: whether it has ended, and the heartbeats.
unfoldable pub report_loop : ℕ → List ReportGlance → Bool × List ℕ
report_loop grace [] = (false, [])
report_loop grace (v ∷ later) =
    let (done, times) = report_loop grace later in
    if leb v.active v.reported
    then (true, [])
    else if ltb grace v.elapsed_us
    then (true, [])
    else (done, if ltb 100_000 v.since_heartbeat_us then v.now_us ∷ times else times)

-- The loop of `aggregate_local_times`.
pub record Span : Type 0 where
  pub global_start : ℕ
  pub global_end : ℕ
  pub participants : ℕ

abbrev takes_part : ℕ → LocalWorkerReport → Bool
takes_part batch_id r = r.batch_id == batch_id && ltb 0 r.duration_us

abbrev widen : Span → LocalWorkerReport → Span
widen s r =
    let end = add_u64 r.cpu_start_us r.duration_us in
    record {
      global_start = if ltb r.cpu_start_us s.global_start then r.cpu_start_us else s.global_start;
      global_end = if ltb s.global_end end then end else s.global_end;
      participants = s.participants + 1;
    }

unfoldable pub aggregate_loop : ℕ → List LocalWorkerReport → Span → Span
aggregate_loop batch_id [] s = s
aggregate_loop batch_id (r ∷ reports) s =
    aggregate_loop batch_id reports (if takes_part batch_id r then widen s r else s)

unfoldable pub aggregate_local_times : LocalContainerShmem → ℕ → ℕ → ℕ × ℕ
unfolding aggregate_loop
aggregate_local_times local batch_id tokens_for_stats =
    let s =
      aggregate_loop batch_id local.reports
        (record { global_start = u64_max; global_end = 0; participants = 0 }) in
    if s.participants == 0 then (0, 0) else (
      if ltb s.global_start s.global_end then s.global_end - s.global_start else 0,
      tokens_for_stats,
    )

-- What a round meets: the turns of its two loops, the shared memory as the workers have left it
-- when each loop is over, and the clock when the measuring begins.
pub record Met : Type 0 where
  pub glances : List Glance
  pub spent : LocalContainerShmem
  pub now_us : ℕ
  pub report_glances : List ReportGlance
  pub measured : LocalContainerShmem

pub record RoundResult : Type 0 where
  pub duration_us : ℕ
  pub tokens_used : ℕ
  pub heartbeats : List ℕ
  pub opened : LocalContainerShmem
  pub measuring : LocalContainerShmem
  pub closed : LocalContainerShmem

-- What a round computes and leaves. `opened`, `measuring` and `closed` are the shared memory at
-- the three changes of its state.
unfoldable pub round_result : Limits → LocalContainerShmem → Met → RoundResult
unfolding start_local_batch enter_measuring_state spend_loop report_loop aggregate_local_times
round_result lim s met =
    let batch_id = add_u64 s.batch_id 1 in
    let spending = spend_loop lim met.glances false lim.tokens in
    let consumed =
      consumed_for_stats lim met.spent.tokens_remaining spending.tokens_consumed_for_stats in
    let (duration, tokens_used) = aggregate_local_times met.measured batch_id consumed in
    let times = (report_loop (grace_us lim.time_limit_us) met.report_glances).1 in
    record {
      duration_us = duration;
      tokens_used = tokens_used;
      heartbeats = spending.heartbeats ++ (met.now_us ∷ times);
      opened = start_local_batch batch_id lim.tokens s;
      measuring = enter_measuring_state met.spent;
      closed = record met.measured { state = state_idle };
    }

-- `run_local_round`; `none` means that a loop is still running when its list ends.
unfoldable pub run_local_round : Limits → LocalContainerShmem → Met → Option RoundResult
unfolding round_result
run_local_round lim s met =
    let spent = (spend_loop lim met.glances false lim.tokens).done in
    let reported = (report_loop (grace_us lim.time_limit_us) met.report_glances).0 in
    if spent && reported then some (round_result lim s met) else none
