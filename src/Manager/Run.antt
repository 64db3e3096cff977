-- ===== src/Manager/Run.antt =====
-- crates/limiter/src/manager.rs: one pass through the loop of `run`, from the wait for the turn
-- to the hand-over. What the manager meets in each part is given; while it has the turn, no other
-- pod writes to the registry.
pub mod Parts
pub mod Turn
mod Tests
use hami_vnpu_core_hhy.Common.{
  [], ℕ, ◌&&◌, Option, none, some, List, ◌∷◌, ltb, if◌then◌else◌, ◌>>=◌,
}
use hami_vnpu_core_hhy.Shmem.{GlobalRegistry}
use hami_vnpu_core_hhy.Manager.Baton.{
  Shared, TurnRound, wait_for_global_turn, update_heartbeat, pass_baton,
}
use hami_vnpu_core_hhy.Manager.Round.{Limits, Met, RoundResult, run_local_round}
use hami_vnpu_core_hhy.Manager.Plan.Floats.{Float}
use hami_vnpu_core_hhy.Manager.Plan.{
  ContainerManager, SharePlan, calculate_fair_share, RestGlance, honor_fixed_rest_wait,
  update_local_stats, schedule_rest_wait,
}

-- The clock at the heartbeats of a loop.
unfoldable pub beat_all : ℕ → List ℕ → Shared → Shared
beat_all me [] s = s
beat_all me (now ∷ times) s = beat_all me times (update_heartbeat me now s)

-- What a pass meets: the rounds of its wait, the clock when the turn has come, the rest loop, the
-- local round, the clock at the statistics, and the instant at which the rest is scheduled.
pub record TurnMet : Type 0 where
  pub rounds : List TurnRound
  pub turn_us : ℕ
  pub rest_called : ℕ
  pub rest_glances : List RestGlance
  pub local_round : Met
  pub stats_us : ℕ
  pub scheduled : ℕ

module _ (fl : Float) (last_instant : ℕ) where
  abbrev pub limits_of : ContainerManager fl → SharePlan → Limits
  limits_of m plan = record {
    fixed_share_ratio = m.fixed_share_ratio;
    tokens = plan.tokens;
    time_limit_us = plan.time_limit_us;
    expected_run_us = plan.expected_run_us;
  }

  -- `if has_workers { … }`
  unfoldable pub count_workers :
      ℕ
      → RoundResult
      → ContainerManager fl
      → GlobalRegistry
      → Option (ContainerManager fl × GlobalRegistry)
  count_workers now r m g =
      if ltb 0 r.tokens_used && ltb 0 r.duration_us
      then update_local_stats fl now r.duration_us r.tokens_used m g
      else some (m, g)

  -- From the turn on. `none`: a loop is still running when its list ends.
  unfoldable pub use_turn :
      TurnMet → ContainerManager fl → Shared → Option (ContainerManager fl × Shared)
  unfolding beat_all count_workers
  use_turn met m s =
      let s1 = update_heartbeat m.my_global_idx met.turn_us s in
      honor_fixed_rest_wait fl met.rest_called met.rest_glances m >>= λ (m1, end, rest_beats).
      let s2 = beat_all m1.my_global_idx rest_beats s1 in
      let plan = calculate_fair_share fl m1 s2.global in
      run_local_round (limits_of m1 plan) s2.local met.local_round >>= λ r.
      let s3 = beat_all m1.my_global_idx r.heartbeats (record s2 { local = r.closed }) in
      count_workers met.stats_us r m1 s3.global >>= λ (m2, g). some (
        schedule_rest_wait fl last_instant met.scheduled plan.rest_wait_us m2,
        record s3 { global = pass_baton m2.my_global_idx g },
      )

  -- The registry is carried unchanged from part to part: what other pods write to it during the
  -- turn (a manager that joins, a claim, a stale look) is left out.
  unfoldable pub run_turn :
      TurnMet → ContainerManager fl → Shared → Option (ContainerManager fl × Shared)
  unfolding use_turn
  run_turn met m s =
      let (got, s1) = wait_for_global_turn m.my_global_idx met.rounds s in
      if got then use_turn met m s1 else none
