-- ===== src/Manager/Plan.antt =====
-- crates/limiter/src/manager.rs: the manager of one pod and the numbers that it plans with: its
-- creation, the share plan, the statistics, and the rest between two turns. The floating-point
-- operations are a parameter. An `Instant` is a number of microseconds. Overflow wraps as in the
-- release build. `none` is a panic, or a loop that is still running when its list ends, as said
-- at each.
pub mod Tests
pub mod Floats
pub mod Bounds
pub mod Stats
pub mod Rest
pub mod Creation
use hami_vnpu_core_hhy.Common.{
  [], ℕ, ◌+◌, ◌-◌, ◌*◌, ◌/◌, ◌%◌, ◌^◌, min, max, Bool, not, ◌||◌, Option, none, some, List, ◌∷◌,
  ltb, leb, ◌==◌, if◌then◌else◌, ◌>>=◌,
}
use hami_vnpu_core_hhy.Common.Words.{add_u64, saturating_mul, pos}
use hami_vnpu_core_hhy.Shmem.{GlobalRegistry, GlobalManagerSlot, LocalContainerShmem}
use hami_vnpu_core_hhy.Manager.Baton.{Shared, set_slot, register_global_slot, default_avg_us}
use hami_vnpu_core_hhy.Manager.Plan.Floats.{Float}

abbrev pub min_tokens : ℕ
min_tokens = 1

abbrev pub max_tokens : ℕ
max_tokens = 2_000_000

abbrev pub mb_to_bytes : ℕ
mb_to_bytes = 1024 * 1024

-- `u64::clamp`, which panics if the bounds are out of order.
abbrev pub clamp_u64 : ℕ → ℕ → ℕ → Option ℕ
clamp_u64 x lo hi = if leb lo hi then some (min (max x lo) hi) else none

pub record SharePlan : Type 0 where
  pub tokens : ℕ
  pub time_limit_us : ℕ
  pub base_tokens : ℕ
  pub expected_run_us : ℕ
  pub rest_wait_us : ℕ
  pub anchor_speed_us : ℕ

-- The loop of `calculate_fair_share`.
unfoldable pub anchor_from : List GlobalManagerSlot → ℕ → ℕ
anchor_from [] anchor = anchor
anchor_from (slot ∷ slots) anchor = anchor_from slots (
    if slot.is_active == 1
    then if ltb anchor slot.avg_kernel_time then slot.avg_kernel_time else anchor
    else anchor)

-- What one turn of the rest loop reads, and the clock at its heartbeat.
pub record RestGlance : Type 0 where
  pub now : ℕ
  pub since_heartbeat_us : ℕ
  pub now_us : ℕ

-- The rest loop: the instant at which it ends, and the times of the heartbeats; `none` means that
-- it is still running when the list ends.
unfoldable pub rest_loop : ℕ → List RestGlance → Option (ℕ × List ℕ)
rest_loop deadline [] = none
rest_loop deadline (v ∷ later) =
    let rest = rest_loop deadline later in
    if leb deadline v.now
    then some (v.now, [])
    else (rest >>= λ (end, times).
        some (end, if ltb 100_000 v.since_heartbeat_us then v.now_us ∷ times else times))

module _ (fl : Float) where
  open fl use {F, decimal, from_word, to_word, add, sub, mul, div, ceil, round}

  -- `ContainerManager` without its two pointers.
  pub record ContainerManager : Type 0 where
    pub my_pid : ℕ
    pub my_global_idx : ℕ
    pub current_avg_us : ℕ
    pub my_priority : F
    pub token_scale : F
    pub ema_alpha : F
    pub fixed_share_ratio : Bool
    pub next_run_not_before : Option ℕ

  -- The three variables of the environment, parsed: `none` where one is not set, and the inner
  -- `none` where it is no number.
  pub record Tuning : Type 0 where
    pub token_scale : Option (Option F)
    pub avg_alpha : Option (Option F)
    pub fixed_share_ratio : Bool

  -- A variable, its default if it is not set, and the value for a text that is no number.
  abbrev pub parsed_or : Option (Option F) → F → F → F
  parsed_or none unset bad = unset
  parsed_or (some none) unset bad = bad
  parsed_or (some (some x)) unset bad = x

  abbrev pub new_manager : ℕ → ℕ → F → Tuning → ContainerManager
  new_manager pid idx priority t = record {
    my_pid = pid;
    my_global_idx = idx;
    current_avg_us = default_avg_us;
    my_priority = priority;
    token_scale = fl.max (parsed_or t.token_scale (decimal 1000 1) (decimal 10 1)) (decimal 1 1);
    ema_alpha =
        fl.clamp (parsed_or t.avg_alpha (decimal 7 1) (decimal 7 1)) (decimal 5 2) (decimal 95 2);
    fixed_share_ratio = t.fixed_share_ratio;
    next_run_not_before = none;
  }

  -- What `new` publishes in the pod's shared memory.
  abbrev pub publish : ℕ → ℕ → ℕ → LocalContainerShmem → LocalContainerShmem
  publish idx priority memory_limit_mb local = record local {
    memory_limit = memory_limit_mb * mb_to_bytes % 2 ^ 64;
    memory_used = if local.initialized == 0 then 0 else local.memory_used;
    compute_priority = priority;
    manager_global_idx = pos idx;
    initialized = 1;
  }

  -- `ContainerManager::new`, with the priority and the quota of the configuration; `none` if the
  -- registry is full.
  unfoldable pub new : ℕ → ℕ → F → ℕ → Tuning → Shared → Option (ContainerManager × Shared)
  unfolding set_slot
  new pid now priority memory_limit_mb t s = register_global_slot s.global pid now >>= λ (idx, g).
      some (
        new_manager pid idx priority t,
        record {
          global = set_slot g idx (λ slot. record slot { priority = to_word priority });
          local = publish idx (to_word priority) memory_limit_mb s.local;
        },
      )

  abbrev pub within_tokens : ℕ → ℕ
  within_tokens n = min (max n min_tokens) max_tokens

  abbrev pub rest_us : ContainerManager → ℕ → ℕ
  rest_us m anchor =
      let p = fl.clamp m.my_priority (decimal 10 1) (decimal 1000 1) in
      let wait = round (mul (mul (sub (decimal 1000 1) p) (from_word anchor)) m.token_scale) in
      if m.fixed_share_ratio
      then to_word (fl.clamp wait (decimal 0 0) (from_word (2 ^ 64 - 1)))
      else 0

  unfoldable pub calculate_fair_share : ContainerManager → GlobalRegistry → SharePlan
  unfolding anchor_from
  calculate_fair_share m g =
      let anchor = anchor_from g.slots 1 in
      let my_time = max m.current_avg_us 1 in
      let prio =
        if m.fixed_share_ratio
        then fl.max m.my_priority (decimal 1 2)
        else fl.max m.my_priority (decimal 10 1) in
      let raw_tokens = mul prio (div (from_word anchor) (from_word my_time)) in
      let base_tokens = within_tokens (to_word (ceil raw_tokens)) in
      let tokens = within_tokens (to_word (mul (from_word base_tokens) m.token_scale)) in
      let expected_run_us = saturating_mul tokens my_time in
      record {
        tokens = tokens;
        time_limit_us = add_u64 (add_u64 expected_run_us (expected_run_us / 2)) 50_000;
        base_tokens = base_tokens;
        expected_run_us = max expected_run_us 1;
        rest_wait_us = rest_us m anchor;
        anchor_speed_us = anchor;
      }

  -- The average that is mixed in; `none` is the panic of `clamp`.
  abbrev pub clamped_avg : ContainerManager → ℕ → ℕ → Option ℕ
  clamped_avg m duration_us tokens =
      clamp_u64 (duration_us / tokens) (max (m.current_avg_us / 4) 1)
        (max (saturating_mul m.current_avg_us 4) 1)

  abbrev pub mixed_avg : ContainerManager → ℕ → ℕ
  mixed_avg m avg = to_word (
      add (mul (from_word m.current_avg_us) (sub (decimal 10 1) m.ema_alpha))
        (mul (from_word avg) m.ema_alpha))

  unfoldable pub update_local_stats :
      ℕ → ℕ → ℕ → ContainerManager → GlobalRegistry → Option (ContainerManager × GlobalRegistry)
  unfolding set_slot
  update_local_stats now duration_us tokens m g =
      if tokens == 0
      then some (m, g)
      else (clamped_avg m duration_us tokens >>= λ avg.
          let mixed = mixed_avg m avg in
          some (
            record m { current_avg_us = mixed },
            set_slot g m.my_global_idx
                (λ slot. record slot { avg_kernel_time = mixed; last_heartbeat = now }),
          ))

  -- `checked_add` gives `none` past the last instant that the clock can hold.
  unfoldable pub schedule_rest_wait : ℕ → ℕ → ℕ → ContainerManager → ContainerManager
  schedule_rest_wait last_instant now rest_wait_us m =
      if not m.fixed_share_ratio || rest_wait_us == 0
      then record m { next_run_not_before = none }
      else record m {
        next_run_not_before =
            some (if leb (now + rest_wait_us) last_instant then now + rest_wait_us else now);
      }

  abbrev pub rested :
      ContainerManager → Option ℕ → ℕ → List RestGlance → Option (ContainerManager × ℕ × List ℕ)
  rested m none now glances = some (m, now, [])
  rested m (some deadline) now glances =
      (if ltb now deadline then rest_loop deadline glances else some (now, [])) >>= λ (end, times).
      some (record m { next_run_not_before = none }, end, times)

  -- The manager after the rest, the instant at which it goes on, and the times of the heartbeats.
  -- `now` is the instant at which it is called.
  unfoldable pub honor_fixed_rest_wait :
      ℕ → List RestGlance → ContainerManager → Option (ContainerManager × ℕ × List ℕ)
  unfolding rest_loop
  honor_fixed_rest_wait now glances m =
      if not m.fixed_share_ratio
      then some (m, now, [])
      else rested m m.next_run_not_before now glances
