-- ===== src/Manager/Plan/Tests.antt =====
-- Plans and statistics, with floating-point numbers cut to thousandths.
use hami_vnpu_core_hhy.Common.{
  ◌<◌, [], ℕ, ◌+◌, ◌-◌, ◌*◌, ◌/◌, ◌^◌, ◌≤◌, ◌≡◌, ◌≢◌, refl, ◌⊎◌, true, false, none, some, ◌∷◌,
  arith, max, min, get_elem?, replicate, if◌then◌else◌, ◌==◌, ◌%◌,
}
use hami_vnpu_core_hhy.Common.Words.{pos}
use hami_vnpu_core_hhy.Shmem.{GlobalRegistry, GlobalManagerSlot, zeroed_shmem}
use hami_vnpu_core_hhy.Manager.Baton.{Shared}
use hami_vnpu_core_hhy.Manager.Plan.Floats.{Float}
use hami_vnpu_core_hhy.Manager.Plan.{
  ContainerManager, Tuning, calculate_fair_share, update_local_stats, new, max_tokens, mb_to_bytes,
}
use hami_vnpu_core_hhy.Manager.Plan.Bounds.{IsActiveSlot, calculate_fair_share_bounds}
use hami_vnpu_core_hhy.Manager.Plan.Stats.{IsCut, update_local_stats_lem}
use hami_vnpu_core_hhy.Manager.Plan.Creation.{new_lem}

abbrev pub milli : Float
milli = record {
  F = ℕ;
  decimal = λ n d. n * 1000 / 10 ^ d;
  from_word = λ n. n * 1000;
  to_word = λ x. x / 1000;
  add = λ x y. x + y;
  sub = λ x y. x - y;
  mul = λ x y. x * y / 1000;
  div = λ x y. if y == 0 then 0 else x * 1000 / y;
  max = λ x y. max x y;
  clamp = λ x low high. min (max x low) high;
  ceil = λ x. (x + 999) / 1000 * 1000;
  round = λ x. (x + 500) / 1000 * 1000;
}

abbrev pub slot_of : ℕ → ℕ → GlobalManagerSlot
slot_of active avg = record {
  pid = 7;
  avg_kernel_time = avg;
  last_heartbeat = 0;
  is_active = active;
  priority = 1;
}

-- Manager 0 has the turn on a registry of two; slot 2 is free.
abbrev pub registry : GlobalRegistry
registry = record {
  lock_owner = 0;
  lock_timestamp = 5_000;
  queue_head = 0;
  queue_tail = 2;
  queue = 0 ∷ 1 ∷ replicate 62 0;
  slots = slot_of 1 500 ∷ slot_of 1 2_000 ∷ slot_of 0 9_000 ∷ [];
  signal_counter = 0;
}

abbrev pub manager : ContainerManager milli
manager = record {
  my_pid = 7;
  my_global_idx = 0;
  current_avg_us = 500;
  my_priority = 50_000;
  token_scale = 1_000;
  ema_alpha = 700;
  fixed_share_ratio = false;
  next_run_not_before = none;
}

abbrev shared : Shared
shared = record { global = registry; local = zeroed_shmem }

abbrev pub untuned : Tuning milli
untuned = record { token_scale = none; avg_alpha = none; fixed_share_ratio = false }

-- The slowest active manager takes four times as long for a token, so this one gets four times
-- its priority.
plan_tokens : (calculate_fair_share milli manager registry).tokens ≡ 200
unfolding calculate_fair_share
plan_tokens = refl

calculate_fair_share_bounds_example :
    (let plan = calculate_fair_share milli manager registry in
      ((1 ≤ plan.tokens) × (plan.tokens ≤ max_tokens))
      × ((1 ≤ plan.base_tokens) × (plan.base_tokens ≤ max_tokens))
      × ((1 ≤ plan.expected_run_us)
          × (plan.expected_run_us ≡ min (plan.tokens * max 500 1) (2 ^ 64 - 1)))
      × ((plan.time_limit_us ≡ plan.expected_run_us + plan.expected_run_us / 2 + 50_000)
          ⊎ (2 ^ 64 ≤ plan.expected_run_us + plan.expected_run_us / 2 + 50_000))
      × ((1 ≤ plan.anchor_speed_us)
          × ((i avg : ℕ) → IsActiveSlot registry.slots i avg → avg ≤ plan.anchor_speed_us)
          × ((plan.anchor_speed_us ≡ 1)
              ⊎ ((i : ℕ) × IsActiveSlot registry.slots i plan.anchor_speed_us)))
      × ((false ≡ true) ⊎ (plan.rest_wait_us ≡ 0)))
calculate_fair_share_bounds_example = calculate_fair_share_bounds milli manager registry

abbrev mixed : ℕ → ℕ
mixed avg =
    (500_000 * (1_000 - manager.ema_alpha) / 1_000 + avg * 1_000 * manager.ema_alpha / 1_000)
    / 1_000

-- 10 tokens in 40 ms: twice the cap of four times the average.
update_local_stats_lem_example :
    (avg : ℕ) × (m' : ContainerManager milli) × (g' : GlobalRegistry) × (update_local_stats milli
        9_000 40_000 10 manager registry
      ≡ some (m', g'))
    × IsCut (max (500 / 4) 1) (max (min (500 * 4) (2 ^ 64 - 1)) 1) (40_000 / 10) avg
    × (m' ≡ record manager { current_avg_us = mixed avg })
    × (get_elem? g'.slots 0
        ≡ some (record (slot_of 1 500) { avg_kernel_time = mixed avg; last_heartbeat = 9_000 }))
    × ((i : ℕ) → 0 ≢ i → get_elem? g'.slots i ≡ get_elem? registry.slots i)
update_local_stats_lem_example =
    update_local_stats_lem milli 9_000 40_000 10 manager registry (slot_of 1 500) (omega arith)
      (omega arith) refl

new_lem_example :
    ((new milli 8 9_000 50_000 1_024 untuned shared ≡ none)
      × ((k : ℕ) (slot : GlobalManagerSlot)
          → get_elem? registry.slots k ≡ some slot
          → slot.is_active ≢ 0))
    ⊎ ((m : ContainerManager milli) × (s' : Shared) × (new milli 8 9_000 50_000 1_024 untuned shared
          ≡ some (m, s'))
        × ((slot : GlobalManagerSlot) × (get_elem? registry.slots m.my_global_idx ≡ some slot)
            × (slot.is_active ≡ 0)
            × ((j : ℕ) (other : GlobalManagerSlot)
                → j < m.my_global_idx
                → get_elem? registry.slots j ≡ some other
                → other.is_active ≢ 0)
            × (get_elem? s'.global.slots m.my_global_idx
                ≡ some (record slot {
                  pid = 8;
                  avg_kernel_time = 500;
                  last_heartbeat = 9_000;
                  is_active = 1;
                  priority = 50;
                }))
            × ((i : ℕ)
                → m.my_global_idx ≢ i
                → get_elem? s'.global.slots i ≡ get_elem? registry.slots i))
        × (s'.local ≡ record zeroed_shmem {
          memory_limit = 1_024 * mb_to_bytes % 2 ^ 64;
          memory_used = 0;
          compute_priority = 50;
          manager_global_idx = pos m.my_global_idx;
          initialized = 1;
        }))
new_lem_example = new_lem milli 8 9_000 50_000 1_024 untuned shared
