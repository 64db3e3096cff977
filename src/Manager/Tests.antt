-- ===== src/Manager/Tests.antt =====
-- Turns and rounds on concrete registries: three managers, of which 0 has the turn.
use hami_vnpu_core_hhy.Common.{
  ℕ, ◌+◌, ◌-◌, ◌^◌, ◌≤◌, ◌≡◌, refl, ◌⊎◌, inl, inr, false, some, List, [], ◌∷◌, ◌++◌, arith,
  replicate,
}
use hami_vnpu_core_hhy.Shmem.{
  GlobalRegistry, GlobalManagerSlot, LocalContainerShmem, LocalWorkerReport, zeroed_shmem,
  state_idle, state_running, state_measuring,
}
use hami_vnpu_core_hhy.Manager.Baton.{
  Shared, TurnRound, wait_for_global_turn, turn_round, watchdog_round, is_active_manager,
  slot_active, pass_baton, queue_entry,
}
use hami_vnpu_core_hhy.Manager.Baton.Rotation.{Rotation, window, pass_baton-Rotation}
use hami_vnpu_core_hhy.Manager.Baton.Turns.{quiet}
use hami_vnpu_core_hhy.Manager.Round.{
  Limits, Met, RoundResult, run_local_round, aggregate_local_times,
}
use hami_vnpu_core_hhy.Manager.Round.Aggregate.{Reports, aggregate_local_times_lem}
use hami_vnpu_core_hhy.Manager.Round.Consumed.{run_local_round_lem}

abbrev slot_of : ℕ → GlobalManagerSlot
slot_of active = record {
  pid = 7;
  avg_kernel_time = 500;
  last_heartbeat = 0;
  is_active = active;
  priority = 1;
}

-- The indices of the queue are about to wrap, and managers 1 and 2 wait.
abbrev registry : GlobalRegistry
registry = record {
  lock_owner = 0;
  lock_timestamp = 5_000;
  queue_head = 2 ^ 32 - 2;
  queue_tail = 1;
  queue = 2 ∷ replicate 62 0 ++ (1 ∷ []);
  slots = slot_of 1 ∷ slot_of 1 ∷ slot_of 1 ∷ slot_of 0 ∷ [];
  signal_counter = 0;
}

abbrev shared : Shared
shared = record { global = registry; local = zeroed_shmem }

registry-Rotation : Rotation 0 (1 ∷ 2 ∷ []) registry
unfolding window queue_entry is_active_manager slot_active
registry-Rotation = record {
  laid_out = refl;
  head_word = omega arith;
  tail = refl;
  entries = refl;
  room = omega arith;
  owner = refl;
  me_active = refl;
  all_active = (refl, (refl, tt));
}

pass_baton-Rotation_example : Rotation 1 (2 ∷ 0 ∷ []) (pass_baton 0 registry)
pass_baton-Rotation_example = pass_baton-Rotation 0 (1 ∷ 2 ∷ []) registry registry-Rotation

abbrev rounds : List TurnRound
rounds = record { now = 6_000; global = registry; seen = quiet registry } ∷ []

wait_goes_on : (wait_for_global_turn 1 rounds shared).0 ≡ false
unfolding wait_for_global_turn turn_round watchdog_round is_active_manager slot_active
wait_goes_on = refl

abbrev report_of : ℕ → ℕ → ℕ → LocalWorkerReport
report_of batch start duration = record {
  batch_id = batch;
  cpu_start_us = start;
  duration_us = duration;
  occupied = 1;
  pid = 7;
}

-- Two workers of batch 1, and one of the batch before.
abbrev measured : LocalContainerShmem
measured = record zeroed_shmem {
  batch_id = 1;
  reports = report_of 1 100 50 ∷ report_of 0 10 900 ∷ report_of 1 120 60 ∷ [];
}

aggregate_local_times_lem_example :
    (((r : LocalWorkerReport) → ¬ Reports 1 r measured.reports)
      × (aggregate_local_times measured 1 20 ≡ (0, 0)))
    ⊎ ((first : LocalWorkerReport) × (last : LocalWorkerReport) × Reports 1 first measured.reports
        × Reports 1 last measured.reports
        × (aggregate_local_times measured 1 20
            ≡ (last.cpu_start_us + last.duration_us - first.cpu_start_us, 20))
        × ((r : LocalWorkerReport)
            → Reports 1 r measured.reports
            → (first.cpu_start_us ≤ r.cpu_start_us)
              × (r.cpu_start_us + r.duration_us ≤ last.cpu_start_us + last.duration_us)))
aggregate_local_times_lem_example =
    aggregate_local_times_lem measured 1 20 (omega arith, (omega arith, (omega arith, tt)))

abbrev limits : Limits
limits = record {
  fixed_share_ratio = false;
  tokens = 20;
  time_limit_us = 40_000;
  expected_run_us = 10_000;
}

abbrev met : Met
met = record {
  glances =
      record {
        current_tokens = 20;
        active_workers = 1;
        elapsed_us = 10;
        elapsed_later_us = 11;
        remaining = 20;
        now_us = 110;
      }
      ∷ record {
        current_tokens = 0;
        active_workers = 2;
        elapsed_us = 900;
        elapsed_later_us = 901;
        remaining = 0;
        now_us = 1_000;
      }
      ∷ [];
  spent = measured;
  now_us = 1_000;
  report_glances =
      record { active = 2; reported = 2; elapsed_us = 20; since_heartbeat_us = 20; now_us = 1_020 }
      ∷ [];
  measured = measured;
}

run_local_round_lem_example :
    (r : RoundResult) × (run_local_round limits zeroed_shmem met ≡ some r)
    × ((r.opened.state ≡ state_running)
        × (r.opened.batch_id ≡ 1)
        × (r.opened.tokens_remaining ≡ 20)
        × (r.opened.active_workers ≡ 0)
        × (r.opened.reported_count ≡ 0))
    × ((r.measuring.state ≡ state_measuring) × (r.measuring.tokens_remaining ≡ 0))
    × (r.closed.state ≡ state_idle)
    × (r.tokens_used ≤ 20)
run_local_round_lem_example =
    run_local_round_lem limits zeroed_shmem met (inr (inl (inl refl))) (inl (inl (omega arith)))
