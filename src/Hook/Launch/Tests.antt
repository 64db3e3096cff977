-- ===== src/Hook/Launch/Tests.antt =====
-- A launch on stream 0 that waits through an idle round and is then granted its token.
use hami_vnpu_core_hhy.Common.{[], ℕ, ◌≡◌, refl, false, true, some, List, ◌∷◌, arith}
use hami_vnpu_core_hhy.Shmem.{LocalContainerShmem, zeroed_shmem, zeroed_report, state_running}
use hami_vnpu_core_hhy.Worker.{InnerLock, SchedulerClient, zeroed_lock}
use hami_vnpu_core_hhy.Worker.Compute.{
  Runtime, Round, wait_for_token, wait_rounds, poll, take_token, reset_stale_batch,
}
use hami_vnpu_core_hhy.Worker.Compute.Launch.{GrantedIn}
use hami_vnpu_core_hhy.Hook.Launch.{LaunchCall, rt_model_execute, returns, launch, launch-GrantedIn}

abbrev runtime : Runtime
runtime = record { capture_status = λ stream. 0; elapsed_us = λ a b. 250; now_us = 1_000 }

abbrev running : LocalContainerShmem
running = record zeroed_shmem {
  state = state_running;
  batch_id = 3;
  tokens_remaining = 5;
  reports = zeroed_report ∷ [];
}

abbrev round_of : ℕ → LocalContainerShmem → Round
round_of found s = record { shmem = s; found = found; runtime = runtime; unlocked = λ lock. lock }

abbrev rounds : List Round
rounds = round_of 0 zeroed_shmem ∷ round_of 5 running ∷ []

abbrev client : SchedulerClient
client = record {
  my_slot_idx = 0;
  my_proc_idx = 0;
  device_id = 0;
  lock = zeroed_lock;
  hbm_handle_map = [];
  is_stub = false;
}

abbrev executes : LaunchCall
executes = rt_model_execute 40 0 2

-- The real functions return 17.
abbrev real : LaunchCall → ℕ
real c = 17

abbrev joined_lock : InnerLock
joined_lock = record zeroed_lock {
  batch_active = true;
  current_batch_id = 3;
  start_time_us = 1_000;
}

abbrev joined : LocalContainerShmem
joined = record running {
  tokens_remaining = 4;
  active_workers = 1;
  reports = record zeroed_report { cpu_start_us = 1_000 } ∷ [];
}

launches : launch real executes client rounds ≡ some (returns 17 (executes ∷ []) joined_lock joined)
unfolding launch wait_for_token wait_rounds poll take_token reset_stale_batch
launches = refl

launch-GrantedIn_example :
    (17 ≡ real executes)
    × (◌≡◌ {A = List LaunchCall} (executes ∷ []) (executes ∷ []))
    × GrantedIn rounds joined_lock joined
launch-GrantedIn_example =
    launch-GrantedIn real executes client rounds 17 (executes ∷ []) joined_lock joined refl
      (omega arith, (omega arith, tt)) launches
