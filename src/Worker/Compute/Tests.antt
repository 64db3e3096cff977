-- ===== src/Worker/Compute/Tests.antt =====
-- Launches on a concrete memory: a batch in the running state with 5 tokens, and one report slot.
use hami_vnpu_core_hhy.Common.{
  ℕ, ◌+◌, ◌<◌, ◌≡◌, refl, inl, inr, true, false, some, List, [], ◌∷◌, arith,
}
use hami_vnpu_core_hhy.Shmem.{
  LocalContainerShmem, zeroed_shmem, zeroed_report, state_running, state_measuring,
}
use hami_vnpu_core_hhy.Worker.{InnerLock, zeroed_lock}
use hami_vnpu_core_hhy.Worker.Compute.{
  event_record, device_synchronize, Runtime, measure_duration, Polled, launch, sleeps,
  reset_stale_batch, take_token, poll, measure_and_report_batch, Round, launched, wait_rounds,
}
use hami_vnpu_core_hhy.Worker.Compute.Launch.{wait_rounds-launched}
use hami_vnpu_core_hhy.Worker.Compute.Tokens.{
  Bucket, ready, loaded, update, load_some, take, dealt, Reach, start, later,
}
use hami_vnpu_core_hhy.Worker.Compute.Tokens.Overdraft.{Balances, Reach-Balances, overdraft}

abbrev runtime : Runtime
runtime = record { capture_status = λ stream. 0; elapsed_us = λ a b. 250; now_us = 1_000 }

abbrev running : LocalContainerShmem
running = record zeroed_shmem {
  state = state_running;
  batch_id = 3;
  tokens_remaining = 5;
  reports = zeroed_report ∷ [];
}

abbrev joined_lock : InnerLock
joined_lock = record zeroed_lock {
  batch_active = true;
  current_batch_id = 3;
  start_time_us = 1_000;
}

abbrev joined : LocalContainerShmem
joined = record running {
  tokens_remaining = 4;
  active_workers = 1;
  reports = record zeroed_report { cpu_start_us = 1_000 } ∷ [];
}

abbrev granted_poll : Polled
granted_poll = record {
  turn = launch;
  calls = event_record 0 0 ∷ [];
  lock = joined_lock;
  shmem = joined;
}

poll_launches : poll runtime 0 5 zeroed_lock running ≡ some granted_poll
unfolding poll take_token reset_stale_batch
poll_launches = refl

abbrev measuring : LocalContainerShmem
measuring = record joined { state = state_measuring; tokens_remaining = 0 }

abbrev reported_poll : Polled
reported_poll = record {
  turn = sleeps state_measuring;
  calls = device_synchronize ∷ [];
  lock = record joined_lock { batch_active = false; start_time_us = 0 };
  shmem = record measuring {
    reported_count = 1;
    reports = record zeroed_report { batch_id = 3; cpu_start_us = 1_000; duration_us = 0 } ∷ [];
  };
}

poll_reports : poll runtime 0 0 joined_lock measuring ≡ some reported_poll
unfolding poll measure_and_report_batch measure_duration reset_stale_batch
poll_reports = refl

abbrev round_of : ℕ → LocalContainerShmem → Round
round_of found s = record { shmem = s; found = found; runtime = runtime; unlocked = λ lock. lock }

-- First the batch is idle, then another worker is faster, then the token is there.
abbrev rounds : List Round
rounds = round_of 0 zeroed_shmem ∷ round_of 0 running ∷ round_of 5 running ∷ []

wait_ends : wait_rounds 0 rounds zeroed_lock ≡ some (launched joined_lock joined)
unfolding wait_rounds poll take_token reset_stale_batch
wait_ends = refl

wait_rounds-launched_example :
    (lock' : InnerLock) × (s' : LocalContainerShmem) × (wait_rounds 0 rounds zeroed_lock
      ≡ some (launched lock' s'))
wait_rounds-launched_example =
    wait_rounds-launched 0 rounds zeroed_lock (omega arith, (omega arith, (omega arith, tt)))
      (inr (inr (inl (refl, omega arith, omega arith))))

-- Worker 0 of a bucket of 5 loads and takes.
abbrev bucket_loaded : Bucket
bucket_loaded = record (dealt 5) { pc = update (dealt 5).pc 0 loaded }

abbrev bucket_taken : Bucket
bucket_taken = record { tokens_remaining = 4; granted = 1; pc = update bucket_loaded.pc 0 ready }

taken-Reach : (n : ℕ) → 0 < n → Reach n 5 bucket_taken
taken-Reach n lt =
    later (later start (load_some 0 lt refl (omega arith))) (take 0 lt refl (omega arith))

Reach-Balances_example : Balances 2 5 bucket_taken
Reach-Balances_example = Reach-Balances (omega arith) (taken-Reach 2 (omega arith))

overdraft_example : (s : Bucket) × Reach 2 5 s × (s.granted ≡ 5 + 1_000_000)
overdraft_example = overdraft 2 5 1_000_000 (omega arith) (omega arith) (omega arith) (omega arith)
