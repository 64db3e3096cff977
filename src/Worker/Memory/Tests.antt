-- ===== src/Worker/Memory/Tests.antt =====
-- The quota on concrete memories: a live process with 100 bytes on device 0 beside a dead one
-- with 50, a counter that is out of date, and a limit of 1000.
use hami_vnpu_core_hhy.Common.{
  ◌>>=◌, ℕ, ◌+◌, ◌-◌, ◌%◌, ◌^◌, ◌≤◌, ◌<◌, ◌≡◌, refl, ◌⊎◌, Bool, false, not, some, List, [], ◌∷◌,
  ◌==◌, arith, replicate, ◌≢◌,
}
use hami_vnpu_core_hhy.Shmem.{ProcessSlot, LocalContainerShmem, zeroed_shmem}
use hami_vnpu_core_hhy.Worker.{SchedulerClient, zeroed_lock}
use hami_vnpu_core_hhy.Worker.Memory.RoundTrip.{post_free_hbm-post_alloc_hbm}
use hami_vnpu_core_hhy.Worker.Memory.{
  lookup, post_free_hbm, scan_slot, scan_procs, atomic_saturating_sub, match_slot_sum,
  recalculate_usage_for_device, reserve, check_memory_quota, insert, update_hbm, post_alloc_hbm,
  rt_error_none, rt_error_memory_allocation,
}
use hami_vnpu_core_hhy.Worker.Memory.Usage.{live_bytes, NoDead}
use hami_vnpu_core_hhy.Worker.Memory.Recalculate.{recalculate_lem}
use hami_vnpu_core_hhy.Worker.Memory.Quota.{
  IsSound, reserve-IsSound, check_memory_quota_lem, check_memory_quota-wraps,
}
use hami_vnpu_core_hhy.Worker.Memory.Race.{Owns, quota_race}

abbrev alive : ℕ → Bool
alive pid = not (pid == 9)

abbrev slot_of : ℕ → ℕ → ProcessSlot
slot_of pid used = record { pid = pid; hbm_used = used ∷ replicate 7 0; is_active = 1 }

abbrev cleared : ProcessSlot
cleared = record { pid = 0; hbm_used = replicate 8 0; is_active = 0 }

abbrev memory : ℕ → List ProcessSlot → LocalContainerShmem
memory used procs = record zeroed_shmem { memory_limit = 1000; memory_used = used; procs = procs }

abbrev before : LocalContainerShmem
before = memory 500 (slot_of 7 100 ∷ slot_of 9 50 ∷ [])

abbrev client_at : ℕ → SchedulerClient
client_at i = record {
  my_slot_idx = 0;
  my_proc_idx = i;
  device_id = 0;
  lock = zeroed_lock;
  hbm_handle_map = [];
  is_stub = false;
}

abbrev swept : ℕ → LocalContainerShmem
swept used = memory used (slot_of 7 100 ∷ cleared ∷ [])

recalculate_runs : recalculate_usage_for_device alive 0 before ≡ some (100, swept 100)
unfolding recalculate_usage_for_device scan_procs scan_slot match_slot_sum atomic_saturating_sub
recalculate_runs = refl

check_runs : check_memory_quota alive (client_at 0) 200 [] before ≡ some (rt_error_none, swept 300)
unfolding check_memory_quota reserve recalculate_usage_for_device scan_procs scan_slot
    match_slot_sum atomic_saturating_sub
check_runs = refl

check_refuses :
    check_memory_quota alive (client_at 0) 901 [] before
    ≡ some (rt_error_memory_allocation, swept 100)
unfolding check_memory_quota reserve recalculate_usage_for_device scan_procs scan_slot
    match_slot_sum atomic_saturating_sub
check_refuses = refl

recalculate_lem_example :
    (100 ≡ live_bytes alive 0 before.procs % 2 ^ 64)
    × (live_bytes alive 0 (swept 100).procs ≡ live_bytes alive 0 before.procs)
    × NoDead alive (swept 100).procs
    × (swept 100 ≡ record before { memory_used = 100; procs = (swept 100).procs })
recalculate_lem_example = recalculate_lem alive 0 before (swept 100) 100 recalculate_runs

-- Two other processes change the counter before the third attempt.
reserve-IsSound_example :
    IsSound 1000 200 100 (400 ∷ 700 ∷ []) (reserve 1000 200 100 (400 ∷ 700 ∷ []))
reserve-IsSound_example = reserve-IsSound 1000 200 100 (400 ∷ 700 ∷ [])

live_before : live_bytes alive 0 before.procs ≡ 100
unfolding live_bytes
live_before = refl

check_memory_quota_lem_example :
    (((rt_error_none ≡ rt_error_none)
        × (live_bytes alive 0 before.procs + 200 ≤ 1000)
        × (300 ≡ live_bytes alive 0 before.procs + 200))
      ⊎ ((rt_error_none ≡ rt_error_memory_allocation)
          × (1000 < live_bytes alive 0 before.procs + 200)
          × (300 ≡ live_bytes alive 0 before.procs)))
    × (live_bytes alive 0 (swept 300).procs ≡ live_bytes alive 0 before.procs)
    × ((swept 300).memory_limit ≡ before.memory_limit)
check_memory_quota_lem_example =
    check_memory_quota_lem alive (client_at 0) 200 before refl (omega arith) rt_error_none
      (swept 300) check_runs (omega (arith, live_before))

abbrev huge : ℕ
huge = 2 ^ 64 - 60

check_admits_huge :
    check_memory_quota alive (client_at 0) huge [] before ≡ some (rt_error_none, swept 40)
unfolding check_memory_quota reserve recalculate_usage_for_device scan_procs scan_slot
    match_slot_sum atomic_saturating_sub
check_admits_huge = refl

check_memory_quota-wraps_example :
    (rt_error_none ≡ rt_error_none)
    × (40 + 2 ^ 64 ≡ live_bytes alive 0 before.procs + huge)
    × (40 < live_bytes alive 0 before.procs)
check_memory_quota-wraps_example =
    check_memory_quota-wraps alive (client_at 0) huge before refl (omega arith) rt_error_none
      (swept 40) check_admits_huge (omega arith) (omega (arith, live_before)) (omega arith)
      (omega (arith, live_before))

-- Two live processes, the second with nothing yet.
abbrev pair_slots : ℕ → ℕ → List ProcessSlot
pair_slots a b = slot_of 7 a ∷ slot_of 8 b ∷ []

abbrev pair : ℕ → ℕ → ℕ → LocalContainerShmem
pair used a b = memory used (pair_slots a b)

abbrev with_handle : ℕ → ℕ → ℕ → SchedulerClient
with_handle i p size = record (client_at i) { hbm_handle_map = (p, size) ∷ [] }

first-Owns : Owns alive (client_at 0) 600 (pair_slots 100 0)
first-Owns = record {
  slot = slot_of 7 100;
  stands = refl;
  taken = omega arith;
  lives = refl;
  counter = omega arith;
  fits = omega arith;
}

second-Owns : Owns alive (client_at 1) 700 (pair_slots 100 0)
second-Owns = record {
  slot = slot_of 8 0;
  stands = refl;
  taken = omega arith;
  lives = refl;
  counter = omega arith;
  fits = omega arith;
}

first_checks :
    check_memory_quota alive (client_at 0) 600 [] (pair 100 100 0)
    ≡ some (rt_error_none, pair 700 100 0)
unfolding check_memory_quota reserve recalculate_usage_for_device scan_procs scan_slot
    match_slot_sum atomic_saturating_sub
first_checks = refl

second_checks :
    check_memory_quota alive (client_at 1) 700 [] (pair 700 100 0)
    ≡ some (rt_error_none, pair 800 100 0)
unfolding check_memory_quota reserve recalculate_usage_for_device scan_procs scan_slot
    match_slot_sum atomic_saturating_sub
second_checks = refl

first_books :
    post_alloc_hbm alive 11 600 rt_error_none (client_at 0) (pair 800 100 0)
    ≡ some (with_handle 0 11 600, pair 800 700 0)
unfolding post_alloc_hbm update_hbm insert
first_books = refl

second_books :
    post_alloc_hbm alive 12 700 rt_error_none (client_at 1) (pair 800 700 0)
    ≡ some (with_handle 1 12 700, pair 800 700 700)
unfolding post_alloc_hbm update_hbm insert
second_books = refl

live_pair : live_bytes alive 0 (pair_slots 100 0) ≡ 100
unfolding live_bytes
live_pair = refl

-- 1400 live bytes under a limit of 1000.
quota_race_example :
    (rt_error_none ≡ rt_error_none)
    × (rt_error_none ≡ rt_error_none)
    × (800 ≡ live_bytes alive 0 (pair_slots 100 0) + 700)
    × (live_bytes alive 0 (pair_slots 700 700) ≡ live_bytes alive 0 (pair_slots 100 0) + 600 + 700)
quota_race_example =
    quota_race alive (client_at 0) (client_at 1) (with_handle 0 11 600) (with_handle 1 12 700) 600
      700 11 12 rt_error_none rt_error_none (pair 100 100 0) (pair 700 100 0) (pair 800 100 0)
      (pair 800 700 0) (pair 800 700 700) refl refl refl (omega arith) (omega arith) (omega arith)
      (omega (arith, live_pair)) (omega (arith, live_pair)) first_checks second_checks first_books
      second_books first-Owns second-Owns

post_free_hbm-post_alloc_hbm_example :
    (client' : SchedulerClient) × ((post_alloc_hbm alive 11 600 rt_error_none
          (client_at 0)
          (pair 800 100 0)
        >>= λ (client1, s1). post_free_hbm alive 11 rt_error_none client1 s1)
      ≡ some (client', pair 200 100 0))
    × ((q : ℕ) → 11 ≢ q → lookup q client'.hbm_handle_map ≡ lookup q [])
post_free_hbm-post_alloc_hbm_example =
    post_free_hbm-post_alloc_hbm alive (client_at 0) 11 600 (pair 800 100 0) first-Owns
      (omega arith) (omega arith)
