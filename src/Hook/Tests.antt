-- ===== src/Hook/Tests.antt =====
-- The intercepted calls of a pod of two processes under a limit of 1000 bytes.
use hami_vnpu_core_hhy.Common.{
  none, ℕ, ◌+◌, ◌≤◌, ◌<◌, ◌≡◌, refl, ◌≢◌, ◌⊎◌, Bool, true, false, some, List, [], ◌∷◌, ◌==◌, arith,
  replicate, Yields, if◌then◌else◌,
}
use hami_vnpu_core_hhy.Shmem.{ProcessSlot, LocalContainerShmem, zeroed_shmem}
use hami_vnpu_core_hhy.Worker.{SchedulerClient, zeroed_lock}
use hami_vnpu_core_hhy.Worker.Memory.{
  scan_slot, scan_procs, atomic_saturating_sub, match_slot_sum, recalculate_usage_for_device,
  reserve, check_memory_quota, insert, lookup, remove, update_hbm, post_alloc_hbm, release_hbm,
  post_free_hbm, get_hbm_info, is_hbm_limited, rt_error_none, rt_error_memory_allocation,
}
use hami_vnpu_core_hhy.Worker.Memory.Usage.{live_bytes}
use hami_vnpu_core_hhy.Hook.{
  RealAlloc, Outcome, forward_alloc, rt_malloc, rt_free, rt_mem_get_info_ex,
}
use hami_vnpu_core_hhy.Hook.Process.{Statics, Attempt, npu_calls}
use hami_vnpu_core_hhy.Hook.Process.Forks.{AllAre, NoSpawn, npu_calls_lem}
use hami_vnpu_core_hhy.Hook.Alloc.{rt_malloc_lem}
use hami_vnpu_core_hhy.Hook.Pod.{Pod, Call, mallocs, frees, asks, dies, step, run}
use hami_vnpu_core_hhy.Hook.Pod.Totality.{IsSetUp, run-Yields}

abbrev everyone : ℕ → Bool
everyone pid = true

abbrev slot_of : ℕ → ℕ → ProcessSlot
slot_of pid used = record { pid = pid; hbm_used = used ∷ replicate 7 0; is_active = 1 }

abbrev memory : ℕ → ℕ → ℕ → LocalContainerShmem
memory used a b = record zeroed_shmem {
  memory_limit = 1000;
  memory_used = used;
  procs = slot_of 7 a ∷ slot_of 8 b ∷ [];
}

abbrev client_at : ℕ → List (ℕ × ℕ) → SchedulerClient
client_at i handles = record {
  my_slot_idx = 0;
  my_proc_idx = i;
  device_id = 0;
  lock = zeroed_lock;
  hbm_handle_map = handles;
  is_stub = false;
}

abbrev pod : Pod
pod = record {
  shmem = memory 0 0 0;
  clients = client_at 0 [] ∷ client_at 1 [] ∷ [];
  alive = everyone;
}

abbrev good : RealAlloc
good = record { ret = rt_error_none; handle = 11 }

-- The second request is refused until the first process has died.
abbrev calls : List Call
calls =
    mallocs 0 600 good
    ∷ mallocs 1 500 good
    ∷ dies 7
    ∷ mallocs 1 500 good
    ∷ frees 1 11 0
    ∷ asks 1 (0, 0, 0)
    ∷ []

abbrev pod_after : Pod
pod_after = record {
  shmem = record zeroed_shmem {
    memory_limit = 1000;
    memory_used = 0;
    procs = record { pid = 0; hbm_used = replicate 8 0; is_active = 0 } ∷ slot_of 8 0 ∷ [];
  };
  clients = client_at 0 ((11, 600) ∷ []) ∷ client_at 1 [] ∷ [];
  alive = λ q. if q == 7 then false else true;
}

calls_run : run pod calls ≡ some pod_after
unfolding run step rt_malloc rt_free rt_mem_get_info_ex is_hbm_limited forward_alloc
    check_memory_quota reserve recalculate_usage_for_device scan_procs scan_slot match_slot_sum
    atomic_saturating_sub post_alloc_hbm update_hbm insert lookup remove release_hbm post_free_hbm
    get_hbm_info
calls_run = refl

pod-IsSetUp : IsSetUp 2 2 pod
pod-IsSetUp = record {
  shaped = ((refl, (refl, tt)), refl);
  placed = (
    record { device = omega arith; slot = omega arith },
    (record { device = omega arith; slot = omega arith }, tt),
  );
  clients = refl;
}

run-Yields_example : Yields (run pod calls) (IsSetUp 2 2)
run-Yields_example =
    run-Yields 2 2 calls pod pod-IsSetUp
      (omega arith, (omega arith, (omega arith, (omega arith, (omega arith, tt)))))

abbrev allocated : Outcome
allocated = record {
  ret = rt_error_none;
  called = true;
  client = client_at 0 ((11, 600) ∷ []);
  shmem = memory 700 600 100;
}

malloc_runs : rt_malloc everyone good 600 [] (client_at 0 []) (memory 0 0 100) ≡ some allocated
unfolding rt_malloc is_hbm_limited forward_alloc check_memory_quota reserve
    recalculate_usage_for_device scan_procs scan_slot match_slot_sum atomic_saturating_sub
    post_alloc_hbm update_hbm insert
malloc_runs = refl

live_first : live_bytes everyone 0 (memory 0 0 100).procs ≡ 100
unfolding live_bytes
live_first = refl

rt_malloc_lem_example :
    (((true ≡ true)
        × (live_bytes everyone 0 (memory 0 0 100).procs + 600 ≤ 1000)
        × (((good.ret ≡ rt_error_none)
              × (allocated.ret ≡ rt_error_none)
              × (live_bytes everyone 0 (memory 0 600 100).procs
                  ≤ live_bytes everyone 0 (memory 0 0 100).procs + 600))
            ⊎ ((good.ret ≢ rt_error_none)
                × (allocated.ret ≡ rt_error_memory_allocation)
                × (live_bytes everyone 0 (memory 0 600 100).procs
                    ≡ live_bytes everyone 0 (memory 0 0 100).procs))))
      ⊎ ((true ≡ false)
          × (1000 < live_bytes everyone 0 (memory 0 0 100).procs + 600)
          × (allocated.ret ≡ rt_error_memory_allocation)
          × (live_bytes everyone 0 (memory 0 600 100).procs
              ≡ live_bytes everyone 0 (memory 0 0 100).procs)))
    × (allocated.shmem.memory_limit ≡ (memory 0 0 100).memory_limit)
rt_malloc_lem_example =
    rt_malloc_lem everyone (client_at 0 []) good 600 (memory 0 0 100) allocated malloc_runs refl
      (omega arith) (omega (arith, live_first))

abbrev freed : Outcome
freed = record {
  ret = rt_error_none;
  called = true;
  client = client_at 0 [];
  shmem = memory 100 0 100;
}

free_runs :
    rt_free everyone 11 rt_error_none (client_at 0 ((11, 600) ∷ [])) (memory 700 600 100)
    ≡ some freed
unfolding rt_free is_hbm_limited post_free_hbm lookup remove release_hbm update_hbm
    atomic_saturating_sub
free_runs = refl

-- Process 8 is forked from process 7, fails to spawn at first, and asks three times.
abbrev inherited : Statics ℕ
inherited = record { supervisor_pid = 7; limiter = some (7, 70) }

abbrev first_attempt : Attempt ℕ
first_attempt = record { can_spawn = false; new = some 80 }

abbrev attempts : List (Attempt ℕ)
attempts = record { can_spawn = true; new = some 81 } ∷ record { can_spawn = true; new = none } ∷ []

npu_calls_lem_example :
    AllAre 80 (npu_calls 0 8 (first_attempt ∷ attempts) inherited).0
    × ((npu_calls 0 8 (first_attempt ∷ attempts) inherited).1 ≤ 1)
    × (((npu_calls 0 8 (first_attempt ∷ attempts) inherited).2.supervisor_pid ≡ 8)
        ⊎ NoSpawn (first_attempt ∷ attempts))
npu_calls_lem_example = npu_calls_lem 0 8 first_attempt attempts inherited (omega arith)
