-- ===== src/Worker/Memory/Report/Tests.antt =====
-- A process with 100 bytes under a limit of 1 GiB asks and allocates.
use hami_vnpu_core_hhy.Common.{
  ℕ, ◌+◌, ◌-◌, ◌*◌, ◌^◌, ◌≤◌, ◌≡◌, refl, Bool, true, false, some, [], ◌∷◌, arith, replicate,
}
use hami_vnpu_core_hhy.Shmem.{LocalContainerShmem, zeroed_shmem}
use hami_vnpu_core_hhy.Worker.{SchedulerClient, zeroed_lock}
use hami_vnpu_core_hhy.Worker.Memory.{
  scan_slot, scan_procs, atomic_saturating_sub, match_slot_sum, recalculate_usage_for_device,
  reserve, check_memory_quota, get_hbm_info, rt_error_none,
}
use hami_vnpu_core_hhy.Worker.Memory.Usage.{live_bytes}
use hami_vnpu_core_hhy.Worker.Memory.Report.{get_hbm_info-admits}

abbrev everyone : ℕ → Bool
everyone pid = true

abbrev client : SchedulerClient
client = record {
  my_slot_idx = 0;
  my_proc_idx = 0;
  device_id = 0;
  lock = zeroed_lock;
  hbm_handle_map = [];
  is_stub = false;
}

abbrev memory : ℕ → LocalContainerShmem
memory used = record zeroed_shmem {
  memory_limit = 2 ^ 30;
  memory_used = used;
  procs = record { pid = 7; hbm_used = 100 ∷ replicate 7 0; is_active = 1 } ∷ [];
}

abbrev told_free : ℕ
told_free = 2 ^ 30 - 100 - 2 ^ 27

info_runs : get_hbm_info everyone client (memory 0) ≡ some ((told_free, 2 ^ 30), memory 100)
unfolding get_hbm_info recalculate_usage_for_device scan_procs scan_slot match_slot_sum
    atomic_saturating_sub
info_runs = refl

check_runs :
    check_memory_quota everyone client told_free [] (memory 100)
    ≡ some (rt_error_none, memory (100 + told_free))
unfolding check_memory_quota reserve recalculate_usage_for_device scan_procs scan_slot
    match_slot_sum atomic_saturating_sub
check_runs = refl

live_before : live_bytes everyone 0 (memory 0).procs ≡ 100
unfolding live_bytes
live_before = refl

get_hbm_info-admits_example :
    ((memory 0).memory_limit ≡ 2 ^ 30)
    × (rt_error_none ≡ rt_error_none)
    × ((memory (100 + told_free)).memory_used ≡ live_bytes everyone 0 (memory 0).procs + told_free)
    × ((memory (100 + told_free)).memory_used + 128 * 1024 * 1024 ≤ (memory 0).memory_limit)
get_hbm_info-admits_example =
    get_hbm_info-admits everyone client (memory 0) (memory 100) (memory (100 + told_free)) told_free
      (2 ^ 30) told_free rt_error_none refl (omega arith) (omega arith) (omega (arith, live_before))
      info_runs (omega arith) (omega arith) check_runs
