-- ===== src/Worker/Memory/Report.antt =====
-- The memory that a program is told of, and what it may then allocate.
mod Tests
use hami_vnpu_core_hhy.Common.{
  ℕ, ◌+◌, ◌-◌, ◌*◌, ◌%◌, ◌^◌, ◌≤◌, ◌<◌, ◌≡◌, ◌≢◌, refl, Bool, false, some, List, [], arith,
  >>=-eq-some,
}
use hami_vnpu_core_hhy.Shmem.{LocalContainerShmem}
use hami_vnpu_core_hhy.Worker.{SchedulerClient}
use hami_vnpu_core_hhy.Worker.Memory.{
  get_hbm_info, check_memory_quota, recalculate_usage_for_device, rt_error_none,
  virtual_overhead_mb,
}
use hami_vnpu_core_hhy.Worker.Memory.Usage.{live_bytes}
use hami_vnpu_core_hhy.Worker.Memory.Recalculate.{recalculate_lem}
use hami_vnpu_core_hhy.Worker.Memory.Quota.{check_memory_quota_lem}

module _ (proc_alive : ℕ → Bool) (client : SchedulerClient) where
  abbrev live : LocalContainerShmem → ℕ
  live s = live_bytes proc_alive client.device_id s.procs

  get_hbm_info_lem :
      (s s' : LocalContainerShmem) (free total : ℕ)
      → get_hbm_info proc_alive client s ≡ some ((free, total), s')
      → (total ≡ s.memory_limit)
        × (free ≡ s.memory_limit - live s % 2 ^ 64 - virtual_overhead_mb * 1024 * 1024)
        × (live s' ≡ live s)
        × (s'.memory_limit ≡ s.memory_limit)
  unfolding get_hbm_info
  get_hbm_info_lem s s' free total h =
      let ((used, s1), e, h') =
        >>=-eq-some (recalculate_usage_for_device proc_alive client.device_id s) _ h in
      ground (arith, recalculate_lem proc_alive client.device_id s s1 used e)

  -- What a program is told is free it can have: where the live bytes stay below 2 ^ 64, a client
  -- that is no stub and asks for the memory is told the limit as the total, and a request of at
  -- least one byte and at most the free bytes passes a quota check that follows with nothing
  -- between, with 128 MiB of the limit still to spare after it.
  pub get_hbm_info-admits :
      (s s1 s2 : LocalContainerShmem) (free total size ret : ℕ)
      → client.is_stub ≡ false
      → s.memory_limit ≢ 0
      → s.memory_limit < 2 ^ 64
      → live s < 2 ^ 64
      → get_hbm_info proc_alive client s ≡ some ((free, total), s1)
      → 0 < size
      → size ≤ free
      → check_memory_quota proc_alive client size [] s1 ≡ some (ret, s2)
      → (total ≡ s.memory_limit)
        × (ret ≡ rt_error_none)
        × (s2.memory_used ≡ live s + size)
        × (s2.memory_used + 128 * 1024 * 1024 ≤ s.memory_limit)
  get_hbm_info-admits s s1 s2 free total size ret real limited word small asked some_bytes fits
        checked =
      let told = get_hbm_info_lem s s1 free total asked in
      let still : s1.memory_limit ≢ 0 = rw told.3 limited in
      let verdict =
        check_memory_quota_lem proc_alive client size s1 real still ret s2 checked
          (omega (arith, told)) in
      ground (arith, told, verdict)
