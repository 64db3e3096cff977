-- ===== src/Hook.antt =====
-- crates/hook/src/hook.rs: the intercepted runtime calls. What the real function answers is an
-- argument, used only on the paths that call it, and `called` says whether one did. The client is
-- the one that `npu_limiter` returns to this process.
pub mod Signals
pub mod Launch
pub mod Alloc
pub mod Pod
pub mod Process
mod Tests
use hami_vnpu_core_hhy.Common.{ℕ, Bool, false, true, Option, some, List, ◌==◌, if◌then◌else◌, ◌>>=◌}
use hami_vnpu_core_hhy.Shmem.{LocalContainerShmem}
use hami_vnpu_core_hhy.Worker.{SchedulerClient}
use hami_vnpu_core_hhy.Worker.Memory.{
  rt_error_none, rt_error_memory_allocation, is_hbm_limited, check_memory_quota, post_alloc_hbm,
  post_free_hbm, get_hbm_info,
}

-- The code that the real allocation returns, and the pointer or handle that it writes.
pub record RealAlloc : Type 0 where
  pub ret : ℕ
  pub handle : ℕ

-- What an intercepted call returns and leaves behind.
pub record Outcome : Type 0 where
  pub ret : ℕ
  pub called : Bool
  pub client : SchedulerClient
  pub shmem : LocalContainerShmem

module _ (proc_alive : ℕ → Bool) where
  -- What follows the quota check, which returned `code`.
  unfoldable pub forward_alloc :
      RealAlloc → ℕ → ℕ → SchedulerClient → LocalContainerShmem → Option Outcome
  forward_alloc real size code client s =
      if code == 0
      then if real.ret == rt_error_none
        then (post_alloc_hbm proc_alive real.handle size real.ret client s >>= λ (client', s').
            some (record { ret = rt_error_none; called = true; client = client'; shmem = s' }))
        else (post_alloc_hbm proc_alive 0 size real.ret client s >>= λ (client', s'). some (record {
          ret = rt_error_memory_allocation;
          called = true;
          client = client';
          shmem = s';
        }))
      else some
          (record { ret = rt_error_memory_allocation; called = false; client = client; shmem = s })

  -- `others` is what other processes do to `memory_used` during the quota check.
  unfoldable pub rt_malloc :
      RealAlloc → ℕ → List ℕ → SchedulerClient → LocalContainerShmem → Option Outcome
  unfolding is_hbm_limited forward_alloc
  rt_malloc real size others client s =
      if is_hbm_limited s
      then (check_memory_quota proc_alive client size others s >>= λ (code, s').
          forward_alloc real size code client s')
      else some (record { ret = real.ret; called = true; client = client; shmem = s })

  -- The body of `rtMallocPhysical` is that of `rtMalloc`, about a handle.
  abbrev pub rt_malloc_physical :
      RealAlloc → ℕ → List ℕ → SchedulerClient → LocalContainerShmem → Option Outcome
  rt_malloc_physical = rt_malloc

  -- `ret` is what the real free returned.
  unfoldable pub rt_free : ℕ → ℕ → SchedulerClient → LocalContainerShmem → Option Outcome
  unfolding is_hbm_limited
  rt_free ptr ret client s =
      if is_hbm_limited s
      then (post_free_hbm proc_alive ptr ret client s >>= λ (client', s').
          some (record { ret = ret; called = true; client = client'; shmem = s' }))
      else some (record { ret = ret; called = true; client = client; shmem = s })

  abbrev pub rt_free_physical : ℕ → ℕ → SchedulerClient → LocalContainerShmem → Option Outcome
  rt_free_physical = rt_free

  -- The answer is `(*free, *total)`; `real` is what the real function returns and writes.
  unfoldable pub rt_mem_get_info_ex :
      ℕ × ℕ × ℕ → SchedulerClient → LocalContainerShmem → Option ((ℕ × ℕ × ℕ) × LocalContainerShmem)
  unfolding is_hbm_limited
  rt_mem_get_info_ex real client s =
      if is_hbm_limited s
      then (get_hbm_info proc_alive client s >>= λ ((free, total), s'). some ((0, free, total), s'))
      else some (real, s)
