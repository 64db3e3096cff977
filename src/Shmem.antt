-- ===== src/Shmem.antt =====
-- crates/limiter/src/shmem/mod.rs: the two shared-memory layouts, their constants, and the
-- states of a local round. An atomic is the number that it holds; a pid, which is never negative,
-- is a natural number, 0 for none.
pub mod Setup
pub mod Futex
use hami_vnpu_core_hhy.Common.{ℕ, List, replicate}
use hami_vnpu_core_hhy.Common.Words.{ℤ, pos}

abbrev pub max_managers : ℕ
max_managers = 64

pub record GlobalManagerSlot : Type 0 where
  pub pid : ℕ
  pub avg_kernel_time : ℕ
  pub last_heartbeat : ℕ
  pub is_active : ℕ
  pub priority : ℕ

pub record GlobalRegistry : Type 0 where
  pub lock_owner : ℕ
  pub lock_timestamp : ℕ
  pub queue_head : ℕ
  pub queue_tail : ℕ
  pub queue : List ℕ
  pub slots : List GlobalManagerSlot
  pub signal_counter : ℕ

abbrev pub max_workers : ℕ
max_workers = 32

abbrev pub max_processes : ℕ
max_processes = 64

abbrev pub npu_device_max : ℕ
npu_device_max = 8

abbrev pub state_idle : ℕ
state_idle = 0

abbrev pub state_running : ℕ
state_running = 1

abbrev pub state_measuring : ℕ
state_measuring = 2

pub record LocalWorkerReport : Type 0 where
  pub batch_id : ℕ
  pub cpu_start_us : ℕ
  pub duration_us : ℕ
  pub occupied : ℕ
  pub pid : ℕ

pub record ProcessSlot : Type 0 where
  pub pid : ℕ
  pub hbm_used : List ℕ
  pub is_active : ℕ

pub record LocalContainerShmem : Type 0 where
  pub memory_limit : ℕ
  pub memory_used : ℕ
  pub compute_priority : ℕ
  pub state : ℕ
  pub batch_id : ℕ
  pub tokens_remaining : ℕ
  pub active_workers : ℕ
  pub reported_count : ℕ
  pub reports : List LocalWorkerReport
  pub procs : List ProcessSlot
  pub manager_pid : ℕ
  pub manager_heartbeat : ℕ
  pub manager_global_idx : ℤ
  pub initialized : ℕ

-- `std::mem::zeroed()`, and what a new file of shared memory holds.
abbrev pub zeroed_slot : ProcessSlot
zeroed_slot = record { pid = 0; hbm_used = replicate npu_device_max 0; is_active = 0 }

abbrev pub zeroed_report : LocalWorkerReport
zeroed_report = record { batch_id = 0; cpu_start_us = 0; duration_us = 0; occupied = 0; pid = 0 }

abbrev pub zeroed_shmem : LocalContainerShmem
zeroed_shmem = record {
  memory_limit = 0;
  memory_used = 0;
  compute_priority = 0;
  state = state_idle;
  batch_id = 0;
  tokens_remaining = 0;
  active_workers = 0;
  reported_count = 0;
  reports = replicate max_workers zeroed_report;
  procs = replicate max_processes zeroed_slot;
  manager_pid = 0;
  manager_heartbeat = 0;
  manager_global_idx = pos 0;
  initialized = 0;
}
