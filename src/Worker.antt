-- ===== src/Worker.antt =====
-- crates/limiter/src/worker.rs: the scheduler client of one process. The client's own fields are
-- the record `SchedulerClient`; the shared memory that it points to is passed beside it.
pub mod Memory
pub mod Compute
pub mod Registration
pub mod Liveness
pub mod Start
mod Tests
use hami_vnpu_core_hhy.Common.{[], ℕ, Bool, false, true, List}
use hami_vnpu_core_hhy.Shmem.{LocalContainerShmem, zeroed_shmem}

pub record InnerLock : Type 0 where
  pub internal_stream : ℕ
  pub start_event : ℕ
  pub end_event : ℕ
  pub tracking_event : ℕ
  pub batch_active : Bool
  pub current_batch_id : ℕ
  pub last_user_stream : ℕ
  pub start_time_us : ℕ

-- `SchedulerClientInner`; the handle map is an association list.
pub record SchedulerClient : Type 0 where
  pub my_slot_idx : ℕ
  pub my_proc_idx : ℕ
  pub device_id : ℕ
  pub lock : InnerLock
  pub hbm_handle_map : List (ℕ × ℕ)
  pub is_stub : Bool

abbrev pub zeroed_lock : InnerLock
zeroed_lock = record {
  internal_stream = 0;
  start_event = 0;
  end_event = 0;
  tracking_event = 0;
  batch_active = false;
  current_batch_id = 0;
  last_user_stream = 0;
  start_time_us = 0;
}

-- `SchedulerClient::stub`: no limits, over a zeroed shared memory of its own.
abbrev pub stub : SchedulerClient × LocalContainerShmem
stub = (
  record {
    my_slot_idx = 0;
    my_proc_idx = 0;
    device_id = 0;
    lock = zeroed_lock;
    hbm_handle_map = [];
    is_stub = true;
  },
  zeroed_shmem,
)
