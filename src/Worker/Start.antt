-- ===== src/Worker/Start.antt =====
-- crates/limiter/src/worker.rs: `SchedulerClient::new`. The looks at the file of shared memory
-- are a list, each with the answers of the operating system and the clock behind it; the list may
-- end before the loop does. The registrations and the rest run on the memory as it is at the last
-- look.
mod Tests
pub mod Looks
pub mod Client
pub mod Device
use hami_vnpu_core_hhy.Common.{
  [], ℕ, ◌+◌, ◌*◌, Bool, false, Option, none, some, List, ◌∷◌, ◌==◌, leb, if◌then◌else◌,
}
use hami_vnpu_core_hhy.Common.Words.{ℤ, pos, negsuc}
use hami_vnpu_core_hhy.Shmem.{LocalContainerShmem}
use hami_vnpu_core_hhy.Shmem.Setup.{Os, try_open_shmem}
use hami_vnpu_core_hhy.Worker.{InnerLock, SchedulerClient}
use hami_vnpu_core_hhy.Worker.Registration.{register_worker_slot, register_proc_slot}

abbrev pub shmem_wait_timeout_secs : ℕ
shmem_wait_timeout_secs = 10

-- `panics` is left to `npu_limiter`, which then takes the stub; `looks` is the state of a loop
-- that has not ended.
pub data Attach {ℓ} (A : Type ℓ) : Type ℓ where
  ready : (a : A) → Attach A
  panics : Attach A
  looks : Attach A

pub record Look : Type 0 where
  pub os : Os LocalContainerShmem
  pub now_us : ℕ

-- One turn of the loop, from the result of `try_open_shmem` on.
abbrev pub on_look :
    Option (Option LocalContainerShmem)
    → Bool
    → Attach LocalContainerShmem
    → Attach LocalContainerShmem
on_look none late later = panics
on_look (some none) late later = if late then panics else later
on_look (some (some s)) late later =
    if s.initialized == 1 then ready s else if late then panics else later

module _ (size : ℕ) where
  unfoldable pub wait_for_shmem : ℕ → List Look → Attach LocalContainerShmem
  unfolding try_open_shmem
  wait_for_shmem deadline [] = looks
  wait_for_shmem deadline (v ∷ views) =
      let later = wait_for_shmem deadline views in
      on_look (try_open_shmem size v.os).result (leb deadline v.now_us) later

-- `dev.max(0) as usize`
abbrev pub device_of : ℤ → ℕ
device_of (pos n) = n
device_of (negsuc n) = 0

-- What the runtime leaves in the variables of the device and of the four handles. A failing call
-- is only logged.
pub record RtAnswers : Type 0 where
  pub device : ℤ
  pub stream : ℕ
  pub start : ℕ
  pub stop : ℕ
  pub tracking : ℕ

abbrev pub create_inner_lock : RtAnswers → InnerLock
create_inner_lock rt = record {
  internal_stream = rt.stream;
  start_event = rt.start;
  end_event = rt.stop;
  tracking_event = rt.tracking;
  batch_active = false;
  current_batch_id = 0;
  last_user_stream = 0;
  start_time_us = 0;
}

abbrev pub or_panics {ℓ} : {A : Type ℓ} → Option A → Attach A
or_panics none = panics
or_panics (some a) = ready a

infixl 5 ◌>>=◌
abbrev pub ◌>>=◌ {ℓ κ} : {A : Type ℓ} {B : Type κ} → Attach A → (A → Attach B) → Attach B
ready a >>= f = f a
panics >>= f = panics
looks >>= f = looks

module _ (proc_alive : ℕ → Bool) (pid : ℕ) (rt : RtAnswers) where
  -- From the two registrations on.
  unfoldable pub register : LocalContainerShmem → Attach (SchedulerClient × LocalContainerShmem)
  unfolding register_worker_slot register_proc_slot
  register s = do
    (my_slot_idx, s1) ← or_panics (register_worker_slot proc_alive pid s)
    (my_proc_idx, s2) ← or_panics (register_proc_slot proc_alive pid s1)
    ready (
      record {
        my_slot_idx = my_slot_idx;
        my_proc_idx = my_proc_idx;
        device_id = device_of rt.device;
        lock = create_inner_lock rt;
        hbm_handle_map = [];
        is_stub = false;
      },
      s2,
    )

  unfoldable pub new : ℕ → ℕ → List Look → Attach (SchedulerClient × LocalContainerShmem)
  unfolding wait_for_shmem register
  new size start_us views = do
    s ← wait_for_shmem size (start_us + shmem_wait_timeout_secs * 1_000_000) views
    register s
