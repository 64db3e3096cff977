-- ===== src/Supervisor.antt =====
-- crates/limiter/src/supervisor.rs: the election of a pod's manager, the watch over it, and the
-- clearing of a dead manager's slot in the global registry. Whether a process lives is a
-- parameter, and the clock an argument.
pub mod Election
pub mod Reign
pub mod Pass
pub mod Begin
pub mod Workers
mod Tests
use hami_vnpu_core_hhy.Common.{
  ℕ, ◌-◌, Bool, false, not, ◌||◌, Option, none, some, ltb, leb, ◌==◌, if◌then◌else◌,
}
use hami_vnpu_core_hhy.Common.Words.{ℤ, pos, negsuc}
use hami_vnpu_core_hhy.Shmem.{GlobalRegistry, GlobalManagerSlot, LocalContainerShmem, max_managers}
use hami_vnpu_core_hhy.Manager.Baton.{set_slot}

abbrev pub takeover_timeout_us : ℕ
takeover_timeout_us = 3_000_000

module _ (proc_alive : ℕ → Bool) where
  unfoldable pub manager_alive : ℕ → LocalContainerShmem → ℕ → Bool
  manager_alive now local owner_pid =
      if proc_alive owner_pid
      then leb now local.manager_heartbeat
        || leb (now - local.manager_heartbeat) takeover_timeout_us
      else false

  -- The attempt of one process, with no other access between its own.
  unfoldable pub try_become_manager : ℕ → ℕ → LocalContainerShmem → Option ℕ × LocalContainerShmem
  unfolding manager_alive
  try_become_manager my_pid now local =
      let won = record local { manager_pid = my_pid; manager_heartbeat = now } in
      if local.manager_pid == 0
      then (some 0, won)
      else if local.manager_pid == my_pid
      then (some 0, local)
      else if manager_alive now local local.manager_pid
      then (none, local)
      else (some local.manager_pid, won)

  -- Whether a poll of `watch` ends the watch.
  unfoldable pub watch_ends : ℕ → LocalContainerShmem → Bool
  unfolding manager_alive
  watch_ends now local = local.manager_pid == 0 || not (manager_alive now local local.manager_pid)

-- `manager_global_idx`, if it is an index of the registry.
abbrev pub registry_index : ℤ → Option ℕ
registry_index (pos idx) = if ltb idx max_managers then some idx else none
registry_index (negsuc n) = none

abbrev pub clear_if_owned : ℕ → GlobalManagerSlot → GlobalManagerSlot
clear_if_owned old_pid slot = if slot.pid == old_pid then record slot { is_active = 0 } else slot

unfoldable pub reclaim_stale_global_slot : GlobalRegistry → LocalContainerShmem → ℕ → GlobalRegistry
unfolding set_slot
reclaim_stale_global_slot g local old_pid =
    if old_pid == 0
    then g
    else elim (registry_index local.manager_global_idx) as (λ _. GlobalRegistry) [
      | none ↦ g
      | some idx ↦ set_slot g idx (clear_if_owned old_pid)
    ]
