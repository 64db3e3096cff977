-- ===== src/Manager/Reaper.antt =====
-- crates/limiter/src/manager.rs: the sweep of the manager's reaper thread over the process slots,
-- with no other process between, and the refresh of the slots from the device's own figures. The
-- devices are asked through a library that is not part of the repository: its answers are an
-- argument.
pub mod Sweep
pub mod Refresh
pub mod Discovery
mod Tests
use hami_vnpu_core_hhy.Common.{
  [], ℕ, ◌-◌, ◌%◌, ◌+◌, Bool, Option, none, some, List, ◌∷◌, map, ltb, ◌==◌, ◌||◌, ◌&&◌,
  if◌then◌else◌, set,
}
use hami_vnpu_core_hhy.Common.Words.{add_u64}
use hami_vnpu_core_hhy.Shmem.{LocalContainerShmem, ProcessSlot, npu_device_max}

-- The inner loop: the bytes taken out of the counters, from `leaked` on.
unfoldable pub sum_leaked : List ℕ → ℕ → ℕ
sum_leaked [] leaked = leaked
sum_leaked (used ∷ rest) leaked = sum_leaked rest (add_u64 leaked used)

-- The slot that the reaper leaves of a dead process.
abbrev pub cleared_slot : ProcessSlot → ProcessSlot
cleared_slot slot = record slot { pid = 0; hbm_used = map (λ used. 0) slot.hbm_used; is_active = 0 }

module _ (proc_alive : ℕ → Bool) where
  -- The outer loop, with the value of `memory_used`.
  unfoldable pub reap_slots : List ProcessSlot → ℕ → List ProcessSlot × ℕ
  reap_slots [] memory_used = ([], memory_used)
  reap_slots (slot ∷ slots) memory_used =
      let kept = reap_slots slots memory_used in
      let reaped = reap_slots slots (memory_used - sum_leaked slot.hbm_used 0) in
      if slot.pid == 0 || proc_alive slot.pid
      then (slot ∷ kept.0, kept.1)
      else (cleared_slot slot ∷ reaped.0, reaped.1)

  unfoldable pub reap_dead_slots : LocalContainerShmem → LocalContainerShmem
  unfolding reap_slots
  reap_dead_slots s =
      let (procs, memory_used) = reap_slots s.procs s.memory_used in
      record s { procs = procs; memory_used = memory_used }

-- One process in a device's answer.
pub record DcmiProcMemInfo : Type 0 where
  pub proc_id : ℕ
  pub proc_mem_usage : ℕ

-- The map that is collected from an answer, asked for a process: the last entry about it.
unfoldable pub dcmimap : List DcmiProcMemInfo → ℕ → Option ℕ
dcmimap [] pid = none
dcmimap (p ∷ procs) pid = elim (dcmimap procs pid) as (λ _. Option ℕ) [
  | some mem ↦ some mem
  | none ↦ if ltb 0 p.proc_id && p.proc_id == pid then some p.proc_mem_usage else none
]

abbrev store_hbm : ProcessSlot → ℕ → Option ℕ → ProcessSlot
store_hbm slot dev none = slot
store_hbm slot dev (some mem) = record slot { hbm_used = set slot.hbm_used dev mem }

unfoldable pub refresh_slot : ℕ → List DcmiProcMemInfo → ProcessSlot → ProcessSlot
refresh_slot dev procs slot =
    if slot.pid == 0 then slot else store_hbm slot dev (dcmimap procs slot.pid)

-- The loop over the devices from index `idx` on; `none` is a device that could not be asked.
unfoldable pub refresh_from :
    ℕ → List (Option (List DcmiProcMemInfo)) → List ProcessSlot → List ProcessSlot
refresh_from idx [] slots = slots
refresh_from idx (none ∷ answers) slots = refresh_from (idx + 1) answers slots
refresh_from idx (some procs ∷ answers) slots =
    refresh_from (idx + 1) answers (map (refresh_slot (idx % npu_device_max) procs) slots)

unfoldable pub discover_and_update :
    List (Option (List DcmiProcMemInfo)) → LocalContainerShmem → LocalContainerShmem
unfolding refresh_from
discover_and_update answers s = record s { procs = refresh_from 0 answers s.procs }
