-- ===== src/Worker/Memory.antt =====
-- crates/limiter/src/worker.rs, "Limit HBM": the quota check, what is booked after an allocation
-- and after a free, the recalculation from the process slots, and the reported memory.
-- `none` is a panic (an index out of range). Each operation here runs with no other process
-- between its accesses, but for the compare-exchange loop of the quota check, which is given the
-- values that other processes leave in `memory_used` at its attempts.
pub mod Usage
pub mod Recalculate
pub mod Quota
pub mod Shape
pub mod Race
pub mod RoundTrip
pub mod Report
mod Tests
use hami_vnpu_core_hhy.Common.{
  [], ℕ, ◌-◌, ◌*◌, Bool, false, Option, none, some, List, ◌∷◌, ltb, ◌==◌, ◌||◌, if◌then◌else◌,
  ◌>>=◌, get_elem?, set,
}
use hami_vnpu_core_hhy.Common.Words.{add_u64}
use hami_vnpu_core_hhy.Shmem.{LocalContainerShmem, ProcessSlot}
use hami_vnpu_core_hhy.Worker.{SchedulerClient}

-- externed_api.rs
abbrev pub rt_error_none : ℕ
rt_error_none = 0

abbrev pub rt_error_memory_allocation : ℕ
rt_error_memory_allocation = 207001

-- config.rs
abbrev pub virtual_overhead_mb : ℕ
virtual_overhead_mb = 128

-- The new value, and whether the floor was hit.
unfoldable pub atomic_saturating_sub : ℕ → ℕ → ℕ × Bool
atomic_saturating_sub cur v = (cur - v, ltb cur v)

abbrev pub sub_memory_used : LocalContainerShmem → ℕ → LocalContainerShmem × Bool
sub_memory_used s v =
    let (used, underflow) = atomic_saturating_sub s.memory_used v in
    (record s { memory_used = used }, underflow)

-- The slots after the walk, the bytes of the live ones, and the bytes freed from dead ones.
pub record Scan : Type 0 where
  pub procs : List ProcessSlot
  pub total : ℕ
  pub cleaned : ℕ

module _ (proc_alive : ℕ → Bool) where
  -- One round of the loop over the slots.
  unfoldable pub scan_slot : ℕ → ProcessSlot → ℕ → ℕ → Option (ProcessSlot × ℕ × ℕ)
  scan_slot device slot total cleaned =
      if slot.pid == 0
      then some (slot, total, cleaned)
      else (get_elem? slot.hbm_used device >>= λ used.
          if proc_alive slot.pid
          then some (slot, add_u64 total used, cleaned)
          else some (
            record slot { pid = 0; hbm_used = set slot.hbm_used device 0; is_active = 0 },
            total,
            add_u64 cleaned used,
          ))

  unfoldable pub scan_procs : ℕ → List ProcessSlot → ℕ → ℕ → Option Scan
  scan_procs device [] total cleaned =
      some (record { procs = []; total = total; cleaned = cleaned })
  scan_procs device (slot ∷ slots) total cleaned = do
    (slot', total', cleaned') ← scan_slot device slot total cleaned
    rest ← scan_procs device slots total' cleaned'
    some (record rest { procs = slot' ∷ rest.procs })

  -- "Correct global counter to match slot sum".
  unfoldable pub match_slot_sum : ℕ → LocalContainerShmem → LocalContainerShmem
  unfolding atomic_saturating_sub
  match_slot_sum total s =
      if ltb s.memory_used total
      then record s { memory_used = add_u64 s.memory_used (total - s.memory_used) }
      else if ltb total s.memory_used
      then (sub_memory_used s (s.memory_used - total)).0
      else s

  unfoldable pub recalculate_usage_for_device :
      ℕ → LocalContainerShmem → Option (ℕ × LocalContainerShmem)
  unfolding atomic_saturating_sub match_slot_sum
  recalculate_usage_for_device device s = do
    scan ← scan_procs device s.procs 0 0
    let swept = record s { procs = scan.procs }
    let corrected = if ltb 0 scan.cleaned then (sub_memory_used swept scan.cleaned).0 else swept
    some (scan.total, match_slot_sum scan.total corrected)

  abbrev pub recalculate_usage :
      SchedulerClient → LocalContainerShmem → Option (ℕ × LocalContainerShmem)
  recalculate_usage client s = recalculate_usage_for_device client.device_id s

-- How the reservation loop ends, with the value that it leaves in `memory_used`.
pub data Verdict : Type 0 where
  exceeded : ℕ → Verdict
  reserved : ℕ → Verdict

-- The compare-exchange loop. The list holds what other processes have made of `memory_used` by
-- each attempt; when it ends, no other process interferes any more.
unfoldable pub reserve : ℕ → ℕ → ℕ → List ℕ → Verdict
reserve limit size current_used [] =
    let new_used = add_u64 current_used size in
    if ltb limit new_used then exceeded current_used else reserved new_used
reserve limit size current_used (actual ∷ later) =
    let new_used = add_u64 current_used size in
    let retry = reserve limit size actual later in
    if ltb limit new_used
    then exceeded current_used
    else if current_used == actual
    then reserved new_used
    else retry

abbrev pub book : LocalContainerShmem → Verdict → ℕ × LocalContainerShmem
book s (exceeded used) = (rt_error_memory_allocation, record s { memory_used = used })
book s (reserved used) = (rt_error_none, record s { memory_used = used })

-- `HashMap::insert` and `HashMap::remove`, the latter with the value removed.
unfoldable pub insert : ℕ → ℕ → List (ℕ × ℕ) → List (ℕ × ℕ)
insert k v [] = (k, v) ∷ []
insert k v ((j, w) ∷ m) = if j == k then (k, v) ∷ m else (j, w) ∷ insert k v m

unfoldable pub lookup : ℕ → List (ℕ × ℕ) → Option ℕ
lookup k [] = none
lookup k ((j, v) ∷ m) = if j == k then some v else lookup k m

unfoldable pub remove : ℕ → List (ℕ × ℕ) → List (ℕ × ℕ)
remove k [] = []
remove k ((j, v) ∷ m) = if j == k then m else (j, v) ∷ remove k m

abbrev pub unwrap_or_zero : Option ℕ → ℕ
unwrap_or_zero none = 0
unwrap_or_zero (some v) = v

-- A write to `procs[my_proc_idx].hbm_used[device_id]`, with what it returns.
unfoldable pub update_hbm :
    SchedulerClient → LocalContainerShmem → (ℕ → ℕ × Bool) → Option (Bool × LocalContainerShmem)
update_hbm client s f = do
  slot ← get_elem? s.procs client.my_proc_idx
  used ← get_elem? slot.hbm_used client.device_id
  let (used', flag) = f used
  let slot' = record slot { hbm_used = set slot.hbm_used client.device_id used' }
  some (flag, record s { procs = set s.procs client.my_proc_idx slot' })

module _ (proc_alive : ℕ → Bool) where
  unfoldable pub check_memory_quota :
      SchedulerClient → ℕ → List ℕ → LocalContainerShmem → Option (ℕ × LocalContainerShmem)
  unfolding reserve
  check_memory_quota client size others s =
      if client.is_stub
      then some (rt_error_none, s)
      else if s.memory_limit == 0
      then some (rt_error_none, s)
      else (recalculate_usage proc_alive client s >>= λ (total, s').
          some (book s' (reserve s.memory_limit size s'.memory_used others)))

  -- `let _ = self.recalculate_usage()` after an underflow.
  abbrev pub heal : Bool → SchedulerClient → LocalContainerShmem → Option LocalContainerShmem
  heal underflow client s =
      if underflow
      then (recalculate_usage proc_alive client s >>= λ (total, s'). some s')
      else some s

  unfoldable pub post_alloc_hbm :
      ℕ
      → ℕ
      → ℕ
      → SchedulerClient
      → LocalContainerShmem
      → Option (SchedulerClient × LocalContainerShmem)
  unfolding insert update_hbm atomic_saturating_sub
  post_alloc_hbm p size rts_return client s =
      if rts_return == rt_error_none
      then (update_hbm client s (λ used. (add_u64 used size, false)) >>= λ (_, s').
          some (record client { hbm_handle_map = insert p size client.hbm_handle_map }, s'))
      else (let (s', underflow) = sub_memory_used s size in
          heal underflow client s' >>= λ s''. some (client, s''))

  -- The books of a free of `size` bytes.
  unfoldable pub release_hbm :
      ℕ → SchedulerClient → LocalContainerShmem → Option LocalContainerShmem
  unfolding update_hbm atomic_saturating_sub
  release_hbm size client s = do
    (slot_underflow, s') ← update_hbm client s (λ used. atomic_saturating_sub used size)
    let (s'', global_underflow) = sub_memory_used s' size
    heal (slot_underflow || global_underflow) client s''

  unfoldable pub post_free_hbm :
      ℕ → ℕ → SchedulerClient → LocalContainerShmem → Option (SchedulerClient × LocalContainerShmem)
  unfolding lookup remove release_hbm
  post_free_hbm handle ret client s =
      if ret == rt_error_none
      then (let size = unwrap_or_zero (lookup handle client.hbm_handle_map) in
          let client' = record client { hbm_handle_map = remove handle client.hbm_handle_map } in
          if ltb 0 size
          then (release_hbm size client' s >>= λ s'. some (client', s'))
          else some (client', s))
      else some (client, s)

  -- The pair `(*free, *total)`, beside the shared memory after the recalculation.
  unfoldable pub get_hbm_info :
      SchedulerClient → LocalContainerShmem → Option ((ℕ × ℕ) × LocalContainerShmem)
  get_hbm_info client s = do
    (used, s') ← recalculate_usage_for_device proc_alive client.device_id s
    let quota = s.memory_limit
    let overhead_bytes = virtual_overhead_mb * 1024 * 1024
    let logical_free = if ltb used quota then quota - used else 0
    let reported_free = if ltb overhead_bytes logical_free then logical_free - overhead_bytes else 0
    some ((reported_free, quota), s')

unfoldable pub is_hbm_limited : LocalContainerShmem → Bool
is_hbm_limited s = ltb 0 s.memory_limit
