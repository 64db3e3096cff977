-- ===== src/Worker/Registration.antt =====
-- crates/limiter/src/worker.rs: how a client claims its report slot and its process slot, with no
-- other process between. `none` is the panic of a full registry.
pub mod Ownership
use hami_vnpu_core_hhy.Common.{
  [], ℕ, suc, Bool, not, ◌&&◌, Option, none, some, List, ◌∷◌, ◌==◌, if◌then◌else◌, ◌>>=◌, get_elem?,
  set, replicate,
}
use hami_vnpu_core_hhy.Shmem.{LocalContainerShmem, LocalWorkerReport, ProcessSlot, npu_device_max}

module _ {ℓ} {A : Type ℓ} where
  -- A loop that returns at the first element that `f` accepts, with what it makes of it.
  unfoldable pub update_first : (A → Option A) → List A → Option (ℕ × List A)
  update_first f [] = none
  update_first f (x ∷ xs) =
      let rest = update_first f xs in
      elim (f x) as (λ _. Option (ℕ × List A)) [
        | some y ↦ some (0, y ∷ xs)
        | none ↦ (rest >>= λ (i, ys). some (suc i, x ∷ ys))
      ]

  -- The second loop, if the first one finds nothing.
  abbrev pub or_else : Option A → Option A → Option A
  or_else (some a) other = some a
  or_else none other = other

abbrev zeroed_hbm : List ℕ
zeroed_hbm = replicate npu_device_max 0

abbrev reset_report : LocalWorkerReport → LocalWorkerReport
reset_report r = record r { batch_id = 0; cpu_start_us = 0; duration_us = 0 }

module _ (proc_alive : ℕ → Bool) (pid : ℕ) where
  -- Pass 1 of `register_worker_slot`.
  abbrev pub reuse_report : LocalWorkerReport → Option LocalWorkerReport
  reuse_report r = if r.pid == pid then some (reset_report r) else none

  -- Pass 2 of `register_worker_slot`.
  abbrev pub claim_report : LocalWorkerReport → Option LocalWorkerReport
  claim_report r =
      if r.pid == 0
      then if r.occupied == 0 then some (record r { occupied = 1; pid = pid }) else none
      else if proc_alive r.pid
      then none
      else some (reset_report (record r { pid = pid }))

  unfoldable pub register_worker_slot : LocalContainerShmem → Option (ℕ × LocalContainerShmem)
  unfolding update_first
  register_worker_slot s =
      or_else (update_first reuse_report s.reports) (update_first claim_report s.reports)
      >>= λ (i, reports). some (i, record s { reports = reports })

  -- The first loop of `register_proc_slot`.
  abbrev pub reuse_proc : ProcessSlot → Option ProcessSlot
  reuse_proc slot =
      if slot.is_active == 1 && slot.pid == pid
      then some (record slot { hbm_used = zeroed_hbm })
      else none

  -- The second loop of `register_proc_slot`.
  abbrev pub claim_proc : ProcessSlot → Option ProcessSlot
  claim_proc slot =
      if slot.is_active == 0
      then some (record { pid = pid; hbm_used = zeroed_hbm; is_active = 1 })
      else if not (slot.pid == 0) && not (proc_alive slot.pid)
      then some (record slot { pid = pid; hbm_used = zeroed_hbm })
      else none

  unfoldable pub register_proc_slot : LocalContainerShmem → Option (ℕ × LocalContainerShmem)
  unfolding update_first
  register_proc_slot s =
      or_else (update_first reuse_proc s.procs) (update_first claim_proc s.procs) >>= λ (i, procs).
      some (i, record s { procs = procs })

-- `Drop for SchedulerClientInner`: the bytes stay in the slot.
unfoldable pub drop_client : ℕ → LocalContainerShmem → LocalContainerShmem
drop_client my_proc_idx s = elim (get_elem? s.procs my_proc_idx) as (λ _. LocalContainerShmem) [
  | none ↦ s
  | some slot ↦ record s {
    procs = set s.procs my_proc_idx (record slot { pid = 0; is_active = 0 });
  }
]
