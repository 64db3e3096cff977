-- ===== src/Manager/Baton/Pods.antt =====
-- The managers of the pods on one registry, as steps that run whole: a manager registers in a
-- slot, queues itself, beats, looks for its turn or hands it on. No manager dies, and no look
-- finds the time stamp of the lock stale, so the watchdog of the wait never fires.
pub mod Order
use hami_vnpu_core_hhy.Common.{[], ℕ, ◌≡◌, true, some, List, ◌∷◌}
use hami_vnpu_core_hhy.Common.Distinct.{Lacks}
use hami_vnpu_core_hhy.Shmem.{GlobalRegistry, GlobalManagerSlot, LocalContainerShmem}
use hami_vnpu_core_hhy.Manager.Baton.{
  join_global_queue, is_active_manager, update_heartbeat, Shared, pass_baton, register_global_slot,
  turn_round,
}
use hami_vnpu_core_hhy.Manager.Baton.Turns.{quiet, IsStale}
use hami_vnpu_core_hhy.Manager.Baton.Boot.{boot}

-- `joined` are the managers that have queued themselves, as each does once before its loop.
pub record System : Type 0 where
  pub registry : GlobalRegistry
  pub joined : List ℕ

abbrev pub in_pod : GlobalRegistry → LocalContainerShmem → Shared
in_pod g local = record { global = g; local = local }

-- In `looks` the time stamp of the lock is fresh, so the branch of the wait that deposes a slow
-- owner is not taken.
pub data Step (s : System) : System → Type 0 where
  registers :
      (pid now i : ℕ) (g : GlobalRegistry)
      → register_global_slot s.registry pid now ≡ some (i, g)
      → Step s (record s { registry = g })
  joins :
      (m : ℕ)
      → is_active_manager s.registry.slots m ≡ true
      → Lacks m s.joined
      → Step s (record { registry = join_global_queue m s.registry; joined = m ∷ s.joined })
  beats :
      (m now : ℕ) (local : LocalContainerShmem)
      → Step s (record s { registry = (update_heartbeat m now (in_pod s.registry local)).global })
  looks :
      (m now : ℕ) (local : LocalContainerShmem)
      → ¬ IsStale now s.registry
      → Step s (record s {
        registry = (turn_round m now (quiet s.registry) (in_pod s.registry local)).1.global;
      })
  hands_on : Step s (record s { registry = pass_baton s.registry.lock_owner s.registry })

-- The first manager has claimed its turn on a new registry before another one queues itself.
abbrev pub first : ℕ → ℕ → List GlobalManagerSlot → LocalContainerShmem → System
first m now slots local =
    let g = join_global_queue m (boot slots) in
    record { registry = (turn_round m now (quiet g) (in_pod g local)).1.global; joined = m ∷ [] }

pub data Reach : System → Type 0 where
  starts :
      (m now : ℕ) (slots : List GlobalManagerSlot) (local : LocalContainerShmem)
      → is_active_manager slots m ≡ true
      → Reach (first m now slots local)
  later : {s t : System} → Reach s → Step s t → Reach t
