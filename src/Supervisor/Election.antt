-- ===== src/Supervisor/Election.antt =====
-- Who wins the election, and what a takeover clears.
use hami_vnpu_core_hhy.Common.{
  ℕ, ◌+◌, ◌≤◌, ◌<◌, ◌≡◌, refl, ◌≢◌, ◌↔◌, ◌⊎◌, inl, inr, Bool, true, false, Option, none, some, List,
  arith, ◌==◌, Bool-cases,
}
use hami_vnpu_core_hhy.Shmem.{GlobalManagerSlot, LocalContainerShmem}
use hami_vnpu_core_hhy.Manager.Baton.{Shared, TurnRound, wait_for_global_turn}
use hami_vnpu_core_hhy.Manager.Baton.Turns.{wait_for_global_turn-local}
use hami_vnpu_core_hhy.Supervisor.{
  takeover_timeout_us, manager_alive, try_become_manager, watch_ends, registry_index,
}

module _ (proc_alive : ℕ → Bool) where
  -- The recorded manager is live: its process lives and its heartbeat is not too old.
  abbrev pub HasLiveManager : ℕ → LocalContainerShmem → Type 0
  HasLiveManager now local =
      (local.manager_pid ≢ 0)
      × (proc_alive local.manager_pid ≡ true)
      × (now ≤ local.manager_heartbeat + takeover_timeout_us)

  -- What an attempt of `my_pid` reports and leaves.
  abbrev pub Attempt : ℕ → ℕ → LocalContainerShmem → Option ℕ × LocalContainerShmem → Type 0
  Attempt my_pid now local (none, after) =
      HasLiveManager now local × (local.manager_pid ≢ my_pid) × (after ≡ local)
  Attempt my_pid now local (some old, after) =
      (after.manager_pid ≡ my_pid)
      × (((local.manager_pid ≡ my_pid) × (old ≡ 0) × (after ≡ local))
          ⊎ ((¬ HasLiveManager now local)
              × (old ≡ local.manager_pid)
              × (after.manager_heartbeat ≡ now)))

  -- An attempt fails only if another process is a live manager, with its heartbeat at most three
  -- seconds old, and then it changes nothing. It succeeds only if the process is recorded as
  -- manager already, with nothing changed, or if no live manager is recorded: then it names the
  -- predecessor, 0 for none, and starts the heartbeat. After a success the process is recorded.
  pub try_become_manager_lem :
      (my_pid now : ℕ) (local : LocalContainerShmem)
      → my_pid ≢ 0
      → Attempt my_pid now local (try_become_manager proc_alive my_pid now local)
  unfolding try_become_manager
  try_become_manager_lem my_pid now local pid = elim (Bool-cases (local.manager_pid == 0)) [
    | inl vacant ↦
        rw (vacant, try_become_manager) (refl, inr (λ h. ground arith, ground arith, refl))
    | inr taken ↦ elim (Bool-cases (local.manager_pid == my_pid)) [
      | inl mine ↦
          rw (taken, mine, try_become_manager) (ground arith, inl (ground arith, refl, refl))
      | inr theirs ↦ elim (Bool-cases (manager_alive proc_alive now local local.manager_pid)) [
        | inl lives ↦
            rw (taken, theirs, lives, try_become_manager) (ground arith, ground arith, refl)
        | inr dead ↦
            rw (taken, theirs, dead, try_become_manager) (refl, inr (λ h. ground arith, refl, refl))
      ]
    ]
  ]

  -- A standby process ends its watch exactly when an attempt of its own would win at once.
  pub watch_ends_iff :
      (my_pid now : ℕ) (local : LocalContainerShmem)
      → local.manager_pid ≢ my_pid
      → (watch_ends proc_alive now local ≡ true)
        ↔ ((try_become_manager proc_alive my_pid now local).0 ≢ none)
  unfolding watch_ends try_become_manager
  watch_ends_iff my_pid now local other = (λ h. ground arith, λ h. ground arith)

  -- A manager that waits for its turn among the pods does not beat: once its last heartbeat is
  -- more than three seconds old, an attempt of any other process of its pod takes the role over,
  -- though the manager's process lives and still waits.
  pub waiting_manager_deposed :
      (me : ℕ) (rounds : List TurnRound) (s : Shared) (other now : ℕ)
      → (wait_for_global_turn me rounds s).0 ≡ false
      → s.local.manager_pid ≢ 0
      → s.local.manager_pid ≢ other
      → s.local.manager_heartbeat + takeover_timeout_us < now
      → try_become_manager proc_alive other now (wait_for_global_turn me rounds s).1.local ≡ (
        some s.local.manager_pid,
        record s.local { manager_pid = other; manager_heartbeat = now },
      )
  unfolding try_become_manager
  waiting_manager_deposed me rounds s other now waits is_set apart old =
      ground (arith, wait_for_global_turn-local me rounds s waits)

-- The slot that a takeover is about: the one that the pod's shared memory names.
abbrev pub IsReclaimed : LocalContainerShmem → ℕ → ℕ → GlobalManagerSlot → Type 0
IsReclaimed local old_pid i slot =
    (old_pid ≢ 0) × (registry_index local.manager_global_idx ≡ some i) × (slot.pid ≡ old_pid)
