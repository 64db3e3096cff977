-- ===== src/Supervisor/Pass.antt =====
-- crates/limiter/src/supervisor.rs: one pass through the loop of `run`, composed of the election,
-- the reclaiming of the predecessor's slot and the creation of the manager, up to the start of
-- the manager's own loop, which does not end. The registry is the one that `global` holds.
mod Tests
use hami_vnpu_core_hhy.Common.{
  get_elem?, ◌⊎◌, ℕ, ◌*◌, ◌%◌, ◌^◌, ◌≡◌, ◌≢◌, refl, ◌∙◌, ap, inl, inr, Bool, true, false, Option,
  none, some, ◌==◌, if◌then◌else◌, arith, Bool-cases,
}
use hami_vnpu_core_hhy.Common.Words.{pos}
use hami_vnpu_core_hhy.Shmem.{GlobalManagerSlot, GlobalRegistry, LocalContainerShmem, state_idle}
use hami_vnpu_core_hhy.Manager.Baton.{Shared}
use hami_vnpu_core_hhy.Manager.Plan.Floats.{Float}
use hami_vnpu_core_hhy.Manager.Plan.{ContainerManager, Tuning, new, mb_to_bytes}
use hami_vnpu_core_hhy.Manager.Plan.Creation.{new_lem}
use hami_vnpu_core_hhy.Supervisor.Election.{HasLiveManager}
use hami_vnpu_core_hhy.Supervisor.{manager_alive, try_become_manager, reclaim_stale_global_slot}

module _ (fl : Float) (proc_alive : ℕ → Bool) (pid : ℕ) (priority : fl.F) (memory_limit_mb : ℕ)
    (t : Tuning fl) where
  -- How a pass ends: the thread returns after a fork, it watches, it steps back from a full
  -- registry, or its manager runs.
  pub data Pass : Type 0 where
    leaves : Pass
    watches : (local : LocalContainerShmem) → Pass
    steps_back : (s : Shared) → Pass
    governs : (m : ContainerManager fl) (s : Shared) → Pass

  -- `manager_pid` is given back if it is still this process's.
  abbrev step_back : Shared → Shared
  step_back s = record s {
    local = record s.local {
      manager_pid = if s.local.manager_pid == pid then 0 else s.local.manager_pid;
    };
  }

  abbrev created : Shared → Option (ContainerManager fl × Shared) → Pass
  created s none = steps_back (step_back s)
  created s (some (m, s')) = governs m s'

  -- What the process does with the result of the election.
  abbrev elected : ℕ → GlobalRegistry → Option ℕ × LocalContainerShmem → Pass
  elected now g (none, local) = watches local
  elected now g (some old_pid, local) =
      let s : Shared = record {
        global = reclaim_stale_global_slot g local old_pid;
        local = record local { state = state_idle };
      } in
      created s (new fl pid now priority memory_limit_mb t s)

  -- `attempt_us` and `now` are the clock at the election and at the creation.
  unfoldable pub pass : Bool → ℕ → ℕ → Shared → Pass
  unfolding try_become_manager new
  pass forked attempt_us now s =
      if forked
      then leaves
      else elected now s.global (try_become_manager proc_alive pid attempt_us s.local)

  -- No other process is a live manager.
  abbrev pub MayGovern : ℕ → LocalContainerShmem → Type 0
  MayGovern attempt_us local =
      (local.manager_pid ≡ pid) ⊎ (¬ HasLiveManager proc_alive attempt_us local)

  -- What a pass of a process that has not forked says and leaves.
  abbrev pub IsSupervised : ℕ → Shared → Pass → Type 0
  IsSupervised attempt_us s leaves = ⊥
  IsSupervised attempt_us s (watches local) =
      (local ≡ s.local) × (s.local.manager_pid ≢ pid) × HasLiveManager proc_alive attempt_us s.local
  IsSupervised attempt_us s (steps_back s') =
      MayGovern attempt_us s.local
      × ((k : ℕ) (slot : GlobalManagerSlot)
          → get_elem? s'.global.slots k ≡ some slot
          → slot.is_active ≢ 0)
      × (s'.local.manager_pid ≡ 0)
      × (s'.local.state ≡ state_idle)
      × (s'.local.initialized ≡ s.local.initialized)
      × (s'.local.memory_used ≡ s.local.memory_used)
      × (s'.local.procs ≡ s.local.procs)
  IsSupervised attempt_us s (governs m s') =
      MayGovern attempt_us s.local
      × (s'.local.manager_pid ≡ pid)
      × (s'.local.state ≡ state_idle)
      × (s'.local.initialized ≡ 1)
      × (s'.local.memory_limit ≡ memory_limit_mb * mb_to_bytes % 2 ^ 64)
      × (s'.local.memory_used ≡ (if s.local.initialized == 0 then 0 else s.local.memory_used))
      × (s'.local.procs ≡ s.local.procs)
      × (s'.local.manager_global_idx ≡ pos m.my_global_idx)

  created-IsSupervised :
      (attempt_us now : ℕ) (s s1 : Shared)
      → MayGovern attempt_us s.local
      → s1.local.manager_pid ≡ pid
      → s1.local.state ≡ state_idle
      → s1.local.initialized ≡ s.local.initialized
      → s1.local.memory_used ≡ s.local.memory_used
      → s1.local.procs ≡ s.local.procs
      → IsSupervised attempt_us s (created s1 (new fl pid now priority memory_limit_mb t s1))
  created-IsSupervised attempt_us now s s1 may mine idle init used procs =
      elim (new_lem fl pid now priority memory_limit_mb t s1) [
        | inl (full, busy) ↦ rw full (
          may,
          busy,
          (let same : s1.local.manager_pid == pid ≡ true = ground arith in rw same refl),
          idle,
          init,
          used,
          procs,
        )
        | inr (m, s', runs, slot, local) ↦ rw runs (
          may,
          ap (λ l. l.manager_pid) local ∙ mine,
          ap (λ l. l.state) local ∙ idle,
          ap (λ l. l.initialized) local,
          ap (λ l. l.memory_limit) local,
          ap (λ l. l.memory_used) local ∙ ground (arith, init, used),
          ap (λ l. l.procs) local ∙ procs,
          ap (λ l. l.manager_global_idx) local,
        )
      ]

  -- A pass of a process that has not forked ends in one of three ways. It watches, with nothing
  -- changed, exactly when another process is recorded as manager, that process lives, and its
  -- heartbeat is at most three seconds old. Otherwise the process is recorded as manager, and
  -- either every slot of the registry is then active and it steps back, with the record cleared
  -- and the counters as they were, or its manager starts: the pod's memory is initialised and
  -- idle, with the configured limit and the slot of the new manager; the process slots are as
  -- they were, and so is the counter of used memory, if the memory was initialised before.
  pub pass-IsSupervised :
      (attempt_us now : ℕ) (s : Shared)
      → pid ≢ 0
      → IsSupervised attempt_us s (pass false attempt_us now s)
  unfolding pass try_become_manager
  pass-IsSupervised attempt_us now s some_pid = elim (Bool-cases (s.local.manager_pid == 0)) [
    | inl vacant ↦
        rw (vacant, pass, try_become_manager)
          (created-IsSupervised attempt_us now s _ (inr (λ h. ground arith)) refl refl refl refl
            refl)
    | inr taken ↦ elim (Bool-cases (s.local.manager_pid == pid)) [
      | inl mine ↦
          rw (taken, mine, pass, try_become_manager)
            (created-IsSupervised attempt_us now s _ (inl (ground arith)) (ground arith) refl refl
              refl refl)
      | inr theirs ↦
          elim (Bool-cases (manager_alive proc_alive attempt_us s.local s.local.manager_pid)) [
            | inl lives ↦
                rw (taken, theirs, lives, pass, try_become_manager)
                  (refl, ground arith, ground arith)
            | inr dead ↦
                rw (taken, theirs, dead, pass, try_become_manager)
                  (created-IsSupervised attempt_us now s _ (inr (λ h. ground arith)) refl refl refl
                    refl refl)
          ]
    ]
  ]
