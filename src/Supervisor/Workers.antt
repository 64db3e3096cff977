-- ===== src/Supervisor/Workers.antt =====
-- The manager's start in one process of a pod and a worker's start in another.
use hami_vnpu_core_hhy.Common.{[], ℕ, ◌*◌, ◌%◌, ◌^◌, ◌≡◌, ◌≢◌, ◌∙◌, inl, Bool, false, some, ◌∷◌}
use mathlib.Core.Path.{subst}
use hami_vnpu_core_hhy.Shmem.{LocalContainerShmem}
use hami_vnpu_core_hhy.Shmem.Setup.{Os, try_open_shmem}
use hami_vnpu_core_hhy.Worker.{SchedulerClient}
use hami_vnpu_core_hhy.Worker.Memory.Shape.{IsShaped}
use hami_vnpu_core_hhy.Worker.Start.{RtAnswers, new}
use hami_vnpu_core_hhy.Worker.Start.Looks.{Joins, Joins-map}
use hami_vnpu_core_hhy.Worker.Start.Client.{IsNew, HasRoom, new-Joins}
use hami_vnpu_core_hhy.Manager.Baton.{Shared}
use hami_vnpu_core_hhy.Manager.Plan.Floats.{Float}
use hami_vnpu_core_hhy.Manager.Plan.{ContainerManager, Tuning, mb_to_bytes}
use hami_vnpu_core_hhy.Supervisor.Pass.{governs, pass, IsSupervised, pass-IsSupervised}

module _ (fl : Float) (proc_alive : ℕ → Bool) (pid : ℕ) (priority : fl.F) (memory_limit_mb : ℕ)
    (t : Tuning fl) where
  -- What the client of process `worker` finds: its own slot, and the limit of the configuration.
  abbrev pub IsLimited :
      ℕ → RtAnswers → ℕ → LocalContainerShmem → SchedulerClient × LocalContainerShmem → Type 0
  IsLimited worker rt n s r =
      IsNew proc_alive worker rt n s r × (r.1.memory_limit ≡ memory_limit_mb * mb_to_bytes % 2 ^ 64)

  -- When a supervisor's pass starts its manager, the pod's memory has `n` process slots with
  -- their counters, and a free slot of each kind, then a worker of the pod that looks at it at
  -- any time finds it ready at its first look and gets a client with its own process slot, under
  -- the limit that the manager's configuration sets.
  pub pass-Joins :
      (attempt_us now worker size start_us now_us n : ℕ) (rt : RtAnswers)
      (os : Os LocalContainerShmem) (s s' : Shared) (m : ContainerManager fl)
      → pid ≢ 0
      → pass fl proc_alive pid priority memory_limit_mb t false attempt_us now s ≡ governs m s'
      → IsShaped n s'.local.procs
      → HasRoom s'.local
      → (try_open_shmem size os).result ≡ some (some s'.local)
      → Joins
          (IsLimited worker rt n s'.local)
          (new proc_alive worker rt size start_us (record { os = os; now_us = now_us } ∷ []))
  pass-Joins attempt_us now worker size start_us now_us n rt os s s' m some_pid runs shaped room
        shown =
      let (may, mine, idle, set, limit, used, procs, index) =
        subst (IsSupervised fl proc_alive pid priority memory_limit_mb t attempt_us s) runs (
          pass-IsSupervised fl proc_alive pid priority memory_limit_mb t attempt_us now s
            some_pid) in
      Joins-map (IsNew proc_alive worker rt n s'.local) (IsLimited worker rt n s'.local)
        (new proc_alive worker rt size start_us (record { os = os; now_us = now_us } ∷ []))
        (λ r h. (h, h.limit ∙ limit))
        (new-Joins proc_alive worker rt size start_us n s'.local
          (record { os = os; now_us = now_us } ∷ []) (inl (shown, set)) shaped room)
