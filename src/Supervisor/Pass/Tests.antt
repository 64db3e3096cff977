-- ===== src/Supervisor/Pass/Tests.antt =====
-- Process 8 takes the place of process 7, which is dead; slot 1 of the registry was its own.
use hami_vnpu_core_hhy.Common.{
  [], ℕ, ◌∷◌, ◌≡◌, refl, Bool, not, ◌==◌, false, true, none, some, arith,
}
use hami_vnpu_core_hhy.Common.Words.{pos}
use hami_vnpu_core_hhy.Shmem.{LocalContainerShmem, zeroed_shmem, zeroed_report, zeroed_slot}
use hami_vnpu_core_hhy.Shmem.Setup.{Os, try_open_shmem}
use hami_vnpu_core_hhy.Worker.Start.{RtAnswers, new}
use hami_vnpu_core_hhy.Worker.Start.Looks.{Joins}
use hami_vnpu_core_hhy.Worker.Start.Client.{HasRoom}
use hami_vnpu_core_hhy.Manager.Baton.{Shared, register_global_slot, register_from, set_slot}
use hami_vnpu_core_hhy.Manager.Plan.{ContainerManager}
use hami_vnpu_core_hhy.Manager.Plan.Tests.{milli, registry, untuned, manager}
use hami_vnpu_core_hhy.Supervisor.{try_become_manager, manager_alive, reclaim_stale_global_slot}
use hami_vnpu_core_hhy.Supervisor.Pass.{
  Pass, leaves, watches, steps_back, governs, pass, IsSupervised, pass-IsSupervised,
}
use hami_vnpu_core_hhy.Supervisor.Workers.{IsLimited, pass-Joins}

abbrev alive : ℕ → Bool
alive pid = not (pid == 7)

abbrev pod : Shared
pod = record {
  global = registry;
  local = record zeroed_shmem {
    initialized = 1;
    memory_used = 600;
    manager_pid = 7;
    manager_global_idx = pos 1;
    reports = zeroed_report ∷ [];
    procs = zeroed_slot ∷ [];
  };
}

pass-IsSupervised_example :
    IsSupervised milli alive 8 50_000 1_024 untuned 9_000 pod
      (pass milli alive 8 50_000 1_024 untuned false 9_000 9_100 pod)
pass-IsSupervised_example =
    pass-IsSupervised milli alive 8 50_000 1_024 untuned 9_000 9_100 pod (omega arith)

abbrev started : Pass milli alive 8 50_000 1_024 untuned
started = pass milli alive 8 50_000 1_024 untuned false 9_000 9_100 pod

abbrev shared_of : Pass milli alive 8 50_000 1_024 untuned → Shared
shared_of leaves = pod
shared_of (watches local) = pod
shared_of (steps_back s) = s
shared_of (governs m s) = s

abbrev manager_of : Pass milli alive 8 50_000 1_024 untuned → ContainerManager milli
manager_of leaves = manager
manager_of (watches local) = manager
manager_of (steps_back s) = manager
manager_of (governs m s) = m

starts : started ≡ governs (manager_of started) (shared_of started)
unfolding pass try_become_manager manager_alive reclaim_stale_global_slot
    hami_vnpu_core_hhy.Manager.Plan.new register_global_slot register_from set_slot
starts = refl

-- Worker 12 of the pod looks at the memory after that.
abbrev present : Os LocalContainerShmem
present = record {
  path_has_nul = false;
  has_parent = true;
  fd = some 3;
  created = none;
  truncated = false;
  st_size = some (pos 20_000);
  memory = some (shared_of started).local;
}

abbrev on_device_0 : RtAnswers
on_device_0 = record { device = pos 0; stream = 1; start = 2; stop = 3; tracking = 4 }

started-HasRoom : HasRoom (shared_of started).local
unfolding pass try_become_manager manager_alive reclaim_stale_global_slot
    hami_vnpu_core_hhy.Manager.Plan.new register_global_slot register_from set_slot
started-HasRoom = record {
  report_at = 0;
  report = zeroed_report;
  report_stands = refl;
  report_free = (refl, refl);
  proc_at = 0;
  proc = zeroed_slot;
  proc_stands = refl;
  proc_free = refl;
}

pass-Joins_example :
    Joins
      (IsLimited milli alive 8 50_000 1_024 untuned 12 on_device_0 1 (shared_of started).local)
      (new alive 12 on_device_0 20_000 0 (record { os = present; now_us = 100 } ∷ []))
unfolding pass try_become_manager manager_alive reclaim_stale_global_slot
    hami_vnpu_core_hhy.Manager.Plan.new register_global_slot register_from set_slot try_open_shmem
pass-Joins_example =
    pass-Joins milli alive 8 50_000 1_024 untuned 9_000 9_100 12 20_000 0 100 1 on_device_0 present
      pod (shared_of started) (manager_of started) (omega arith) starts ((refl, tt), refl)
      started-HasRoom refl
