-- ===== src/Supervisor/Tests.antt =====
-- Elections of a pod: process 7 is recorded, with a heartbeat at 10 seconds.
use hami_vnpu_core_hhy.Common.{
  ℕ, ◌≡◌, refl, Bool, true, false, some, List, [], ◌∷◌, arith, replicate,
}
use hami_vnpu_core_hhy.Common.Words.{pos}
use hami_vnpu_core_hhy.Shmem.{GlobalRegistry, GlobalManagerSlot, LocalContainerShmem, zeroed_shmem}
use hami_vnpu_core_hhy.Manager.Baton.{
  Shared, TurnRound, wait_for_global_turn, turn_round, watchdog_round, is_active_manager,
  slot_active,
}
use hami_vnpu_core_hhy.Supervisor.{try_become_manager}
use hami_vnpu_core_hhy.Supervisor.Reign.{
  Event, attempts, heartbeat, reign, AllEqual, reign-AllEqual,
}
use hami_vnpu_core_hhy.Supervisor.Election.{
  Attempt, try_become_manager_lem, waiting_manager_deposed,
}

abbrev everyone : ℕ → Bool
everyone pid = true

abbrev local : LocalContainerShmem
local = record zeroed_shmem {
  manager_pid = 7;
  manager_heartbeat = 10_000_000;
  manager_global_idx = pos 1;
}

abbrev slot_of : ℕ → GlobalManagerSlot
slot_of pid = record {
  pid = pid;
  avg_kernel_time = 500;
  last_heartbeat = 0;
  is_active = 1;
  priority = 1;
}

-- The manager of another pod owns the turn and has beaten just now.
abbrev registry : GlobalRegistry
registry = record {
  lock_owner = 0;
  lock_timestamp = 14_000_000;
  queue_head = 0;
  queue_tail = 1;
  queue = replicate 64 0;
  slots = slot_of 3 ∷ slot_of 7 ∷ [];
  signal_counter = 0;
}

abbrev shared : Shared
shared = record { global = registry; local = local }

abbrev rounds : List TurnRound
rounds =
    record {
      now = 14_000_100;
      global = registry;
      seen = record { at_claim = 0; at_steal = 0; at_recheck = 0 };
    }
    ∷ []

try_become_manager_lem_example :
    Attempt everyone 8 12_000_000 local (try_become_manager everyone 8 12_000_000 local)
try_become_manager_lem_example = try_become_manager_lem everyone 8 12_000_000 local (omega arith)

still_waits : (wait_for_global_turn 1 rounds shared).0 ≡ false
unfolding wait_for_global_turn turn_round watchdog_round is_active_manager slot_active
still_waits = refl

waiting_manager_deposed_example :
    try_become_manager everyone 8 14_000_200 (wait_for_global_turn 1 rounds shared).1.local
    ≡ (some 7, record local { manager_pid = 8; manager_heartbeat = 14_000_200 })
waiting_manager_deposed_example =
    waiting_manager_deposed everyone 1 rounds shared 8 14_000_200 still_waits (omega arith)
      (omega arith) (omega arith)

-- Process 8 tries twice, while process 7 beats.
abbrev events : List Event
events =
    attempts 8 12_000_000
    ∷ heartbeat 13_000_000
    ∷ attempts 8 15_500_000
    ∷ attempts 7 15_600_000
    ∷ []

reign-AllEqual_example :
    AllEqual 7 (reign everyone events local).0 × ((reign everyone events local).1.manager_pid ≡ 7)
reign-AllEqual_example =
    reign-AllEqual everyone 7 (omega arith) refl events local refl
      (omega arith, (omega arith, (omega arith, tt)))
