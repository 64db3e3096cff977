-- ===== src/Manager/Run/Tests.antt =====
-- A pass of manager 0 with its turn, and two managers that start on a new registry.
use hami_vnpu_core_hhy.Common.{[], ℕ, ◌<◌, ◌≡◌, ◌≢◌, refl, inl, inr, true, ◌∷◌, arith, Yields}
use hami_vnpu_core_hhy.Shmem.{zeroed_shmem, max_managers}
use hami_vnpu_core_hhy.Manager.Baton.{
  Shared, turn_round, wait_for_global_turn, is_active_manager, slot_active, queue_entry,
  join_global_queue, update_heartbeat, set_slot,
}
use hami_vnpu_core_hhy.Manager.Baton.Turns.{quiet}
use hami_vnpu_core_hhy.Manager.Baton.Rotation.{Rotation, window, passes}
use hami_vnpu_core_hhy.Manager.Baton.Boot.{boot, boot_starves}
use hami_vnpu_core_hhy.Manager.Baton.Pods.{System, Reach, first, starts, later, joins}
use hami_vnpu_core_hhy.Manager.Baton.Pods.Order.{InOrder, Reach-InOrder, Reach-turn}
use hami_vnpu_core_hhy.Manager.Round.{Met}
use hami_vnpu_core_hhy.Manager.Plan.Tests.{milli, registry, manager, slot_of}
use hami_vnpu_core_hhy.Manager.Run.{TurnMet, run_turn}
use hami_vnpu_core_hhy.Manager.Run.Turn.{HandedOn, run_turn-Yields}

abbrev shared : Shared
shared = record { global = registry; local = zeroed_shmem }

registry-Rotation : Rotation 0 (1 ∷ []) registry
unfolding window queue_entry is_active_manager slot_active
registry-Rotation = record {
  laid_out = refl;
  head_word = omega arith;
  tail = refl;
  entries = refl;
  room = omega arith;
  owner = refl;
  me_active = refl;
  all_active = (refl, tt);
}

-- One launch in the round, reported at once.
abbrev round_met : Met
round_met = record {
  glances =
      record {
        current_tokens = 200;
        active_workers = 0;
        elapsed_us = 10;
        elapsed_later_us = 11;
        remaining = 200;
        now_us = 110;
      }
      ∷ record {
        current_tokens = 0;
        active_workers = 1;
        elapsed_us = 900;
        elapsed_later_us = 901;
        remaining = 0;
        now_us = 1_000;
      }
      ∷ [];
  spent = record zeroed_shmem { active_workers = 1; reported_count = 1 };
  now_us = 1_000;
  report_glances =
      record { active = 1; reported = 1; elapsed_us = 20; since_heartbeat_us = 20; now_us = 1_020 }
      ∷ [];
  measured = record zeroed_shmem { active_workers = 1; reported_count = 1 };
}

abbrev met : TurnMet
met = record {
  rounds = record { now = 6_000; global = registry; seen = quiet registry } ∷ [];
  turn_us = 6_001;
  rest_called = 6_002;
  rest_glances = [];
  local_round = round_met;
  stats_us = 7_000;
  scheduled = 7_001;
}

run_turn-Yields_example :
    Yields (run_turn milli 1_000_000 met manager shared) (HandedOn milli 1_000_000 (1 ∷ []) manager)
unfolding wait_for_global_turn turn_round
run_turn-Yields_example =
    run_turn-Yields milli 1_000_000 (1 ∷ []) met manager shared shared refl registry-Rotation
      (omega arith) tt (inr (inl refl)) (inl (omega arith))

-- Manager 0 claims the first turn, and manager 1 joins.
abbrev two : System
two = record {
  registry =
      join_global_queue 1 (first 0 9 (slot_of 1 500 ∷ slot_of 1 500 ∷ []) zeroed_shmem).registry;
  joined = 1 ∷ 0 ∷ [];
}

two-Reach : Reach two
unfolding turn_round is_active_manager slot_active join_global_queue update_heartbeat set_slot
two-Reach =
    later (starts 0 9 (slot_of 1 500 ∷ slot_of 1 500 ∷ []) zeroed_shmem refl)
      (joins 1 refl (omega arith, tt))

Reach-InOrder_example : InOrder two
Reach-InOrder_example = Reach-InOrder two-Reach

Reach-turn_example : (n : ℕ) × (n < max_managers) × ((passes n two.registry).lock_owner ≡ 1)
Reach-turn_example = Reach-turn 1 two-Reach (inl refl)

abbrev raced : Shared
raced = record {
  global = join_global_queue 1 (join_global_queue 0 (boot (slot_of 1 500 ∷ slot_of 1 500 ∷ [])));
  local = zeroed_shmem;
}

boot_starves_example :
    ((turn_round 1 9 (quiet raced.global) raced).0 ≡ true)
    × ((passes 5 (turn_round 1 9 (quiet raced.global) raced).1.global).lock_owner ≡ 1)
    × ((passes 5 (turn_round 1 9 (quiet raced.global) raced).1.global).lock_owner ≢ 0)
unfolding is_active_manager slot_active
boot_starves_example =
    boot_starves 1 0 9 5 (slot_of 1 500 ∷ slot_of 1 500 ∷ []) zeroed_shmem (omega arith) refl refl
