-- ===== src/Hook/Pod/Tests.antt =====
-- A pod with two process slots under a limit of 1000 bytes, from its first process on.
use hami_vnpu_core_hhy.Common.{[], ◌≡◌, refl, true, Option, none, some, List, ◌∷◌, arith}
use hami_vnpu_core_hhy.Common.Words.{pos}
use hami_vnpu_core_hhy.Shmem.{zeroed_shmem, zeroed_slot, zeroed_report}
use hami_vnpu_core_hhy.Worker.Registration.{update_first, register_worker_slot, register_proc_slot}
use hami_vnpu_core_hhy.Worker.Memory.{
  scan_slot, scan_procs, atomic_saturating_sub, match_slot_sum, recalculate_usage_for_device,
  reserve, check_memory_quota, insert, update_hbm, post_alloc_hbm, is_hbm_limited, rt_error_none,
}
use hami_vnpu_core_hhy.Worker.Memory.Usage.{live_bytes}
use hami_vnpu_core_hhy.Worker.Start.{RtAnswers, register}
use hami_vnpu_core_hhy.Hook.{RealAlloc, forward_alloc, rt_malloc}
use hami_vnpu_core_hhy.Hook.Pod.{Pod, mallocs, dies, step}
use hami_vnpu_core_hhy.Hook.Pod.Safety.{IsWithin, quota_use}
use hami_vnpu_core_hhy.Hook.Pod.Life.{Event, enters, makes, happen, live, live-IsWithin}

abbrev start : Pod
start = record {
  shmem = record zeroed_shmem {
    memory_limit = 1000;
    initialized = 1;
    reports = zeroed_report ∷ zeroed_report ∷ [];
    procs = zeroed_slot ∷ zeroed_slot ∷ [];
  };
  clients = [];
  alive = λ pid. true;
}

abbrev on_device_0 : RtAnswers
on_device_0 = record { device = pos 0; stream = 1; start = 2; stop = 3; tracking = 4 }

abbrev good : RealAlloc
good = record { ret = rt_error_none; handle = 11 }

-- The second request is refused; process 9 takes the slots of process 7, and its request then
-- fits.
abbrev events : List Event
events =
    enters 7 on_device_0
    ∷ enters 8 on_device_0
    ∷ makes (mallocs 0 600 good)
    ∷ makes (mallocs 1 500 good)
    ∷ makes (dies 7)
    ∷ enters 9 on_device_0
    ∷ makes (mallocs 2 500 good)
    ∷ []

abbrev or_start : Option Pod → Pod
or_start none = start
or_start (some p) = p

abbrev end : Pod
end = or_start (live start events)

events_happen : live start events ≡ some end
unfolding live happen step register register_worker_slot register_proc_slot update_first rt_malloc
    is_hbm_limited forward_alloc check_memory_quota reserve recalculate_usage_for_device scan_procs
    scan_slot match_slot_sum atomic_saturating_sub post_alloc_hbm update_hbm insert
events_happen = refl

end_use : quota_use 0 end ≡ 500
unfolding live happen step register register_worker_slot register_proc_slot update_first rt_malloc
    is_hbm_limited forward_alloc check_memory_quota reserve recalculate_usage_for_device scan_procs
    scan_slot match_slot_sum atomic_saturating_sub post_alloc_hbm update_hbm insert live_bytes
end_use = refl

start-IsWithin : IsWithin 0 1000 start
unfolding live_bytes
start-IsWithin = record { on_device = tt; same_limit = refl; within = omega arith }

live-IsWithin_example : IsWithin 0 1000 end
live-IsWithin_example =
    live-IsWithin (omega arith) events start end
      (
        refl,
        (refl, ((omega arith, tt), ((omega arith, tt), (tt, (refl, ((omega arith, tt), tt)))))),
      )
      start-IsWithin events_happen
