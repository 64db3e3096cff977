-- ===== src/Manager/Reaper/Tests.antt =====
-- A pod of a live and a dead process, swept and refreshed.
use hami_vnpu_core_hhy.Common.{
  length, ℕ, refl, arith, ◌-◌, ◌≡◌, Bool, Option, not, some, [], ◌∷◌, ◌==◌, if◌then◌else◌,
  replicate, get_elem?,
}
use hami_vnpu_core_hhy.Shmem.{LocalContainerShmem, ProcessSlot, zeroed_shmem}
use hami_vnpu_core_hhy.Worker.Memory.Usage.{live_bytes, NoDead}
use hami_vnpu_core_hhy.Manager.Reaper.{reap_dead_slots}
use hami_vnpu_core_hhy.Common.Words.{ℤ, pos, negsuc}
use hami_vnpu_core_hhy.Manager.Reaper.Discovery.{Cards, DeviceAnswer, Says, refresh, refresh_lem}
use hami_vnpu_core_hhy.Manager.Reaper.Refresh.{or_kept}
use hami_vnpu_core_hhy.Manager.Reaper.Sweep.{is_kept, dead_bytes, reap_dead_slots_lem}

abbrev alive : ℕ → Bool
alive pid = not (pid == 9)

abbrev proc_of : ℕ → ℕ → ProcessSlot
proc_of pid used = record { pid = pid; hbm_used = used ∷ replicate 7 20; is_active = 1 }

abbrev pod : LocalContainerShmem
pod = record zeroed_shmem { memory_used = 700; procs = proc_of 7 100 ∷ proc_of 9 50 ∷ [] }

reap_dead_slots_lem_example :
    ((i : ℕ) (slot : ProcessSlot)
      → get_elem? pod.procs i ≡ some slot
      → get_elem? (reap_dead_slots alive pod).procs i
        ≡ some (
            if is_kept alive slot
            then slot
            else record { pid = 0; hbm_used = replicate (length slot.hbm_used) 0; is_active = 0 }))
    × NoDead alive (reap_dead_slots alive pod).procs
    × ((device : ℕ)
        → live_bytes alive device (reap_dead_slots alive pod).procs
          ≡ live_bytes alive device pod.procs)
    × (reap_dead_slots alive pod ≡ record pod {
      memory_used = 700 - dead_bytes alive pod.procs;
      procs = (reap_dead_slots alive pod).procs;
    })
reap_dead_slots_lem_example = reap_dead_slots_lem alive pod

-- Two cards: the first one cannot be asked, and the second one knows process 7.
abbrev two_cards : Cards
two_cards = record { card_num = pos 2; card_list = pos 4 ∷ pos 6 ∷ replicate 6 (pos 0) }

abbrev of_card : ℤ → DeviceAnswer
of_card (pos n) = record {
  ret = if n == 6 then pos 0 else negsuc 0;
  proc_num = pos 1;
  procs = record { proc_id = 7; proc_mem_usage = 300 } ∷ [];
}
of_card (negsuc n) = record { ret = pos 1; proc_num = pos 0; procs = [] }

abbrev ask_card : ℤ × ℤ → DeviceAnswer
ask_card (card, device) = of_card card

refresh_lem_example :
    (slot : ProcessSlot) × (get_elem? (refresh two_cards ask_card pod).procs 0 ≡ some slot)
    × (slot.pid ≡ 7)
    × (slot.is_active ≡ 1)
    × ((answer : Option ℕ) × Says (ask_card (pos 6, pos 0)) 7 answer
        × (get_elem? slot.hbm_used 1 ≡ or_kept answer (some 20)))
refresh_lem_example =
    refresh_lem two_cards ask_card pod 0 2 1 (proc_of 7 100) (pos 6) refl (omega arith)
      (omega arith) refl refl (omega arith) refl
