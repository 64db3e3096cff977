-- ===== src/Worker/Start/Tests.antt =====
-- A worker that starts before its manager.
use hami_vnpu_core_hhy.Common.{
  [], ℕ, ◌≡◌, refl, inl, inr, Bool, false, true, none, some, List, ◌∷◌, arith,
}
use hami_vnpu_core_hhy.Common.Words.{pos}
use hami_vnpu_core_hhy.Shmem.{LocalContainerShmem, zeroed_shmem, zeroed_slot, zeroed_report}
use hami_vnpu_core_hhy.Shmem.Setup.{Os, try_open_shmem}
use hami_vnpu_core_hhy.Worker.Memory.{check_memory_quota}
use hami_vnpu_core_hhy.Worker.Start.{Look, RtAnswers, new}
use hami_vnpu_core_hhy.Worker.Start.Looks.{Ends, Joins, SomeFound}
use hami_vnpu_core_hhy.Worker.Start.Client.{IsNew, HasRoom, new-Ends, new-Joins}
use hami_vnpu_core_hhy.Worker.Start.Device.{new_device_panics}

abbrev everyone : ℕ → Bool
everyone pid = true

abbrev ready_memory : LocalContainerShmem
ready_memory = record zeroed_shmem {
  memory_limit = 1_000;
  initialized = 1;
  procs = zeroed_slot ∷ [];
  reports = zeroed_report ∷ [];
}

-- The file is not there at the first look.
abbrev absent : Os LocalContainerShmem
absent = record {
  path_has_nul = false;
  has_parent = true;
  fd = none;
  created = none;
  truncated = false;
  st_size = none;
  memory = none;
}

abbrev present : Os LocalContainerShmem
present = record absent { fd = some 3; st_size = some (pos 20_000); memory = some ready_memory }

abbrev looks_at : List Look
looks_at = record { os = absent; now_us = 200_000 } ∷ record { os = present; now_us = 400_000 } ∷ []

abbrev answers_for : ℕ → RtAnswers
answers_for device = record { device = pos device; stream = 1; start = 2; stop = 3; tracking = 4 }

ready_memory-HasRoom : HasRoom ready_memory
ready_memory-HasRoom = record {
  report_at = 0;
  report = zeroed_report;
  report_stands = refl;
  report_free = (refl, refl);
  proc_at = 0;
  proc = zeroed_slot;
  proc_stands = refl;
  proc_free = refl;
}

new-Joins_example :
    Joins
      (IsNew everyone 8 (answers_for 0) 1 ready_memory)
      (new everyone 8 (answers_for 0) 20_000 0 looks_at)
unfolding try_open_shmem
new-Joins_example =
    new-Joins everyone 8 (answers_for 0) 20_000 0 1 ready_memory looks_at
      (inr (refl, omega arith, inl (refl, refl))) ((refl, tt), refl) ready_memory-HasRoom

-- No manager comes: the last look is after the deadline.
abbrev looks_in_vain : List Look
looks_in_vain =
    record { os = absent; now_us = 200_000 } ∷ record { os = absent; now_us = 10_000_000 } ∷ []

new-Ends_example :
    Ends
      (λ r.
        (s : LocalContainerShmem) × SomeFound 20_000 s looks_in_vain
        × IsNew everyone 8 (answers_for 0) 1 s r)
      (new everyone 8 (answers_for 0) 20_000 0 looks_in_vain)
unfolding try_open_shmem
new-Ends_example =
    new-Ends everyone 8 (answers_for 0) 20_000 0 1 looks_in_vain (inr (inl (omega arith)))
      (λ s found. elim found [
        | inl (shown, set) ↦ absurd (cc)
        | inr rest ↦ elim rest [ inl (shown, set) ↦ absurd (cc) | inr none_left ↦ absurd none_left ]
      ])

-- The runtime names device 9.
new_device_panics_example :
    Joins
      (λ r.
        IsNew everyone 8 (answers_for 9) 1 ready_memory r
        × (check_memory_quota everyone r.0 100 [] r.1 ≡ none))
      (new everyone 8 (answers_for 9) 20_000 0 looks_at)
unfolding try_open_shmem
new_device_panics_example =
    new_device_panics everyone 8 (answers_for 9) 20_000 0 1 100 [] ready_memory looks_at
      (inr (refl, omega arith, inl (refl, refl))) ((refl, tt), refl) ready_memory-HasRoom
      (omega arith) (omega arith) (omega arith)
