-- ===== src/Worker/Start/Device.antt =====
-- A client of a device that the layout has no counter for.
use hami_vnpu_core_hhy.Common.{
  ◌+◌, ◌*◌, [], ℕ, zero, suc, ◌≤◌, ◌≡◌, refl, sym, ap, ◌∙◌, ◌≢◌, inl, inr, Bool, false, none, some,
  List, ◌∷◌, arith, ◌==◌, Option-cases, length, get_elem?,
}
use mathlib.Core.Path.{subst}
use mathlib.Core.Option.{some-injective}
use hami_vnpu_core_hhy.Shmem.{LocalContainerShmem, ProcessSlot, npu_device_max}
use hami_vnpu_core_hhy.Worker.{SchedulerClient}
use hami_vnpu_core_hhy.Worker.Memory.{
  scan_slot, scan_procs, recalculate_usage_for_device, check_memory_quota,
}
use hami_vnpu_core_hhy.Worker.Start.{Look, device_of, RtAnswers, shmem_wait_timeout_secs, new}
use hami_vnpu_core_hhy.Worker.Start.Looks.{FoundInTime, Joins, Joins-map}
use hami_vnpu_core_hhy.Worker.Memory.Shape.{IsShaped}
use hami_vnpu_core_hhy.Worker.Start.Client.{IsNew, HasRoom, new-Joins}

get_elem?_past {ℓ} : {A : Type ℓ} (xs : List A) (i : ℕ) → length xs ≤ i → get_elem? xs i ≡ none
get_elem?_past [] i h = refl
get_elem?_past (x ∷ xs) zero h = elim h [ ]
get_elem?_past (x ∷ xs) (suc i) h = get_elem?_past xs i (omega arith)

-- The sweep indexes each claimed slot by the device.
scan_procs-past :
    (proc_alive : ℕ → Bool) (device : ℕ) (slots : List ProcessSlot) (i total cleaned : ℕ)
    (slot : ProcessSlot)
    → get_elem? slots i ≡ some slot
    → slot.pid ≢ 0
    → length slot.hbm_used ≤ device
    → scan_procs proc_alive device slots total cleaned ≡ none
unfolding scan_procs scan_slot
scan_procs-past proc_alive device [] i total cleaned slot at taken past = absurd (cc)
scan_procs-past proc_alive device (x ∷ slots) zero total cleaned slot at taken past =
    let same = some-injective _ _ at in
    let free : x.pid == 0 ≡ false = ground (arith, same, taken) in
    let beyond : get_elem? x.hbm_used device ≡ none =
      get_elem?_past x.hbm_used device (subst (λ q. length q.hbm_used ≤ device) (sym same) past) in
    rw (scan_procs, scan_slot, free, beyond) refl
scan_procs-past proc_alive device (x ∷ slots) (suc i) total cleaned slot at taken past =
    elim (Option-cases (scan_slot proc_alive device x total cleaned)) [
      | inl e ↦ rw (scan_procs, e) refl
      | inr (r, e) ↦
          rw (scan_procs, e, scan_procs-past proc_alive device slots i r.1 r.2 slot at taken past)
            refl
    ]

recalculate-past :
    (proc_alive : ℕ → Bool) (device : ℕ) (s : LocalContainerShmem)
    → scan_procs proc_alive device s.procs 0 0 ≡ none
    → recalculate_usage_for_device proc_alive device s ≡ none
unfolding recalculate_usage_for_device
recalculate-past proc_alive device s e = rw (recalculate_usage_for_device, e) refl

module _ (proc_alive : ℕ → Bool) (pid : ℕ) (rt : RtAnswers) where
  far_check_panics :
      (n size : ℕ) (others : List ℕ) (s : LocalContainerShmem)
      (r : SchedulerClient × LocalContainerShmem)
      → IsNew proc_alive pid rt n s r
      → pid ≢ 0
      → npu_device_max ≤ device_of rt.device
      → s.memory_limit ≢ 0
      → check_memory_quota proc_alive r.0 size others r.1 ≡ none
  unfolding check_memory_quota
  far_check_panics n size others s r h some_pid far limited =
      let set : r.1.memory_limit == 0 ≡ false = ground (arith, h.limit) in
      let device : npu_device_max ≤ r.0.device_id = omega (arith, h.device, far) in
      let hbm : length h.slot.hbm_used ≤ r.0.device_id =
        omega (arith, device, ap length h.zeroed) in
      rw (check_memory_quota, h.limited, set)
        (rw
          (recalculate-past proc_alive r.0.device_id r.1 (
            scan_procs-past proc_alive r.0.device_id r.1.procs r.0.my_proc_idx 0 0 h.slot h.stands
              (λ e. some_pid (sym h.own ∙ e)) hbm))
          refl)

  -- The device that the runtime names is not looked at: where a look finds the initialised memory
  -- in time, with its counters in each process slot and a free slot of each kind, a client of a
  -- device past the eighth is made like any other, and if a limit is set, its first request of
  -- memory panics.
  pub new_device_panics :
      (shmem_size start_us n size : ℕ) (others : List ℕ) (s : LocalContainerShmem)
      (views : List Look)
      → FoundInTime shmem_size (start_us + shmem_wait_timeout_secs * 1_000_000) s views
      → IsShaped n s.procs
      → HasRoom s
      → pid ≢ 0
      → npu_device_max ≤ device_of rt.device
      → s.memory_limit ≢ 0
      → Joins
          (λ r.
            IsNew proc_alive pid rt n s r
            × (check_memory_quota proc_alive r.0 size others r.1 ≡ none))
          (new proc_alive pid rt shmem_size start_us views)
  new_device_panics shmem_size start_us n size others s views found shaped room some_pid far
        limited =
      Joins-map (IsNew proc_alive pid rt n s)
        (λ r.
          IsNew proc_alive pid rt n s r
          × (check_memory_quota proc_alive r.0 size others r.1 ≡ none))
        (new proc_alive pid rt shmem_size start_us views)
        (λ r h. (h, far_check_panics n size others s r h some_pid far limited))
        (new-Joins proc_alive pid rt shmem_size start_us n s views found shaped room)
