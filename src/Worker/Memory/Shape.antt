-- ===== src/Worker/Memory/Shape.antt =====
-- The layout that the memory operations keep, and with which none of them panics.
use hami_vnpu_core_hhy.Common.{
  [], ℕ, zero, suc, ◌<◌, ◌≡◌, refl, ap, ◌∙◌, Bool, true, false, List, ◌∷◌, arith, ltb, ◌==◌, Yields,
  >>=-Yields, if-Yields, length, get_elem?, set, length-set, get_elem?_of_lt,
}
use hami_vnpu_core_hhy.Shmem.{LocalContainerShmem, ProcessSlot, npu_device_max}
use hami_vnpu_core_hhy.Worker.{SchedulerClient}
use hami_vnpu_core_hhy.Worker.Memory.{
  scan_slot, scan_procs, recalculate_usage_for_device, update_hbm, heal, check_memory_quota,
  post_alloc_hbm, release_hbm, post_free_hbm, get_hbm_info, unwrap_or_zero, lookup, remove,
  sub_memory_used,
}
use hami_vnpu_core_hhy.Worker.Memory.Usage.{IsLaidOut}

-- `n` process slots, each with its eight counters.
abbrev pub IsShaped : ℕ → List ProcessSlot → Type 0
IsShaped n slots = IsLaidOut slots × (length slots ≡ n)

-- A client whose device and process slot exist.
pub record IsPlaced (n : ℕ) (client : SchedulerClient) : Type 0 where
  pub device : client.device_id < npu_device_max
  pub slot : client.my_proc_idx < n

IsLaidOut-get_elem? :
    (slots : List ProcessSlot) (i : ℕ)
    → IsLaidOut slots
    → i < length slots
    → Yields (get_elem? slots i) (λ slot. length slot.hbm_used ≡ npu_device_max)
IsLaidOut-get_elem? [] i h lt = elim lt [ ]
IsLaidOut-get_elem? (x ∷ slots) zero h lt = (x, refl, h.0)
IsLaidOut-get_elem? (x ∷ slots) (suc i) h lt = IsLaidOut-get_elem? slots i h.1 (omega arith)

pub IsLaidOut-set :
    (slots : List ProcessSlot) (i : ℕ) (slot : ProcessSlot)
    → IsLaidOut slots
    → length slot.hbm_used ≡ npu_device_max
    → IsLaidOut (set slots i slot)
IsLaidOut-set [] i slot h e = tt
IsLaidOut-set (x ∷ slots) zero slot h e = (e, h.1)
IsLaidOut-set (x ∷ slots) (suc i) slot h e = (h.0, IsLaidOut-set slots i slot h.1 e)

module _ (proc_alive : ℕ → Bool) where
  module _ (device : ℕ) (in_range : device < npu_device_max) where
    scan_slot-Yields :
        (slot : ProcessSlot) (total cleaned : ℕ)
        → length slot.hbm_used ≡ npu_device_max
        → Yields
            (scan_slot proc_alive device slot total cleaned)
            (λ r. length r.0.hbm_used ≡ npu_device_max)
    unfolding scan_slot
    scan_slot-Yields slot total cleaned e =
        if-Yields _ (slot.pid == 0) _ _ (_, refl, e)
          (let (used, found) = get_elem?_of_lt slot.hbm_used device (omega arith) in
            >>=-Yields (λ _. Unit {0}) _ (get_elem? slot.hbm_used device) _ (used, found, tt)
              (λ used' _.
                if-Yields _ (proc_alive slot.pid) _ _ (_, refl, e)
                  (_, refl, length-set slot.hbm_used device 0 ∙ e)))

    scan_procs-Yields :
        (slots : List ProcessSlot) (total cleaned : ℕ)
        → IsLaidOut slots
        → Yields
            (scan_procs proc_alive device slots total cleaned)
            (λ scan. IsShaped (length slots) scan.procs)
    unfolding scan_procs
    scan_procs-Yields [] total cleaned laid = (_, refl, (tt, refl))
    scan_procs-Yields (slot ∷ slots) total cleaned laid =
        >>=-Yields _ _ _ _ (scan_slot-Yields slot total cleaned laid.0) (λ r laid1.
          >>=-Yields _ _ _ _ (scan_procs-Yields slots r.1 r.2 laid.1)
            (λ rest laid2. (_, refl, ((laid1, laid2.0), ap suc laid2.1))))

    pub recalculate-Yields :
        (n : ℕ) (s : LocalContainerShmem)
        → IsShaped n s.procs
        → Yields (recalculate_usage_for_device proc_alive device s) (λ r. IsShaped n r.1.procs)
    unfolding recalculate_usage_for_device
    recalculate-Yields n s shaped =
        >>=-Yields _ _ _ _ (scan_procs-Yields s.procs 0 0 shaped.0)
          (λ scan laid. (_, refl, ground arith))

  module _ (n : ℕ) where
    abbrev Good : LocalContainerShmem → Type 0
    Good s = IsShaped n s.procs

    module _ (client : SchedulerClient) (placed : IsPlaced n client) where
      update_hbm-Yields :
          (f : ℕ → ℕ × Bool) (s : LocalContainerShmem)
          → Good s
          → Yields (update_hbm client s f) (λ r. Good r.1)
      unfolding update_hbm
      update_hbm-Yields f s good =
          >>=-Yields _ _ _ _
            (IsLaidOut-get_elem? s.procs client.my_proc_idx good.0 (ground (arith, placed.slot)))
            (λ slot laid.
              let (used, found) =
                get_elem?_of_lt slot.hbm_used client.device_id (omega (arith, placed.device)) in
              >>=-Yields (λ _. Unit {0}) _ _ _ (used, found, tt)
                (λ used' _. (
                  _,
                  refl,
                  (
                    IsLaidOut-set s.procs client.my_proc_idx _ good.0
                        (length-set slot.hbm_used client.device_id _ ∙ laid),
                    length-set s.procs client.my_proc_idx _ ∙ good.1,
                  ),
                )))

      heal-Yields :
          (underflow : Bool) (s : LocalContainerShmem)
          → Good s
          → Yields (heal proc_alive underflow client s) Good
      heal-Yields true s good =
          >>=-Yields _ _ _ _ (recalculate-Yields client.device_id placed.device n s good)
            (λ r g. (_, refl, g))
      heal-Yields false s good = (_, refl, good)

      pub check_memory_quota-Yields :
          (size : ℕ) (others : List ℕ) (s : LocalContainerShmem)
          → Good s
          → Yields (check_memory_quota proc_alive client size others s) (λ r. Good r.1)
      unfolding check_memory_quota
      check_memory_quota-Yields size others s good =
          if-Yields _ client.is_stub _ _ (_, refl, good)
            (if-Yields _ (s.memory_limit == 0) _ _ (_, refl, good)
              (>>=-Yields _ _ _ _ (recalculate-Yields client.device_id placed.device n s good)
                (λ r g. (_, refl, ground arith))))

      pub post_alloc_hbm-Yields :
          (p size ret : ℕ) (s : LocalContainerShmem)
          → Good s
          → Yields (post_alloc_hbm proc_alive p size ret client s) (λ r. Good r.1)
      unfolding post_alloc_hbm
      post_alloc_hbm-Yields p size ret s good =
          if-Yields _ (ret == 0) _ _
            (>>=-Yields _ _ _ _ (update_hbm-Yields _ s good) (λ r g. (_, refl, g)))
            (>>=-Yields _ _ _ _
              (heal-Yields (sub_memory_used s size).1 (sub_memory_used s size).0 good)
              (λ r g. (_, refl, g)))

      release_hbm-Yields :
          (size : ℕ) (s : LocalContainerShmem)
          → Good s
          → Yields (release_hbm proc_alive size client s) Good
      unfolding release_hbm
      release_hbm-Yields size s good =
          >>=-Yields _ _ _ _ (update_hbm-Yields _ s good) (λ r g. heal-Yields _ _ g)

      pub get_hbm_info-Yields :
          (s : LocalContainerShmem)
          → Good s
          → Yields (get_hbm_info proc_alive client s) (λ r. Good r.1)
      unfolding get_hbm_info
      get_hbm_info-Yields s good =
          >>=-Yields _ _ _ _ (recalculate-Yields client.device_id placed.device n s good)
            (λ r g. (_, refl, g))

    pub post_free_hbm-Yields :
        (client : SchedulerClient)
        → IsPlaced n client
        → (handle ret : ℕ) (s : LocalContainerShmem) → Good s
        → Yields (post_free_hbm proc_alive handle ret client s) (λ r. Good r.1)
    unfolding post_free_hbm
    post_free_hbm-Yields client placed handle ret s good =
        if-Yields _ (ret == 0) _ _
          (if-Yields _ (ltb 0 (unwrap_or_zero (lookup handle client.hbm_handle_map))) _ _
            (>>=-Yields _ _ _ _
              (release_hbm-Yields
                (record client { hbm_handle_map = remove handle client.hbm_handle_map })
                (record { device = placed.device; slot = placed.slot }) _ s good)
              (λ s' g. (_, refl, g)))
            (_, refl, good))
          (_, refl, good)
