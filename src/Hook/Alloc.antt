-- ===== src/Hook/Alloc.antt =====
-- The intercepted allocations and frees against the quota.
use hami_vnpu_core_hhy.Common.{
  [], ℕ, ◌+◌, ◌^◌, ◌≤◌, ◌<◌, ◌≡◌, ◌≢◌, ◌⊎◌, inl, inr, Bool, true, false, some, List, arith, ltb,
  ◌==◌, Bool-cases, >>=-eq-some, get_elem?, set, get_elem?-set_self, lt_of_get_elem?,
}
use hami_vnpu_core_hhy.Common.Words.{add_u64}
use hami_vnpu_core_hhy.Shmem.{ProcessSlot, LocalContainerShmem}
use hami_vnpu_core_hhy.Worker.{SchedulerClient}
use hami_vnpu_core_hhy.Hook.{rt_free, forward_alloc, RealAlloc, Outcome, rt_malloc}
use hami_vnpu_core_hhy.Worker.Memory.Recalculate.{recalculate_lem}
use hami_vnpu_core_hhy.Worker.Memory.Quota.{check_memory_quota_lem}
use hami_vnpu_core_hhy.Worker.Memory.{
  post_alloc_hbm, check_memory_quota, recalculate_usage_for_device, rt_error_none,
  rt_error_memory_allocation, release_hbm, post_free_hbm, unwrap_or_zero, lookup, remove,
  sub_memory_used, heal, is_hbm_limited, atomic_saturating_sub, update_hbm,
}
use hami_vnpu_core_hhy.Worker.Memory.Usage.{live_bytes, live_bytes-set}

module _ (proc_alive : ℕ → Bool) (client : SchedulerClient) where
  abbrev live : List ProcessSlot → ℕ
  live = live_bytes proc_alive client.device_id

  -- A write to the client's own counter that adds at most `k` adds at most `k` to the live bytes.
  update_hbm-live :
      (k : ℕ) (f : ℕ → ℕ × Bool) (s s' : LocalContainerShmem) (flag : Bool)
      → ((used : ℕ) → (f used).0 ≤ used + k)
      → update_hbm client s f ≡ some (flag, s')
      → (live s'.procs ≤ live s.procs + k) × (s'.memory_limit ≡ s.memory_limit)
  unfolding update_hbm
  update_hbm-live k f s s' flag bound h =
      let (slot, e, h') = >>=-eq-some (get_elem? s.procs client.my_proc_idx) _ h in
      let (used, e', h'') = >>=-eq-some (get_elem? slot.hbm_used client.device_id) _ h' in
      let used' : ℕ = (f used).0 in
      let slot' : ProcessSlot = record slot {
        hbm_used = set slot.hbm_used client.device_id used';
      } in
      ground (
        arith,
        bound used,
        live_bytes-set proc_alive client.device_id s.procs client.my_proc_idx slot slot' e,
        get_elem?-set_self slot.hbm_used client.device_id used',
        lt_of_get_elem? slot.hbm_used client.device_id e',
      )

  heal-live :
      (underflow : Bool) (s s' : LocalContainerShmem)
      → heal proc_alive underflow client s ≡ some s'
      → (live s'.procs ≡ live s.procs) × (s'.memory_limit ≡ s.memory_limit)
  heal-live true s s' h =
      let ((total, s1), e, h') =
        >>=-eq-some (recalculate_usage_for_device proc_alive client.device_id s) _ h in
      ground (arith, recalculate_lem proc_alive client.device_id s s1 total e)
  heal-live false s s' h = ground arith

  -- The bookkeeping after an allocation: a success adds at most the size to the live bytes, a
  -- failure leaves them alone.
  post_alloc_hbm-live :
      (p size ret : ℕ) (s s' : LocalContainerShmem) (client' : SchedulerClient)
      → post_alloc_hbm proc_alive p size ret client s ≡ some (client', s')
      → (live s'.procs ≤ live s.procs + size)
        × (ret ≢ rt_error_none → live s'.procs ≡ live s.procs)
        × (s'.memory_limit ≡ s.memory_limit)
        × (client' ≡ record client { hbm_handle_map = client'.hbm_handle_map })
  unfolding post_alloc_hbm
  post_alloc_hbm-live p size ret s s' client' h = elim (Bool-cases (ret == rt_error_none)) [
    | inl good ↦
        let ((flag, s1), e, h') =
          >>=-eq-some (update_hbm client s (λ used. (add_u64 used size, false))) _
            (rw (good, post_alloc_hbm) at h) in
        ground (arith, update_hbm-live size _ s s1 flag (λ used. omega arith) e)
    | inr bad ↦
        let (s1, e, h') =
          >>=-eq-some (heal proc_alive (sub_memory_used s size).1 client (sub_memory_used s size).0)
            _ (rw (bad, post_alloc_hbm) at h) in
        ground (arith, heal-live (sub_memory_used s size).1 (sub_memory_used s size).0 s1 e)
  ]

  forward_alloc-live :
      (real : RealAlloc) (size code : ℕ) (s : LocalContainerShmem) (o : Outcome)
      → forward_alloc proc_alive real size code client s ≡ some o
      → (((code ≡ 0)
            × (o.called ≡ true)
            × (((real.ret ≡ rt_error_none)
                  × (o.ret ≡ rt_error_none)
                  × (live o.shmem.procs ≤ live s.procs + size))
                ⊎ ((real.ret ≢ rt_error_none)
                    × (o.ret ≡ rt_error_memory_allocation)
                    × (live o.shmem.procs ≡ live s.procs))))
          ⊎ ((code ≢ 0)
              × (o.called ≡ false)
              × (o.ret ≡ rt_error_memory_allocation)
              × (live o.shmem.procs ≡ live s.procs)))
        × (o.shmem.memory_limit ≡ s.memory_limit)
  unfolding forward_alloc
  forward_alloc-live real size code s o h = elim (Bool-cases (code == 0)) [
    | inr refused ↦ ground arith
    | inl go ↦ elim (Bool-cases (real.ret == rt_error_none)) [
      | inl good ↦
          let ((client', s'), e, h') =
            >>=-eq-some (post_alloc_hbm proc_alive real.handle size real.ret client s) _
              (rw (go, good, forward_alloc) at h) in
          ground (arith, post_alloc_hbm-live real.handle size real.ret s s' client' e)
      | inr bad ↦
          let ((client', s'), e, h') =
            >>=-eq-some (post_alloc_hbm proc_alive 0 size real.ret client s) _
              (rw (go, bad, forward_alloc) at h) in
          ground (arith, post_alloc_hbm-live 0 size real.ret s s' client' e)
    ]
  ]

  -- An intercepted allocation that is under quota control and does not panic, with no other
  -- process between, where the live bytes of the device and the size together stay below 2 ^ 64:
  -- if that sum fits the limit, the real
  -- function is called; its success is passed on and adds at most the size to the live bytes, and
  -- its failure becomes the allocation error and leaves them alone. Otherwise the real function
  -- is not called, and the answer is the allocation error. The limit stays, and so do the live
  -- bytes where no success is reported.
  pub rt_malloc_lem :
      (real : RealAlloc) (size : ℕ) (s : LocalContainerShmem) (o : Outcome)
      → rt_malloc proc_alive real size [] client s ≡ some o
      → client.is_stub ≡ false
      → s.memory_limit ≢ 0
      → live s.procs + size < 2 ^ 64
      → (((o.called ≡ true)
            × (live s.procs + size ≤ s.memory_limit)
            × (((real.ret ≡ rt_error_none)
                  × (o.ret ≡ rt_error_none)
                  × (live o.shmem.procs ≤ live s.procs + size))
                ⊎ ((real.ret ≢ rt_error_none)
                    × (o.ret ≡ rt_error_memory_allocation)
                    × (live o.shmem.procs ≡ live s.procs))))
          ⊎ ((o.called ≡ false)
              × (s.memory_limit < live s.procs + size)
              × (o.ret ≡ rt_error_memory_allocation)
              × (live o.shmem.procs ≡ live s.procs)))
        × (o.shmem.memory_limit ≡ s.memory_limit)
  unfolding rt_malloc
  rt_malloc_lem real size s o h stub limited small =
      let on : is_hbm_limited s ≡ true = ground arith in
      let ((code, s1), e, h') =
        >>=-eq-some (check_memory_quota proc_alive client size [] s) _ (rw (rt_malloc, on) at h) in
      ground (
        arith,
        check_memory_quota_lem proc_alive client size s stub limited code s1 e small,
        forward_alloc-live real size code s1 o h',
      )

  release_hbm-live :
      (size : ℕ) (s s' : LocalContainerShmem)
      → release_hbm proc_alive size client s ≡ some s'
      → (live s'.procs ≤ live s.procs) × (s'.memory_limit ≡ s.memory_limit)
  unfolding release_hbm
  release_hbm-live size s s' h =
      let ((under, s1), e, h') =
        >>=-eq-some (update_hbm client s (λ used. atomic_saturating_sub used size)) _ h in
      let written = update_hbm-live 0 _ s s1 under (λ used. omega arith) e in
      let healed = heal-live _ _ s' h' in ground (arith, written, healed)

  post_free_hbm-live :
      (handle ret : ℕ) (s s' : LocalContainerShmem) (client' : SchedulerClient)
      → post_free_hbm proc_alive handle ret client s ≡ some (client', s')
      → (live s'.procs ≤ live s.procs) × (s'.memory_limit ≡ s.memory_limit)
  unfolding post_free_hbm
  post_free_hbm-live handle ret s s' client' h = elim (Bool-cases (ret == rt_error_none)) [
    | inr bad ↦ ground arith
    | inl good ↦
        let size : ℕ = unwrap_or_zero (lookup handle client.hbm_handle_map) in
        elim (Bool-cases (ltb 0 size)) [
          | inr untracked ↦ ground arith
          | inl tracked ↦
              let client1 : SchedulerClient = record client {
                hbm_handle_map = remove handle client.hbm_handle_map;
              } in
              let (s1, e, h') =
                >>=-eq-some (release_hbm proc_alive size client1 s) _
                  (rw (good, tracked, post_free_hbm) at h) in
              ground (arith, release_hbm-live size s s1 e)
        ]
  ]

  -- An intercepted free that does not panic returns what the real free returned, never adds to
  -- the live bytes of the device, and leaves the limit alone.
  pub rt_free-live :
      (ptr ret : ℕ) (s : LocalContainerShmem) (o : Outcome)
      → rt_free proc_alive ptr ret client s ≡ some o
      → (o.ret ≡ ret)
        × (live o.shmem.procs ≤ live s.procs)
        × (o.shmem.memory_limit ≡ s.memory_limit)
  unfolding rt_free
  rt_free-live ptr ret s o h = elim (Bool-cases (is_hbm_limited s)) [
    | inr free ↦ ground arith
    | inl on ↦
        let ((client', s'), e, h') =
          >>=-eq-some (post_free_hbm proc_alive ptr ret client s) _ (rw (rt_free, on) at h) in
        ground (arith, post_free_hbm-live ptr ret s s' client' e)
  ]

  -- An intercepted call changes nothing of the client but its handle map.
  abbrev pub SameClient : SchedulerClient → Type 0
  SameClient c =
      (c.my_slot_idx ≡ client.my_slot_idx)
      × (c.my_proc_idx ≡ client.my_proc_idx)
      × (c.device_id ≡ client.device_id)
      × (c.is_stub ≡ client.is_stub)

  post_alloc_hbm-SameClient :
      (p size ret : ℕ) (s s' : LocalContainerShmem) (client' : SchedulerClient)
      → post_alloc_hbm proc_alive p size ret client s ≡ some (client', s')
      → SameClient client'
  post_alloc_hbm-SameClient p size ret s s' client' h =
      ground (arith, post_alloc_hbm-live p size ret s s' client' h)

  forward_alloc-SameClient :
      (real : RealAlloc) (size code : ℕ) (s : LocalContainerShmem) (o : Outcome)
      → forward_alloc proc_alive real size code client s ≡ some o
      → SameClient o.client
  unfolding forward_alloc
  forward_alloc-SameClient real size code s o h = elim (Bool-cases (code == 0)) [
    | inr refused ↦ ground arith
    | inl go ↦ elim (Bool-cases (real.ret == rt_error_none)) [
      | inl good ↦
          let ((client', s'), e, h') =
            >>=-eq-some (post_alloc_hbm proc_alive real.handle size real.ret client s) _
              (rw (go, good, forward_alloc) at h) in
          ground (arith, post_alloc_hbm-SameClient real.handle size real.ret s s' client' e)
      | inr bad ↦
          let ((client', s'), e, h') =
            >>=-eq-some (post_alloc_hbm proc_alive 0 size real.ret client s) _
              (rw (go, bad, forward_alloc) at h) in
          ground (arith, post_alloc_hbm-SameClient 0 size real.ret s s' client' e)
    ]
  ]

  pub rt_malloc-SameClient :
      (real : RealAlloc) (size : ℕ) (others : List ℕ) (s : LocalContainerShmem) (o : Outcome)
      → rt_malloc proc_alive real size others client s ≡ some o
      → SameClient o.client
  unfolding rt_malloc
  rt_malloc-SameClient real size others s o h = elim (Bool-cases (is_hbm_limited s)) [
    | inr free ↦ ground arith
    | inl on ↦
        let ((code, s'), e, h') =
          >>=-eq-some (check_memory_quota proc_alive client size others s) _
            (rw (rt_malloc, on) at h) in
        forward_alloc-SameClient real size code s' o h'
  ]

  post_free_hbm-SameClient :
      (handle ret : ℕ) (s s' : LocalContainerShmem) (client' : SchedulerClient)
      → post_free_hbm proc_alive handle ret client s ≡ some (client', s')
      → SameClient client'
  unfolding post_free_hbm
  post_free_hbm-SameClient handle ret s s' client' h = elim (Bool-cases (ret == rt_error_none)) [
    | inr bad ↦ ground arith
    | inl good ↦
        let size : ℕ = unwrap_or_zero (lookup handle client.hbm_handle_map) in
        elim (Bool-cases (ltb 0 size)) [
          | inr untracked ↦ ground arith
          | inl tracked ↦
              let client1 : SchedulerClient = record client {
                hbm_handle_map = remove handle client.hbm_handle_map;
              } in
              let (s1, e, h') =
                >>=-eq-some (release_hbm proc_alive size client1 s) _
                  (rw (good, tracked, post_free_hbm) at h) in
              ground arith
        ]
  ]

  pub rt_free-SameClient :
      (ptr ret : ℕ) (s : LocalContainerShmem) (o : Outcome)
      → rt_free proc_alive ptr ret client s ≡ some o
      → SameClient o.client
  unfolding rt_free
  rt_free-SameClient ptr ret s o h = elim (Bool-cases (is_hbm_limited s)) [
    | inr free ↦ ground arith
    | inl on ↦
        let ((client', s'), e, h') =
          >>=-eq-some (post_free_hbm proc_alive ptr ret client s) _ (rw (rt_free, on) at h) in
        ground (arith, post_free_hbm-SameClient ptr ret s s' client' e)
  ]
