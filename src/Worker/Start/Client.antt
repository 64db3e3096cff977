-- ===== src/Worker/Start/Client.antt =====
-- What holds of a new client.
use hami_vnpu_core_hhy.Common.{
  ℕ, ◌+◌, ◌*◌, ◌<◌, ◌≡◌, refl, sym, ap, ◌∙◌, ◌≢◌, Bool, false, some, List, arith, length, get_elem?,
  set, length-set, replicate, get_elem?-set_self, get_elem?-set_ne, lt_of_get_elem?,
}
use mathlib.Core.Path.{subst}
use hami_vnpu_core_hhy.Shmem.{LocalContainerShmem, LocalWorkerReport, ProcessSlot, npu_device_max}
use hami_vnpu_core_hhy.Worker.{SchedulerClient}
use hami_vnpu_core_hhy.Worker.Registration.{register_worker_slot, register_proc_slot}
use hami_vnpu_core_hhy.Worker.Registration.Ownership.{
  MayTake, IsRegistered, register_proc_slot-IsRegistered, IsReporter,
  register_worker_slot-IsReporter,
}
use hami_vnpu_core_hhy.Worker.Memory.Shape.{IsShaped, IsLaidOut-set}
use hami_vnpu_core_hhy.Worker.Start.{
  shmem_wait_timeout_secs, Look, wait_for_shmem, device_of, RtAnswers, or_panics, register, new,
}
use hami_vnpu_core_hhy.Worker.Start.Looks.{
  SomeLate, SomeFound, Ends, Ends-map, >>=-Ends, or_panics-Ends, wait_for_shmem-Ends, FoundInTime,
  wait_for_shmem-ready, Joins, >>=-Joins, or_panics-Joins, Ends-Joins,
}

module _ (proc_alive : ℕ → Bool) (pid : ℕ) (rt : RtAnswers) where
  -- A client that stands in its process's own slot of a memory with `n` process slots, all bytes
  -- of it 0.
  pub record IsNew (n : ℕ) (s : LocalContainerShmem) (r : SchedulerClient × LocalContainerShmem)
      : Type 0 where
    pub shaped : IsShaped n r.1.procs
    pub device : r.0.device_id ≡ device_of rt.device
    pub in_range : r.0.my_proc_idx < n
    pub slot : ProcessSlot
    pub stands : get_elem? r.1.procs r.0.my_proc_idx ≡ some slot
    pub own : slot.pid ≡ pid
    pub zeroed : slot.hbm_used ≡ replicate npu_device_max 0
    pub others : (i : ℕ) → r.0.my_proc_idx ≢ i → get_elem? r.1.procs i ≡ get_elem? s.procs i
    pub limit : r.1.memory_limit ≡ s.memory_limit
    pub used : r.1.memory_used ≡ s.memory_used
    pub limited : r.0.is_stub ≡ false

  -- What a registration does: it puts its process, with all bytes 0, in the place of a slot that
  -- it may take.
  pub record IsTaken (s : LocalContainerShmem) (r : SchedulerClient × LocalContainerShmem)
      : Type 0 where
    pub device : r.0.device_id ≡ device_of rt.device
    pub old : ProcessSlot
    pub slot : ProcessSlot
    pub stood : get_elem? s.procs r.0.my_proc_idx ≡ some old
    pub free : MayTake proc_alive pid old
    pub procs : r.1.procs ≡ set s.procs r.0.my_proc_idx slot
    pub own : slot.pid ≡ pid
    pub zeroed : slot.hbm_used ≡ replicate npu_device_max 0
    pub limit : r.1.memory_limit ≡ s.memory_limit
    pub used : r.1.memory_used ≡ s.memory_used
    pub limited : r.0.is_stub ≡ false

  pub register-IsTaken : (s : LocalContainerShmem) → Ends (IsTaken s) (register proc_alive pid rt s)
  unfolding register
  register-IsTaken s =
      >>=-Ends (λ w. IsReporter proc_alive pid s (some w)) (IsTaken s)
        (or_panics (register_worker_slot proc_alive pid s)) _
        (or_panics-Ends (IsReporter proc_alive pid s) (register_worker_slot proc_alive pid s)
          (register_worker_slot-IsReporter proc_alive pid s))
        (λ w (old_report, new_report, at, may, same, mine, report).
          >>=-Ends (λ p. IsRegistered proc_alive pid w.1 (some p)) (IsTaken s)
            (or_panics (register_proc_slot proc_alive pid w.1)) _
            (or_panics-Ends (IsRegistered proc_alive pid w.1)
              (register_proc_slot proc_alive pid w.1)
              (register_proc_slot-IsRegistered proc_alive pid w.1))
            (λ p (old, slot, stands, free, changed, own, zeroed, active).
              let same_procs : w.1.procs ≡ s.procs = ap (λ q. q.procs) same in
              record {
                device = refl;
                old = old;
                slot = slot;
                stood = subst (λ l. get_elem? l p.0 ≡ some old) same_procs stands;
                free = free;
                procs = ap (λ q. q.procs) changed ∙ ap (λ l. set l p.0 slot) same_procs;
                own = own;
                zeroed = zeroed;
                limit = ap (λ q. q.memory_limit) changed ∙ ap (λ q. q.memory_limit) same;
                used = ap (λ q. q.memory_used) changed ∙ ap (λ q. q.memory_used) same;
                limited = refl;
              }))

  IsTaken-IsNew :
      (n : ℕ) (s : LocalContainerShmem) (r : SchedulerClient × LocalContainerShmem)
      → IsShaped n s.procs
      → IsTaken s r
      → IsNew n s r
  IsTaken-IsNew n s r shaped h =
      let i = r.0.my_proc_idx in
      let lt = lt_of_get_elem? s.procs i h.stood in
      record {
        shaped = subst (IsShaped n) (sym h.procs) (
          IsLaidOut-set s.procs i h.slot shaped.0 (ap length h.zeroed),
          length-set s.procs i h.slot ∙ shaped.1,
        );
        device = h.device;
        in_range = omega (arith, lt, shaped.1);
        slot = h.slot;
        stands = ap (λ l. get_elem? l i) h.procs ∙ get_elem?-set_self s.procs i h.slot lt;
        own = h.own;
        zeroed = h.zeroed;
        others =
            λ j other. ap (λ l. get_elem? l j) h.procs ∙ get_elem?-set_ne s.procs i j h.slot other;
        limit = h.limit;
        used = h.used;
        limited = h.limited;
      }

  register-IsNew :
      (n : ℕ) (s : LocalContainerShmem)
      → IsShaped n s.procs
      → Ends (IsNew n s) (register proc_alive pid rt s)
  register-IsNew n s shaped =
      Ends-map (IsTaken s) (IsNew n s) (register proc_alive pid rt s)
        (λ r h. IsTaken-IsNew n s r shaped h) (register-IsTaken s)

  -- When some look is made at the deadline or later, and every initialised memory that a look
  -- finds has `n` process slots with their counters: `new` does not wait for ever; it ends with a
  -- panic, or with a client whose process slot is its own process's, with all counters 0, in a
  -- memory that a look has found, whose other slots, limit and total are as they were.
  pub new-Ends :
      (size start_us n : ℕ) (views : List Look)
      → SomeLate (start_us + shmem_wait_timeout_secs * 1_000_000) views
      → ((s : LocalContainerShmem) → SomeFound size s views → IsShaped n s.procs)
      → Ends
          (λ r. (s : LocalContainerShmem) × SomeFound size s views × IsNew n s r)
          (new proc_alive pid rt size start_us views)
  unfolding new
  new-Ends size start_us n views late shaped =
      let deadline = start_us + shmem_wait_timeout_secs * 1_000_000 in
      >>=-Ends (λ s. SomeFound size s views)
        (λ r. (s : LocalContainerShmem) × SomeFound size s views × IsNew n s r)
        (wait_for_shmem size deadline views) _ (wait_for_shmem-Ends size deadline views late)
        (λ s found.
          Ends-map (IsNew n s)
            (λ r. (s : LocalContainerShmem) × SomeFound size s views × IsNew n s r)
            (register proc_alive pid rt s) (λ r h. (s, found, h))
            (register-IsNew n s (shaped s found)))

-- A free report slot and a free process slot.
pub record HasRoom (s : LocalContainerShmem) : Type 0 where
  pub report_at : ℕ
  pub report : LocalWorkerReport
  pub report_stands : get_elem? s.reports report_at ≡ some report
  pub report_free : (report.pid ≡ 0) × (report.occupied ≡ 0)
  pub proc_at : ℕ
  pub proc : ProcessSlot
  pub proc_stands : get_elem? s.procs proc_at ≡ some proc
  pub proc_free : proc.is_active ≡ 0

module _ (proc_alive : ℕ → Bool) (pid : ℕ) (rt : RtAnswers) where
  register-Joins :
      (s : LocalContainerShmem) → HasRoom s → Joins (λ r. Unit {0}) (register proc_alive pid rt s)
  unfolding register
  register-Joins s room =
      >>=-Joins (λ w. IsReporter proc_alive pid s (some w)) (λ r. Unit {0})
        (or_panics (register_worker_slot proc_alive pid s)) _
        (or_panics-Joins (IsReporter proc_alive pid s) (register_worker_slot proc_alive pid s)
          (register_worker_slot-IsReporter proc_alive pid s)
          (λ full.
            ground (arith, full room.report_at room.report room.report_stands, room.report_free)))
        (λ w (old_report, new_report, at, may, same, mine, rest).
          >>=-Joins (λ p. IsRegistered proc_alive pid w.1 (some p)) (λ r. Unit {0})
            (or_panics (register_proc_slot proc_alive pid w.1)) _
            (or_panics-Joins (IsRegistered proc_alive pid w.1)
              (register_proc_slot proc_alive pid w.1)
              (register_proc_slot-IsRegistered proc_alive pid w.1)
              (λ full. ground (
                arith,
                full room.proc_at room.proc
                    (ap (λ q. get_elem? q.procs room.proc_at) same ∙ room.proc_stands),
                room.proc_free,
              )))
            (λ p registered. tt))

  -- When a look finds the initialised memory, those before it were made before the deadline and
  -- found nothing, and the memory has a free report slot and a free process slot: `new` returns a
  -- client whose process slot is its own process's, with all counters 0, and leaves the other
  -- slots, the limit and the total as they were.
  pub new-Joins :
      (size start_us n : ℕ) (s : LocalContainerShmem) (views : List Look)
      → FoundInTime size (start_us + shmem_wait_timeout_secs * 1_000_000) s views
      → IsShaped n s.procs
      → HasRoom s
      → Joins (IsNew proc_alive pid rt n s) (new proc_alive pid rt size start_us views)
  unfolding new
  new-Joins size start_us n s views found shaped room =
      rw
        (
          new,
          wait_for_shmem-ready size (start_us + shmem_wait_timeout_secs * 1_000_000) s views found,
        )
        (Ends-Joins (IsNew proc_alive pid rt n s) (register proc_alive pid rt s)
          (register-IsNew proc_alive pid rt n s shaped) (register-Joins s room))
