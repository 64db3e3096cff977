-- ===== src/Worker/Registration/Ownership.antt =====
-- Whose slot a registration takes.
use hami_vnpu_core_hhy.Common.{
  [], ℕ, zero, suc, ◌≡◌, refl, sym, ap, ◌∙◌, ◌≢◌, ◌⊎◌, inl, inr, Bool, true, false, Option, none,
  some, List, ◌∷◌, arith, Option-cases, >>=-eq-some, get_elem?, set, replicate,
}
use mathlib.Core.Path.{subst}
use mathlib.Core.Option.{some-injective}
use hami_vnpu_core_hhy.Shmem.{LocalContainerShmem, LocalWorkerReport, ProcessSlot, npu_device_max}
use hami_vnpu_core_hhy.Worker.Registration.{
  update_first, reuse_report, claim_report, register_worker_slot, reuse_proc, claim_proc,
  register_proc_slot,
}

module _ {ℓ} {A : Type ℓ} (f : A → Option A) where
  -- The element that such a loop returns at.
  pub record Found (xs : List A) (i : ℕ) (ys : List A) : Type ℓ where
    pub before : A
    pub after : A
    pub stands : get_elem? xs i ≡ some before
    pub accepted : f before ≡ some after
    pub result : ys ≡ set xs i after

  pub update_first-Found :
      (xs ys : List A) (i : ℕ) → update_first f xs ≡ some (i, ys) → Found xs i ys
  unfolding update_first
  update_first-Found [] ys i h = absurd (cc)
  update_first-Found (x ∷ xs) ys i h = elim (Option-cases (f x)) [
    | inr (y, e) ↦
        let r : ◌≡◌ {A = ℕ × List A} (0, y ∷ xs) (i, ys) =
          some-injective _ _ (rw (update_first, e) at h) in
        subst (λ (q : ℕ × List A). Found (x ∷ xs) q.0 q.1) r
          (record { before = x; after = y; stands = refl; accepted = e; result = refl })
    | inl skip ↦
        let ((k, zs), e, h') = >>=-eq-some (update_first f xs) _ (rw (update_first, skip) at h) in
        let g = update_first-Found xs zs k e in
        let r : ◌≡◌ {A = ℕ × List A} (suc k, x ∷ zs) (i, ys) = some-injective _ _ h' in
        subst (λ (q : ℕ × List A). Found (x ∷ xs) q.0 q.1) r
          (record {
            before = g.before;
            after = g.after;
            stands = g.stands;
            accepted = g.accepted;
            result = ap (λ l. x ∷ l) g.result;
          })
  ]

  none_at :
      (xs : List A) (y : A) (i : ℕ) (x : A)
      → f y ≡ none
      → ((k : ℕ) (z : A) → get_elem? xs k ≡ some z → f z ≡ none)
      → get_elem? (y ∷ xs) i ≡ some x
      → f x ≡ none
  none_at xs y zero x first later e = ap f (sym (some-injective _ _ e)) ∙ first
  none_at xs y (suc i) x first later e = later i x e

  pub update_first-none :
      (xs : List A) (i : ℕ) (x : A)
      → update_first f xs ≡ none
      → get_elem? xs i ≡ some x
      → f x ≡ none
  unfolding update_first
  update_first-none [] i x h e = absurd (cc)
  update_first-none (y ∷ xs) i x h e = elim (Option-cases (f y)) [
    | inr (z, found) ↦ let bad = rw (update_first, found) at h in absurd (cc bad)
    | inl skip ↦ elim (Option-cases (update_first f xs)) [
      | inr (r, found) ↦ let bad = rw (update_first, skip, found) at h in absurd (cc bad)
      | inl later ↦ none_at xs y i x skip (λ k z. update_first-none xs k z later) e
    ]
  ]

module _ (proc_alive : ℕ → Bool) (pid : ℕ) where
  -- A slot that a process may take: its own, one that is not active, or that of a dead process.
  abbrev pub MayTake : ProcessSlot → Type 0
  MayTake slot =
      (slot.pid ≡ pid) ⊎ ((slot.is_active ≡ 0) ⊎ ((slot.pid ≢ 0) × (proc_alive slot.pid ≡ false)))

  -- What a registration says and leaves.
  abbrev pub IsRegistered : LocalContainerShmem → Option (ℕ × LocalContainerShmem) → Type 0
  IsRegistered s none =
      (i : ℕ) (slot : ProcessSlot)
      → get_elem? s.procs i ≡ some slot
      → (slot.is_active ≢ 0) × ((slot.pid ≡ 0) ⊎ (proc_alive slot.pid ≡ true))
  IsRegistered s (some (i, s')) =
      (old : ProcessSlot) × (new : ProcessSlot) × (get_elem? s.procs i ≡ some old)
      × MayTake old
      × (s' ≡ record s { procs = set s.procs i new })
      × (new.pid ≡ pid)
      × (new.hbm_used ≡ replicate npu_device_max 0)
      × ((new.is_active ≡ 1) ⊎ (new.is_active ≡ old.is_active))

  -- A process registers in its own slot, in one that is not active or in that of a dead process,
  -- never in that of another live one; the slot is then its own with all counters 0, and nothing
  -- else has changed. The registration panics only if every slot is active and is being claimed
  -- or belongs to a live process.
  pub register_proc_slot-IsRegistered :
      (s : LocalContainerShmem) → IsRegistered s (register_proc_slot proc_alive pid s)
  unfolding register_proc_slot
  register_proc_slot-IsRegistered s =
      elim (Option-cases (update_first (reuse_proc proc_alive pid) s.procs)) [
        | inr ((i, procs), e) ↦
            let g = update_first-Found (reuse_proc proc_alive pid) s.procs procs i e in
            rw (register_proc_slot, e)
              (
                g.before,
                g.after,
                g.stands,
                ground (arith, g.accepted),
                ap (λ l. record s { procs = l }) g.result,
                ground (arith, g.accepted),
                ground (arith, g.accepted),
                ground (arith, g.accepted),
              )
        | inl fresh ↦ elim (Option-cases (update_first (claim_proc proc_alive pid) s.procs)) [
          | inr ((i, procs), e) ↦
              let g = update_first-Found (claim_proc proc_alive pid) s.procs procs i e in
              rw (register_proc_slot, fresh, e)
                (
                  g.before,
                  g.after,
                  g.stands,
                  ground (arith, g.accepted),
                  ap (λ l. record s { procs = l }) g.result,
                  ground (arith, g.accepted),
                  ground (arith, g.accepted),
                  ground (arith, g.accepted),
                )
          | inl full ↦
              rw (register_proc_slot, fresh, full)
                (λ i slot e.
                  ground
                    (arith, update_first-none (claim_proc proc_alive pid) s.procs i slot full e))
        ]
      ]

  -- A report slot that a process may take: its own, a free one, or that of a dead process.
  abbrev pub MayReport : LocalWorkerReport → Type 0
  MayReport r =
      (r.pid ≡ pid)
      ⊎ (((r.pid ≡ 0) × (r.occupied ≡ 0)) ⊎ ((r.pid ≢ 0) × (proc_alive r.pid ≡ false)))

  abbrev pub IsReporter : LocalContainerShmem → Option (ℕ × LocalContainerShmem) → Type 0
  IsReporter s none =
      (i : ℕ) (r : LocalWorkerReport)
      → get_elem? s.reports i ≡ some r
      → (r.pid ≢ pid)
        × (((r.pid ≡ 0) × (r.occupied ≢ 0)) ⊎ ((r.pid ≢ 0) × (proc_alive r.pid ≡ true)))
  IsReporter s (some (i, s')) =
      (old : LocalWorkerReport) × (new : LocalWorkerReport) × (get_elem? s.reports i ≡ some old)
      × MayReport old
      × (s' ≡ record s { reports = set s.reports i new })
      × (new.pid ≡ pid)
      × (((old.pid ≡ 0) × (new ≡ record old { occupied = 1; pid = pid }))
          ⊎ ((new.batch_id ≡ 0) × (new.cpu_start_us ≡ 0) × (new.duration_us ≡ 0)))

  -- A client takes its process's report slot, a free one or that of a dead process, and changes
  -- nothing else. A slot that had an owner is reset. The registration panics only if every slot
  -- is another live process's or is being claimed.
  pub register_worker_slot-IsReporter :
      (s : LocalContainerShmem) → IsReporter s (register_worker_slot proc_alive pid s)
  unfolding register_worker_slot
  register_worker_slot-IsReporter s =
      elim (Option-cases (update_first (reuse_report proc_alive pid) s.reports)) [
        | inr ((i, reports), e) ↦
            let g = update_first-Found (reuse_report proc_alive pid) s.reports reports i e in
            rw (register_worker_slot, e)
              (
                g.before,
                g.after,
                g.stands,
                ground (arith, g.accepted),
                ap (λ l. record s { reports = l }) g.result,
                ground (arith, g.accepted),
                ground (arith, g.accepted),
              )
        | inl fresh ↦ elim (Option-cases (update_first (claim_report proc_alive pid) s.reports)) [
          | inr ((i, reports), e) ↦
              let g = update_first-Found (claim_report proc_alive pid) s.reports reports i e in
              rw (register_worker_slot, fresh, e)
                (
                  g.before,
                  g.after,
                  g.stands,
                  ground (arith, g.accepted),
                  ap (λ l. record s { reports = l }) g.result,
                  ground (arith, g.accepted),
                  ground (arith, g.accepted),
                )
          | inl full ↦
              rw (register_worker_slot, fresh, full)
                (λ i r e. ground (
                  arith,
                  update_first-none (reuse_report proc_alive pid) s.reports i r fresh e,
                  update_first-none (claim_report proc_alive pid) s.reports i r full e,
                ))
        ]
      ]
