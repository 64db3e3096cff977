-- ===== src/Manager/Reaper/Sweep.antt =====
-- What the reaper frees, and what it leaves alone.
use hami_vnpu_core_hhy.Common.{
  ℕ, zero, suc, ◌+◌, ◌-◌, ◌≡◌, refl, Bool, some, List, [], ◌∷◌, arith, ◌==◌, ◌||◌, if◌then◌else◌,
  get_elem?, ◌<◌, ◌%◌, ◌^◌, sym, ap, map, length, replicate,
}
use hami_vnpu_core_hhy.Common.Words.{add_u64}
use hami_vnpu_core_hhy.Shmem.{LocalContainerShmem, ProcessSlot}
use hami_vnpu_core_hhy.Worker.Memory.Usage.{live_bytes, NoDead}
use hami_vnpu_core_hhy.Manager.Reaper.{sum_leaked, cleared_slot, reap_slots, reap_dead_slots}

-- The bytes of all devices.
unfoldable pub bytes : List ℕ → ℕ
bytes [] = 0
bytes (used ∷ rest) = used + bytes rest

sum_leaked-bytes :
    (used : List ℕ) (leaked : ℕ)
    → leaked < 2 ^ 64
    → sum_leaked used leaked ≡ (leaked + bytes used) % 2 ^ 64
unfolding sum_leaked bytes
sum_leaked-bytes [] leaked small = omega (arith, small)
sum_leaked-bytes (used ∷ rest) leaked small =
    let ih = sum_leaked-bytes rest (add_u64 leaked used) (omega arith) in omega (arith, ih)

zeros : (xs : List ℕ) → map {B = ℕ} (λ used. 0) xs ≡ replicate (length xs) 0
zeros [] = refl
zeros (x ∷ xs) = ap (λ l. 0 ∷ l) (zeros xs)

module _ (proc_alive : ℕ → Bool) where
  abbrev pub is_kept : ProcessSlot → Bool
  is_kept slot = slot.pid == 0 || proc_alive slot.pid

  -- The bytes of the dead, each slot's sum modulo 2 ^ 64.
  unfoldable pub dead_bytes : List ProcessSlot → ℕ
  dead_bytes [] = 0
  dead_bytes (slot ∷ slots) =
      (if is_kept slot then 0 else bytes slot.hbm_used % 2 ^ 64) + dead_bytes slots

  abbrev swept_slot : ProcessSlot → ProcessSlot
  swept_slot slot = if is_kept slot then slot else cleared_slot slot

  reap_slots_used :
      (slots : List ProcessSlot) (used : ℕ)
      → (reap_slots proc_alive slots used).1 ≡ used - dead_bytes slots
  unfolding reap_slots dead_bytes
  reap_slots_used [] used = omega arith
  reap_slots_used (slot ∷ slots) used = ground (
    arith,
    sum_leaked-bytes slot.hbm_used 0 (omega arith),
    reap_slots_used slots used,
    reap_slots_used slots (used - sum_leaked slot.hbm_used 0),
  )

  reap_slots-NoDead :
      (slots : List ProcessSlot) (used : ℕ) → NoDead proc_alive (reap_slots proc_alive slots used).0
  unfolding reap_slots
  reap_slots-NoDead [] used = tt
  reap_slots-NoDead (slot ∷ slots) used = ground (
    arith,
    reap_slots-NoDead slots used,
    reap_slots-NoDead slots (used - sum_leaked slot.hbm_used 0),
  )

  reap_slots-live :
      (device : ℕ) (slots : List ProcessSlot) (used : ℕ)
      → live_bytes proc_alive device (reap_slots proc_alive slots used).0
        ≡ live_bytes proc_alive device slots
  unfolding reap_slots live_bytes
  reap_slots-live device [] used = refl
  reap_slots-live device (slot ∷ slots) used = ground (
    arith,
    reap_slots-live device slots used,
    reap_slots-live device slots (used - sum_leaked slot.hbm_used 0),
  )

  reap_slots_at :
      (slots : List ProcessSlot) (used i : ℕ) (slot : ProcessSlot)
      → get_elem? slots i ≡ some slot
      → get_elem? (reap_slots proc_alive slots used).0 i ≡ some (swept_slot slot)
  unfolding reap_slots
  reap_slots_at [] used i slot e = absurd (cc)
  reap_slots_at (x ∷ slots) used zero slot e = ground arith
  reap_slots_at (x ∷ slots) used (suc i) slot e = ground (
    arith,
    reap_slots_at slots used i slot e,
    reap_slots_at slots (used - sum_leaked x.hbm_used 0) i slot e,
  )

  -- A sweep clears exactly the slots of dead processes, with their counters for all devices, and
  -- leaves the others as they are; so no slot is left to a dead process, and the bytes of the
  -- live ones are what they were on every device. It takes the bytes of the dead on all devices,
  -- each slot's sum modulo 2 ^ 64, off the pod's counter, down to 0 at most, and changes nothing
  -- else.
  pub reap_dead_slots_lem :
      (s : LocalContainerShmem)
      → ((i : ℕ) (slot : ProcessSlot)
          → get_elem? s.procs i ≡ some slot
          → get_elem? (reap_dead_slots proc_alive s).procs i
            ≡ some (
                if is_kept slot then slot else record {
                  pid = 0;
                  hbm_used = replicate (length slot.hbm_used) 0;
                  is_active = 0;
                }))
        × NoDead proc_alive (reap_dead_slots proc_alive s).procs
        × ((device : ℕ)
            → live_bytes proc_alive device (reap_dead_slots proc_alive s).procs
              ≡ live_bytes proc_alive device s.procs)
        × (reap_dead_slots proc_alive s ≡ record s {
          memory_used = s.memory_used - dead_bytes s.procs;
          procs = (reap_dead_slots proc_alive s).procs;
        })
  unfolding reap_dead_slots
  reap_dead_slots_lem s = (
    λ i slot e. rw (sym (zeros slot.hbm_used)) (reap_slots_at s.procs s.memory_used i slot e),
    reap_slots-NoDead s.procs s.memory_used,
    λ device. reap_slots-live device s.procs s.memory_used,
    rw (reap_slots_used s.procs s.memory_used),
  )
