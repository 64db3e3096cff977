-- ===== src/Worker/Memory/RoundTrip.antt =====
-- An allocation and its free cancel out in the books.
use hami_vnpu_core_hhy.Common.{
  ℕ, zero, suc, ◌+◌, ◌-◌, ◌≤◌, ◌<◌, ◌≡◌, refl, ap, ◌∙◌, ◌≢◌, Bool, true, false, some, List, [], ◌∷◌,
  arith, ltb, ◌>>=◌, get_elem?, set, get_elem?-set_self, get_elem?_of_lt, lt_of_get_elem?,
}
use hami_vnpu_core_hhy.Common.Words.{add_u64}
use hami_vnpu_core_hhy.Shmem.{LocalContainerShmem, ProcessSlot}
use hami_vnpu_core_hhy.Worker.{SchedulerClient}
use hami_vnpu_core_hhy.Worker.Memory.{
  post_alloc_hbm, post_free_hbm, release_hbm, update_hbm, atomic_saturating_sub, insert, lookup,
  remove, rt_error_none,
}
use hami_vnpu_core_hhy.Worker.Memory.Race.{Owns}

lookup-insert : (p size : ℕ) (m : List (ℕ × ℕ)) → lookup p (insert p size m) ≡ some size
unfolding lookup insert
lookup-insert p size [] = ground arith
lookup-insert p size ((j, v) ∷ m) = ground (arith, lookup-insert p size m)

lookup-remove-insert :
    (p q size : ℕ) (m : List (ℕ × ℕ)) → p ≢ q → lookup q (remove p (insert p size m)) ≡ lookup q m
unfolding lookup insert remove
lookup-remove-insert p q size [] ne = ground arith
lookup-remove-insert p q size ((j, v) ∷ m) ne = ground (arith, lookup-remove-insert p q size m ne)

module _ {ℓ} {A : Type ℓ} where
  set-set : (xs : List A) (i : ℕ) (a b : A) → set (set xs i a) i b ≡ set xs i b
  set-set [] i a b = refl
  set-set (x ∷ xs) zero a b = refl
  set-set (x ∷ xs) (suc i) a b = ap (λ l. x ∷ l) (set-set xs i a b)

  set_same : (xs : List A) (i : ℕ) (a : A) → get_elem? xs i ≡ some a → set xs i a ≡ xs
  set_same [] i a h = refl
  set_same (x ∷ xs) zero a h = ground arith
  set_same (x ∷ xs) (suc i) a h = ap (λ l. x ∷ l) (set_same xs i a h)

module _ (client : SchedulerClient) (s : LocalContainerShmem) where
  -- A write to the client's counter, where it stands.
  update_hbm_at :
      (slot : ProcessSlot) (used : ℕ) (f : ℕ → ℕ × Bool)
      → get_elem? s.procs client.my_proc_idx ≡ some slot
      → get_elem? slot.hbm_used client.device_id ≡ some used
      → update_hbm client s f
        ≡ some (
          (f used).1,
          record s {
            procs =
                set s.procs client.my_proc_idx
                  (record slot { hbm_used = set slot.hbm_used client.device_id (f used).0 });
          },
        )
  unfolding update_hbm
  update_hbm_at slot used f e e' = rw (update_hbm, e, e')

abbrev with_map : SchedulerClient → List (ℕ × ℕ) → SchedulerClient
with_map client m = record client { hbm_handle_map = m }

module _ (proc_alive : ℕ → Bool) where
  release_at :
      (client : SchedulerClient) (size : ℕ) (s : LocalContainerShmem) (slot : ProcessSlot)
      (used : ℕ)
      → get_elem? s.procs client.my_proc_idx ≡ some slot
      → get_elem? slot.hbm_used client.device_id ≡ some (used + size)
      → size ≤ s.memory_used
      → release_hbm proc_alive size client s
        ≡ some (record s {
          procs =
              set s.procs client.my_proc_idx
                (record slot { hbm_used = set slot.hbm_used client.device_id used });
          memory_used = s.memory_used - size;
        })
  unfolding release_hbm atomic_saturating_sub
  release_at client size s slot used e e' le =
      let no_slot : ltb (used + size) size ≡ false = ground arith in
      let no_global : ltb s.memory_used size ≡ false = ground arith in
      let back : used + size - size ≡ used = omega arith in
      rw (
        release_hbm,
        update_hbm_at client s slot (used + size) (λ u. atomic_saturating_sub u size) e e',
        no_slot,
        no_global,
        back,
      )

  -- A client that owns its slot books an allocation that the counter holds the reservation of,
  -- and then frees it: neither step panics, all slots are again what they were, the counter has
  -- lost the reservation and nothing else has changed; the sizes of all other handles are still
  -- known.
  pub post_free_hbm-post_alloc_hbm :
      (client : SchedulerClient) (p size : ℕ) (s : LocalContainerShmem)
      → Owns proc_alive client size s.procs
      → 0 < size
      → size ≤ s.memory_used
      → (client' : SchedulerClient) × ((post_alloc_hbm proc_alive p size rt_error_none client s
            >>= λ (client1, s1). post_free_hbm proc_alive p rt_error_none client1 s1)
          ≡ some (client', record s { memory_used = s.memory_used - size }))
        × ((q : ℕ) → p ≢ q → lookup q client'.hbm_handle_map ≡ lookup q client.hbm_handle_map)
  unfolding post_alloc_hbm post_free_hbm
  post_free_hbm-post_alloc_hbm client p size s own size_some le =
      let (used, found) = get_elem?_of_lt own.slot.hbm_used client.device_id own.counter in
      let m : List (ℕ × ℕ) = insert p size client.hbm_handle_map in
      let whole : add_u64 used size ≡ used + size = ground (arith, own) in
      let slot1 : ProcessSlot = record own.slot {
        hbm_used = set own.slot.hbm_used client.device_id (used + size);
      } in
      let s1 : LocalContainerShmem = record s { procs = set s.procs client.my_proc_idx slot1 } in
      let booked : post_alloc_hbm proc_alive p size rt_error_none client s
          ≡ some (with_map client m, s1) =
        rw (
          post_alloc_hbm,
          update_hbm_at client s own.slot used (λ u. (add_u64 u size, false)) own.stands found,
          whole,
        ) in
      let same_counter : set slot1.hbm_used client.device_id used ≡ own.slot.hbm_used =
        set-set own.slot.hbm_used client.device_id (used + size) used
        ∙ set_same own.slot.hbm_used client.device_id used found in
      let same_procs : set s1.procs client.my_proc_idx
            (record slot1 { hbm_used = set slot1.hbm_used client.device_id used })
          ≡ s.procs =
        set-set s.procs client.my_proc_idx slot1 _
        ∙ ap (λ c. set s.procs client.my_proc_idx (record own.slot { hbm_used = c })) same_counter
        ∙ set_same s.procs client.my_proc_idx own.slot own.stands in
      let released : release_hbm proc_alive size (with_map client (remove p m)) s1
          ≡ some (record s { memory_used = s.memory_used - size }) =
        release_at (with_map client (remove p m)) size s1 slot1 used
          (get_elem?-set_self s.procs client.my_proc_idx slot1
            (lt_of_get_elem? s.procs client.my_proc_idx own.stands))
          (get_elem?-set_self own.slot.hbm_used client.device_id (used + size) own.counter) le
        ∙ ap (λ l. some (record s { procs = l; memory_used = s.memory_used - size })) same_procs in
      let positive : ltb 0 size ≡ true = ground arith in
      (
        with_map client (remove p m),
        rw booked
            (rw (post_free_hbm, lookup-insert p size client.hbm_handle_map, positive, released)),
        λ q ne. lookup-remove-insert p q size client.hbm_handle_map ne,
      )
