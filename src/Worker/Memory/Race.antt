-- ===== src/Worker/Memory/Race.antt =====
-- Two processes between the quota check and the booking of the allocation.
use hami_vnpu_core_hhy.Common.{
  [], ℕ, ◌+◌, ◌^◌, ◌≤◌, ◌<◌, ◌≡◌, refl, ap, ◌∙◌, ◌≢◌, Bool, true, false, some, List, arith, length,
  get_elem?, set, get_elem?-set_self, get_elem?-set_ne, get_elem?_of_lt,
}
use hami_vnpu_core_hhy.Common.Words.{add_u64}
use mathlib.Core.Path.{subst}
use mathlib.Core.Option.{some-injective}
use hami_vnpu_core_hhy.Shmem.{LocalContainerShmem, ProcessSlot}
use hami_vnpu_core_hhy.Worker.{SchedulerClient}
use hami_vnpu_core_hhy.Worker.Memory.{check_memory_quota, post_alloc_hbm, rt_error_none}
use hami_vnpu_core_hhy.Worker.Memory.Usage.{live_bytes, live_bytes-set, used_on}
use hami_vnpu_core_hhy.Worker.Memory.Quota.{check_memory_quota_lem}

module _ (proc_alive : ℕ → Bool) where
  -- The client's slot belongs to it, and its process lives.
  pub record Owns (client : SchedulerClient) (room : ℕ) (slots : List ProcessSlot) : Type 0 where
    pub slot : ProcessSlot
    pub stands : get_elem? slots client.my_proc_idx ≡ some slot
    pub taken : slot.pid ≢ 0
    pub lives : proc_alive slot.pid ≡ true
    pub counter : client.device_id < length slot.hbm_used
    pub fits : used_on client.device_id slot + room < 2 ^ 64

  -- A booked allocation adds exactly its size to the live bytes.
  pub post_alloc_hbm_lem :
      (client client' : SchedulerClient) (p size : ℕ) (s s' : LocalContainerShmem)
      → Owns client size s.procs
      → post_alloc_hbm proc_alive p size rt_error_none client s ≡ some (client', s')
      → (live_bytes proc_alive client.device_id s'.procs
          ≡ live_bytes proc_alive client.device_id s.procs + size)
        × (s'.memory_used ≡ s.memory_used)
        × ((i : ℕ) → client.my_proc_idx ≢ i → get_elem? s'.procs i ≡ get_elem? s.procs i)
  unfolding post_alloc_hbm
  post_alloc_hbm_lem client client' p size s s' own h =
      let (used, found) = get_elem?_of_lt own.slot.hbm_used client.device_id own.counter in
      let used' : ℕ = add_u64 used size in
      let slot' : ProcessSlot = record own.slot {
        hbm_used = set own.slot.hbm_used client.device_id used';
      } in
      let booked : record s { procs = set s.procs client.my_proc_idx slot' } ≡ s' =
        ap (λ r. r.1) (some-injective _ _ (rw (post_alloc_hbm, own.stands, found) at h)) in
      subst
        (λ s''.
          (live_bytes proc_alive client.device_id s''.procs
            ≡ live_bytes proc_alive client.device_id s.procs + size)
          × (s''.memory_used ≡ s.memory_used)
          × ((i : ℕ) → client.my_proc_idx ≢ i → get_elem? s''.procs i ≡ get_elem? s.procs i))
        booked
        (
          ground (
            arith,
            own,
            live_bytes-set proc_alive client.device_id s.procs client.my_proc_idx own.slot slot'
                own.stands,
            get_elem?-set_self own.slot.hbm_used client.device_id used',
          ),
          refl,
          λ i ne. get_elem?-set_ne s.procs client.my_proc_idx i slot' ne,
        )

  -- Two clients of one device with their own slots, each of whose requests fits the limit by
  -- itself: if the second checks its quota before the first has booked its allocation, both
  -- checks return 0, and the second check has taken the first one's reservation out of the
  -- counter. After both bookings the live bytes hold both requests, whether or not they fit the
  -- limit together.
  pub quota_race :
      (a b a' b' : SchedulerClient) (x y p q c1 c2 : ℕ) (s s1 s2 s3 s4 : LocalContainerShmem)
      → a.device_id ≡ b.device_id
      → a.is_stub ≡ false
      → b.is_stub ≡ false
      → a.my_proc_idx ≢ b.my_proc_idx
      → s.memory_limit ≢ 0
      → s.memory_limit < 2 ^ 64
      → live_bytes proc_alive a.device_id s.procs + x ≤ s.memory_limit
      → live_bytes proc_alive a.device_id s.procs + y ≤ s.memory_limit
      → check_memory_quota proc_alive a x [] s ≡ some (c1, s1)
      → check_memory_quota proc_alive b y [] s1 ≡ some (c2, s2)
      → post_alloc_hbm proc_alive p x rt_error_none a s2 ≡ some (a', s3)
      → post_alloc_hbm proc_alive q y rt_error_none b s3 ≡ some (b', s4)
      → Owns a x s2.procs
      → Owns b y s2.procs
      → (c1 ≡ rt_error_none)
        × (c2 ≡ rt_error_none)
        × (s4.memory_used ≡ live_bytes proc_alive a.device_id s.procs + y)
        × (live_bytes proc_alive a.device_id s4.procs
            ≡ live_bytes proc_alive a.device_id s.procs + x + y)
  quota_race a b a' b' x y p q c1 c2 s s1 s2 s3 s4 dev stub_a stub_b apart on word fit_x fit_y
        check_a check_b post_a post_b own_a own_b =
      let first = check_memory_quota_lem proc_alive a x s stub_a on c1 s1 check_a (omega arith) in
      let still : s1.memory_limit ≢ 0 = rw first.2 on in
      let same : live_bytes proc_alive b.device_id s1.procs
          ≡ live_bytes proc_alive a.device_id s.procs =
        rw (← dev) first.1 in
      let second =
        check_memory_quota_lem proc_alive b y s1 stub_b still c2 s2 check_b (omega arith) in
      let booked_a = post_alloc_hbm_lem a a' p x s2 s3 own_a post_a in
      let own_b' : Owns b y s3.procs = record {
        slot = own_b.slot;
        stands = booked_a.2 b.my_proc_idx apart ∙ own_b.stands;
        taken = own_b.taken;
        lives = own_b.lives;
        counter = own_b.counter;
        fits = own_b.fits;
      } in
      let booked_b = post_alloc_hbm_lem b b' q y s3 s4 own_b' post_b in
      ground (arith, first, second, booked_a.0, booked_a.1, booked_b.0, booked_b.1)
