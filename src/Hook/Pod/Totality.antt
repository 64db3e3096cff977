-- ===== src/Hook/Pod/Totality.antt =====
-- No sequence of whole calls panics.
use hami_vnpu_core_hhy.Common.{
  [], ℕ, zero, suc, ◌<◌, ◌≡◌, refl, ◌∙◌, Bool, false, List, ◌∷◌, arith, ◌==◌, if◌then◌else◌, Yields,
  >>=-Yields, if-Yields, length, get_elem?, set, length-set,
}
use hami_vnpu_core_hhy.Shmem.{LocalContainerShmem}
use hami_vnpu_core_hhy.Worker.{SchedulerClient}
use hami_vnpu_core_hhy.Worker.Memory.{is_hbm_limited}
use hami_vnpu_core_hhy.Worker.Memory.Shape.{
  IsShaped, IsPlaced, check_memory_quota-Yields, post_alloc_hbm-Yields, post_free_hbm-Yields,
  get_hbm_info-Yields,
}
use hami_vnpu_core_hhy.Hook.{RealAlloc, Outcome, rt_malloc, rt_free, rt_mem_get_info_ex}
use hami_vnpu_core_hhy.Hook.Alloc.{rt_malloc-SameClient, rt_free-SameClient}
use hami_vnpu_core_hhy.Hook.Pod.{Pod, Call, mallocs, frees, asks, dies, after, step, run}

module _ (proc_alive : ℕ → Bool) (n : ℕ) (client : SchedulerClient)
    (placed : IsPlaced n client) where
  rt_malloc-Yields :
      (real : RealAlloc) (size : ℕ) (others : List ℕ) (s : LocalContainerShmem)
      → IsShaped n s.procs
      → Yields (rt_malloc proc_alive real size others client s) (λ o. IsShaped n o.shmem.procs)
  unfolding rt_malloc
  rt_malloc-Yields real size others s good =
      if-Yields _ (is_hbm_limited s) _ _
        (>>=-Yields _ _ _ _
          (check_memory_quota-Yields proc_alive n client placed size others s good)
          (λ r g.
            if-Yields _ (r.0 == 0) _ _
              (if-Yields _ (real.ret == 0) _ _
                (>>=-Yields _ _ _ _
                  (post_alloc_hbm-Yields proc_alive n client placed real.handle size real.ret r.1 g)
                  (λ q g'. (_, refl, g')))
                (>>=-Yields _ _ _ _
                  (post_alloc_hbm-Yields proc_alive n client placed 0 size real.ret r.1 g)
                  (λ q g'. (_, refl, g'))))
              (_, refl, g)))
        (_, refl, good)

  rt_free-Yields :
      (ptr ret : ℕ) (s : LocalContainerShmem)
      → IsShaped n s.procs
      → Yields (rt_free proc_alive ptr ret client s) (λ o. IsShaped n o.shmem.procs)
  unfolding rt_free
  rt_free-Yields ptr ret s good =
      if-Yields _ (is_hbm_limited s) _ _
        (>>=-Yields _ _ _ _ (post_free_hbm-Yields proc_alive n client placed ptr ret s good)
          (λ r g. (_, refl, g)))
        (_, refl, good)

  rt_mem_get_info_ex-Yields :
      (real : ℕ × ℕ × ℕ) (s : LocalContainerShmem)
      → IsShaped n s.procs
      → Yields (rt_mem_get_info_ex proc_alive real client s) (λ r. IsShaped n r.1.procs)
  unfolding rt_mem_get_info_ex
  rt_mem_get_info_ex-Yields real s good =
      if-Yields _ (is_hbm_limited s) _ _
        (>>=-Yields _ _ _ _ (get_hbm_info-Yields proc_alive n client placed s good)
          (λ r g. (_, refl, g)))
        (_, refl, good)

abbrev pub AllPlaced : ℕ → List SchedulerClient → Type 0
AllPlaced n [] = Unit {0}
AllPlaced n (c ∷ cs) = IsPlaced n c × AllPlaced n cs

AllPlaced-get_elem? :
    (n : ℕ) (cs : List SchedulerClient) (i : ℕ)
    → AllPlaced n cs
    → i < length cs
    → Yields (get_elem? cs i) (IsPlaced n)
AllPlaced-get_elem? n [] i h lt = elim lt [ ]
AllPlaced-get_elem? n (c ∷ cs) zero h lt = (c, refl, h.0)
AllPlaced-get_elem? n (c ∷ cs) (suc i) h lt = AllPlaced-get_elem? n cs i h.1 (omega arith)

AllPlaced-set :
    (n : ℕ) (cs : List SchedulerClient) (i : ℕ) (c : SchedulerClient)
    → AllPlaced n cs
    → IsPlaced n c
    → AllPlaced n (set cs i c)
AllPlaced-set n [] i c h p = tt
AllPlaced-set n (x ∷ cs) zero c h p = (p, h.1)
AllPlaced-set n (x ∷ cs) (suc i) c h p = (h.0, AllPlaced-set n cs i c h.1 p)

-- The pod's memory is laid out, its clients have their slots and devices, and there are `k` of
-- them.
pub record IsSetUp (n k : ℕ) (p : Pod) : Type 0 where
  pub shaped : IsShaped n p.shmem.procs
  pub placed : AllPlaced n p.clients
  pub clients : length p.clients ≡ k

-- Every call is made by one of `k` clients.
abbrev pub AllMade : ℕ → List Call → Type 0
AllMade k [] = Unit {0}
AllMade k (mallocs i size real ∷ cs) = (i < k) × AllMade k cs
AllMade k (frees i ptr ret ∷ cs) = (i < k) × AllMade k cs
AllMade k (asks i real ∷ cs) = (i < k) × AllMade k cs
AllMade k (dies pid ∷ cs) = AllMade k cs

module _ (n k : ℕ) where
  after-IsSetUp :
      (p : Pod) (i : ℕ) (client : SchedulerClient) (o : Outcome)
      → IsSetUp n k p
      → IsPlaced n client
      → o.client.device_id ≡ client.device_id
      → o.client.my_proc_idx ≡ client.my_proc_idx
      → IsShaped n o.shmem.procs
      → IsSetUp n k (after p i o)
  after-IsSetUp p i client o up placed dev slot shaped = record {
    shaped = shaped;
    placed =
        AllPlaced-set n p.clients i o.client up.placed
          (record { device = rw dev placed.device; slot = rw slot placed.slot });
    clients = length-set p.clients i o.client ∙ up.clients;
  }

  mallocs-Yields :
      (p : Pod) (i size : ℕ) (real : RealAlloc)
      → IsSetUp n k p
      → i < k
      → Yields (step p (mallocs i size real)) (IsSetUp n k)
  unfolding step
  mallocs-Yields p i size real up lt =
      >>=-Yields _ _ _ _ (AllPlaced-get_elem? n p.clients i up.placed (rw up.clients lt))
        (λ client placed.
          let (o, e, shaped) =
            rt_malloc-Yields p.alive n client placed real size [] p.shmem up.shaped in
          let same = rt_malloc-SameClient p.alive client real size [] p.shmem o e in
          (after p i o, rw e, after-IsSetUp p i client o up placed same.2 same.1 shaped))

  frees-Yields :
      (p : Pod) (i ptr ret : ℕ)
      → IsSetUp n k p
      → i < k
      → Yields (step p (frees i ptr ret)) (IsSetUp n k)
  unfolding step
  frees-Yields p i ptr ret up lt =
      >>=-Yields _ _ _ _ (AllPlaced-get_elem? n p.clients i up.placed (rw up.clients lt))
        (λ client placed.
          let (o, e, shaped) = rt_free-Yields p.alive n client placed ptr ret p.shmem up.shaped in
          let same = rt_free-SameClient p.alive client ptr ret p.shmem o e in
          (after p i o, rw e, after-IsSetUp p i client o up placed same.2 same.1 shaped))

  asks-Yields :
      (p : Pod) (i : ℕ) (real : ℕ × ℕ × ℕ)
      → IsSetUp n k p
      → i < k
      → Yields (step p (asks i real)) (IsSetUp n k)
  unfolding step
  asks-Yields p i real up lt =
      >>=-Yields _ _ _ _ (AllPlaced-get_elem? n p.clients i up.placed (rw up.clients lt))
        (λ client placed.
          >>=-Yields _ _ _ _
            (rt_mem_get_info_ex-Yields p.alive n client placed real p.shmem up.shaped)
            (λ r shaped.
              (_, refl, record { shaped = shaped; placed = up.placed; clients = up.clients })))

  -- In a pod whose slots are laid out, whose clients have a device below `NPU_DEVICE_MAX` and a
  -- process slot that exists, no sequence of whole calls by these clients panics, and the pod is
  -- left so again.
  pub run-Yields :
      (cs : List Call) (p : Pod) → IsSetUp n k p → AllMade k cs → Yields (run p cs) (IsSetUp n k)
  unfolding run step
  run-Yields [] p up made = (p, refl, up)
  run-Yields (mallocs i size real ∷ cs) p up made =
      >>=-Yields _ _ _ _ (mallocs-Yields p i size real up made.0)
        (λ q up'. run-Yields cs q up' made.1)
  run-Yields (frees i ptr ret ∷ cs) p up made =
      >>=-Yields _ _ _ _ (frees-Yields p i ptr ret up made.0) (λ q up'. run-Yields cs q up' made.1)
  run-Yields (asks i real ∷ cs) p up made =
      >>=-Yields _ _ _ _ (asks-Yields p i real up made.0) (λ q up'. run-Yields cs q up' made.1)
  run-Yields (dies pid ∷ cs) p up made =
      run-Yields cs (record p { alive = λ q. if q == pid then false else p.alive q })
        (record { shaped = up.shaped; placed = up.placed; clients = up.clients }) made
