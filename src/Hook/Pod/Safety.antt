-- ===== src/Hook/Pod/Safety.antt =====
-- The quota holds through every sequence of whole calls.
use hami_vnpu_core_hhy.Common.{
  [], ℕ, zero, suc, ◌+◌, ◌^◌, ◌≤◌, ◌<◌, ◌≡◌, ◌∙◌, ◌≢◌, inl, inr, Bool, false, some, List, ◌∷◌,
  arith, ◌==◌, if◌then◌else◌, Bool-cases, >>=-eq-some, get_elem?, set,
}
use mathlib.Core.Path.{subst}
use mathlib.Core.Option.{some-injective}
use hami_vnpu_core_hhy.Shmem.{LocalContainerShmem, ProcessSlot}
use hami_vnpu_core_hhy.Worker.{SchedulerClient}
use hami_vnpu_core_hhy.Worker.Memory.{get_hbm_info, recalculate_usage_for_device, is_hbm_limited}
use hami_vnpu_core_hhy.Worker.Memory.Usage.{live_bytes}
use hami_vnpu_core_hhy.Worker.Memory.Recalculate.{recalculate_lem}
use hami_vnpu_core_hhy.Hook.{RealAlloc, Outcome, rt_malloc, rt_free, rt_mem_get_info_ex}
use hami_vnpu_core_hhy.Hook.Alloc.{
  rt_malloc_lem, rt_malloc-SameClient, rt_free-live, rt_free-SameClient,
}
use hami_vnpu_core_hhy.Hook.Pod.{after, Pod, Call, mallocs, frees, asks, dies, step, run}

-- Every client is a real one, on this device.
abbrev pub OnDevice : ℕ → List SchedulerClient → Type 0
OnDevice device [] = Unit {0}
OnDevice device (c ∷ cs) = (c.device_id ≡ device) × (c.is_stub ≡ false) × OnDevice device cs

abbrev pub quota_use : ℕ → Pod → ℕ
quota_use device p = live_bytes p.alive device p.shmem.procs

-- A limit is set, and the live bytes of the device are within it.
pub record IsWithin (device limit : ℕ) (p : Pod) : Type 0 where
  pub on_device : OnDevice device p.clients
  pub same_limit : p.shmem.memory_limit ≡ limit
  pub within : quota_use device p ≤ limit

-- No request is so large that the quota check could wrap.
abbrev pub AllFit : ℕ → List Call → Type 0
AllFit limit [] = Unit {0}
AllFit limit (mallocs i size real ∷ cs) = (limit + size < 2 ^ 64) × AllFit limit cs
AllFit limit (frees i ptr ret ∷ cs) = AllFit limit cs
AllFit limit (asks i real ∷ cs) = AllFit limit cs
AllFit limit (dies pid ∷ cs) = AllFit limit cs

OnDevice-get_elem? :
    (device : ℕ) (cs : List SchedulerClient) (i : ℕ) (c : SchedulerClient)
    → OnDevice device cs
    → get_elem? cs i ≡ some c
    → (c.device_id ≡ device) × (c.is_stub ≡ false)
OnDevice-get_elem? device [] i c h e = absurd (cc)
OnDevice-get_elem? device (x ∷ cs) zero c h e = ground arith
OnDevice-get_elem? device (x ∷ cs) (suc i) c h e = OnDevice-get_elem? device cs i c h.2 e

OnDevice-set :
    (device : ℕ) (cs : List SchedulerClient) (i : ℕ) (c : SchedulerClient)
    → OnDevice device cs
    → c.device_id ≡ device
    → c.is_stub ≡ false
    → OnDevice device (set cs i c)
OnDevice-set device [] i c h p q = tt
OnDevice-set device (x ∷ cs) zero c h p q = (p, q, h.2)
OnDevice-set device (x ∷ cs) (suc i) c h p q = (h.0, h.1, OnDevice-set device cs i c h.2 p q)

live_bytes-dies :
    (device pid : ℕ) (alive : ℕ → Bool) (slots : List ProcessSlot)
    → live_bytes (λ q. if q == pid then false else alive q) device slots
      ≤ live_bytes alive device slots
unfolding live_bytes
live_bytes-dies device pid alive [] = omega arith
live_bytes-dies device pid alive (slot ∷ slots) =
    ground (arith, live_bytes-dies device pid alive slots)

info-live :
    (alive : ℕ → Bool) (client : SchedulerClient) (real answer : ℕ × ℕ × ℕ)
    (s s' : LocalContainerShmem)
    → rt_mem_get_info_ex alive real client s ≡ some (answer, s')
    → (live_bytes alive client.device_id s'.procs ≡ live_bytes alive client.device_id s.procs)
      × (s'.memory_limit ≡ s.memory_limit)
unfolding rt_mem_get_info_ex get_hbm_info
info-live alive client real answer s s' h = elim (Bool-cases (is_hbm_limited s)) [
  | inr free ↦ ground arith
  | inl on ↦
      let (((free, total), s1), e, h') =
        >>=-eq-some (get_hbm_info alive client s) _ (rw (rt_mem_get_info_ex, on) at h) in
      let ((used, s2), e2, h2) =
        >>=-eq-some (recalculate_usage_for_device alive client.device_id s) _ e in
      ground (arith, recalculate_lem alive client.device_id s s2 used e2)
]

module _ {device limit : ℕ} (set_up : limit ≢ 0) where
  after-IsWithin :
      (p p' : Pod) (i : ℕ) (client : SchedulerClient) (o : Outcome)
      → get_elem? p.clients i ≡ some client
      → some (after p i o) ≡ some p'
      → IsWithin device limit p
      → o.client.device_id ≡ client.device_id
      → o.client.is_stub ≡ client.is_stub
      → o.shmem.memory_limit ≡ p.shmem.memory_limit
      → live_bytes p.alive client.device_id o.shmem.procs ≤ limit
      → IsWithin device limit p'
  after-IsWithin p p' i client o e h w same_device same_stub same_limit within =
      let (dev, stub) = OnDevice-get_elem? device p.clients i client w.on_device e in
      subst (IsWithin device limit) (some-injective _ _ h) (record {
        on_device =
            OnDevice-set device p.clients i o.client w.on_device (same_device ∙ dev)
              (same_stub ∙ stub);
        same_limit = same_limit ∙ w.same_limit;
        within = rw (← dev) within;
      })

  mallocs-IsWithin :
      (p p' : Pod) (i size : ℕ) (real : RealAlloc)
      → limit + size < 2 ^ 64
      → IsWithin device limit p
      → step p (mallocs i size real) ≡ some p'
      → IsWithin device limit p'
  unfolding step
  mallocs-IsWithin p p' i size real small w h =
      let (client, e, h') = >>=-eq-some (get_elem? p.clients i) _ h in
      let (o, e', h'') = >>=-eq-some (rt_malloc p.alive real size [] client p.shmem) _ h' in
      let (dev, stub) = OnDevice-get_elem? device p.clients i client w.on_device e in
      let same = rt_malloc-SameClient p.alive client real size [] p.shmem o e' in
      let before : live_bytes p.alive client.device_id p.shmem.procs ≤ limit = rw dev w.within in
      let outcome =
        rt_malloc_lem p.alive client real size p.shmem o e' stub (ground arith) (omega arith) in
      after-IsWithin p p' i client o e h'' w same.2 same.3 outcome.1 (ground arith)

  frees-IsWithin :
      (p p' : Pod) (i ptr ret : ℕ)
      → IsWithin device limit p
      → step p (frees i ptr ret) ≡ some p'
      → IsWithin device limit p'
  unfolding step
  frees-IsWithin p p' i ptr ret w h =
      let (client, e, h') = >>=-eq-some (get_elem? p.clients i) _ h in
      let (o, e', h'') = >>=-eq-some (rt_free p.alive ptr ret client p.shmem) _ h' in
      let (dev, stub) = OnDevice-get_elem? device p.clients i client w.on_device e in
      let same = rt_free-SameClient p.alive client ptr ret p.shmem o e' in
      let before : live_bytes p.alive client.device_id p.shmem.procs ≤ limit = rw dev w.within in
      let outcome = rt_free-live p.alive client ptr ret p.shmem o e' in
      after-IsWithin p p' i client o e h'' w same.2 same.3 outcome.2 (omega arith)

  asks-IsWithin :
      (p p' : Pod) (i : ℕ) (real : ℕ × ℕ × ℕ)
      → IsWithin device limit p
      → step p (asks i real) ≡ some p'
      → IsWithin device limit p'
  unfolding step
  asks-IsWithin p p' i real w h =
      let (client, e, h') = >>=-eq-some (get_elem? p.clients i) _ h in
      let ((answer, s), e', h'') =
        >>=-eq-some (rt_mem_get_info_ex p.alive real client p.shmem) _ h' in
      let (dev, stub) = OnDevice-get_elem? device p.clients i client w.on_device e in
      let before : live_bytes p.alive client.device_id p.shmem.procs ≤ limit = rw dev w.within in
      let same = info-live p.alive client real answer p.shmem s e' in
      subst (IsWithin device limit) (some-injective _ _ h'') (record {
        on_device = w.on_device;
        same_limit = same.1 ∙ w.same_limit;
        within = rw (← dev) (omega arith);
      })

  dies-IsWithin :
      (p p' : Pod) (pid : ℕ)
      → IsWithin device limit p
      → step p (dies pid) ≡ some p'
      → IsWithin device limit p'
  unfolding step
  dies-IsWithin p p' pid w h = subst (IsWithin device limit) (some-injective _ _ h) (record {
    on_device = w.on_device;
    same_limit = w.same_limit;
    within = omega (arith, live_bytes-dies device pid p.alive p.shmem.procs, w.within);
  })

  -- In a pod whose clients use one device, where no request and the limit together reach 2 ^ 64,
  -- and where each intercepted call runs whole: as long as no call panics, the bytes of the live
  -- processes never pass the limit, whatever is allocated, freed and asked, whether or not the
  -- real functions succeed, and whichever processes die in between.
  pub run-IsWithin :
      (cs : List Call) (p p' : Pod)
      → AllFit limit cs
      → IsWithin device limit p
      → run p cs ≡ some p'
      → IsWithin device limit p'
  unfolding run
  run-IsWithin [] p p' fit w h = subst (IsWithin device limit) (some-injective _ _ h) w
  run-IsWithin (mallocs i size real ∷ cs) p p' fit w h =
      let (q, e, h') = >>=-eq-some (step p (mallocs i size real)) _ h in
      run-IsWithin cs q p' fit.1 (mallocs-IsWithin p q i size real fit.0 w e) h'
  run-IsWithin (frees i ptr ret ∷ cs) p p' fit w h =
      let (q, e, h') = >>=-eq-some (step p (frees i ptr ret)) _ h in
      run-IsWithin cs q p' fit (frees-IsWithin p q i ptr ret w e) h'
  run-IsWithin (asks i real ∷ cs) p p' fit w h =
      let (q, e, h') = >>=-eq-some (step p (asks i real)) _ h in
      run-IsWithin cs q p' fit (asks-IsWithin p q i real w e) h'
  run-IsWithin (dies pid ∷ cs) p p' fit w h =
      let (q, e, h') = >>=-eq-some (step p (dies pid)) _ h in
      run-IsWithin cs q p' fit (dies-IsWithin p q pid w e) h'
