-- ===== src/Worker/Memory/Quota.antt =====
-- What `check_memory_quota` admits, what it refuses, and what it books.
use hami_vnpu_core_hhy.Common.{
  ◌++◌, [], Returns, >>=-Returns, if-Returns, ℕ, ◌+◌, ◌^◌, ◌≤◌, ◌<◌, ◌≡◌, ◌≢◌, ◌⊎◌, inl, inr, refl,
  ap, Bool, false, some, List, ◌∷◌, ◌==◌, >>=-eq-some, arith, Bool-cases, ltb,
}
use hami_vnpu_core_hhy.Common.Words.{add_u64}
use hami_vnpu_core_hhy.Shmem.{npu_device_max, ProcessSlot, LocalContainerShmem}
use hami_vnpu_core_hhy.Worker.{SchedulerClient}
use hami_vnpu_core_hhy.Worker.Memory.{
  Verdict, exceeded, reserved, reserve, book, check_memory_quota, recalculate_usage_for_device,
  rt_error_none, rt_error_memory_allocation,
}
use hami_vnpu_core_hhy.Worker.Memory.Usage.{IsLaidOut, live_bytes}
use hami_vnpu_core_hhy.Worker.Memory.Recalculate.{recalculate_lem, recalculate_total}

-- The value of a read, where `first` was read before the others.
abbrev pub last_read : ℕ → List ℕ → ℕ
last_read first [] = first
last_read first (y ∷ ys) = last_read y ys

-- The counter holds `c` at an exchange, though `c` was read before: the exchange comes right
-- after the read, or finds `c` once more.
abbrev pub StillHolds : ℕ → List ℕ → ℕ → Type 0
StillHolds first others c =
    (last_read first others ≡ c)
    ⊎ ((before : List ℕ) × (after : List ℕ) × (others ≡ before ++ (c ∷ after))
        × (last_read first before ≡ c))

-- What a verdict says, where `first` is the value of the counter that the recalculation left, and
-- `others` are the values that the exchanges find.
abbrev pub IsSound : ℕ → ℕ → ℕ → List ℕ → Verdict → Type 0
IsSound limit size first others (exceeded c) =
    (before : List ℕ) × (after : List ℕ) × (others ≡ before ++ after)
    × (last_read first before ≡ c)
    × (limit < add_u64 c size)
IsSound limit size first others (reserved n) =
    (c : ℕ) × StillHolds first others c × (n ≡ add_u64 c size) × (n ≤ limit)

StillHolds-cons :
    (x y c : ℕ) (others : List ℕ) → StillHolds y others c → StillHolds x (y ∷ others) c
StillHolds-cons x y c others (inl last) = inl last
StillHolds-cons x y c others (inr (before, after, split, read)) =
    inr (y ∷ before, after, ap (λ l. y ∷ l) split, read)

IsSound-cons :
    (limit size x y : ℕ) (others : List ℕ) (v : Verdict)
    → IsSound limit size y others v
    → IsSound limit size x (y ∷ others) v
IsSound-cons limit size x y others (exceeded c) (before, after, split, read, over) =
    (y ∷ before, after, ap (λ l. y ∷ l) split, read, over)
IsSound-cons limit size x y others (reserved n) (c, held, sum, fits) =
    (c, StillHolds-cons x y c others held, sum, fits)

-- However other processes change the counter between the attempts, the loop ends with a verdict
-- about the value that it read last. It reserves only when the exchange finds that value in the
-- counter, so no other process's change is overwritten; the counter is then that value plus the
-- size, modulo 2 ^ 64, and within the limit. It refuses only when that sum is above the limit.
pub reserve-IsSound :
    (limit size current_used : ℕ) (others : List ℕ)
    → IsSound limit size current_used others (reserve limit size current_used others)
unfolding reserve
reserve-IsSound limit size current_used [] =
    elim (Bool-cases (ltb limit (add_u64 current_used size))) [
      | inl over ↦ rw (over, reserve) ([], [], refl, refl, ground arith)
      | inr fits ↦ rw (fits, reserve) (current_used, inl refl, refl, ground arith)
    ]
reserve-IsSound limit size current_used (actual ∷ later) =
    elim (Bool-cases (ltb limit (add_u64 current_used size))) [
      | inl over ↦ rw (over, reserve) ([], actual ∷ later, refl, refl, ground arith)
      | inr fits ↦ elim (Bool-cases (current_used == actual)) [
        | inl same ↦
            let held : actual ≡ current_used = ground arith in
            rw (fits, same, reserve)
              (current_used, inr ([], later, ap (λ y. y ∷ later) held, refl), refl, ground arith)
        | inr lost ↦
            rw (fits, lost, reserve)
              (IsSound-cons limit size current_used actual later _
                (reserve-IsSound limit size actual later))
      ]
    ]

module _ (proc_alive : ℕ → Bool) (client : SchedulerClient) (size : ℕ) (s : LocalContainerShmem)
    (real : client.is_stub ≡ false) (limited : s.memory_limit ≢ 0) where
  abbrev live : List ProcessSlot → ℕ
  live = live_bytes proc_alive client.device_id

  -- A check that does not panic is a recalculation and a verdict.
  pub check_steps :
      (others : List ℕ) (ret : ℕ) (s' : LocalContainerShmem)
      → check_memory_quota proc_alive client size others s ≡ some (ret, s')
      → (r : ℕ × LocalContainerShmem) × (recalculate_usage_for_device proc_alive client.device_id s
          ≡ some r)
        × (book r.1 (reserve s.memory_limit size r.1.memory_used others) ≡ (ret, s'))
  unfolding check_memory_quota
  check_steps others ret s' done =
      let on : (s.memory_limit == 0) ≡ false = ground arith in
      let (r, e, h) =
        >>=-eq-some (recalculate_usage_for_device proc_alive client.device_id s) _
          (rw (check_memory_quota, real, on) at done) in
      (r, e, cc)

  -- With no interference, a limit and a client that is no stub, where the live bytes and the size
  -- together stay below 2 ^ 64: the check returns 0 exactly if the live bytes of the client's own
  -- device and the size fit the limit, and then the counter is that sum; otherwise it returns the
  -- allocation error, and the counter is the live bytes. The live bytes themselves and the limit
  -- are what they were.
  pub check_memory_quota_lem :
      (ret : ℕ) (s' : LocalContainerShmem)
      → check_memory_quota proc_alive client size [] s ≡ some (ret, s')
      → live s.procs + size < 2 ^ 64
      → (((ret ≡ rt_error_none)
            × (live s.procs + size ≤ s.memory_limit)
            × (s'.memory_used ≡ live s.procs + size))
          ⊎ ((ret ≡ rt_error_memory_allocation)
              × (s.memory_limit < live s.procs + size)
              × (s'.memory_used ≡ live s.procs)))
        × (live s'.procs ≡ live s.procs)
        × (s'.memory_limit ≡ s.memory_limit)
  unfolding reserve
  check_memory_quota_lem ret s' done small =
      let ((total, s1), e, b) = check_steps [] ret s' done in
      ground (arith, recalculate_lem proc_alive client.device_id s s1 total e)

  -- The check does not panic on a device below `NPU_DEVICE_MAX`, whatever other processes do.
  pub check_memory_quota_total :
      (others : List ℕ)
      → client.device_id < npu_device_max
      → IsLaidOut s.procs
      → Returns (check_memory_quota proc_alive client size others s)
  unfolding check_memory_quota
  check_memory_quota_total others lt laid =
      if-Returns client.is_stub _ _ (_, refl)
        (if-Returns (s.memory_limit == 0) _ _ (_, refl)
          (>>=-Returns _ _ (recalculate_total proc_alive client.device_id s lt laid)
            (λ r. (_, refl))))

  -- In the release build the sum of the check wraps: a request so large that the sum passes
  -- 2 ^ 64 by no more than the limit is admitted, though it is above the limit by itself, and the
  -- counter becomes the wrapped sum, below the live bytes.
  pub check_memory_quota-wraps :
      (ret : ℕ) (s' : LocalContainerShmem)
      → check_memory_quota proc_alive client size [] s ≡ some (ret, s')
      → size < 2 ^ 64
      → live s.procs ≤ s.memory_limit
      → s.memory_limit < 2 ^ 64
      → 2 ^ 64 ≤ live s.procs + size
      → (ret ≡ rt_error_none)
        × (s'.memory_used + 2 ^ 64 ≡ live s.procs + size)
        × (s'.memory_used < live s.procs)
  unfolding reserve
  check_memory_quota-wraps ret s' done word fits small large =
      let ((total, s1), e, b) = check_steps [] ret s' done in
      ground (arith, recalculate_lem proc_alive client.device_id s s1 total e)
