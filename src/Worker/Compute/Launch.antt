-- ===== src/Worker/Compute/Launch.antt =====
-- When a launch gets its token, and that a batch is reported once.
use hami_vnpu_core_hhy.Common.{
  [], ℕ, ◌+◌, ◌^◌, ◌<◌, ◌≡◌, refl, ◌≢◌, ◌⊎◌, inl, inr, Bool, true, false, ◌&&◌, Option, some, List,
  ◌∷◌, arith, ltb, ◌==◌, Option-cases, >>=-eq-some, Returns, >>=-Returns, if-Returns, length,
  get_elem?, set, get_elem?_of_lt,
}
use hami_vnpu_core_hhy.Common.Words.{inc_u32}
use hami_vnpu_core_hhy.Shmem.{
  LocalContainerShmem, LocalWorkerReport, state_running, state_measuring,
}
use hami_vnpu_core_hhy.Worker.{InnerLock}
use hami_vnpu_core_hhy.Worker.Compute.{
  Runtime, measure_duration, Turn, launch, yields, retries, sleeps, Polled, reset_stale_batch, poll,
  Round, Wait, launched, wait_rounds,
}

-- The worker has joined the batch that is on.
abbrev pub has_joined : InnerLock → LocalContainerShmem → Bool
has_joined lock s = lock.batch_active && s.batch_id == lock.current_batch_id

abbrev pub joins : Bool → ℕ → ℕ
joins true n = n
joins false n = inc_u32 n

-- What a round that ends in a launch shows, where the decrement finds `found`.
pub record IsGranted (found : ℕ) (lock : InnerLock) (s : LocalContainerShmem) (lock' : InnerLock)
    (s' : LocalContainerShmem) : Type 0 where
  pub running : s.state ≡ state_running
  pub seen : s.tokens_remaining ≢ 0
  pub found_some : 0 < found
  pub taken : s'.tokens_remaining + 1 ≡ found
  pub active : lock'.batch_active ≡ true
  pub batch : lock'.current_batch_id ≡ s.batch_id
  pub joined : s'.active_workers ≡ joins (has_joined lock s) s.active_workers

module _ (rt : Runtime) (slot_idx : ℕ) where
  -- A round ends in a launch only in the running state, where the load and the decrement both
  -- find a token: it takes exactly one, and the worker is counted as active exactly if it had not
  -- joined the batch yet. After it the worker has joined the batch.
  pub poll-launch :
      (found : ℕ) (lock : InnerLock) (s : LocalContainerShmem) (p : Polled)
      → found < 2 ^ 64
      → poll rt slot_idx found lock s ≡ some p
      → p.turn ≡ launch
      → IsGranted found lock s p.lock p.shmem
  unfolding poll
  poll-launch found lock s p word h e = ground arith

  -- In the measuring state a worker that has joined the batch reports it, and is counted as
  -- reported, once: it has then not joined any more, and a further round changes nothing. A
  -- worker that has not joined changes nothing. In each case it sleeps until the state is no
  -- longer measuring.
  pub poll-measuring :
      (found : ℕ) (lock : InnerLock) (s : LocalContainerShmem) (p : Polled)
      → s.state ≡ state_measuring
      → poll rt slot_idx found lock s ≡ some p
      → (p.turn ≡ sleeps state_measuring)
        × (has_joined p.lock p.shmem ≡ false)
        × (((has_joined lock s ≡ true)
              × (p.shmem.reported_count ≡ inc_u32 s.reported_count)
              × (p.calls ≡ (measure_duration rt lock).calls)
              × ((report : LocalWorkerReport) × (get_elem? s.reports slot_idx ≡ some report)
                  × (p.shmem.reports
                      ≡ set s.reports slot_idx (record report {
                        batch_id = s.batch_id;
                        duration_us = (measure_duration rt lock).duration_us;
                      }))))
            ⊎ ((has_joined lock s ≡ false) × (p.shmem ≡ s) × (p.calls ≡ [])))
  unfolding poll
  poll-measuring found lock s p on h = elim (Option-cases (get_elem? s.reports slot_idx)) [
    | inl out ↦ ground arith
    | inr (report, e) ↦ ground arith
  ]

Turn-cases :
    (t : Turn)
    → (t ≡ launch) ⊎ ((t ≡ retries) ⊎ ((t ≡ yields) ⊎ ((expected : ℕ) × (t ≡ sleeps expected))))
Turn-cases launch = inl refl
Turn-cases yields = inr (inr (inl refl))
Turn-cases retries = inr (inl refl)
Turn-cases (sleeps expected) = inr (inr (inr (expected, refl)))

-- One of the rounds granted the launch.
abbrev pub GrantedIn : List Round → InnerLock → LocalContainerShmem → Type 0
GrantedIn [] lock' s' = ⊥
GrantedIn (r ∷ rounds) lock' s' =
    ((lock : InnerLock) × IsGranted r.found lock r.shmem lock' s') ⊎ GrantedIn rounds lock' s'

abbrev pub AllWords : List Round → Type 0
AllWords [] = Unit {0}
AllWords (r ∷ rounds) = (r.found < 2 ^ 64) × AllWords rounds

-- A launch that waits is let through only in a round of the running state that takes one token
-- from the batch that is on; a round that does not launch, of any other state or without a token,
-- lets nothing through.
pub wait_rounds-GrantedIn :
    (slot_idx : ℕ) (rounds : List Round) (lock lock' : InnerLock) (s' : LocalContainerShmem)
    → AllWords rounds
    → wait_rounds slot_idx rounds lock ≡ some (launched lock' s')
    → GrantedIn rounds lock' s'
unfolding wait_rounds
wait_rounds-GrantedIn slot_idx [] lock lock' s' words h = ground arith
wait_rounds-GrantedIn slot_idx (r ∷ rounds) lock lock' s' words h =
    let (p, e, h') = >>=-eq-some (poll r.runtime slot_idx r.found lock r.shmem) _ h in
    elim (Turn-cases p.turn) [
      | inl go ↦
          let done : ◌≡◌ {A = Option Wait} (some (launched p.lock p.shmem))
              (some (launched lock' s')) =
            rw go at h' in
          inl (
            lock,
            ground (arith, poll-launch r.runtime slot_idx r.found lock r.shmem p words.0 e go),
          )
      | inr (inl kept) ↦
          inr (wait_rounds-GrantedIn slot_idx rounds p.lock lock' s' words.1 (rw kept at h'))
      | inr (inr (inl unlocked)) ↦ inr (
          wait_rounds-GrantedIn slot_idx rounds (r.unlocked p.lock) lock' s' words.1
            (rw unlocked at h'))
      | inr (inr (inr (expected, slept))) ↦ inr (
          wait_rounds-GrantedIn slot_idx rounds (r.unlocked p.lock) lock' s' words.1
            (rw slept at h'))
    ]

-- The worker's report slot is there in every round.
abbrev pub AllReportable : ℕ → List Round → Type 0
AllReportable slot_idx [] = Unit {0}
AllReportable slot_idx (r ∷ rounds) =
    (slot_idx < length r.shmem.reports) × AllReportable slot_idx rounds

-- A round in the running state where the load and the decrement find a token.
abbrev pub HasToken : Round → Type 0
HasToken r = (r.shmem.state ≡ state_running) × (r.shmem.tokens_remaining ≢ 0) × (0 < r.found)

abbrev pub SomeToken : List Round → Type 0
SomeToken [] = ⊥
SomeToken (r ∷ rounds) = HasToken r ⊎ SomeToken rounds

poll-Returns :
    (rt : Runtime) (slot_idx found : ℕ) (lock : InnerLock) (s : LocalContainerShmem)
    → slot_idx < length s.reports
    → Returns (poll rt slot_idx found lock s)
unfolding poll
poll-Returns rt slot_idx found lock s lt =
    if-Returns (s.state == state_running) _ _
      (if-Returns (s.tokens_remaining == 0) _ _ (_, refl)
        (if-Returns (ltb 0 found) _ _
          (if-Returns (reset_stale_batch lock s).batch_active _ _ (_, refl)
            (>>=-Returns _ _ (get_elem?_of_lt s.reports slot_idx lt) (λ report. (_, refl))))
          (_, refl)))
      (if-Returns (s.state == state_measuring) _ _
        (if-Returns (has_joined (reset_stale_batch lock s) s) _ _
          (>>=-Returns _ _
            (>>=-Returns _ _ (get_elem?_of_lt s.reports slot_idx lt) (λ report. (_, refl)))
            (λ r. (_, refl)))
          (_, refl))
        (_, refl))

poll-token :
    (rt : Runtime) (slot_idx found : ℕ) (lock : InnerLock) (s : LocalContainerShmem) (p : Polled)
    → poll rt slot_idx found lock s ≡ some p
    → s.state ≡ state_running
    → s.tokens_remaining ≢ 0
    → 0 < found
    → p.turn ≡ launch
unfolding poll
poll-token rt slot_idx found lock s p h on some_left found_some = ground arith

-- A launch that meets a round of the running state where its load and its decrement find a token
-- is let through: the wait ends, in that round or before.
pub wait_rounds-launched :
    (slot_idx : ℕ) (rounds : List Round) (lock : InnerLock)
    → AllReportable slot_idx rounds
    → SomeToken rounds
    → (lock' : InnerLock) × (s' : LocalContainerShmem) × (wait_rounds slot_idx rounds lock
        ≡ some (launched lock' s'))
unfolding wait_rounds
wait_rounds-launched slot_idx [] lock there tokens = absurd tokens
wait_rounds-launched slot_idx (r ∷ rounds) lock there tokens =
    let (p, e) = poll-Returns r.runtime slot_idx r.found lock r.shmem there.0 in
    elim tokens [
      | inl (on, left, found) ↦
          let go = poll-token r.runtime slot_idx r.found lock r.shmem p e on left found in
          (p.lock, p.shmem, rw e (rw go))
      | inr later ↦ elim (Turn-cases p.turn) [
        | inl go ↦ (p.lock, p.shmem, rw e (rw go))
        | inr (inl kept) ↦
            let (l, s, w) = wait_rounds-launched slot_idx rounds p.lock there.1 later in
            (l, s, rw e (rw kept w))
        | inr (inr (inl unlocked)) ↦
            let (l, s, w) =
              wait_rounds-launched slot_idx rounds (r.unlocked p.lock) there.1 later in
            (l, s, rw e (rw unlocked w))
        | inr (inr (inr (expected, slept))) ↦
            let (l, s, w) =
              wait_rounds-launched slot_idx rounds (r.unlocked p.lock) there.1 later in
            (l, s, rw e (rw slept w))
      ]
    ]
