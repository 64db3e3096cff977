-- ===== src/Manager/Round/Consumed.antt =====
-- The two loops of a round end, and what they count is within the plan.
use hami_vnpu_core_hhy.Common.{
  [], ℕ, ◌≤◌, ◌<◌, ◌≡◌, refl, ◌⊎◌, inl, inr, Bool, true, false, some, List, ◌∷◌, arith,
}
use hami_vnpu_core_hhy.Common.Words.{add_u64}
use hami_vnpu_core_hhy.Shmem.{LocalContainerShmem, state_idle, state_running, state_measuring}
use hami_vnpu_core_hhy.Manager.Round.{
  Glance, Limits, spend_loop, ReportGlance, grace_us, report_loop, aggregate_local_times, Met,
  RoundResult, run_local_round, round_result, start_local_batch, enter_measuring_state,
}

-- A turn in which the tokens are spent or the time is up.
abbrev pub IsOver : Limits → Glance → Type 0
IsOver lim v = (v.current_tokens ≡ 0) ⊎ (lim.time_limit_us < v.elapsed_later_us)

abbrev pub SomeOver : Limits → List Glance → Type 0
SomeOver lim [] = ⊥
SomeOver lim (v ∷ vs) = IsOver lim v ⊎ SomeOver lim vs

-- A turn in which all workers have reported or the grace is over.
abbrev pub SomeReported : ℕ → List ReportGlance → Type 0
SomeReported grace [] = ⊥
SomeReported grace (v ∷ vs) =
    ((v.active ≤ v.reported) ⊎ (grace < v.elapsed_us)) ⊎ SomeReported grace vs

spend_loop-le :
    (lim : Limits) (vs : List Glance) (saw : Bool) (last : ℕ)
    → (spend_loop lim vs saw last).tokens_consumed_for_stats ≤ lim.tokens
unfolding spend_loop
spend_loop-le lim [] saw last = omega arith
spend_loop-le lim (v ∷ vs) saw last =
    ground (
      arith,
      spend_loop-le lim vs true v.current_tokens,
      spend_loop-le lim vs false v.current_tokens,
    )

spend_loop-done :
    (lim : Limits) (vs : List Glance) (saw : Bool) (last : ℕ)
    → SomeOver lim vs
    → (spend_loop lim vs saw last).done ≡ true
unfolding spend_loop
spend_loop-done lim [] saw last h = absurd h
spend_loop-done lim (v ∷ vs) saw last (inl over) = ground arith
spend_loop-done lim (v ∷ vs) saw last (inr later) = ground (
  arith,
  spend_loop-done lim vs true v.current_tokens later,
  spend_loop-done lim vs false v.current_tokens later,
)

report_loop-done :
    (grace : ℕ) (vs : List ReportGlance) → SomeReported grace vs → (report_loop grace vs).0 ≡ true
unfolding report_loop
report_loop-done grace [] h = absurd h
report_loop-done grace (v ∷ vs) (inl over) = ground arith
report_loop-done grace (v ∷ vs) (inr later) = ground (arith, report_loop-done grace vs later)

-- A round ends if its first loop meets a turn where the tokens are spent or the time is up, and
-- its second one where all active workers have reported or the grace is over. It then has opened
-- the next batch with the planned tokens and no worker counted, has taken what was left of the
-- tokens away for the measuring, and leaves the state idle; it reports no more tokens than
-- planned.
pub run_local_round_lem :
    (lim : Limits) (s : LocalContainerShmem) (met : Met)
    → SomeOver lim met.glances
    → SomeReported (grace_us lim.time_limit_us) met.report_glances
    → (r : RoundResult) × (run_local_round lim s met ≡ some r)
      × ((r.opened.state ≡ state_running)
          × (r.opened.batch_id ≡ add_u64 s.batch_id 1)
          × (r.opened.tokens_remaining ≡ lim.tokens)
          × (r.opened.active_workers ≡ 0)
          × (r.opened.reported_count ≡ 0))
      × ((r.measuring.state ≡ state_measuring) × (r.measuring.tokens_remaining ≡ 0))
      × (r.closed.state ≡ state_idle)
      × (r.tokens_used ≤ lim.tokens)
unfolding run_local_round start_local_batch enter_measuring_state aggregate_local_times
run_local_round_lem lim s met over reported = (
  round_result lim s met,
  rw (
    run_local_round,
    spend_loop-done lim met.glances false lim.tokens over,
    report_loop-done (grace_us lim.time_limit_us) met.report_glances reported,
  ),
  (refl, refl, refl, refl, refl),
  (refl, refl),
  refl,
  ground (arith, spend_loop-le lim met.glances false lim.tokens),
)
