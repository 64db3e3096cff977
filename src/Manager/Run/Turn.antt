-- ===== src/Manager/Run/Turn.antt =====
-- What one pass of the manager's loop leaves.
use hami_vnpu_core_hhy.Common.{
  sym, Yields, >>=-Yields, ℕ, ◌<◌, ◌^◌, ◌≡◌, refl, ◌∙◌, true, List, arith,
}
use mathlib.Core.Path.{subst}
use hami_vnpu_core_hhy.Shmem.{state_idle}
use hami_vnpu_core_hhy.Manager.Baton.{Shared, update_heartbeat, wait_for_global_turn, pass_baton}
use hami_vnpu_core_hhy.Manager.Baton.Rotation.{
  Rotation, next_owner, next_waiting, pass_baton-Rotation,
}
use hami_vnpu_core_hhy.Manager.Baton.Frame.{update_heartbeat-Rotation}
use hami_vnpu_core_hhy.Manager.Round.Consumed.{run_local_round_lem}
use hami_vnpu_core_hhy.Manager.Round.{grace_us, run_local_round}
use hami_vnpu_core_hhy.Manager.Plan.Floats.{Float}
use hami_vnpu_core_hhy.Manager.Plan.{
  schedule_rest_wait, ContainerManager, calculate_fair_share, honor_fixed_rest_wait,
}
use hami_vnpu_core_hhy.Manager.Run.{beat_all, TurnMet, limits_of, count_workers, use_turn, run_turn}
use hami_vnpu_core_hhy.Manager.Run.Parts.{
  beat_all-Rotation, beat_all-state, SomeSpent, SomeAllReported, SomeSpent-over,
  SomeAllReported-over, RestEnds, Kept, honor-Yields, Counted, count_workers-Yields,
}

module _ (fl : Float) (last_instant : ℕ) where
  -- What a pass leaves: the turn handed on, and the pod's round closed.
  abbrev pub HandedOn : List ℕ → ContainerManager fl → ContainerManager fl × Shared → Type 0
  HandedOn waiting m r =
      Rotation (next_owner m.my_global_idx waiting) (next_waiting m.my_global_idx waiting)
        r.1.global
      × (r.1.local.state ≡ state_idle)
      × (r.0.my_global_idx ≡ m.my_global_idx)

  schedule-my_global_idx :
      (now rest_us : ℕ) (m : ContainerManager fl)
      → (schedule_rest_wait fl last_instant now rest_us m).my_global_idx ≡ m.my_global_idx
  unfolding schedule_rest_wait
  schedule-my_global_idx now rest_us m = ground arith

  -- From the turn on: no part of the pass runs past its end, and the turn is handed on.
  use_turn-Yields :
      (waiting : List ℕ) (met : TurnMet) (m : ContainerManager fl) (s : Shared)
      → Rotation m.my_global_idx waiting s.global
      → m.current_avg_us < 2 ^ 64
      → RestEnds m.next_run_not_before met.rest_glances
      → SomeSpent met.local_round.glances
      → SomeAllReported met.local_round.report_glances
      → Yields (use_turn fl last_instant met m s) (HandedOn waiting m)
  unfolding use_turn
  use_turn-Yields waiting met m s turn word ends spent reported =
      let s1 = update_heartbeat m.my_global_idx met.turn_us s in
      let turn1 =
        update_heartbeat-Rotation m.my_global_idx met.turn_us m.my_global_idx waiting s turn in
      >>=-Yields (Kept fl last_instant m) (HandedOn waiting m)
        (honor_fixed_rest_wait fl met.rest_called met.rest_glances m) _
        (honor-Yields fl last_instant met.rest_called met.rest_glances m ends)
        (λ r kept.
          let m1 = r.0 in
          let s2 = beat_all m1.my_global_idx r.2 s1 in
          let turn2 = beat_all-Rotation m.my_global_idx m1.my_global_idx r.2 waiting s1 turn1 in
          let plan = calculate_fair_share fl m1 s2.global in
          let lim = limits_of fl last_instant m1 plan in
          >>=-Yields (λ rr. rr.closed.state ≡ state_idle) (HandedOn waiting m)
            (run_local_round lim s2.local met.local_round) _
            (let (rr, runs, opened, measured, idle, rest) =
                run_local_round_lem lim s2.local met.local_round
                  (SomeSpent-over lim met.local_round.glances spent)
                  (SomeAllReported-over (grace_us lim.time_limit_us) met.local_round.report_glances
                    reported) in
              (rr, runs, idle))
            (λ rr idle.
              let closed = record s2 { local = rr.closed } in
              let s3 = beat_all m1.my_global_idx rr.heartbeats closed in
              let turn3 =
                beat_all-Rotation m.my_global_idx m1.my_global_idx rr.heartbeats waiting closed
                  turn2 in
              >>=-Yields (Counted fl last_instant m.my_global_idx waiting m1) (HandedOn waiting m)
                (count_workers fl last_instant met.stats_us rr m1 s3.global) _
                (count_workers-Yields fl last_instant met.stats_us m.my_global_idx waiting rr m1
                  s3.global (subst (λ k. k < 2 ^ 64) (sym kept.1) word) turn3)
                (λ c counted.
                  let same = counted.0 ∙ kept.0 in
                  (
                    _,
                    refl,
                    (
                      subst
                          (λ k.
                            Rotation (next_owner m.my_global_idx waiting)
                              (next_waiting m.my_global_idx waiting) (pass_baton k c.1))
                          (sym same) (pass_baton-Rotation m.my_global_idx waiting c.1 counted.1),
                      beat_all-state m1.my_global_idx rr.heartbeats closed ∙ idle,
                      schedule-my_global_idx met.scheduled plan.rest_wait_us c.0 ∙ same,
                    ),
                  ))))

  -- When the wait for the turn ends with the turn and the queue is then in order, with this
  -- manager as the owner and the managers `waiting`, all active, queued behind it, no other pod
  -- writes to the registry from then to the hand-over, some turn of the rest loop finds the rest
  -- over, some turn of the local round finds no token left and a later one no active worker that
  -- has not reported, and the average fits in 64 bits, then the pass ends without a panic and
  -- with a hand-over: the turn goes to the first of `waiting`, this manager joins the end of the
  -- queue (when nobody waits, it keeps the turn), the pod's state is idle again, and the manager
  -- keeps its slot.
  pub run_turn-Yields :
      (waiting : List ℕ) (met : TurnMet) (m : ContainerManager fl) (s s1 : Shared)
      → wait_for_global_turn m.my_global_idx met.rounds s ≡ (true, s1)
      → Rotation m.my_global_idx waiting s1.global
      → m.current_avg_us < 2 ^ 64
      → RestEnds m.next_run_not_before met.rest_glances
      → SomeSpent met.local_round.glances
      → SomeAllReported met.local_round.report_glances
      → Yields (run_turn fl last_instant met m s) (HandedOn waiting m)
  unfolding run_turn
  run_turn-Yields waiting met m s s1 got turn word ends spent reported =
      rw got (use_turn-Yields waiting met m s1 turn word ends spent reported)
