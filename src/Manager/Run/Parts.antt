-- ===== src/Manager/Run/Parts.antt =====
-- What the parts of a pass leave: the heartbeats, the rest and the statistics.
use hami_vnpu_core_hhy.Common.{
  [], Option, none, Yields, >>=-Yields, if-Yields, if◌then◌else◌, leb, ◌==◌, not, max, ◌/◌, ℕ, ◌<◌,
  ◌^◌, ◌≤◌, ◌≡◌, refl, ◌∙◌, ◌⊎◌, inl, inr, true, some, List, ◌∷◌, arith, ◌&&◌, ltb,
}
use hami_vnpu_core_hhy.Common.Words.{saturating_mul}
use hami_vnpu_core_hhy.Shmem.{GlobalRegistry, GlobalManagerSlot}
use hami_vnpu_core_hhy.Manager.Baton.{set_slot, Shared, update_heartbeat}
use hami_vnpu_core_hhy.Manager.Baton.Rotation.{Rotation}
use hami_vnpu_core_hhy.Manager.Baton.Frame.{
  update_heartbeat-Rotation, Rotation-SameQueue, set_slot-SameQueue, set_slot-active,
}
use hami_vnpu_core_hhy.Manager.Round.Consumed.{SomeOver, SomeReported}
use hami_vnpu_core_hhy.Manager.Plan.Rest.{SomeRested, rest_loop_total}
use hami_vnpu_core_hhy.Manager.Round.{Glance, ReportGlance, Limits, RoundResult}
use hami_vnpu_core_hhy.Manager.Plan.Floats.{Float}
use hami_vnpu_core_hhy.Manager.Plan.{
  RestGlance, clamp_u64, rested, rest_loop, clamped_avg, mixed_avg, ContainerManager,
  honor_fixed_rest_wait, update_local_stats,
}
use hami_vnpu_core_hhy.Manager.Run.{beat_all, count_workers}

pub beat_all-Rotation :
    (me i : ℕ) (times waiting : List ℕ) (s : Shared)
    → Rotation me waiting s.global
    → Rotation me waiting (beat_all i times s).global
unfolding beat_all
beat_all-Rotation me i [] waiting s r = r
beat_all-Rotation me i (now ∷ times) waiting s r =
    beat_all-Rotation me i times waiting (update_heartbeat i now s)
      (update_heartbeat-Rotation me now i waiting s r)

pub beat_all-state :
    (i : ℕ) (times : List ℕ) (s : Shared) → (beat_all i times s).local.state ≡ s.local.state
unfolding beat_all update_heartbeat
beat_all-state i [] s = refl
beat_all-state i (now ∷ times) s = beat_all-state i times (update_heartbeat i now s)

-- Some turn of the local round's first loop finds all tokens spent.
abbrev pub SomeSpent : List Glance → Type 0
SomeSpent [] = ⊥
SomeSpent (v ∷ later) = (v.current_tokens ≡ 0) ⊎ SomeSpent later

-- Some turn of its second loop finds that all active workers have reported.
abbrev pub SomeAllReported : List ReportGlance → Type 0
SomeAllReported [] = ⊥
SomeAllReported (v ∷ later) = (v.active ≤ v.reported) ⊎ SomeAllReported later

pub SomeSpent-over : (lim : Limits) (vs : List Glance) → SomeSpent vs → SomeOver lim vs
SomeSpent-over lim [] h = h
SomeSpent-over lim (v ∷ vs) (inl e) = inl (inl e)
SomeSpent-over lim (v ∷ vs) (inr h) = inr (SomeSpent-over lim vs h)

pub SomeAllReported-over :
    (grace : ℕ) (vs : List ReportGlance) → SomeAllReported vs → SomeReported grace vs
SomeAllReported-over grace [] h = h
SomeAllReported-over grace (v ∷ vs) (inl e) = inl (inl e)
SomeAllReported-over grace (v ∷ vs) (inr h) = inr (SomeAllReported-over grace vs h)

-- The rest that is set, if any, is found over by some turn of its loop.
abbrev pub RestEnds : Option ℕ → List RestGlance → Type 0
RestEnds none glances = Unit {0}
RestEnds (some deadline) glances = SomeRested deadline glances

-- The clamp of the statistics does not panic.
clamped :
    (avg new : ℕ)
    → avg < 2 ^ 64
    → Yields (clamp_u64 new (max (avg / 4) 1) (max (saturating_mul avg 4) 1)) (λ a. Unit {0})
clamped avg new word =
    let ordered : leb (max (avg / 4) 1) (max (saturating_mul avg 4) 1) ≡ true = ground arith in
    rw ordered (_, refl, tt)

module _ (fl : Float) (last_instant : ℕ) where
  abbrev pub Kept : ContainerManager fl → ContainerManager fl × ℕ × List ℕ → Type 0
  Kept m r = (r.0.my_global_idx ≡ m.my_global_idx) × (r.0.current_avg_us ≡ m.current_avg_us)

  rested-Yields :
      (set : Option ℕ) (now : ℕ) (vs : List RestGlance) (m : ContainerManager fl)
      → RestEnds set vs
      → Yields (rested fl m set now vs) (Kept m)
  rested-Yields none now vs m ends = (_, refl, (refl, refl))
  rested-Yields (some deadline) now vs m ends =
      >>=-Yields (λ r. Unit {0}) (Kept m)
        (if ltb now deadline then rest_loop deadline vs else some (now, [])) _
        (if-Yields (λ r. Unit {0}) (ltb now deadline) _ _
          (let (r, runs) = rest_loop_total deadline vs ends in (r, runs, tt)) (_, refl, tt))
        (λ r h. (_, refl, (refl, refl)))

  pub honor-Yields :
      (now : ℕ) (vs : List RestGlance) (m : ContainerManager fl)
      → RestEnds m.next_run_not_before vs
      → Yields (honor_fixed_rest_wait fl now vs m) (Kept m)
  unfolding honor_fixed_rest_wait
  honor-Yields now vs m ends =
      if-Yields (Kept m) (not m.fixed_share_ratio) _ _ (_, refl, (refl, refl))
        (rested-Yields m.next_run_not_before now vs m ends)

  abbrev pub Counted :
      ℕ → List ℕ → ContainerManager fl → ContainerManager fl × GlobalRegistry → Type 0
  Counted me waiting m r = (r.0.my_global_idx ≡ m.my_global_idx) × Rotation me waiting r.1

  update_local_stats-Yields :
      (now duration_us tokens me : ℕ) (waiting : List ℕ) (m : ContainerManager fl)
      (g : GlobalRegistry)
      → m.current_avg_us < 2 ^ 64
      → Rotation me waiting g
      → Yields (update_local_stats fl now duration_us tokens m g) (Counted me waiting m)
  unfolding update_local_stats
  update_local_stats-Yields now duration_us tokens me waiting m g word r =
      if-Yields (Counted me waiting m) (tokens == 0) _ _ (_, refl, (refl, r))
        (>>=-Yields (λ avg. Unit {0}) (Counted me waiting m) (clamped_avg fl m duration_us tokens) _
          (clamped m.current_avg_us (duration_us / tokens) word)
          (λ avg h.
            let write : GlobalManagerSlot → GlobalManagerSlot =
              λ slot. record slot { avg_kernel_time = mixed_avg fl m avg; last_heartbeat = now } in
            (
              _,
              refl,
              (
                refl,
                Rotation-SameQueue me waiting g (set_slot g m.my_global_idx write)
                    (set_slot-SameQueue g m.my_global_idx write)
                    (λ i on. set_slot-active g m.my_global_idx write (λ slot. refl) i ∙ on) r,
              ),
            )))

  -- The parts behind the rest.
  pub count_workers-Yields :
      (now me : ℕ) (waiting : List ℕ) (rr : RoundResult) (m : ContainerManager fl)
      (g : GlobalRegistry)
      → m.current_avg_us < 2 ^ 64
      → Rotation me waiting g
      → Yields (count_workers fl last_instant now rr m g) (Counted me waiting m)
  unfolding count_workers
  count_workers-Yields now me waiting rr m g word r =
      if-Yields (Counted me waiting m) (ltb 0 rr.tokens_used && ltb 0 rr.duration_us) _ _
        (update_local_stats-Yields now rr.duration_us rr.tokens_used me waiting m g word r)
        (_, refl, (refl, r))
