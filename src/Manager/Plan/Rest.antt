-- ===== src/Manager/Plan/Rest.antt =====
-- The rest between two turns of a manager with a fixed share.
use hami_vnpu_core_hhy.Common.{
  [], ℕ, ◌+◌, ◌≤◌, ◌≡◌, ◌≢◌, refl, true, false, none, some, List, ◌∷◌, ◌⊎◌, inl, inr, arith,
  Bool-cases, leb, ltb, ◌==◌, Returns, >>=-Returns, >>=-eq-some,
}
use hami_vnpu_core_hhy.Manager.Plan.Floats.{Float}
use hami_vnpu_core_hhy.Manager.Plan.{
  ContainerManager, schedule_rest_wait, RestGlance, rest_loop, honor_fixed_rest_wait,
}

-- A turn of the rest loop finds the deadline reached.
abbrev pub SomeRested : ℕ → List RestGlance → Type 0
SomeRested deadline [] = ⊥
SomeRested deadline (v ∷ later) = (deadline ≤ v.now) ⊎ SomeRested deadline later

rest_loop-end :
    (deadline end : ℕ) (times : List ℕ) (vs : List RestGlance)
    → rest_loop deadline vs ≡ some (end, times)
    → deadline ≤ end
unfolding rest_loop
rest_loop-end deadline end times [] h = absurd (cc)
rest_loop-end deadline end times (v ∷ vs) h = elim (Bool-cases (leb deadline v.now)) [
  | inl over ↦ ground arith
  | inr more ↦
      let ((end', times'), e, h') =
        >>=-eq-some (rest_loop deadline vs) _ (rw (rest_loop, more) at h) in
      ground (arith, rest_loop-end deadline end' times' vs e)
]

pub rest_loop_total :
    (deadline : ℕ) (vs : List RestGlance) → SomeRested deadline vs → Returns (rest_loop deadline vs)
unfolding rest_loop
rest_loop_total deadline [] h = absurd h
rest_loop_total deadline (v ∷ vs) (inl over) =
    let reached : leb deadline v.now ≡ true = ground arith in rw (rest_loop, reached) (_, refl)
rest_loop_total deadline (v ∷ vs) (inr later) = elim (Bool-cases (leb deadline v.now)) [
  | inl over ↦ rw (rest_loop, over) (_, refl)
  | inr more ↦
      rw (rest_loop, more) (>>=-Returns _ _ (rest_loop_total deadline vs later) (λ r. (_, refl)))
]

module _ (fl : Float) where
  -- With a fixed share, a rest that is scheduled at one instant and honoured at the next turn
  -- ends, once a turn of its loop finds it over, and not before it is over, if the clock can hold
  -- its end. No rest is set any more then, and nothing else of the manager has changed.
  pub honor-schedule :
      (last_instant now rest_wait_us next : ℕ) (vs : List RestGlance) (m : ContainerManager fl)
      → m.fixed_share_ratio ≡ true
      → rest_wait_us ≢ 0
      → now + rest_wait_us ≤ last_instant
      → SomeRested (now + rest_wait_us) vs
      → (end : ℕ) × (times : List ℕ) × (honor_fixed_rest_wait fl next vs
            (schedule_rest_wait fl last_instant now rest_wait_us m)
          ≡ some (record m { next_run_not_before = none }, end, times))
        × (now + rest_wait_us ≤ end)
  unfolding honor_fixed_rest_wait schedule_rest_wait
  honor-schedule last_instant now rest_wait_us next vs m fixed some_rest holds over =
      let counted : (rest_wait_us == 0) ≡ false = ground arith in
      let held : leb (now + rest_wait_us) last_instant ≡ true = ground arith in
      elim (Bool-cases (ltb next (now + rest_wait_us))) [
        | inr late ↦ (
          next,
          [],
          rw (honor_fixed_rest_wait, schedule_rest_wait, fixed, counted, held, late),
          ground arith,
        )
        | inl early ↦
            let ((end, times), runs) = rest_loop_total (now + rest_wait_us) vs over in
            (
              end,
              times,
              rw (honor_fixed_rest_wait, schedule_rest_wait, fixed, counted, held, early, runs),
              rest_loop-end (now + rest_wait_us) end times vs runs,
            )
      ]
