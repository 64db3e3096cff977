-- ===== src/Manager/Plan/Bounds.antt =====
-- The ranges that a share plan stays in, whatever the floating-point operations give.
use hami_vnpu_core_hhy.Common.{
  [], ℕ, zero, suc, ◌+◌, ◌-◌, ◌*◌, ◌/◌, ◌^◌, ◌≤◌, ◌≡◌, refl, ◌⊎◌, inl, inr, max, min, true, some,
  List, ◌∷◌, ◌==◌, ltb, arith, if◌then◌else◌, get_elem?, Bool-cases,
}
use hami_vnpu_core_hhy.Common.Words.{u64_max, add_u64}
use hami_vnpu_core_hhy.Shmem.{GlobalRegistry, GlobalManagerSlot}
use hami_vnpu_core_hhy.Manager.Plan.Floats.{Float}
use hami_vnpu_core_hhy.Manager.Plan.{
  ContainerManager, anchor_from, calculate_fair_share, max_tokens,
}

-- The slot of an active manager, with its average.
abbrev pub IsActiveSlot : List GlobalManagerSlot → ℕ → ℕ → Type 0
IsActiveSlot slots i avg =
    (slot : GlobalManagerSlot) × (get_elem? slots i ≡ some slot)
    × (slot.is_active ≡ 1)
    × (slot.avg_kernel_time ≡ avg)

-- The anchor that the loop leaves is `start` or an active manager's average, and at least both.
record IsAnchor (slots : List GlobalManagerSlot) (start anchor : ℕ) : Type 0 where
  start_le : start ≤ anchor
  avg_le : (i avg : ℕ) → IsActiveSlot slots i avg → avg ≤ anchor
  met : (anchor ≡ start) ⊎ ((i : ℕ) × IsActiveSlot slots i anchor)

abbrev raised : GlobalManagerSlot → ℕ → ℕ
raised slot anchor =
    if slot.is_active == 1
    then if ltb anchor slot.avg_kernel_time then slot.avg_kernel_time else anchor
    else anchor

raised_cases :
    (slot : GlobalManagerSlot) (start : ℕ)
    → (start ≤ raised slot start)
      × ((raised slot start ≡ start)
          ⊎ ((slot.is_active ≡ 1) × (slot.avg_kernel_time ≡ raised slot start)))
raised_cases slot start = ground arith

raised-active :
    (slot : GlobalManagerSlot) (start : ℕ)
    → slot.is_active ≡ 1
    → slot.avg_kernel_time ≤ raised slot start
raised-active slot start on = ground arith

IsAnchor-cons :
    (slot : GlobalManagerSlot) (slots : List GlobalManagerSlot) (start anchor : ℕ)
    → IsAnchor slots (raised slot start) anchor
    → IsAnchor (slot ∷ slots) start anchor
IsAnchor-cons slot slots start anchor h = record {
  start_le = omega (arith, raised_cases slot start, h.start_le);
  avg_le = avg_le;
  met = elim h.met [
    | inr (i, at) ↦ inr (suc i, at)
    | inl e ↦ elim (raised_cases slot start).1 [
      | inl kept ↦ inl (omega arith)
      | inr (on, taken) ↦ inr (0, (slot, refl, on, omega arith))
    ]
  ];
}
  where
    avg_le : (i avg : ℕ) → IsActiveSlot (slot ∷ slots) i avg → avg ≤ anchor
    avg_le zero avg (x, at, on, e) = ground (arith, raised-active slot start, h.start_le)
    avg_le (suc i) avg at = h.avg_le i avg at

anchor_from-IsAnchor :
    (slots : List GlobalManagerSlot) (start : ℕ) → IsAnchor slots start (anchor_from slots start)
unfolding anchor_from
anchor_from-IsAnchor [] start = record {
  start_le = omega arith;
  avg_le = λ i avg (x, at, on, e). absurd (cc at);
  met = inl refl;
}
anchor_from-IsAnchor (slot ∷ slots) start =
    IsAnchor-cons slot slots start _ (anchor_from-IsAnchor slots (raised slot start))

-- The run and the time limit, from the product of the tokens and the average.
run_bounds :
    (product : ℕ)
    → 1 ≤ product
    → (let run = min product u64_max in
        ((1 ≤ max run 1) × (max run 1 ≡ min product (2 ^ 64 - 1)))
        × ((add_u64 (add_u64 run (run / 2)) 50_000 ≡ max run 1 + max run 1 / 2 + 50_000)
            ⊎ (2 ^ 64 ≤ max run 1 + max run 1 / 2 + 50_000)))
run_bounds product some_run = ground arith

product_pos : (a b : ℕ) → 1 ≤ a → 1 ≤ b → 1 ≤ a * b
product_pos a b ha hb = grind arith

-- A plan deals 1 to 2,000,000 tokens, before and after the scaling, and a run of at least 1 µs,
-- namely the average time for each token, capped at 2 ^ 64 - 1. Where one and a half times that
-- and 50 ms fit in a word, the time limit is that. The anchor is at least 1 and at least the
-- average of every active manager, and it is 1 or one of these. Without a fixed share there is no
-- rest.
pub calculate_fair_share_bounds :
    (fl : Float) (m : ContainerManager fl) (g : GlobalRegistry)
    → (let plan = calculate_fair_share fl m g in
        ((1 ≤ plan.tokens) × (plan.tokens ≤ max_tokens))
        × ((1 ≤ plan.base_tokens) × (plan.base_tokens ≤ max_tokens))
        × ((1 ≤ plan.expected_run_us)
            × (plan.expected_run_us ≡ min (plan.tokens * max m.current_avg_us 1) (2 ^ 64 - 1)))
        × ((plan.time_limit_us ≡ plan.expected_run_us + plan.expected_run_us / 2 + 50_000)
            ⊎ (2 ^ 64 ≤ plan.expected_run_us + plan.expected_run_us / 2 + 50_000))
        × ((1 ≤ plan.anchor_speed_us)
            × ((i avg : ℕ) → IsActiveSlot g.slots i avg → avg ≤ plan.anchor_speed_us)
            × ((plan.anchor_speed_us ≡ 1)
                ⊎ ((i : ℕ) × IsActiveSlot g.slots i plan.anchor_speed_us)))
        × ((m.fixed_share_ratio ≡ true) ⊎ (plan.rest_wait_us ≡ 0)))
unfolding calculate_fair_share
calculate_fair_share_bounds fl m g =
    let anchor = anchor_from-IsAnchor g.slots 1 in
    let plan = calculate_fair_share fl m g in
    let run =
      run_bounds (plan.tokens * max m.current_avg_us 1)
        (product_pos plan.tokens (max m.current_avg_us 1) (omega arith) (omega arith)) in
    (
      (omega arith, omega arith),
      (omega arith, omega arith),
      run.0,
      run.1,
      (anchor.start_le, anchor.avg_le, anchor.met),
      elim (Bool-cases m.fixed_share_ratio) [
        | inl fixed ↦ inl fixed
        | inr free ↦ inr (rw (free, calculate_fair_share))
      ],
    )
