-- ===== src/Manager/Round/Aggregate.antt =====
-- The aggregate of the reports covers each of them, and is no longer than it has to be.
use hami_vnpu_core_hhy.Common.{
  [], ℕ, ◌+◌, ◌-◌, ◌^◌, ◌≤◌, ◌<◌, ◌≡◌, refl, sym, ap, ◌∙◌, ◌⊎◌, inl, inr, List, ◌∷◌, arith, ltb,
  Bool-cases,
}
use hami_vnpu_core_hhy.Common.Words.{u64_max, add_u64}
use mathlib.Core.Path.{subst}
use hami_vnpu_core_hhy.Shmem.{LocalContainerShmem, LocalWorkerReport}
use hami_vnpu_core_hhy.Manager.Round.{
  Span, takes_part, widen, aggregate_loop, aggregate_local_times,
}

-- The report stands in the list, is about the batch, and has a time that does not wrap.
abbrev pub Reports : ℕ → LocalWorkerReport → List LocalWorkerReport → Type 0
Reports batch_id r [] = ⊥
Reports batch_id r (x ∷ xs) =
    ((x ≡ r) × (r.batch_id ≡ batch_id) × (0 < r.duration_us)) ⊎ Reports batch_id r xs

abbrev pub NoWrap : List LocalWorkerReport → Type 0
NoWrap [] = Unit {0}
NoWrap (r ∷ rs) = (r.cpu_start_us + r.duration_us < 2 ^ 64) × NoWrap rs

-- What the loop adds to the span that it starts with.
record Grows (batch_id : ℕ) (rs : List LocalWorkerReport) (s s' : Span) : Type 0 where
  start_le : s'.global_start ≤ s.global_start
  end_le : s.global_end ≤ s'.global_end
  count : s.participants ≤ s'.participants
  covers :
      (r : LocalWorkerReport)
      → Reports batch_id r rs
      → (s'.global_start ≤ r.cpu_start_us)
        × (r.cpu_start_us + r.duration_us ≤ s'.global_end)
        × (0 < s'.participants)
  start_met :
      (s'.global_start ≡ s.global_start)
      ⊎ ((r : LocalWorkerReport) × Reports batch_id r rs × (s'.global_start ≡ r.cpu_start_us))
  end_met :
      (s'.global_end ≡ s.global_end)
      ⊎ ((r : LocalWorkerReport) × Reports batch_id r rs
          × (s'.global_end ≡ r.cpu_start_us + r.duration_us))
  none_met : (s'.participants ≡ s.participants) ⊎ ((r : LocalWorkerReport) × Reports batch_id r rs)

aggregate_loop-Grows :
    (batch_id : ℕ) (rs : List LocalWorkerReport) (s : Span)
    → NoWrap rs
    → Grows batch_id rs s (aggregate_loop batch_id rs s)
unfolding aggregate_loop
aggregate_loop-Grows batch_id [] s nw = record {
  start_le = omega arith;
  end_le = omega arith;
  count = omega arith;
  covers = λ r h. absurd h;
  start_met = inl refl;
  end_met = inl refl;
  none_met = inl refl;
}
aggregate_loop-Grows batch_id (x ∷ rs) s nw = elim (Bool-cases (takes_part batch_id x)) [
  | inr skips ↦
      let g = aggregate_loop-Grows batch_id rs s nw.1 in
      rw skips (record {
        start_le = g.start_le;
        end_le = g.end_le;
        count = g.count;
        covers = λ r h. elim h [
          | inl (same, batch, dur) ↦
              let dur_x : 0 < x.duration_us = rw (ap (λ q. q.duration_us) same) dur in
              let batch_x : x.batch_id ≡ batch_id = ap (λ q. q.batch_id) same ∙ batch in
              absurd (ground arith)
          | inr later ↦ g.covers r later
        ];
        start_met = elim g.start_met [ inl e ↦ inl e | inr (r, h, e) ↦ inr (r, inr h, e) ];
        end_met = elim g.end_met [ inl e ↦ inl e | inr (r, h, e) ↦ inr (r, inr h, e) ];
        none_met = elim g.none_met [ inl e ↦ inl e | inr (r, h) ↦ inr (r, inr h) ];
      })
  | inl counts ↦
      let w : Span = widen s x in
      let g = aggregate_loop-Grows batch_id rs w nw.1 in
      let here : Reports batch_id x (x ∷ rs) = inl (refl, ground arith, ground arith) in
      let whole : add_u64 x.cpu_start_us x.duration_us ≡ x.cpu_start_us + x.duration_us =
        omega (arith, nw.0) in
      rw counts (record {
        start_le = ground (arith, g.start_le);
        end_le = ground (arith, g.end_le);
        count = omega (arith, g.count);
        covers = λ r h. elim h [
          | inl (same, batch, dur) ↦
              let at_start : r.cpu_start_us ≡ x.cpu_start_us =
                ap (λ q. q.cpu_start_us) (sym same) in
              let at_end : r.duration_us ≡ x.duration_us = ap (λ q. q.duration_us) (sym same) in
              (ground (arith, g.start_le), ground (arith, g.end_le, whole), omega (arith, g.count))
          | inr later ↦ g.covers r later
        ];
        start_met = elim g.start_met [
          | inr (r, h, e) ↦ inr (r, inr h, e)
          | inl e ↦ elim (Bool-cases (ltb x.cpu_start_us s.global_start)) [
            | inl less ↦ inr (x, here, e ∙ rw less)
            | inr not_less ↦ inl (e ∙ rw not_less)
          ]
        ];
        end_met = elim g.end_met [
          | inr (r, h, e) ↦ inr (r, inr h, e)
          | inl e ↦ elim (Bool-cases (ltb s.global_end (add_u64 x.cpu_start_us x.duration_us))) [
            | inl more ↦ inr (x, here, e ∙ rw more whole)
            | inr not_more ↦ inl (e ∙ rw not_more)
          ]
        ];
        none_met = inr (x, here);
      })
]

Reports-NoWrap :
    (batch_id : ℕ) (r : LocalWorkerReport) (rs : List LocalWorkerReport)
    → Reports batch_id r rs
    → NoWrap rs
    → (r.cpu_start_us + r.duration_us < 2 ^ 64) × (0 < r.duration_us)
Reports-NoWrap batch_id r [] h nw = absurd h
Reports-NoWrap batch_id r (x ∷ rs) (inl (same, batch, dur)) nw =
    (subst (λ (q : LocalWorkerReport). q.cpu_start_us + q.duration_us < 2 ^ 64) same nw.0, dur)
Reports-NoWrap batch_id r (x ∷ rs) (inr later) nw = Reports-NoWrap batch_id r rs later nw.1

-- Where no report is about the batch with a time, the aggregate is (0, 0). Otherwise it is the
-- time from the earliest start to the latest end of the reports about the batch, each of which
-- lies within that time, and the tokens that were counted. No end of a report is taken to wrap.
pub aggregate_local_times_lem :
    (local : LocalContainerShmem) (batch_id tokens : ℕ)
    → NoWrap local.reports
    → (((r : LocalWorkerReport) → ¬ Reports batch_id r local.reports)
        × (aggregate_local_times local batch_id tokens ≡ (0, 0)))
      ⊎ ((first : LocalWorkerReport) × (last : LocalWorkerReport) × Reports batch_id first
            local.reports
          × Reports batch_id last local.reports
          × (aggregate_local_times local batch_id tokens
              ≡ (last.cpu_start_us + last.duration_us - first.cpu_start_us, tokens))
          × ((r : LocalWorkerReport)
              → Reports batch_id r local.reports
              → (first.cpu_start_us ≤ r.cpu_start_us)
                × (r.cpu_start_us + r.duration_us ≤ last.cpu_start_us + last.duration_us)))
unfolding aggregate_local_times
aggregate_local_times_lem local batch_id tokens nw =
    let zero_span : Span = record { global_start = u64_max; global_end = 0; participants = 0 } in
    let g = aggregate_loop-Grows batch_id local.reports zero_span nw in
    elim g.none_met [
      | inl none_counted ↦ inl (λ r h. omega (arith, g.covers r h), rw none_counted)
      | inr (r0, h0) ↦
          let bound = Reports-NoWrap batch_id r0 local.reports h0 nw in
          elim g.start_met [
            | inl e ↦ absurd (omega (arith, g.covers r0 h0, bound))
            | inr (first, h1, e1) ↦ elim g.end_met [
              | inl e ↦ absurd (omega (arith, g.covers r0 h0, bound))
              | inr (last, h2, e2) ↦ inr (
                first,
                last,
                h1,
                h2,
                ground (arith, g.covers r0 h0, bound),
                λ r h. omega (arith, g.covers r h),
              )
            ]
          ]
    ]
