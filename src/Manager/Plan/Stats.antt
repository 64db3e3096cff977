-- ===== src/Manager/Plan/Stats.antt =====
-- What the statistics of a round change.
use hami_vnpu_core_hhy.Common.{
  ◌*◌, ◌-◌, leb, true, ℕ, ◌/◌, ◌^◌, ◌≤◌, ◌<◌, ◌≡◌, ◌≢◌, refl, max, min, ◌⊎◌, some, arith, get_elem?,
  ◌==◌, false,
}
use hami_vnpu_core_hhy.Common.Words.{saturating_mul}
use hami_vnpu_core_hhy.Shmem.{GlobalRegistry, GlobalManagerSlot}
use hami_vnpu_core_hhy.Manager.Baton.{set_slot}
use hami_vnpu_core_hhy.Manager.Baton.Slots.{set_slot_self, set_slot_ne}
use hami_vnpu_core_hhy.Manager.Plan.Floats.{Float}
use hami_vnpu_core_hhy.Manager.Plan.{ContainerManager, update_local_stats, mixed_avg}

-- `avg` is `time`, cut to the range from `lower` to `upper`.
abbrev pub IsCut : ℕ → ℕ → ℕ → ℕ → Type 0
IsCut lower upper time avg =
    (lower ≤ upper)
    × (((time < lower) × (avg ≡ lower))
        ⊎ (((upper < time) × (avg ≡ upper)) ⊎ ((lower ≤ time) × (time ≤ upper) × (avg ≡ time))))

-- Where the slot of the manager lies in the registry and its average fits in 64 bits, the
-- statistics of a round with tokens do not panic: the time per token is cut to the range from a
-- quarter of the average, at least 1, to four times it, at least 1 and at most 2 ^ 64 - 1. The
-- new average is the old one and that time, with the weights 1 - alpha and alpha. It is published
-- in the manager's own slot with a heartbeat, and no other slot and nothing else of the manager
-- changes.
pub update_local_stats_lem :
    (fl : Float) (now duration_us tokens : ℕ) (m : ContainerManager fl) (g : GlobalRegistry)
    (slot : GlobalManagerSlot)
    → tokens ≢ 0
    → m.current_avg_us < 2 ^ 64
    → get_elem? g.slots m.my_global_idx ≡ some slot
    → (avg : ℕ) × (m' : ContainerManager fl) × (g' : GlobalRegistry) × (update_local_stats fl now
          duration_us tokens m g
        ≡ some (m', g'))
      × IsCut
          (max (m.current_avg_us / 4) 1)
          (max (min (m.current_avg_us * 4) (2 ^ 64 - 1)) 1)
          (duration_us / tokens)
          avg
      × (m' ≡ record m {
        current_avg_us = fl.to_word (
            fl.add
              (fl.mul (fl.from_word m.current_avg_us) (fl.sub (fl.decimal 10 1) m.ema_alpha))
              (fl.mul (fl.from_word avg) m.ema_alpha));
      })
      × (get_elem? g'.slots m.my_global_idx
          ≡ some (record slot {
            avg_kernel_time = fl.to_word (
                fl.add
                  (fl.mul (fl.from_word m.current_avg_us) (fl.sub (fl.decimal 10 1) m.ema_alpha))
                  (fl.mul (fl.from_word avg) m.ema_alpha));
            last_heartbeat = now;
          }))
      × ((i : ℕ) → m.my_global_idx ≢ i → get_elem? g'.slots i ≡ get_elem? g.slots i)
unfolding update_local_stats
update_local_stats_lem fl now duration_us tokens m g slot some_tokens word at =
    let lower : ℕ = max (m.current_avg_us / 4) 1 in
    let upper : ℕ = max (saturating_mul m.current_avg_us 4) 1 in
    let avg : ℕ = min (max (duration_us / tokens) lower) upper in
    let counted : (tokens == 0) ≡ false = ground arith in
    let ordered : leb lower upper ≡ true = ground arith in
    let write : GlobalManagerSlot → GlobalManagerSlot =
      λ slot. record slot { avg_kernel_time = mixed_avg fl m avg; last_heartbeat = now } in
    (
      avg,
      record m { current_avg_us = mixed_avg fl m avg },
      set_slot g m.my_global_idx write,
      rw (update_local_stats, counted, ordered),
      omega arith,
      refl,
      set_slot_self g write m.my_global_idx slot at,
      λ i ne. set_slot_ne g write m.my_global_idx i ne,
    )
