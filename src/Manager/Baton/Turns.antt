-- ===== src/Manager/Baton/Turns.antt =====
-- When a manager that waits for its turn takes it.
use hami_vnpu_core_hhy.Common.{
  [], ℕ, ◌+◌, ◌<◌, ◌≡◌, refl, ◌≢◌, ◌⊎◌, inl, inr, Bool, true, false, List, ◌∷◌, arith, ◌==◌,
  Bool-cases,
}
use hami_vnpu_core_hhy.Common.Words.{as_u32}
use hami_vnpu_core_hhy.Shmem.{GlobalRegistry}
use hami_vnpu_core_hhy.Manager.Baton.{
  TurnRound, wait_for_global_turn, Shared, Seen, is_active_manager, set_slot, turn_round,
  global_watchdog_timeout_us,
}

-- The lock's time stamp is older than the watchdog allows.
abbrev pub IsStale : ℕ → GlobalRegistry → Type 0
IsStale now g = g.lock_timestamp + global_watchdog_timeout_us < now

-- The round runs with no change of the owner by others.
abbrev pub quiet : GlobalRegistry → Seen
quiet g = record { at_claim = g.lock_owner; at_steal = g.lock_owner; at_recheck = g.lock_owner }

abbrev pub has_turn : ℕ → Shared → Bool
has_turn me s = s.global.lock_owner == as_u32 me

-- With no interference, a round of the wait returns exactly if the manager has the turn already,
-- or the recorded owner is not an active manager, or the lock's time stamp is older than the
-- watchdog allows; and then the manager is the owner. Where the round does not return, it changes
-- nothing, the heartbeats included.
pub turn_round_lem :
    (me now : ℕ) (s : Shared)
    → (((turn_round me now (quiet s.global) s).0 ≡ true)
        × ((s.global.lock_owner ≡ as_u32 me)
            ⊎ ((is_active_manager s.global.slots s.global.lock_owner ≡ false)
                ⊎ IsStale now s.global))
        × ((turn_round me now (quiet s.global) s).1.global.lock_owner ≡ as_u32 me))
      ⊎ (((turn_round me now (quiet s.global) s).0 ≡ false)
          × (s.global.lock_owner ≢ as_u32 me)
          × (is_active_manager s.global.slots s.global.lock_owner ≡ true)
          × (¬ IsStale now s.global)
          × ((turn_round me now (quiet s.global) s).1 ≡ s))
unfolding turn_round set_slot
turn_round_lem me now s = ground arith

-- A round that does not return leaves the pod's shared memory alone, whatever the owner does
-- meanwhile.
turn_round-local :
    (me now : ℕ) (seen : Seen) (s : Shared)
    → (turn_round me now seen s).0 ≡ false
    → (turn_round me now seen s).1.local ≡ s.local
unfolding turn_round
turn_round-local me now seen s h = ground arith

-- As long as the wait for the turn goes on, the pod's shared memory stays as it was, its manager
-- heartbeat included, whatever the managers of other pods do.
pub wait_for_global_turn-local :
    (me : ℕ) (rounds : List TurnRound) (s : Shared)
    → (wait_for_global_turn me rounds s).0 ≡ false
    → (wait_for_global_turn me rounds s).1.local ≡ s.local
unfolding wait_for_global_turn
wait_for_global_turn-local me [] s h = refl
wait_for_global_turn-local me (r ∷ rounds) s h =
    let met : Shared = record s { global = r.global } in
    elim (Bool-cases (turn_round me r.now r.seen met).0) [
      | inl done ↦ ground arith
      | inr more ↦ ground (
        arith,
        turn_round-local me r.now r.seen met more,
        wait_for_global_turn-local me rounds (turn_round me r.now r.seen met).1,
      )
    ]
