-- ===== src/Manager/Baton/Boot.antt =====
-- How the first turn is taken on a new registry, which `open_global_registry` in
-- crates/limiter/src/shmem/setup.rs leaves zeroed but for the owner.
use hami_vnpu_core_hhy.Common.{
  [], ℕ, zero, suc, ◌<◌, ◌≡◌, refl, sym, ap, ◌∙◌, ◌≢◌, true, List, ◌∷◌, arith, replicate,
}
use hami_vnpu_core_hhy.Common.Words.{as_u32}
use hami_vnpu_core_hhy.Shmem.{GlobalRegistry, GlobalManagerSlot, LocalContainerShmem, max_managers}
use hami_vnpu_core_hhy.Manager.Baton.{
  join_global_queue, is_active_manager, update_heartbeat, Shared, turn_round, pass_baton,
  queue_entry,
}
use hami_vnpu_core_hhy.Manager.Baton.Turns.{quiet}
use hami_vnpu_core_hhy.Manager.Baton.Rotation.{
  Rotation, window, is_active-lt, pass_baton-Rotation, passes,
}
use hami_vnpu_core_hhy.Manager.Baton.Frame.{update_heartbeat-Rotation}

-- A new registry, whose slots are then filled by registrations.
abbrev pub boot : List GlobalManagerSlot → GlobalRegistry
boot slots = record {
  lock_owner = max_managers;
  lock_timestamp = 0;
  queue_head = 0;
  queue_tail = 0;
  queue = replicate max_managers 0;
  slots = slots;
  signal_counter = 0;
}

-- A round of the wait where nobody has the turn.
claims :
    (me now : ℕ) (s : Shared)
    → s.global.lock_owner ≡ max_managers
    → me < max_managers
    → turn_round me now (quiet s.global) s ≡ (
      true,
      update_heartbeat me now (record s { global = record s.global { lock_owner = as_u32 me } }),
    )
unfolding turn_round is_active_manager
claims me now s vacant lt = ground arith

-- The first manager on a new registry has the turn after one round of its wait, and the queue is
-- then in order: its own entry stands at the head, and nobody waits.
pub boot-Rotation :
    (me now : ℕ) (slots : List GlobalManagerSlot) (local : LocalContainerShmem)
    → is_active_manager slots me ≡ true
    → (let s : Shared = record { global = join_global_queue me (boot slots); local = local } in
        ((turn_round me now (quiet s.global) s).0 ≡ true)
        × Rotation me [] (turn_round me now (quiet s.global) s).1.global)
unfolding join_global_queue window
boot-Rotation me now slots local on =
    let small = is_active-lt (boot slots) me on in
    let s : Shared = record { global = join_global_queue me (boot slots); local = local } in
    let owned : Shared = record s { global = record s.global { lock_owner = as_u32 me } } in
    let r : Rotation me [] owned.global = record {
      laid_out = refl;
      head_word = omega arith;
      tail = omega arith;
      entries = refl;
      room = omega arith;
      owner = omega arith;
      me_active = on;
      all_active = tt;
    } in
    rw (claims me now s refl small) (refl, update_heartbeat-Rotation me now me [] owned r)

-- An owner that stands in the queue for itself alone hands the turn to itself for ever.
passes_alone :
    (n me : ℕ) (g : GlobalRegistry) → Rotation me (me ∷ []) g → (passes n g).lock_owner ≡ me
unfolding passes
passes_alone zero me g r = r.owner
passes_alone (suc n) me g r =
    ap (λ o. (passes n (pass_baton o g)).lock_owner) r.owner
    ∙ passes_alone n me (pass_baton me g) (pass_baton-Rotation me (me ∷ []) g r)

-- Two managers start on a new registry: the second one, `me`, queues itself behind `other` and
-- claims the turn first. The claim does not take its entry out of the queue, so the head stands
-- on the entry of `other` as if that had been served: after any number of hand-overs the turn is
-- still with `me`, and `other`, which is active and waits, never has it.
pub boot_starves :
    (me other now n : ℕ) (slots : List GlobalManagerSlot) (local : LocalContainerShmem)
    → me ≢ other
    → is_active_manager slots me ≡ true
    → is_active_manager slots other ≡ true
    → (let s : Shared = record {
      global = join_global_queue me (join_global_queue other (boot slots));
      local = local;
    } in
        ((turn_round me now (quiet s.global) s).0 ≡ true)
        × ((passes n (turn_round me now (quiet s.global) s).1.global).lock_owner ≡ me)
        × ((passes n (turn_round me now (quiet s.global) s).1.global).lock_owner ≢ other))
unfolding join_global_queue window queue_entry
boot_starves me other now n slots local apart on on' =
    let small = is_active-lt (boot slots) me on in
    let s : Shared = record {
      global = join_global_queue me (join_global_queue other (boot slots));
      local = local;
    } in
    let owned : Shared = record s { global = record s.global { lock_owner = as_u32 me } } in
    let r : Rotation me (me ∷ []) owned.global = record {
      laid_out = refl;
      head_word = omega arith;
      tail = omega arith;
      entries = ap (λ m. m ∷ []) (omega arith);
      room = omega arith;
      owner = omega arith;
      me_active = on;
      all_active = (on, tt);
    } in
    let r' = update_heartbeat-Rotation me now me (me ∷ []) owned r in
    rw (claims me now s refl small)
      (refl, passes_alone n me _ r', λ h. apart (sym (passes_alone n me _ r') ∙ h))
