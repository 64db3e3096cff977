-- ===== src/Manager/Baton.antt =====
-- crates/limiter/src/manager.rs: the global registry of managers and the turns that they take:
-- the registration of a slot, the queue, one round of the wait for the turn, the heartbeat, the
-- hand-over and the drop of a manager. `me` is `my_global_idx`, below `MAX_MANAGERS` since
-- registration gave it. `now` is the clock.
pub mod Handover
pub mod Rotation
pub mod Turns
pub mod Slots
pub mod Frame
pub mod Boot
pub mod Pods
use hami_vnpu_core_hhy.Common.{
  [], ℕ, zero, suc, ◌+◌, ◌-◌, ◌%◌, Bool, true, false, ◌&&◌, Option, none, some, List, ◌∷◌, ltb,
  ◌==◌, if◌then◌else◌, ◌>>=◌, get_elem?, set,
}
use hami_vnpu_core_hhy.Common.Words.{inc_u32, as_u32, negsuc}
use hami_vnpu_core_hhy.Shmem.{GlobalRegistry, GlobalManagerSlot, LocalContainerShmem, max_managers}

abbrev pub global_watchdog_timeout_us : ℕ
global_watchdog_timeout_us = 1_000_000

abbrev pub default_avg_us : ℕ
default_avg_us = 500

-- The slot that a registration fills.
abbrev pub claimed_slot : ℕ → ℕ → GlobalManagerSlot → GlobalManagerSlot
claimed_slot pid now slot = record slot {
  is_active = 1;
  pid = pid;
  avg_kernel_time = default_avg_us;
  last_heartbeat = now;
}

-- The loop of `register_global_slot` over the slots from index `i` on.
unfoldable pub register_from :
    ℕ → ℕ → ℕ → List GlobalManagerSlot → Option (ℕ × List GlobalManagerSlot)
register_from pid now i [] = none
register_from pid now i (slot ∷ slots) =
    let rest = register_from pid now (i + 1) slots in
    if slot.is_active == 0
    then some (i, claimed_slot pid now slot ∷ slots)
    else (rest >>= λ (j, slots'). some (j, slot ∷ slots'))

unfoldable pub register_global_slot : GlobalRegistry → ℕ → ℕ → Option (ℕ × GlobalRegistry)
unfolding register_from
register_global_slot g pid now =
    register_from pid now 0 g.slots >>= λ (i, slots). some (i, record g { slots = slots })

unfoldable pub join_global_queue : ℕ → GlobalRegistry → GlobalRegistry
join_global_queue me g = record g {
  queue_tail = inc_u32 g.queue_tail;
  queue = set g.queue (g.queue_tail % max_managers) (as_u32 me);
}

-- `is_active == 1` of a slot; an index out of range is no active slot.
unfoldable pub slot_active : List GlobalManagerSlot → ℕ → Bool
slot_active slots i = elim (get_elem? slots i) [ none ↦ false | some slot ↦ slot.is_active == 1 ]

unfoldable pub is_active_manager : List GlobalManagerSlot → ℕ → Bool
unfolding slot_active
is_active_manager slots i = ltb i max_managers && slot_active slots i

-- An entry of the queue, whose array has `MAX_MANAGERS` of them.
unfoldable pub queue_entry : List ℕ → ℕ → ℕ
queue_entry queue i = elim (get_elem? queue (i % max_managers)) [ none ↦ 0 | some v ↦ v ]

-- The scan of `pass_baton`: at most `n` entries from `next_head` on, for one of an active
-- manager. The result is the head to commit and the next owner.
unfoldable pub find_next : GlobalRegistry → ℕ → ℕ → ℕ → ℕ × ℕ
find_next g me zero next_head = (next_head, as_u32 me)
find_next g me (suc n) next_head =
    let candidate = queue_entry g.queue next_head in
    let rest = find_next g me n (next_head + 1) in
    if is_active_manager g.slots candidate then (next_head, candidate) else rest

unfoldable pub pass_baton : ℕ → GlobalRegistry → GlobalRegistry
unfolding join_global_queue find_next
pass_baton me g0 =
    let g = join_global_queue me g0 in
    let (next_head, next_manager_idx) = find_next g me max_managers (g.queue_head + 1) in
    record g {
      queue_head = as_u32 next_head;
      lock_owner = next_manager_idx;
      signal_counter = inc_u32 g.signal_counter;
    }

-- What a manager writes to: the registry, and its pod's shared memory.
pub record Shared : Type 0 where
  pub global : GlobalRegistry
  pub local : LocalContainerShmem

unfoldable pub set_slot :
    GlobalRegistry → ℕ → (GlobalManagerSlot → GlobalManagerSlot) → GlobalRegistry
set_slot g i f = elim (get_elem? g.slots i) as (λ _. GlobalRegistry) [
  | none ↦ g
  | some slot ↦ record g { slots = set g.slots i (f slot) }
]

unfoldable pub update_heartbeat : ℕ → ℕ → Shared → Shared
unfolding set_slot
update_heartbeat me now s = record {
  global =
      set_slot (record s.global { lock_timestamp = now }) me
        (λ slot. record slot { last_heartbeat = now });
  local = record s.local { manager_heartbeat = now };
}

abbrev pub set_owner : ℕ → Shared → Shared
set_owner owner s = record s { global = record s.global { lock_owner = owner } }

-- The values of `lock_owner` at the accesses of a round after the first.
pub record Seen : Type 0 where
  pub at_claim : ℕ
  pub at_steal : ℕ
  pub at_recheck : ℕ

-- The look at the owner before the sleep.
abbrev pub recheck_owner : ℕ → Seen → Shared → Bool × Shared
recheck_owner me seen s = (seen.at_recheck == as_u32 me, set_owner seen.at_recheck s)

-- The last part of a round: the watchdog, and the look at the owner before the sleep.
unfoldable pub watchdog_round : ℕ → ℕ → ℕ → Seen → Shared → Bool × Shared
unfolding update_heartbeat
watchdog_round me now owner seen s =
    let last = s.global.lock_timestamp in
    let deposed = record s {
      global =
          if ltb owner max_managers
          then set_slot s.global owner (λ slot. record slot { is_active = 0 })
          else s.global;
    } in
    if ltb last now && ltb global_watchdog_timeout_us (now - last)
    then if seen.at_steal == owner
      then (true, update_heartbeat me now (set_owner (as_u32 me) deposed))
      else recheck_owner me seen deposed
    else recheck_owner me seen s

-- One round of `wait_for_global_turn`: whether it returns with the turn, and what it leaves.
unfoldable pub turn_round : ℕ → ℕ → Seen → Shared → Bool × Shared
unfolding watchdog_round update_heartbeat
turn_round me now seen s =
    let owner = s.global.lock_owner in
    if owner == as_u32 me
    then (true, s)
    else if is_active_manager s.global.slots owner
    then watchdog_round me now owner seen s
    else if seen.at_claim == owner
    then (true, update_heartbeat me now (set_owner (as_u32 me) s))
    else watchdog_round me now owner seen s

-- A round with what it meets: the clock, the registry as other pods have left it, and the owner
-- at the later accesses.
pub record TurnRound : Type 0 where
  pub now : ℕ
  pub global : GlobalRegistry
  pub seen : Seen

-- `wait_for_global_turn`: whether the turn has come when the rounds are over, and what is left.
unfoldable pub wait_for_global_turn : ℕ → List TurnRound → Shared → Bool × Shared
wait_for_global_turn me [] s = (false, s)
wait_for_global_turn me (r ∷ rounds) s =
    let (returned, s') = turn_round me r.now r.seen (record s { global = r.global }) in
    let rest = wait_for_global_turn me rounds s' in if returned then (true, s') else rest

-- `Drop for ContainerManager`.
unfoldable pub drop_manager : ℕ → ℕ → Shared → Shared
unfolding set_slot
drop_manager me my_pid s =
    let g = set_slot s.global me (λ slot. record slot { is_active = 0 }) in
    record {
      global = record g { signal_counter = inc_u32 g.signal_counter };
      local = record s.local {
        manager_pid = if s.local.manager_pid == my_pid then 0 else s.local.manager_pid;
        manager_global_idx = negsuc 0;
      };
    }
