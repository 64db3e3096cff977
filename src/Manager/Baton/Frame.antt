-- ===== src/Manager/Baton/Frame.antt =====
-- What leaves the rotation of the queue alone: writes that no entry and no activity depends on.
use hami_vnpu_core_hhy.Common.{
  [], ℕ, suc, ◌+◌, ◌%◌, ◌<◌, ◌≡◌, refl, ap, ◌∙◌, true, some, List, ◌∷◌, ◌++◌, arith, length, ◌==◌,
  Bool-cases, Option-cases, inl, inr, get_elem?, length-set, length-append,
}
use hami_vnpu_core_hhy.Common.Words.{as_u32}
use mathlib.Core.Path.{ap₂}
use hami_vnpu_core_hhy.Shmem.{GlobalRegistry, GlobalManagerSlot, max_managers}
use hami_vnpu_core_hhy.Manager.Baton.{
  join_global_queue, slot_active, is_active_manager, set_slot, update_heartbeat, Shared,
}
use hami_vnpu_core_hhy.Manager.Baton.Slots.{set_slot_self, set_slot_ne}
use hami_vnpu_core_hhy.Manager.Baton.Rotation.{
  Rotation, AllActive, AllActive-append, window, window-set, is_active-lt,
}

-- Who was active still is.
abbrev pub StayActive : GlobalRegistry → GlobalRegistry → Type 0
StayActive g g' = (m : ℕ) → is_active_manager g.slots m ≡ true → is_active_manager g'.slots m ≡ true

AllActive-StayActive :
    (g g' : GlobalRegistry) (ms : List ℕ)
    → StayActive g g'
    → AllActive g.slots ms
    → AllActive g'.slots ms
AllActive-StayActive g g' [] same h = tt
AllActive-StayActive g g' (m ∷ ms) same h = (same m h.0, AllActive-StayActive g g' ms same h.1)

-- The same queue, with its two ends and its owner.
pub record SameQueue (g g' : GlobalRegistry) : Type 0 where
  pub owner : g'.lock_owner ≡ g.lock_owner
  pub head : g'.queue_head ≡ g.queue_head
  pub tail : g'.queue_tail ≡ g.queue_tail
  pub queue : g'.queue ≡ g.queue

pub Rotation-SameQueue :
    (me : ℕ) (waiting : List ℕ) (g g' : GlobalRegistry)
    → SameQueue g g'
    → StayActive g g'
    → Rotation me waiting g
    → Rotation me waiting g'
Rotation-SameQueue me waiting g g' q same r = record {
  laid_out = ap length q.queue ∙ r.laid_out;
  head_word = omega (arith, q.head, r.head_word);
  tail = omega (arith, q.tail, q.head, r.tail);
  entries = ap₂ (λ l h. window l (h + 1) (length waiting)) q.queue q.head ∙ r.entries;
  room = r.room;
  owner = q.owner ∙ r.owner;
  me_active = same me r.me_active;
  all_active = AllActive-StayActive g g' waiting same r.all_active;
}

pub slot_active_at :
    (slots slots' : List GlobalManagerSlot) (m : ℕ)
    → get_elem? slots' m ≡ get_elem? slots m
    → is_active_manager slots' m ≡ is_active_manager slots m
unfolding is_active_manager slot_active
slot_active_at slots slots' m e = rw (is_active_manager, slot_active, e)

pub slot_active_as :
    (slots slots' : List GlobalManagerSlot) (m : ℕ) (slot slot' : GlobalManagerSlot)
    → get_elem? slots m ≡ some slot
    → get_elem? slots' m ≡ some slot'
    → slot'.is_active ≡ slot.is_active
    → is_active_manager slots' m ≡ is_active_manager slots m
unfolding is_active_manager slot_active
slot_active_as slots slots' m slot slot' e e' same =
    rw (is_active_manager, slot_active, e, e', same)

-- A write to a slot that keeps its activity.
pub set_slot-active :
    (g : GlobalRegistry) (i : ℕ) (f : GlobalManagerSlot → GlobalManagerSlot)
    → ((slot : GlobalManagerSlot) → (f slot).is_active ≡ slot.is_active)
    → (m : ℕ) → is_active_manager (set_slot g i f).slots m ≡ is_active_manager g.slots m
unfolding set_slot
set_slot-active g i f keeps m = elim (Bool-cases (i == m)) [
  | inr other ↦ slot_active_at g.slots (set_slot g i f).slots m (set_slot_ne g f i m (ground arith))
  | inl here ↦ elim (Option-cases (get_elem? g.slots i)) [
    | inl out ↦ rw (set_slot, out)
    | inr (slot, e) ↦
        let same : i ≡ m = ground arith in
        slot_active_as g.slots (set_slot g i f).slots m slot (f slot) (rw (← same) e)
          (rw (← same) (set_slot_self g f i slot e)) (keeps slot)
  ]
]

-- A write to a slot keeps the queue.
pub set_slot-SameQueue :
    (g : GlobalRegistry) (i : ℕ) (f : GlobalManagerSlot → GlobalManagerSlot)
    → SameQueue g (set_slot g i f)
unfolding set_slot
set_slot-SameQueue g i f = elim (Option-cases (get_elem? g.slots i)) [
  | inl out ↦ rw (set_slot, out) (record { owner = refl; head = refl; tail = refl; queue = refl })
  | inr (slot, e) ↦
      rw (set_slot, e) (record { owner = refl; head = refl; tail = refl; queue = refl })
]

-- A heartbeat leaves the rotation alone.
pub update_heartbeat-Rotation :
    (me now i : ℕ) (waiting : List ℕ) (s : Shared)
    → Rotation me waiting s.global
    → Rotation me waiting (update_heartbeat i now s).global
unfolding update_heartbeat
update_heartbeat-Rotation me now i waiting s r =
    let g : GlobalRegistry = record s.global { lock_timestamp = now } in
    let beat : GlobalManagerSlot → GlobalManagerSlot =
      λ slot. record slot { last_heartbeat = now } in
    Rotation-SameQueue me waiting g (set_slot g i beat) (set_slot-SameQueue g i beat)
      (λ m on. set_slot-active g i beat (λ slot. refl) m ∙ on)
      (Rotation-SameQueue me waiting s.global g
        (record { owner = refl; head = refl; tail = refl; queue = refl }) (λ m on. on) r)

-- An active manager that queues itself waits last, if there is room.
pub join_global_queue-Rotation :
    (me m : ℕ) (waiting : List ℕ) (g : GlobalRegistry)
    → Rotation me waiting g
    → is_active_manager g.slots m ≡ true
    → length waiting + 1 < max_managers
    → Rotation me (waiting ++ (m ∷ [])) (join_global_queue m g)
unfolding join_global_queue
join_global_queue-Rotation me m waiting g r on fits =
    let small = is_active-lt g m on in
    let word : as_u32 m ≡ m = omega arith in
    let longer : length (waiting ++ (m ∷ [])) ≡ suc (length waiting) =
      length-append waiting (m ∷ []) ∙ omega arith in
    record {
      laid_out = length-set g.queue (g.queue_tail % max_managers) (as_u32 m) ∙ r.laid_out;
      head_word = r.head_word;
      tail = omega (arith, r.tail, longer);
      entries = rw longer (
          window-set g.queue (as_u32 m) (length waiting) (g.queue_head + 1)
            (g.queue_tail % max_managers) r.laid_out r.room (omega (arith, r.tail))
          ∙ ap₂ (λ xs k. xs ++ (k ∷ [])) r.entries word);
      room = omega (arith, longer);
      owner = r.owner;
      me_active = r.me_active;
      all_active = AllActive-append g waiting m r.all_active on;
    }
