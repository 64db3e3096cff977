-- ===== src/Manager/Baton/Pods/Order.antt =====
-- The order that the steps of the managers keep, and when each of them has the turn.
use hami_vnpu_core_hhy.Common.{
  [], ℕ, suc, ◌<◌, ◌≡◌, refl, sym, ap, ◌∙◌, ◌≢◌, true, some, List, ◌∷◌, ◌++◌, arith, length, set,
  get_elem?, get_elem?-set_ne, inl, inr, length-append, ◌==◌, Bool-cases,
}
use hami_vnpu_core_hhy.Common.Distinct.{
  Distinct, AllBelow, length-le-Distinct, In, In-append_left, In-append_right, split_In,
}
use mathlib.Core.Path.{subst}
use mathlib.Core.Option.{some-injective}
use hami_vnpu_core_hhy.Shmem.{GlobalRegistry, GlobalManagerSlot, max_managers}
use hami_vnpu_core_hhy.Manager.Baton.{
  is_active_manager, slot_active, Shared, pass_baton, register_global_slot, claimed_slot,
  turn_round,
}
use hami_vnpu_core_hhy.Manager.Baton.Turns.{quiet, IsStale}
use hami_vnpu_core_hhy.Manager.Baton.Slots.{register_global_slot_lem}
use hami_vnpu_core_hhy.Manager.Baton.Boot.{boot, boot-Rotation}
use hami_vnpu_core_hhy.Manager.Baton.Rotation.{
  Rotation, next_owner, next_waiting, pass_baton-Rotation, passes, passes-owner, is_active-lt,
}
use hami_vnpu_core_hhy.Manager.Baton.Frame.{
  StayActive, Rotation-SameQueue, slot_active_at, update_heartbeat-Rotation,
  join_global_queue-Rotation,
}
use hami_vnpu_core_hhy.Manager.Baton.Pods.{
  System, Step, registers, joins, beats, looks, hands_on, in_pod, first, Reach, starts, later,
}

-- One manager has the turn, and each other one that has joined waits in the queue.
pub record InOrder (s : System) : Type 0 where
  pub me : ℕ
  pub waiting : List ℕ
  pub rotation : Rotation me waiting s.registry
  pub count : length s.joined ≡ suc (length waiting)
  pub distinct : Distinct s.joined
  pub below : AllBelow max_managers s.joined
  pub members : (m : ℕ) → In m s.joined → In m (me ∷ waiting)

inactive :
    (slots : List GlobalManagerSlot) (m : ℕ) (slot : GlobalManagerSlot)
    → get_elem? slots m ≡ some slot
    → slot.is_active ≡ 0
    → is_active_manager slots m ≢ true
unfolding is_active_manager slot_active
inactive slots m slot e off on = ground arith

registers-StayActive :
    (g g' : GlobalRegistry) (pid now i : ℕ)
    → register_global_slot g pid now ≡ some (i, g')
    → (slots : List GlobalManagerSlot) × (g' ≡ record g { slots = slots }) × StayActive g g'
registers-StayActive g g' pid now i h = elim (register_global_slot_lem g pid now) [
  | inl (full, busy) ↦ absurd (cc (h, full))
  | inr (k, slot, at, free, runs, first) ↦
      let slots : List GlobalManagerSlot = set g.slots k (claimed_slot pid now slot) in
      let same : g' ≡ record g { slots = slots } =
        ap (λ r. r.1) (some-injective _ _ (sym h ∙ runs)) in
      (
        slots,
        same,
        λ m on. elim (Bool-cases (k == m)) [
          | inl here ↦
              let e : k ≡ m = ground arith in absurd (inactive g.slots m slot (rw (← e) at) free on)
          | inr other ↦ rw same (
              slot_active_at g.slots slots m
                (get_elem?-set_ne g.slots k m (claimed_slot pid now slot) (ground arith))
              ∙ on)
        ],
      )
]

looks-same :
    (m now : ℕ) (s : Shared)
    → is_active_manager s.global.slots s.global.lock_owner ≡ true
    → ¬ IsStale now s.global
    → (turn_round m now (quiet s.global) s).1 ≡ s
unfolding turn_round
looks-same m now s on fresh = ground arith

handed-members :
    (me m : ℕ) (waiting : List ℕ)
    → In m (me ∷ waiting)
    → In m (next_owner me waiting ∷ next_waiting me waiting)
handed-members me m [] h = h
handed-members me m (x ∷ ms) (inl e) = inr (In-append_right m ms (me ∷ []) (inl e))
handed-members me m (x ∷ ms) (inr (inl e)) = inl e
handed-members me m (x ∷ ms) (inr (inr h)) = inr (In-append_left m ms (me ∷ []) h)

handed-count : (me : ℕ) (waiting : List ℕ) → length (next_waiting me waiting) ≡ length waiting
handed-count me [] = refl
handed-count me (x ∷ ms) = length-append ms (me ∷ []) ∙ omega arith

owner-active :
    (me : ℕ) (waiting : List ℕ) (g : GlobalRegistry)
    → Rotation me waiting g
    → is_active_manager g.slots g.lock_owner ≡ true
owner-active me waiting g r = rw r.owner r.me_active

Step-InOrder : {s t : System} → Step s t → InOrder s → InOrder t
Step-InOrder {s} (registers pid now i g e) o =
    let (slots, same, stay) = registers-StayActive s.registry g pid now i e in
    record {
      me = o.me;
      waiting = o.waiting;
      rotation =
          Rotation-SameQueue o.me o.waiting s.registry g
            (rw same (record { owner = refl; head = refl; tail = refl; queue = refl })) stay
            o.rotation;
      count = o.count;
      distinct = o.distinct;
      below = o.below;
      members = o.members;
    }
Step-InOrder {s} (joins m on new) o =
    let small = is_active-lt s.registry m on in
    let few = length-le-Distinct max_managers (m ∷ s.joined) (new, o.distinct) (small, o.below) in
    record {
      me = o.me;
      waiting = o.waiting ++ (m ∷ []);
      rotation =
          join_global_queue-Rotation o.me m o.waiting s.registry o.rotation on
            (omega (arith, few, o.count));
      count = omega (arith, o.count, length-append o.waiting (m ∷ []));
      distinct = (new, o.distinct);
      below = (small, o.below);
      members = λ k h. elim h [
        | inl e ↦ inr (In-append_right k o.waiting (m ∷ []) (inl e))
        | inr old ↦ In-append_left k (o.me ∷ o.waiting) (m ∷ []) (o.members k old)
      ];
    }
Step-InOrder {s} (beats m now local) o = record {
  me = o.me;
  waiting = o.waiting;
  rotation = update_heartbeat-Rotation o.me now m o.waiting (in_pod s.registry local) o.rotation;
  count = o.count;
  distinct = o.distinct;
  below = o.below;
  members = o.members;
}
Step-InOrder {s} (looks m now local fresh) o =
    let same =
      looks-same m now (in_pod s.registry local) (owner-active o.me o.waiting s.registry o.rotation)
        fresh in
    record {
      me = o.me;
      waiting = o.waiting;
      rotation = rw same o.rotation;
      count = o.count;
      distinct = o.distinct;
      below = o.below;
      members = o.members;
    }
Step-InOrder {s} hands_on o = record {
  me = next_owner o.me o.waiting;
  waiting = next_waiting o.me o.waiting;
  rotation =
      subst
        (λ k.
          Rotation (next_owner o.me o.waiting) (next_waiting o.me o.waiting)
            (pass_baton k s.registry))
        (sym o.rotation.owner) (pass_baton-Rotation o.me o.waiting s.registry o.rotation);
  count = o.count ∙ ap suc (sym (handed-count o.me o.waiting));
  distinct = o.distinct;
  below = o.below;
  members = λ m h. handed-members o.me m o.waiting (o.members m h);
}

-- On a new registry whose first manager claims its turn before another one queues itself, where
-- no manager dies and no look finds the time stamp of the lock stale, so that the watchdog never
-- fires, and where each step runs whole: from that claim on, however managers register, queue
-- themselves, beat, look for their turn and hand it on, exactly one that has joined has the turn,
-- it is active, and the queue holds each other one that has joined once, in an order that
-- hand-overs rotate.
pub Reach-InOrder : {s : System} → Reach s → InOrder s
Reach-InOrder (starts m now slots local on) = record {
  me = m;
  waiting = [];
  rotation = (boot-Rotation m now slots local on).1;
  count = refl;
  distinct = (tt, tt);
  below = (is_active-lt (boot slots) m on, tt);
  members = λ k h. h;
}
Reach-InOrder (later r st) = Step-InOrder st (Reach-InOrder r)

-- In every state that is reached like this (the first manager has claimed its turn on a new
-- registry before another one queued itself, no manager has died, no look has found the time
-- stamp of the lock stale, so the watchdog has never fired, and each step has run whole) each
-- manager that has joined has the turn after at most 63 hand-overs more, if these are all that
-- happens.
pub Reach-turn :
    {s : System} (m : ℕ)
    → Reach s
    → In m s.joined
    → (n : ℕ) × (n < max_managers) × ((passes n s.registry).lock_owner ≡ m)
unfolding passes
Reach-turn {s} m r joined =
    let o = Reach-InOrder r in
    elim (o.members m joined) [
      | inl e ↦ (0, omega arith, o.rotation.owner ∙ e)
      | inr waits ↦
          let (ahead, behind, e) = split_In m o.waiting waits in
          (
            suc (length ahead),
            omega (arith, o.rotation.room, ap length e, length-append ahead (m ∷ behind)),
            passes-owner ahead behind o.me m s.registry
                (subst (λ w. Rotation o.me w s.registry) e o.rotation),
          )
    ]
