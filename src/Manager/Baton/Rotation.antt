-- ===== src/Manager/Baton/Rotation.antt =====
-- The queue of managers as a rotation: an abstract list of those that wait, in order.
use hami_vnpu_core_hhy.Common.{
  ℕ, zero, suc, ◌+◌, ◌%◌, ◌^◌, ◌<◌, ◌≡◌, refl, ap, ◌∙◌, ◌≢◌, true, List, ◌∷◌, ◌++◌, arith, length,
  set, length-set, get_elem?-set_self, get_elem?-set_ne, length-append,
}
use hami_vnpu_core_hhy.Common.Words.{inc_u32, as_u32}
use mathlib.Core.Path.{ap₂}
use mathlib.Core.List.{[], append_assoc}
use hami_vnpu_core_hhy.Shmem.{GlobalRegistry, GlobalManagerSlot, max_managers}
use hami_vnpu_core_hhy.Manager.Baton.{
  join_global_queue, is_active_manager, queue_entry, find_next, pass_baton,
}

-- `n` entries of the queue from index `start` on.
unfoldable pub window : List ℕ → ℕ → ℕ → List ℕ
window queue start zero = []
window queue start (suc n) = queue_entry queue start ∷ window queue (start + 1) n

queue_entry-mod :
    (queue : List ℕ) (a b : ℕ)
    → a % max_managers ≡ b % max_managers
    → queue_entry queue a ≡ queue_entry queue b
unfolding queue_entry
queue_entry-mod queue a b e = rw (queue_entry, e)

window-mod :
    (queue : List ℕ) (n a b : ℕ)
    → a % max_managers ≡ b % max_managers
    → window queue a n ≡ window queue b n
unfolding window
window-mod queue zero a b e = refl
window-mod queue (suc n) a b e =
    ap₂ ◌∷◌ (queue_entry-mod queue a b e) (window-mod queue n (a + 1) (b + 1) (omega arith))

queue_entry-set_self :
    (queue : List ℕ) (i j v : ℕ)
    → length queue ≡ max_managers
    → j ≡ i % max_managers
    → queue_entry (set queue j v) i ≡ v
unfolding queue_entry
queue_entry-set_self queue i j v len e =
    rw (queue_entry, ← e, get_elem?-set_self queue j v (omega arith))

queue_entry-set_ne :
    (queue : List ℕ) (i j v : ℕ)
    → j ≢ i % max_managers
    → queue_entry (set queue j v) i ≡ queue_entry queue i
unfolding queue_entry
queue_entry-set_ne queue i j v ne =
    rw (queue_entry, get_elem?-set_ne queue j (i % max_managers) v ne)

-- Writing just past a window extends it, if the window does not fill the queue.
pub window-set :
    (queue : List ℕ) (v n start j : ℕ)
    → length queue ≡ max_managers
    → n < max_managers
    → j ≡ (start + n) % max_managers
    → window (set queue j v) start (suc n) ≡ window queue start n ++ (v ∷ [])
unfolding window
window-set queue v zero start j len lt e =
    ap (λ x. x ∷ []) (queue_entry-set_self queue start j v len (omega arith))
window-set queue v (suc n) start j len lt e =
    ap₂ ◌∷◌ (queue_entry-set_ne queue start j v (omega arith))
      (window-set queue v n (start + 1) j len (omega arith) (omega arith))

abbrev pub AllActive : List GlobalManagerSlot → List ℕ → Type 0
AllActive slots [] = Unit {0}
AllActive slots (m ∷ ms) = (is_active_manager slots m ≡ true) × AllActive slots ms

-- The queue holds, behind the owner `me`, the managers of `waiting` in their order, all active.
pub record Rotation (me : ℕ) (waiting : List ℕ) (g : GlobalRegistry) : Type 0 where
  pub laid_out : length g.queue ≡ max_managers
  pub head_word : g.queue_head < 2 ^ 32
  pub tail : g.queue_tail ≡ (g.queue_head + 1 + length waiting) % 2 ^ 32
  pub entries : window g.queue (g.queue_head + 1) (length waiting) ≡ waiting
  pub room : length waiting < max_managers
  pub owner : g.lock_owner ≡ me
  pub me_active : is_active_manager g.slots me ≡ true
  pub all_active : AllActive g.slots waiting

-- Who has the turn after a hand-over, and who waits then.
abbrev pub next_owner : ℕ → List ℕ → ℕ
next_owner me [] = me
next_owner me (m ∷ ms) = m

abbrev pub next_waiting : ℕ → List ℕ → List ℕ
next_waiting me [] = []
next_waiting me (m ∷ ms) = ms ++ (me ∷ [])

pub is_active-lt :
    (g : GlobalRegistry) (m : ℕ) → is_active_manager g.slots m ≡ true → m < max_managers
unfolding is_active_manager
is_active-lt g m h = ground arith

pub AllActive-append :
    (g : GlobalRegistry) (ms : List ℕ) (m : ℕ)
    → AllActive g.slots ms
    → is_active_manager g.slots m ≡ true
    → AllActive g.slots (ms ++ (m ∷ []))
AllActive-append g [] m h a = (a, tt)
AllActive-append g (x ∷ ms) m h a = (h.0, AllActive-append g ms m h.1 a)

find_next_found :
    (g : GlobalRegistry) (me n head m : ℕ)
    → queue_entry g.queue head ≡ m
    → is_active_manager g.slots m ≡ true
    → find_next g me (suc n) head ≡ (head, m)
unfolding find_next
find_next_found g me n head m e a =
    let first : is_active_manager g.slots (queue_entry g.queue head) ≡ true = rw e a in
    rw (find_next, first) (ap (λ k. (head, k)) e)

-- The queue behind the head, once the owner has queued itself.
joined-window :
    (me : ℕ) (waiting : List ℕ) (g : GlobalRegistry)
    → Rotation me waiting g
    → window (join_global_queue me g).queue (g.queue_head + 1) (suc (length waiting))
      ≡ waiting ++ (me ∷ [])
unfolding join_global_queue
joined-window me waiting g r =
    let small = is_active-lt g me r.me_active in
    let word : as_u32 me ≡ me = omega arith in
    window-set g.queue (as_u32 me) (length waiting) (g.queue_head + 1) (g.queue_tail % max_managers)
      r.laid_out r.room (omega (arith, r.tail))
    ∙ ap₂ (λ xs m. xs ++ (m ∷ [])) r.entries word

length-next_waiting :
    (me : ℕ) (waiting : List ℕ) → length (next_waiting me waiting) ≡ length waiting
length-next_waiting me [] = refl
length-next_waiting me (m ∷ ms) = length-append ms (me ∷ []) ∙ omega arith

-- After the head moves by one, the owner's successor is taken off the window.
moved-window :
    (me : ℕ) (waiting : List ℕ) (g : GlobalRegistry)
    → Rotation me waiting g
    → (queue_entry (join_global_queue me g).queue (g.queue_head + 1) ≡ next_owner me waiting)
      × (window (join_global_queue me g).queue (g.queue_head + 1 + 1) (length waiting)
          ≡ next_waiting me waiting)
unfolding window
moved-window me [] g r = let e = joined-window me [] g r in (cc e, refl)
moved-window me (m ∷ ms) g r = let e = joined-window me (m ∷ ms) g r in (cc e, cc e)

next_owner-active :
    (me : ℕ) (waiting : List ℕ) (g : GlobalRegistry)
    → Rotation me waiting g
    → is_active_manager g.slots (next_owner me waiting) ≡ true
next_owner-active me [] g r = r.me_active
next_owner-active me (m ∷ ms) g r = r.all_active.0

next_waiting-AllActive :
    (me : ℕ) (waiting : List ℕ) (g : GlobalRegistry)
    → Rotation me waiting g
    → AllActive g.slots (next_waiting me waiting)
next_waiting-AllActive me [] g r = tt
next_waiting-AllActive me (m ∷ ms) g r = AllActive-append g ms me r.all_active.1 r.me_active

-- The registry after the hand-over, its scan resolved.
pass_baton_step :
    (me : ℕ) (waiting : List ℕ) (g : GlobalRegistry)
    → Rotation me waiting g
    → pass_baton me g ≡ record (join_global_queue me g) {
      queue_head = as_u32 (g.queue_head + 1);
      lock_owner = next_owner me waiting;
      signal_counter = inc_u32 g.signal_counter;
    }
unfolding pass_baton
pass_baton_step me waiting g r =
    let found =
      find_next_found (join_global_queue me g) me 63 (g.queue_head + 1) (next_owner me waiting)
        (moved-window me waiting g r).0 (next_owner-active me waiting g r) in
    ap
      (λ (f : ℕ × ℕ). record (join_global_queue me g) {
        queue_head = as_u32 f.0;
        lock_owner = f.1;
        signal_counter = inc_u32 g.signal_counter;
      })
      found

-- A hand-over moves the turn to the manager that has waited longest, and puts the one that had it
-- at the end: the queue in shared memory, its indices modulo 64 and 2 ^ 32, behaves as a list
-- that is rotated.
pub pass_baton-Rotation :
    (me : ℕ) (waiting : List ℕ) (g : GlobalRegistry)
    → Rotation me waiting g
    → Rotation (next_owner me waiting) (next_waiting me waiting) (pass_baton me g)
unfolding join_global_queue
pass_baton-Rotation me waiting g r = rw (pass_baton_step me waiting g r) (record {
  laid_out = length-set g.queue (g.queue_tail % max_managers) (as_u32 me) ∙ r.laid_out;
  head_word = omega arith;
  tail = omega (arith, r.tail, length-next_waiting me waiting);
  entries = rw (length-next_waiting me waiting) (
      window-mod (join_global_queue me g).queue (length waiting) _ (g.queue_head + 1 + 1)
        (omega arith)
      ∙ (moved-window me waiting g r).1);
  room = omega (arith, r.room, length-next_waiting me waiting);
  owner = refl;
  me_active = next_owner-active me waiting g r;
  all_active = next_waiting-AllActive me waiting g r;
})

-- `n` hand-overs, each by the manager that then has the turn.
unfoldable pub passes : ℕ → GlobalRegistry → GlobalRegistry
passes zero g = g
passes (suc n) g = passes n (pass_baton g.lock_owner g)

-- Nobody starves: a manager that waits behind `k` others has the turn after `k + 1` hand-overs,
-- as long as all stay active and no watchdog interferes.
pub passes-owner :
    (ahead behind : List ℕ) (me m : ℕ) (g : GlobalRegistry)
    → Rotation me (ahead ++ (m ∷ behind)) g
    → (passes (suc (length ahead)) g).lock_owner ≡ m
unfolding passes
passes-owner [] behind me m g r =
    ap (λ o. (pass_baton o g).lock_owner) r.owner ∙ (pass_baton-Rotation me (m ∷ behind) g r).owner
passes-owner (x ∷ ahead) behind me m g r =
    let after = pass_baton-Rotation me (x ∷ (ahead ++ (m ∷ behind))) g r in
    ap (λ o. (passes (suc (length ahead)) (pass_baton o g)).lock_owner) r.owner
    ∙ (passes-owner ahead (behind ++ (me ∷ [])) x m (pass_baton me g) (rw append_assoc at after))
