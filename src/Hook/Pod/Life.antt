-- ===== src/Hook/Pod/Life.antt =====
-- A pod over time: processes start and register, make intercepted calls, and die, in any order.
use hami_vnpu_core_hhy.Common.{
  [], ap, ℕ, zero, suc, ◌≤◌, ◌≡◌, refl, ◌∙◌, ◌≢◌, Bool, false, Option, none, some, List, ◌∷◌, ◌++◌,
  arith, >>=-eq-some, ◌>>=◌, get_elem?, replicate,
}
use mathlib.Core.Path.{subst}
use mathlib.Core.Option.{some-injective}
use hami_vnpu_core_hhy.Shmem.{LocalContainerShmem}
use hami_vnpu_core_hhy.Worker.{SchedulerClient}
use hami_vnpu_core_hhy.Worker.Memory.{unwrap_or_zero}
use hami_vnpu_core_hhy.Worker.Memory.Usage.{live_bytes, live_share, live_bytes-set, used_on}
use hami_vnpu_core_hhy.Worker.Start.{Attach, ready, panics, looks, RtAnswers, device_of, register}
use hami_vnpu_core_hhy.Worker.Start.Looks.{Ends}
use hami_vnpu_core_hhy.Worker.Start.Client.{IsTaken, register-IsTaken}
use hami_vnpu_core_hhy.Hook.Pod.{Pod, Call, step, run}
use hami_vnpu_core_hhy.Hook.Pod.Safety.{OnDevice, IsWithin, AllFit, run-IsWithin}

-- `enters` is a process that makes its client and has inherited none: what the client of a fork's
-- parent loses when the child replaces it is in Hook/Process/Dropped. The pid of a process that
-- has died is not used again.
pub data Event : Type 0 where
  enters : (pid : ℕ) (rt : RtAnswers) → Event
  makes : (c : Call) → Event

-- A process whose registration panics takes the stub, and the model ends there.
abbrev joined : Pod → Attach (SchedulerClient × LocalContainerShmem) → Option Pod
joined p (ready (client, s)) = some (record p { shmem = s; clients = p.clients ++ (client ∷ []) })
joined p panics = none
joined p looks = none

unfoldable pub happen : Pod → Event → Option Pod
unfolding step register
happen p (enters pid rt) = joined p (register p.alive pid rt p.shmem)
happen p (makes c) = step p c

unfoldable pub live : Pod → List Event → Option Pod
unfolding happen
live p [] = some p
live p (e ∷ events) = happen p e >>= λ p'. live p' events

-- The processes use the device, and no request is so large that the quota check could wrap.
abbrev pub AllSuit : ℕ → ℕ → List Event → Type 0
AllSuit device limit [] = Unit {0}
AllSuit device limit (enters pid rt ∷ events) =
    (device_of rt.device ≡ device) × AllSuit device limit events
AllSuit device limit (makes c ∷ events) = AllFit limit (c ∷ []) × AllSuit device limit events

zeros : (n d : ℕ) → unwrap_or_zero (get_elem? (replicate n 0) d) ≡ 0
zeros zero d = refl
zeros (suc n) zero = refl
zeros (suc n) (suc d) = zeros n d

OnDevice-append :
    (device : ℕ) (cs : List SchedulerClient) (c : SchedulerClient)
    → OnDevice device cs
    → c.device_id ≡ device
    → c.is_stub ≡ false
    → OnDevice device (cs ++ (c ∷ []))
OnDevice-append device [] c h p q = (p, q, tt)
OnDevice-append device (x ∷ cs) c h p q = (h.0, h.1, OnDevice-append device cs c h.2 p q)

-- A new process counts for nothing, and its slot for no more than before.
live_bytes-IsTaken :
    (alive : ℕ → Bool) (pid device : ℕ) (rt : RtAnswers) (s : LocalContainerShmem)
    (r : SchedulerClient × LocalContainerShmem)
    → IsTaken alive pid rt s r
    → live_bytes alive device r.1.procs ≤ live_bytes alive device s.procs
live_bytes-IsTaken alive pid device rt s r h =
    let nothing : used_on device h.slot ≡ 0 =
      ap (λ l. unwrap_or_zero (get_elem? l device)) h.zeroed ∙ zeros 8 device in
    let share : live_share alive device h.slot ≡ 0 = ground (arith, nothing) in
    let sum = live_bytes-set alive device s.procs r.0.my_proc_idx h.old h.slot h.stood in
    omega (arith, ap (live_bytes alive device) h.procs, sum, share)

run_one : (p q : Pod) (c : Call) → step p c ≡ some q → run p (c ∷ []) ≡ some q
unfolding run
run_one p q c e = rw (run, e) refl

module _ {device limit : ℕ} (set_up : limit ≢ 0) where
  joined-IsWithin :
      (p p' : Pod) (pid : ℕ) (rt : RtAnswers) (m : Attach (SchedulerClient × LocalContainerShmem))
      → Ends (IsTaken p.alive pid rt p.shmem) m
      → device_of rt.device ≡ device
      → IsWithin device limit p
      → joined p m ≡ some p'
      → IsWithin device limit p'
  joined-IsWithin p p' pid rt panics taken suits w h = absurd (cc)
  joined-IsWithin p p' pid rt looks taken suits w h = absurd (cc)
  joined-IsWithin p p' pid rt (ready r) taken suits w h =
      subst (IsWithin device limit) (some-injective _ _ h) (record {
        on_device =
            OnDevice-append device p.clients r.0 w.on_device (taken.device ∙ suits) taken.limited;
        same_limit = taken.limit ∙ w.same_limit;
        within = omega (arith, live_bytes-IsTaken p.alive pid device rt p.shmem r taken, w.within);
      })

  -- In a pod whose processes use one device, where no request and the limit together reach 2 ^
  -- 64, where no process is forked from one that has a client and no pid is used twice, and where
  -- each registration and each intercepted call runs whole: as long as none of them
  -- panics, the bytes of the live processes never pass the limit, whichever processes start,
  -- register in a free, a dead process's or their own slot, allocate, free, ask, or die, in any
  -- order.
  pub live-IsWithin :
      (events : List Event) (p p' : Pod)
      → AllSuit device limit events
      → IsWithin device limit p
      → live p events ≡ some p'
      → IsWithin device limit p'
  unfolding live
  live-IsWithin [] p p' suits w h = subst (IsWithin device limit) (some-injective _ _ h) w
  live-IsWithin (enters pid rt ∷ events) p p' suits w h =
      let (q, e, h') = >>=-eq-some (happen p (enters pid rt)) _ h in
      live-IsWithin events q p' suits.1
        (joined-IsWithin p q pid rt (register p.alive pid rt p.shmem)
          (register-IsTaken p.alive pid rt p.shmem) suits.0 w e)
        h'
  live-IsWithin (makes c ∷ events) p p' suits w h =
      let (q, e, h') = >>=-eq-some (happen p (makes c)) _ h in
      live-IsWithin events q p' suits.1
        (run-IsWithin set_up (c ∷ []) p q suits.0 w (run_one p q c e)) h'
