-- ===== src/Supervisor/Reign.antt =====
-- A pod's manager over time: the attempts of its supervisors and the heartbeats of its manager,
-- each running whole, in any order.
use hami_vnpu_core_hhy.Common.{
  ℕ, ◌+◌, ◌≤◌, ◌≡◌, ◌≢◌, Bool, true, Option, none, some, List, [], ◌∷◌, arith,
}
use hami_vnpu_core_hhy.Shmem.{LocalContainerShmem}
use hami_vnpu_core_hhy.Supervisor.{takeover_timeout_us, manager_alive, try_become_manager}

pub data Event : Type 0 where
  attempts : (pid now : ℕ) → Event
  heartbeat : (now : ℕ) → Event

module _ (proc_alive : ℕ → Bool) where
  abbrev winners_of : ℕ → Option ℕ → List ℕ → List ℕ
  winners_of pid none rest = rest
  winners_of pid (some old) rest = pid ∷ rest

  -- The processes whose attempts succeed, in order, and what is left.
  unfoldable pub reign : List Event → LocalContainerShmem → List ℕ × LocalContainerShmem
  unfolding try_become_manager
  reign [] local = ([], local)
  reign (attempts pid now ∷ events) local =
      let (won, local') = try_become_manager proc_alive pid now local in
      let (winners, last) = reign events local' in (winners_of pid won winners, last)
  reign (heartbeat now ∷ events) local = reign events (record local { manager_heartbeat = now })

-- Every attempt comes at most three seconds after the last heartbeat before it; the one before
-- all events was at `beat`. `beat`.
abbrev pub IsTimely : ℕ → List Event → Type 0
IsTimely beat [] = Unit {0}
IsTimely beat (attempts pid now ∷ events) =
    (now ≤ beat + takeover_timeout_us) × IsTimely beat events
IsTimely beat (heartbeat now ∷ events) = IsTimely now events

abbrev pub AllEqual : ℕ → List ℕ → Type 0
AllEqual m [] = Unit {0}
AllEqual m (p ∷ ps) = (p ≡ m) × AllEqual m ps

module _ (proc_alive : ℕ → Bool) (m : ℕ) (real : m ≢ 0) (lives : proc_alive m ≡ true) where
  -- As long as the manager's process lives and every attempt comes at most three seconds after
  -- the manager's last heartbeat, it stays the only manager of its pod: no other process's
  -- attempt succeeds, and the record names it at the end.
  pub reign-AllEqual :
      (events : List Event) (local : LocalContainerShmem)
      → local.manager_pid ≡ m
      → IsTimely local.manager_heartbeat events
      → AllEqual m (reign proc_alive events local).0
        × ((reign proc_alive events local).1.manager_pid ≡ m)
  unfolding reign manager_alive
  reign-AllEqual [] local mine timely = (tt, mine)
  reign-AllEqual (heartbeat now ∷ events) local mine timely =
      reign-AllEqual events (record local { manager_heartbeat = now }) mine timely
  reign-AllEqual (attempts pid now ∷ events) local mine timely =
      let rest = reign-AllEqual events local mine timely.1 in ground (arith, rest)
