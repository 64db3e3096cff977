-- ===== src/Manager/Baton/Handover.antt =====
-- Whom `pass_baton` hands the turn to, and the queue as a rotation.
use hami_vnpu_core_hhy.Common.{
  ℕ, zero, suc, ◌+◌, ◌%◌, ◌^◌, ◌<◌, ◌≡◌, refl, ◌⊎◌, inl, inr, Bool, true, false, arith, Bool-cases,
}
use hami_vnpu_core_hhy.Common.Words.{as_u32}
use native.Mathlib.Nat.{add-zero}
use hami_vnpu_core_hhy.Shmem.{GlobalRegistry, max_managers}
use hami_vnpu_core_hhy.Manager.Baton.{
  join_global_queue, is_active_manager, queue_entry, find_next, pass_baton,
}

-- The result of a scan of `n` entries from `head` on: the entries skipped are of no active
-- manager, and the one that is found is of an active one.
abbrev pub IsFirstActive : GlobalRegistry → ℕ → ℕ → ℕ → ℕ × ℕ → Type 0
IsFirstActive g me n head (next, owner) =
    ((k : ℕ) → head + k < next → is_active_manager g.slots (queue_entry g.queue (head + k)) ≡ false)
    × (((next < head + n)
          × (owner ≡ queue_entry g.queue next)
          × (is_active_manager g.slots owner ≡ true))
        ⊎ ((next ≡ head + n) × (owner ≡ as_u32 me)))

skipped-cons :
    (f : ℕ → Bool) (head next : ℕ)
    → f head ≡ false
    → ((k : ℕ) → head + 1 + k < next → f (head + 1 + k) ≡ false)
    → (k : ℕ) → head + k < next
    → f (head + k) ≡ false
skipped-cons f head next first later zero lt = rw add-zero first
skipped-cons f head next first later (suc k) lt =
    let e : head + suc k ≡ head + 1 + k = omega arith in rw e (later k (omega arith))

find_next-IsFirstActive :
    (g : GlobalRegistry) (me n head : ℕ) → IsFirstActive g me n head (find_next g me n head)
unfolding find_next
find_next-IsFirstActive g me zero head = (λ k lt. absurd (omega arith), inr (omega arith, refl))
find_next-IsFirstActive g me (suc n) head =
    elim (Bool-cases (is_active_manager g.slots (queue_entry g.queue head))) [
      | inl found ↦
          rw (found, find_next) (λ k lt. absurd (omega arith), inl (omega arith, refl, found))
      | inr skip ↦
          let (skipped, ends) = find_next-IsFirstActive g me n (head + 1) in
          rw (skip, find_next)
            (
              skipped-cons (λ i. is_active_manager g.slots (queue_entry g.queue i)) head _ skip
                  skipped,
              ground (arith, ends),
            )
    ]

-- The hand-over commits to the first entry after the head, of 64, whose manager is active, among
-- them the one that the manager has just queued for itself: every entry passed over is of no
-- active manager. Where none is active the manager keeps the turn. The slots stay, and the
-- waiters are signalled once.
pub pass_baton_lem :
    (me : ℕ) (g : GlobalRegistry)
    → (next : ℕ) × IsFirstActive
        (join_global_queue me g)
        me
        max_managers
        (g.queue_head + 1)
        (next, (pass_baton me g).lock_owner)
      × ((pass_baton me g).queue_head ≡ next % 2 ^ 32)
      × ((pass_baton me g).slots ≡ g.slots)
      × ((pass_baton me g).signal_counter ≡ (g.signal_counter + 1) % 2 ^ 32)
unfolding pass_baton
pass_baton_lem me g = (
  (find_next (join_global_queue me g) me max_managers (g.queue_head + 1)).0,
  find_next-IsFirstActive (join_global_queue me g) me max_managers (g.queue_head + 1),
  refl,
  refl,
  refl,
)
