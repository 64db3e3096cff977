-- ===== src/Hook/Process/Forks.antt =====
-- One client and at most one supervisor in each process, across forks.
use hami_vnpu_core_hhy.Common.{
  ℕ, ◌≤◌, ◌≡◌, refl, ◌≢◌, ◌⊎◌, false, Option, none, some, List, [], ◌∷◌, arith, ◌==◌, Bool-cases,
  inl, inr,
}
use hami_vnpu_core_hhy.Hook.Process.{made, Statics, Attempt, npu_limiter, npu_calls}

module _ {A : Type 0} where
  abbrev pub AllAre : A → List A → Type 0
  AllAre c [] = Unit {0}
  AllAre c (x ∷ xs) = (x ≡ c) × AllAre c xs

  -- No call can spawn a thread.
  abbrev pub NoSpawn : List (Attempt A) → Type 0
  NoSpawn [] = Unit {0}
  NoSpawn (a ∷ attempts) = (a.can_spawn ≡ false) × NoSpawn attempts

  -- The guarded client, if there is one, was made by another process.
  abbrev pub IsForeign : ℕ → Option (ℕ × A) → Type 0
  IsForeign me none = Unit {0}
  IsForeign me (some (old_pid, client)) = old_pid ≢ me

  module _ (stub : A) (me : ℕ) where
    npu_calls-settled :
        (attempts : List (Attempt A)) (st : Statics A) (c : A)
        → st.limiter ≡ some (me, c)
        → AllAre c (npu_calls stub me attempts st).0
    unfolding npu_calls
    npu_calls-settled [] st c h = tt
    npu_calls-settled (a ∷ attempts) st c h =
        let l = npu_limiter stub me a st in
        let kept : (l.client ≡ c) × (l.statics.limiter ≡ some (me, c)) = ground arith in
        (kept.0, npu_calls-settled attempts l.statics c kept.1)

    npu_calls-started :
        (attempts : List (Attempt A)) (st : Statics A)
        → st.supervisor_pid ≡ me
        → ((npu_calls stub me attempts st).1 ≡ 0)
          × ((npu_calls stub me attempts st).2.supervisor_pid ≡ me)
    unfolding npu_calls
    npu_calls-started [] st h = (refl, h)
    npu_calls-started (a ∷ attempts) st h =
        let l = npu_limiter stub me a st in
        let kept : (l.started ≡ false) × (l.statics.supervisor_pid ≡ me) = ground arith in
        ground (arith, kept, npu_calls-started attempts l.statics kept.1)

    npu_calls-le :
        (attempts : List (Attempt A)) (st : Statics A)
        → ((npu_calls stub me attempts st).1 ≤ 1)
          × (((npu_calls stub me attempts st).2.supervisor_pid ≡ me) ⊎ NoSpawn attempts)
    unfolding npu_calls
    npu_calls-le [] st = (omega arith, inr tt)
    npu_calls-le (a ∷ attempts) st =
        let l = npu_limiter stub me a st in
        elim (Bool-cases (l.statics.supervisor_pid == me)) [
          | inl mine ↦
              let rest = npu_calls-started attempts l.statics (ground arith) in ground (arith, rest)
          | inr others ↦
              let none_started : (l.started ≡ false) × (a.can_spawn ≡ false) = ground arith in
              ground (arith, none_started, npu_calls-le attempts l.statics)
        ]

    -- In a process that has not made a client of its own, be it new or just forked from one that
    -- has: all its calls return one client, that of its own first registration, or the stub where
    -- that one fails, never the parent's. At most one supervisor is started, and SUPERVISOR_PID
    -- names the process at the end unless none of its calls can spawn a thread.
    pub npu_calls_lem :
        (a : Attempt A) (attempts : List (Attempt A)) (st : Statics A)
        → IsForeign me st.limiter
        → AllAre (made stub a.new) (npu_calls stub me (a ∷ attempts) st).0
          × ((npu_calls stub me (a ∷ attempts) st).1 ≤ 1)
          × (((npu_calls stub me (a ∷ attempts) st).2.supervisor_pid ≡ me) ⊎ NoSpawn (a ∷ attempts))
    unfolding npu_calls
    npu_calls_lem a attempts st foreign =
        let l = npu_limiter stub me a st in
        let fresh : (l.client ≡ made stub a.new)
            × (l.statics.limiter ≡ some (me, made stub a.new)) =
          ground arith in
        let bound = npu_calls-le (a ∷ attempts) st in
        (
          (fresh.0, npu_calls-settled attempts l.statics (made stub a.new) fresh.1),
          bound.0,
          bound.1,
        )
