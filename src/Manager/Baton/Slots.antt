-- ===== src/Manager/Baton/Slots.antt =====
-- The slots of the registry: writes to one, and the registration of a manager.
use hami_vnpu_core_hhy.Common.{
  [], ℕ, zero, suc, ◌+◌, ◌<◌, ◌≡◌, refl, ap, ◌≢◌, ◌⊎◌, inl, inr, Option, none, some, List, ◌∷◌,
  arith, ◌==◌, Bool-cases, Option-cases, get_elem?, set, get_elem?-set_self, get_elem?-set_ne,
  lt_of_get_elem?,
}
use mathlib.Core.Path.{ap₂}
use hami_vnpu_core_hhy.Shmem.{GlobalRegistry, GlobalManagerSlot}
use hami_vnpu_core_hhy.Manager.Baton.{set_slot, register_from, register_global_slot, claimed_slot}

module _ (g : GlobalRegistry) (f : GlobalManagerSlot → GlobalManagerSlot) where
  pub set_slot_self :
      (i : ℕ) (slot : GlobalManagerSlot)
      → get_elem? g.slots i ≡ some slot
      → get_elem? (set_slot g i f).slots i ≡ some (f slot)
  unfolding set_slot
  set_slot_self i slot e =
      rw (set_slot, e) (get_elem?-set_self g.slots i (f slot) (lt_of_get_elem? g.slots i e))

  pub set_slot_ne : (i j : ℕ) → i ≢ j → get_elem? (set_slot g i f).slots j ≡ get_elem? g.slots j
  unfolding set_slot
  set_slot_ne i j ne = elim (Option-cases (get_elem? g.slots i)) [
    | inl out ↦ rw (set_slot, out)
    | inr (slot, e) ↦ rw (set_slot, e) (get_elem?-set_ne g.slots i j (f slot) ne)
  ]

-- What the registration loop does to the slots, started at index `first`.
abbrev pub IsClaimed :
    ℕ → ℕ → ℕ → List GlobalManagerSlot → Option (ℕ × List GlobalManagerSlot) → Type 0
IsClaimed pid now first slots none =
    (k : ℕ) (slot : GlobalManagerSlot) → get_elem? slots k ≡ some slot → slot.is_active ≢ 0
IsClaimed pid now first slots (some (i, slots')) =
    (k : ℕ) × (i ≡ first + k)
    × ((slot : GlobalManagerSlot) × (get_elem? slots k ≡ some slot)
        × (slot.is_active ≡ 0)
        × (slots' ≡ set slots k (claimed_slot pid now slot)))
    × ((j : ℕ) (slot : GlobalManagerSlot)
        → j < k
        → get_elem? slots j ≡ some slot
        → slot.is_active ≢ 0)

all_busy-cons :
    (slot : GlobalManagerSlot) (slots : List GlobalManagerSlot)
    → slot.is_active ≢ 0
    → ((k : ℕ) (s : GlobalManagerSlot) → get_elem? slots k ≡ some s → s.is_active ≢ 0)
    → (k : ℕ) (s : GlobalManagerSlot) → get_elem? (slot ∷ slots) k ≡ some s
    → s.is_active ≢ 0
all_busy-cons slot slots busy rest zero s e = ground arith
all_busy-cons slot slots busy rest (suc k) s e = rest k s e

busy_below-cons :
    (slot : GlobalManagerSlot) (slots : List GlobalManagerSlot) (n : ℕ)
    → slot.is_active ≢ 0
    → ((k : ℕ) (s : GlobalManagerSlot) → k < n → get_elem? slots k ≡ some s → s.is_active ≢ 0)
    → (k : ℕ) (s : GlobalManagerSlot) → k < suc n
    → get_elem? (slot ∷ slots) k ≡ some s
    → s.is_active ≢ 0
busy_below-cons slot slots n busy rest zero s lt e = ground arith
busy_below-cons slot slots n busy rest (suc k) s lt e = rest k s (omega arith) e

register_from-IsClaimed :
    (pid now first : ℕ) (slots : List GlobalManagerSlot)
    → IsClaimed pid now first slots (register_from pid now first slots)
unfolding register_from
register_from-IsClaimed pid now first [] = λ k slot e. cc
register_from-IsClaimed pid now first (slot ∷ slots) = elim (Bool-cases (slot.is_active == 0)) [
  | inl free ↦
      rw (register_from, free)
        (0, omega arith, (slot, refl, ground arith, refl), λ j s lt e. absurd (omega arith))
  | inr taken ↦ elim (Option-cases (register_from pid now (first + 1) slots)) [
    | inl full ↦
        let ih : IsClaimed pid now (first + 1) slots none =
          rw full at (register_from-IsClaimed pid now (first + 1) slots) in
        rw (register_from, taken, full) (all_busy-cons slot slots (ground arith) ih)
    | inr ((i, slots'), e) ↦
        let ih : IsClaimed pid now (first + 1) slots (some (i, slots')) =
          rw e at (register_from-IsClaimed pid now (first + 1) slots) in
        rw (register_from, taken, e)
          (
            suc ih.0,
            omega (arith, ih.1),
            (ih.2.0, ih.2.1, ih.2.2, ap (λ r. slot ∷ r) ih.2.3),
            busy_below-cons slot slots ih.0 (ground arith) ih.3,
          )
  ]
]

-- A registration takes the first slot that is not active, fills it, and leaves the others and the
-- rest of the registry alone; its index is that of the slot. It fails only if every slot is
-- active.
pub register_global_slot_lem :
    (g : GlobalRegistry) (pid now : ℕ)
    → ((register_global_slot g pid now ≡ none)
        × ((k : ℕ) (slot : GlobalManagerSlot)
            → get_elem? g.slots k ≡ some slot
            → slot.is_active ≢ 0))
      ⊎ ((i : ℕ) × (slot : GlobalManagerSlot) × (get_elem? g.slots i ≡ some slot)
          × (slot.is_active ≡ 0)
          × (register_global_slot g pid now
              ≡ some (i, record g { slots = set g.slots i (claimed_slot pid now slot) }))
          × ((j : ℕ) (other : GlobalManagerSlot)
              → j < i
              → get_elem? g.slots j ≡ some other
              → other.is_active ≢ 0))
unfolding register_global_slot
register_global_slot_lem g pid now = elim (Option-cases (register_from pid now 0 g.slots)) [
  | inl full ↦
      inl (rw (register_global_slot, full), rw full at (register_from-IsClaimed pid now 0 g.slots))
  | inr ((i, slots), e) ↦
      let claim : IsClaimed pid now 0 g.slots (some (i, slots)) =
        rw e at (register_from-IsClaimed pid now 0 g.slots) in
      let (k, at, (slot, found, free, filled), first) = claim in
      let same : i ≡ k = omega arith in
      inr (
        k,
        slot,
        found,
        free,
        rw (register_global_slot, e) (ap₂ (λ n l. some (n, record g { slots = l })) same filled),
        first,
      )
]
