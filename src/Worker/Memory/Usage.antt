-- ===== src/Worker/Memory/Usage.antt =====
-- The bytes that the process slots stand for, as plain sums, apart from the code's counters.
use hami_vnpu_core_hhy.Common.{
  [], ℕ, zero, suc, ◌+◌, ◌≤◌, ◌≡◌, Bool, true, some, List, ◌∷◌, ◌==◌, if◌then◌else◌, get_elem?, set,
  length, arith,
}
use hami_vnpu_core_hhy.Shmem.{ProcessSlot, npu_device_max}
use hami_vnpu_core_hhy.Worker.Memory.{unwrap_or_zero}

-- The bytes of a slot on a device.
abbrev pub used_on : ℕ → ProcessSlot → ℕ
used_on device slot = unwrap_or_zero (get_elem? slot.hbm_used device)

module _ (proc_alive : ℕ → Bool) (device : ℕ) where
  -- What a slot counts for: its bytes, if it belongs to a process that lives.
  abbrev pub live_share : ProcessSlot → ℕ
  live_share slot =
      if slot.pid == 0 then 0 else if proc_alive slot.pid then used_on device slot else 0

  -- The bytes of the live processes on one device.
  unfoldable pub live_bytes : List ProcessSlot → ℕ
  live_bytes [] = 0
  live_bytes (slot ∷ slots) = live_share slot + live_bytes slots

  -- A write to one slot changes the sum by what that slot counts for.
  pub live_bytes-set :
      (slots : List ProcessSlot) (i : ℕ) (old new : ProcessSlot)
      → get_elem? slots i ≡ some old
      → live_bytes (set slots i new) + live_share old ≡ live_bytes slots + live_share new
  unfolding live_bytes
  live_bytes-set [] i old new h = absurd (grind arith)
  live_bytes-set (slot ∷ slots) zero old new h = ground arith
  live_bytes-set (slot ∷ slots) (suc i) old new h = omega (arith, live_bytes-set slots i old new h)

  -- A slot counts for no more than all of them.
  pub live_share-le :
      (slots : List ProcessSlot) (i : ℕ) (slot : ProcessSlot)
      → get_elem? slots i ≡ some slot
      → live_share slot ≤ live_bytes slots
  unfolding live_bytes
  live_share-le [] i slot h = absurd (grind arith)
  live_share-le (x ∷ slots) zero slot h = ground arith
  live_share-le (x ∷ slots) (suc i) slot h = omega (arith, live_share-le slots i slot h)

-- Every slot has a counter for each device.
abbrev pub IsLaidOut : List ProcessSlot → Type 0
IsLaidOut [] = Unit {0}
IsLaidOut (slot ∷ slots) = (length slot.hbm_used ≡ npu_device_max) × IsLaidOut slots

-- Every slot is free, or its process lives.
abbrev pub NoDead : (ℕ → Bool) → List ProcessSlot → Type 0
NoDead proc_alive [] = Unit {0}
NoDead proc_alive (slot ∷ slots) =
    ((if slot.pid == 0 then true else proc_alive slot.pid) ≡ true) × NoDead proc_alive slots
