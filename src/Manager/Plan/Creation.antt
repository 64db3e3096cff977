-- ===== src/Manager/Plan/Creation.antt =====
-- What a new manager publishes, and what it leaves alone.
use hami_vnpu_core_hhy.Common.{
  ◌<◌, ℕ, ◌*◌, ◌%◌, ◌^◌, ◌≡◌, ◌≢◌, refl, ◌∙◌, none, some, ◌⊎◌, inl, inr, get_elem?, set, ◌==◌,
  if◌then◌else◌, get_elem?-set_self, get_elem?-set_ne, lt_of_get_elem?,
}
use hami_vnpu_core_hhy.Common.Words.{pos}
use hami_vnpu_core_hhy.Shmem.{GlobalRegistry, GlobalManagerSlot}
use hami_vnpu_core_hhy.Manager.Baton.{Shared, claimed_slot, set_slot}
use hami_vnpu_core_hhy.Manager.Baton.Slots.{register_global_slot_lem, set_slot_self, set_slot_ne}
use hami_vnpu_core_hhy.Manager.Plan.Floats.{Float}
use hami_vnpu_core_hhy.Manager.Plan.{
  ContainerManager, Tuning, new, new_manager, publish, mb_to_bytes,
}

module _ (fl : Float) (pid now : ℕ) (priority : fl.F) (memory_limit_mb : ℕ) (t : Tuning fl)
    (s : Shared) where
  -- A manager is created in the first slot that is not active, or not at all, with nothing
  -- changed, if all are active. The slot is marked as active and the process's own, with an
  -- average of 500, a heartbeat at `now` and the priority, and no other slot changes. The pod's
  -- memory then holds the quota in bytes, modulo 2 ^ 64, and the slot's index; it is marked as
  -- initialised. The usage counter is kept if the memory was initialised before, so a takeover
  -- does not forget what is allocated, and is set to 0 otherwise; slots, reports and batch stay.
  pub new_lem :
      ((new fl pid now priority memory_limit_mb t s ≡ none)
        × ((k : ℕ) (slot : GlobalManagerSlot)
            → get_elem? s.global.slots k ≡ some slot
            → slot.is_active ≢ 0))
      ⊎ ((m : ContainerManager fl) × (s' : Shared) × (new fl pid now priority memory_limit_mb t s
            ≡ some (m, s'))
          × ((slot : GlobalManagerSlot) × (get_elem? s.global.slots m.my_global_idx ≡ some slot)
              × (slot.is_active ≡ 0)
              × ((j : ℕ) (other : GlobalManagerSlot)
                  → j < m.my_global_idx
                  → get_elem? s.global.slots j ≡ some other
                  → other.is_active ≢ 0)
              × (get_elem? s'.global.slots m.my_global_idx
                  ≡ some (record slot {
                    pid = pid;
                    avg_kernel_time = 500;
                    last_heartbeat = now;
                    is_active = 1;
                    priority = fl.to_word priority;
                  }))
              × ((i : ℕ)
                  → m.my_global_idx ≢ i
                  → get_elem? s'.global.slots i ≡ get_elem? s.global.slots i))
          × (s'.local ≡ record s.local {
            memory_limit = memory_limit_mb * mb_to_bytes % 2 ^ 64;
            memory_used = if s.local.initialized == 0 then 0 else s.local.memory_used;
            compute_priority = fl.to_word priority;
            manager_global_idx = pos m.my_global_idx;
            initialized = 1;
          }))
  unfolding new
  new_lem = elim (register_global_slot_lem s.global pid now) [
    | inl (full, busy) ↦ inl (rw (new, full), busy)
    | inr (i, slot, at, free, runs, first) ↦
        let g : GlobalRegistry = record s.global {
          slots = set s.global.slots i (claimed_slot pid now slot);
        } in
        let write : GlobalManagerSlot → GlobalManagerSlot =
          λ slot. record slot { priority = fl.to_word priority } in
        let here : get_elem? g.slots i ≡ some (claimed_slot pid now slot) =
          get_elem?-set_self s.global.slots i (claimed_slot pid now slot)
            (lt_of_get_elem? s.global.slots i at) in
        inr (
          new_manager fl pid i priority t,
          record {
            global = set_slot g i write;
            local = publish fl i (fl.to_word priority) memory_limit_mb s.local;
          },
          rw (new, runs),
          (
            slot,
            at,
            free,
            first,
            set_slot_self g write i (claimed_slot pid now slot) here,
            λ j ne.
                set_slot_ne g write i j ne
                ∙ get_elem?-set_ne s.global.slots i j (claimed_slot pid now slot) ne,
          ),
          refl,
        )
  ]
