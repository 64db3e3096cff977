-- ===== src/Worker/Memory/Recalculate.antt =====
-- What `recalculate_usage_for_device` leaves behind.
use hami_vnpu_core_hhy.Common.{
  [], ℕ, ◌+◌, ◌%◌, ◌^◌, ◌<◌, ◌≡◌, refl, Bool, some, List, ◌∷◌, ◌==◌, >>=-eq-some, Returns,
  >>=-Returns, if-Returns, length, arith, get_elem?_of_lt,
}
use hami_vnpu_core_hhy.Shmem.{ProcessSlot, LocalContainerShmem, npu_device_max}
use hami_vnpu_core_hhy.Worker.Memory.{Scan, scan_slot, scan_procs, recalculate_usage_for_device}
use hami_vnpu_core_hhy.Worker.Memory.Usage.{live_share, live_bytes, IsLaidOut, NoDead}

module _ (proc_alive : ℕ → Bool) (device : ℕ) where
  abbrev live : List ProcessSlot → ℕ
  live = live_bytes proc_alive device

  -- What the walk has done to the slots, started at `total`.
  pub record Swept (slots : List ProcessSlot) (total : ℕ) (scan : Scan) : Type 0 where
    pub sum : scan.total ≡ (total + live slots) % 2 ^ 64
    pub kept : live scan.procs ≡ live slots
    pub no_dead : NoDead proc_alive scan.procs
    pub shape : length scan.procs ≡ length slots

  scan_slot-Swept :
      (slot slot' : ProcessSlot) (total cleaned total' cleaned' : ℕ)
      → total < 2 ^ 64
      → scan_slot proc_alive device slot total cleaned ≡ some (slot', total', cleaned')
      → (total' ≡ (total + live_share proc_alive device slot) % 2 ^ 64)
        × (live_share proc_alive device slot' ≡ live_share proc_alive device slot)
        × NoDead proc_alive (slot' ∷ [])
  unfolding scan_slot
  scan_slot-Swept slot slot' total cleaned total' cleaned' lt h = ground arith

  scan_procs-Swept :
      (slots : List ProcessSlot) (total cleaned : ℕ) {scan : Scan}
      → total < 2 ^ 64
      → scan_procs proc_alive device slots total cleaned ≡ some scan
      → Swept slots total scan
  unfolding scan_procs live_bytes
  scan_procs-Swept [] total cleaned lt h = ground arith
  scan_procs-Swept (slot ∷ slots) total cleaned lt h =
      let ((slot', total', cleaned'), e, h') =
        >>=-eq-some (scan_slot proc_alive device slot total cleaned) _ h in
      let (rest, e', h'') = >>=-eq-some (scan_procs proc_alive device slots total' cleaned') _ h' in
      let one = scan_slot-Swept slot slot' total cleaned total' cleaned' lt e in
      ground (arith, one, scan_procs-Swept slots total' cleaned' (omega arith) e')

  -- A recalculation that does not panic returns the bytes of the live processes on its device,
  -- modulo 2 ^ 64, and makes `memory_used` that number whatever it was. The live bytes are what
  -- they were, no slot is left to a dead process, and nothing but the slots and the counter has
  -- changed.
  pub recalculate_lem :
      (s s' : LocalContainerShmem) (total : ℕ)
      → recalculate_usage_for_device proc_alive device s ≡ some (total, s')
      → (total ≡ live s.procs % 2 ^ 64)
        × (live s'.procs ≡ live s.procs)
        × NoDead proc_alive s'.procs
        × (s' ≡ record s { memory_used = total; procs = s'.procs })
  unfolding recalculate_usage_for_device
  recalculate_lem s s' total h =
      let (scan, e, h') = >>=-eq-some (scan_procs proc_alive device s.procs 0 0) _ h in
      ground (arith, scan_procs-Swept s.procs 0 0 (omega arith) e)

  scan_slot_total :
      (slot : ProcessSlot) (total cleaned : ℕ)
      → device < npu_device_max
      → length slot.hbm_used ≡ npu_device_max
      → Returns (scan_slot proc_alive device slot total cleaned)
  unfolding scan_slot
  scan_slot_total slot total cleaned lt e =
      if-Returns (slot.pid == 0) _ _ (_, refl)
        (>>=-Returns _ _ (get_elem?_of_lt slot.hbm_used device (omega arith))
          (λ used. if-Returns (proc_alive slot.pid) _ _ (_, refl) (_, refl)))

  scan_procs_total :
      (slots : List ProcessSlot) (total cleaned : ℕ)
      → device < npu_device_max
      → IsLaidOut slots
      → Returns (scan_procs proc_alive device slots total cleaned)
  unfolding scan_procs
  scan_procs_total [] total cleaned lt laid = (_, refl)
  scan_procs_total (slot ∷ slots) total cleaned lt laid =
      >>=-Returns _ _ (scan_slot_total slot total cleaned lt laid.0)
        (λ r. >>=-Returns _ _ (scan_procs_total slots r.1 r.2 lt laid.1) (λ rest. (_, refl)))

  -- For a device below `NPU_DEVICE_MAX` a recalculation never panics, if each slot has its eight
  -- counters.
  pub recalculate_total :
      (s : LocalContainerShmem)
      → device < npu_device_max
      → IsLaidOut s.procs
      → Returns (recalculate_usage_for_device proc_alive device s)
  unfolding recalculate_usage_for_device
  recalculate_total s lt laid =
      >>=-Returns _ _ (scan_procs_total s.procs 0 0 lt laid) (λ scan. (_, refl))

  scan_slot_again :
      (slot slot' : ProcessSlot) (total cleaned total' cleaned' c : ℕ)
      → scan_slot proc_alive device slot total cleaned ≡ some (slot', total', cleaned')
      → scan_slot proc_alive device slot' total c ≡ some (slot', total', c)
  unfolding scan_slot
  scan_slot_again slot slot' total cleaned total' cleaned' c h = ground arith

  scan_procs_again :
      (slots : List ProcessSlot) (total cleaned c : ℕ) {scan : Scan}
      → scan_procs proc_alive device slots total cleaned ≡ some scan
      → scan_procs proc_alive device scan.procs total c ≡ some (record scan { cleaned = c })
  unfolding scan_procs
  scan_procs_again [] total cleaned c h = ground arith
  scan_procs_again (slot ∷ slots) total cleaned c h =
      let ((slot', total', cleaned'), e, h') =
        >>=-eq-some (scan_slot proc_alive device slot total cleaned) _ h in
      let (rest, e', h'') = >>=-eq-some (scan_procs proc_alive device slots total' cleaned') _ h' in
      ground (
        arith,
        scan_slot_again slot slot' total cleaned total' cleaned' c e,
        scan_procs_again slots total' cleaned' c e',
      )

  -- Recalculating again at once returns the same total and changes nothing.
  pub recalculate_again :
      (s s' : LocalContainerShmem) (total : ℕ)
      → recalculate_usage_for_device proc_alive device s ≡ some (total, s')
      → recalculate_usage_for_device proc_alive device s' ≡ some (total, s')
  unfolding recalculate_usage_for_device
  recalculate_again s s' total h =
      let (scan, e, h') = >>=-eq-some (scan_procs proc_alive device s.procs 0 0) _ h in
      ground (arith, scan_procs-Swept s.procs 0 0 (omega arith) e, scan_procs_again s.procs 0 0 0 e)
