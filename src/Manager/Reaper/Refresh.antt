-- ===== src/Manager/Reaper/Refresh.antt =====
-- What the refresh from the device's figures writes.
use hami_vnpu_core_hhy.Common.{
  ℕ, zero, suc, ◌+◌, ◌%◌, ◌≤◌, ◌<◌, ◌≡◌, refl, ◌∙◌, ◌≢◌, inl, inr, false, Option, none, some, List,
  [], ◌∷◌, map, arith, ◌==◌, Option-cases, get_elem?, length, length-set, get_elem?-set_self,
  get_elem?-set_ne,
}
use mathlib.Core.Path.{ap₂}
use native.Mathlib.Nat.{add-zero}
use hami_vnpu_core_hhy.Shmem.{LocalContainerShmem, ProcessSlot, npu_device_max}
use hami_vnpu_core_hhy.Manager.Reaper.{
  DcmiProcMemInfo, dcmimap, refresh_slot, refresh_from, discover_and_update,
}

get_elem?-map :
    (f : ProcessSlot → ProcessSlot) (xs : List ProcessSlot) (i : ℕ) (x : ProcessSlot)
    → get_elem? xs i ≡ some x
    → get_elem? (map f xs) i ≡ some (f x)
get_elem?-map f [] i x h = absurd (cc)
get_elem?-map f (y ∷ xs) zero x h = ground arith
get_elem?-map f (y ∷ xs) (suc i) x h = get_elem?-map f xs i x h

-- What an answer says about a process.
abbrev pub reported_in : Option (List DcmiProcMemInfo) → ℕ → Option ℕ
reported_in none pid = none
reported_in (some procs) pid = dcmimap procs pid

abbrev pub of_device : Option (Option (List DcmiProcMemInfo)) → ℕ → Option ℕ
of_device none pid = none
of_device (some answer) pid = reported_in answer pid

-- What the answer of device `d` says about a process.
abbrev pub reported : List (Option (List DcmiProcMemInfo)) → ℕ → ℕ → Option ℕ
reported answers d pid = of_device (get_elem? answers d) pid

abbrev pub or_kept : Option ℕ → Option ℕ → Option ℕ
or_kept none kept = kept
or_kept (some mem) kept = some mem

-- How a slot is after the refresh: the counters of the devices from `idx` on are those reported.
pub record IsRefreshed (idx : ℕ) (answers : List (Option (List DcmiProcMemInfo)))
    (slot slot' : ProcessSlot) : Type 0 where
  pub same_pid : slot'.pid ≡ slot.pid
  pub same_active : slot'.is_active ≡ slot.is_active
  pub same_length : length slot'.hbm_used ≡ length slot.hbm_used
  pub before : (d : ℕ) → d < idx → get_elem? slot'.hbm_used d ≡ get_elem? slot.hbm_used d
  pub from :
      (d : ℕ)
      → idx + d < npu_device_max
      → get_elem? slot'.hbm_used (idx + d)
        ≡ or_kept (reported answers d slot.pid) (get_elem? slot.hbm_used (idx + d))

-- One device.
record IsStored (dev : ℕ) (new : Option ℕ) (slot slot' : ProcessSlot) : Type 0 where
  same_pid : slot'.pid ≡ slot.pid
  same_active : slot'.is_active ≡ slot.is_active
  same_length : length slot'.hbm_used ≡ length slot.hbm_used
  here : get_elem? slot'.hbm_used dev ≡ or_kept new (get_elem? slot.hbm_used dev)
  others : (d : ℕ) → dev ≢ d → get_elem? slot'.hbm_used d ≡ get_elem? slot.hbm_used d

refresh_slot-IsStored :
    (dev : ℕ) (procs : List DcmiProcMemInfo) (slot : ProcessSlot)
    → dev < length slot.hbm_used
    → slot.pid ≢ 0
    → IsStored dev (dcmimap procs slot.pid) slot (refresh_slot dev procs slot)
unfolding refresh_slot
refresh_slot-IsStored dev procs slot lt taken =
    let on : (slot.pid == 0) ≡ false = ground arith in
    elim (Option-cases (dcmimap procs slot.pid)) [
      | inl silent ↦
          rw (refresh_slot, on, silent)
            (record {
              same_pid = refl;
              same_active = refl;
              same_length = refl;
              here = refl;
              others = λ d ne. refl;
            })
      | inr (mem, e) ↦
          rw (refresh_slot, on, e)
            (record {
              same_pid = refl;
              same_active = refl;
              same_length = length-set slot.hbm_used dev mem;
              here = get_elem?-set_self slot.hbm_used dev mem lt;
              others = λ d ne. get_elem?-set_ne slot.hbm_used dev d mem ne;
            })
    ]

refresh_slot_at :
    (dev idx : ℕ) (procs : List DcmiProcMemInfo) (slot : ProcessSlot)
    → dev ≡ idx
    → idx < length slot.hbm_used
    → slot.pid ≢ 0
    → IsStored idx (dcmimap procs slot.pid) slot (refresh_slot dev procs slot)
refresh_slot_at dev idx procs slot same lt taken =
    rw same (refresh_slot-IsStored idx procs slot lt taken)

from-cons :
    (answer : Option (List DcmiProcMemInfo)) (answers : List (Option (List DcmiProcMemInfo)))
    (idx pid : ℕ) (old new : List ℕ)
    → get_elem? new idx ≡ or_kept (reported_in answer pid) (get_elem? old idx)
    → ((d : ℕ)
        → idx + 1 + d < npu_device_max
        → get_elem? new (idx + 1 + d)
          ≡ or_kept (reported answers d pid) (get_elem? old (idx + 1 + d)))
    → (d : ℕ) → idx + d < npu_device_max
    → get_elem? new (idx + d)
      ≡ or_kept (reported (answer ∷ answers) d pid) (get_elem? old (idx + d))
from-cons answer answers idx pid old new here later zero lt = rw add-zero here
from-cons answer answers idx pid old new here later (suc d) lt =
    let e : idx + suc d ≡ idx + 1 + d = omega arith in rw e (later d (omega arith))

refresh_from-IsRefreshed :
    (idx : ℕ) (answers : List (Option (List DcmiProcMemInfo))) (slots : List ProcessSlot) (i : ℕ)
    (slot : ProcessSlot)
    → idx + length answers ≤ npu_device_max
    → length slot.hbm_used ≡ npu_device_max
    → slot.pid ≢ 0
    → get_elem? slots i ≡ some slot
    → (slot' : ProcessSlot) × (get_elem? (refresh_from idx answers slots) i ≡ some slot')
      × IsRefreshed idx answers slot slot'
unfolding refresh_from
refresh_from-IsRefreshed idx [] slots i slot le len taken e = (
  slot,
  e,
  record {
    same_pid = refl;
    same_active = refl;
    same_length = refl;
    before = λ d lt. refl;
    from = λ d lt. refl;
  },
)
refresh_from-IsRefreshed idx (none ∷ answers) slots i slot le len taken e =
    let (slot', at, r) =
      refresh_from-IsRefreshed (idx + 1) answers slots i slot (omega arith) len taken e in
    (
      slot',
      at,
      record {
        same_pid = r.same_pid;
        same_active = r.same_active;
        same_length = r.same_length;
        before = λ d lt. r.before d (omega arith);
        from =
            from-cons none answers idx slot.pid slot.hbm_used slot'.hbm_used
              (r.before idx (omega arith)) r.from;
      },
    )
refresh_from-IsRefreshed idx (some procs ∷ answers) slots i slot le len taken e =
    let dev : idx % npu_device_max ≡ idx = omega arith in
    let slot1 : ProcessSlot = refresh_slot (idx % npu_device_max) procs slot in
    let st = refresh_slot_at (idx % npu_device_max) idx procs slot dev (omega arith) taken in
    let (slot', at, r) =
      refresh_from-IsRefreshed (idx + 1) answers
        (map (refresh_slot (idx % npu_device_max) procs) slots) i slot1 (omega arith)
        (st.same_length ∙ len) (ground (arith, st.same_pid))
        (get_elem?-map (refresh_slot (idx % npu_device_max) procs) slots i slot e) in
    (
      slot',
      at,
      record {
        same_pid = r.same_pid ∙ st.same_pid;
        same_active = r.same_active ∙ st.same_active;
        same_length = r.same_length ∙ st.same_length;
        before = λ d lt. r.before d (omega arith) ∙ st.others d (omega arith);
        from =
            from-cons (some procs) answers idx slot.pid slot.hbm_used slot'.hbm_used
              (r.before idx (omega arith) ∙ st.here)
              (λ d lt.
                r.from d lt
                ∙ ap₂ (λ p o. or_kept (reported answers d p) o) st.same_pid
                    (st.others (idx + 1 + d) (omega arith)));
      },
    )

-- After a refresh from the answers of at most eight devices, the slot of a process holds for each
-- device what that device's answer says of the process, and what it held before where the answer
-- says nothing or the device could not be asked. Its pid and its activity stay.
pub discover_and_update_lem :
    (answers : List (Option (List DcmiProcMemInfo))) (s : LocalContainerShmem) (i : ℕ)
    (slot : ProcessSlot)
    → length answers ≤ npu_device_max
    → length slot.hbm_used ≡ npu_device_max
    → slot.pid ≢ 0
    → get_elem? s.procs i ≡ some slot
    → (slot' : ProcessSlot) × (get_elem? (discover_and_update answers s).procs i ≡ some slot')
      × IsRefreshed 0 answers slot slot'
unfolding discover_and_update
discover_and_update_lem answers s i slot le len taken e =
    refresh_from-IsRefreshed 0 answers s.procs i slot (omega arith) len taken e
