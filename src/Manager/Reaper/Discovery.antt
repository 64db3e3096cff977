-- ===== src/Manager/Reaper/Discovery.antt =====
-- crates/limiter/src/manager.rs: the devices that the refresh asks, and what it makes of their
-- answers. The library that is asked is not part of the repository: what it leaves in its out
-- parameters is an argument.
use hami_vnpu_core_hhy.Common.{
  ◌&&◌, true, Option-cases, Bool-cases, inl, inr, [], ℕ, zero, suc, ◌+◌, ◌≤◌, ◌<◌, ◌≡◌, refl, ap,
  ◌∙◌, ◌≢◌, false, Option, none, some, List, ◌∷◌, map, ltb, ◌==◌, ◌||◌, if◌then◌else◌, length,
  get_elem?, arith,
}
use mathlib.Core.Path.{subst}
use mathlib.Core.Option.{some-injective}
use hami_vnpu_core_hhy.Common.Words.{ℤ, pos, negsuc}
use hami_vnpu_core_hhy.Shmem.{LocalContainerShmem, ProcessSlot, npu_device_max}
use hami_vnpu_core_hhy.Manager.Reaper.{dcmimap, DcmiProcMemInfo, discover_and_update}
use hami_vnpu_core_hhy.Manager.Reaper.Refresh.{
  or_kept, of_device, reported_in, discover_and_update_lem,
}

abbrev pub max_dcmi_procs : ℕ
max_dcmi_procs = 64

abbrev pub take {ℓ} : {A : Type ℓ} → ℕ → List A → List A
take zero xs = []
take (suc n) [] = []
take (suc n) (x ∷ xs) = x ∷ take n xs

-- What `dcmi_get_card_list` leaves in `card_num` and in the array of eight cards.
pub record Cards : Type 0 where
  pub card_num : ℤ
  pub card_list : List ℤ

abbrev cards_up_to : ℤ → List ℤ → List ℤ
cards_up_to (pos n) cards = if n == 0 || ltb 8 n then [] else take n cards
cards_up_to (negsuc n) cards = []

abbrev device_0 : ℤ → ℤ × ℤ
device_0 card_id = (card_id, pos 0)

-- Pairs of a card and its device 0.
unfoldable pub discover_npu_devices : Cards → List (ℤ × ℤ)
discover_npu_devices c = map device_0 (cards_up_to c.card_num c.card_list)

-- What `dcmi_get_device_resource_info` returns and leaves.
pub record DeviceAnswer : Type 0 where
  pub ret : ℤ
  pub proc_num : ℤ
  pub procs : List DcmiProcMemInfo

abbrev counted : ℤ → List DcmiProcMemInfo → Option (List DcmiProcMemInfo)
counted (pos n) procs = if n == 0 || ltb max_dcmi_procs n then none else some (take n procs)
counted (negsuc n) procs = none

abbrev if_answered : ℤ → Option (List DcmiProcMemInfo) → Option (List DcmiProcMemInfo)
if_answered (pos zero) answer = answer
if_answered (pos (suc n)) answer = none
if_answered (negsuc n) answer = none

-- The processes that a device names, `none` for a device that is skipped.
unfoldable pub device_processes : DeviceAnswer → Option (List DcmiProcMemInfo)
device_processes a = if_answered a.ret (counted a.proc_num a.procs)

module _ (cards : Cards) (ask : ℤ × ℤ → DeviceAnswer) where
  abbrev pub all_answers : List (Option (List DcmiProcMemInfo))
  all_answers = map (λ device. device_processes (ask device)) (discover_npu_devices cards)

  unfoldable pub refresh : LocalContainerShmem → LocalContainerShmem
  refresh s = discover_and_update all_answers s

module _ {ℓ κ} {A : Type ℓ} {B : Type κ} (f : A → B) where
  length-map : (xs : List A) → length (map f xs) ≡ length xs
  length-map [] = refl
  length-map (x ∷ xs) = ap suc (length-map xs)

  get_elem?-map :
      (xs : List A) (i : ℕ) (x : A) → get_elem? xs i ≡ some x → get_elem? (map f xs) i ≡ some (f x)
  get_elem?-map [] i x h = absurd (cc)
  get_elem?-map (y ∷ xs) zero x h = ap (λ q. some (f q)) (some-injective _ _ h)
  get_elem?-map (y ∷ xs) (suc i) x h = get_elem?-map xs i x h

module _ {ℓ} {A : Type ℓ} where
  length-take_le : (n : ℕ) (xs : List A) → length (take n xs) ≤ n
  length-take_le zero xs = omega arith
  length-take_le (suc n) [] = omega arith
  length-take_le (suc n) (x ∷ xs) = omega (arith, length-take_le n xs)

  get_elem?-take : (n : ℕ) (xs : List A) (i : ℕ) → i < n → get_elem? (take n xs) i ≡ get_elem? xs i
  get_elem?-take zero xs i lt = elim lt [ ]
  get_elem?-take (suc n) [] i lt = refl
  get_elem?-take (suc n) (x ∷ xs) zero lt = refl
  get_elem?-take (suc n) (x ∷ xs) (suc i) lt = get_elem?-take n xs i (omega arith)

cards_up_to-le : (n : ℤ) (cards : List ℤ) → length (cards_up_to n cards) ≤ npu_device_max
cards_up_to-le (pos n) cards = ground (arith, length-take_le n cards)
cards_up_to-le (negsuc n) cards = omega arith

-- What the last entry about a process names, `none` if no entry is about it.
abbrev pub IsLatest : List DcmiProcMemInfo → ℕ → Option ℕ → Type 0
IsLatest procs pid none =
    (i : ℕ) (p : DcmiProcMemInfo) → get_elem? procs i ≡ some p → p.proc_id ≢ pid
IsLatest procs pid (some mem) =
    (j : ℕ) × (p : DcmiProcMemInfo) × (get_elem? procs j ≡ some p)
    × (p.proc_id ≡ pid)
    × (p.proc_mem_usage ≡ mem)
    × ((i : ℕ) (q : DcmiProcMemInfo) → j < i → get_elem? procs i ≡ some q → q.proc_id ≢ pid)

-- What an answer of a device says of a process: something only if the call succeeded and counts
-- one to 64 processes, and then what the last of the counted entries about it names.
pub data Says (a : DeviceAnswer) (pid : ℕ) : Option ℕ → Type 0 where
  reads :
      (k : ℕ) (answer : Option ℕ) (answered : a.ret ≡ pos 0) (counts : a.proc_num ≡ pos k)
      (some_procs : 1 ≤ k) (few : k ≤ 64) (latest : IsLatest (take k a.procs) pid answer)
      → Says a pid answer
  fails : (refused : a.ret ≢ pos 0) → Says a pid none
  miscounts : (off : (k : ℕ) → 1 ≤ k → k ≤ 64 → a.proc_num ≢ pos k) → Says a pid none

after_cons :
    (p : DcmiProcMemInfo) (procs : List DcmiProcMemInfo) (pid j : ℕ)
    → ((i : ℕ) (q : DcmiProcMemInfo) → j < i → get_elem? procs i ≡ some q → q.proc_id ≢ pid)
    → (i : ℕ) (q : DcmiProcMemInfo) → suc j < i
    → get_elem? (p ∷ procs) i ≡ some q
    → q.proc_id ≢ pid
after_cons p procs pid j last zero q lt e = absurd (omega (arith, lt))
after_cons p procs pid j last (suc i) q lt e = last i q (omega (arith, lt)) e

after_first :
    (p : DcmiProcMemInfo) (procs : List DcmiProcMemInfo) (pid : ℕ)
    → IsLatest procs pid none
    → (i : ℕ) (q : DcmiProcMemInfo) → 0 < i
    → get_elem? (p ∷ procs) i ≡ some q
    → q.proc_id ≢ pid
after_first p procs pid nowhere zero q lt e = absurd (omega (arith, lt))
after_first p procs pid nowhere (suc i) q lt e = nowhere i q e

IsLatest-cons :
    (p : DcmiProcMemInfo) (procs : List DcmiProcMemInfo) (pid mem : ℕ)
    → IsLatest procs pid (some mem)
    → IsLatest (p ∷ procs) pid (some mem)
IsLatest-cons p procs pid mem (j, q, at, about, names, last) =
    (suc j, q, at, about, names, after_cons p procs pid j last)

nowhere-cons :
    (p : DcmiProcMemInfo) (procs : List DcmiProcMemInfo) (pid : ℕ)
    → p.proc_id ≢ pid
    → IsLatest procs pid none
    → IsLatest (p ∷ procs) pid none
nowhere-cons p procs pid ne nowhere zero q e =
    λ same. ne (ap (λ r. r.proc_id) (some-injective _ _ e) ∙ same)
nowhere-cons p procs pid ne nowhere (suc i) q e = nowhere i q e

dcmimap-IsLatest :
    (procs : List DcmiProcMemInfo) (pid : ℕ) → pid ≢ 0 → IsLatest procs pid (dcmimap procs pid)
unfolding dcmimap
dcmimap-IsLatest [] pid used = λ i p e. absurd (cc)
dcmimap-IsLatest (p ∷ procs) pid used = elim (Option-cases (dcmimap procs pid)) [
  | inr (mem, e) ↦
      rw (dcmimap, e)
        (IsLatest-cons p procs pid mem
          (subst (IsLatest procs pid) e (dcmimap-IsLatest procs pid used)))
  | inl silent ↦
      let nowhere = subst (IsLatest procs pid) silent (dcmimap-IsLatest procs pid used) in
      elim (Bool-cases (p.proc_id == pid)) [
        | inl same ↦
            let taken : (ltb 0 p.proc_id && p.proc_id == pid) ≡ true = ground arith in
            rw (dcmimap, silent, taken)
              (0, p, refl, ground arith, refl, after_first p procs pid nowhere)
        | inr other ↦
            let skipped : (ltb 0 p.proc_id && p.proc_id == pid) ≡ false = ground arith in
            rw (dcmimap, silent, skipped) (nowhere-cons p procs pid (ground arith) nowhere)
      ]
]

answer-Says :
    (a : DeviceAnswer) (pid : ℕ) (ret count : ℤ)
    → a.ret ≡ ret
    → a.proc_num ≡ count
    → pid ≢ 0
    → Says a pid (reported_in (if_answered ret (counted count a.procs)) pid)
answer-Says a pid (negsuc n) count r c used = fails (λ e. absurd (cc (r, e)))
answer-Says a pid (pos (suc n)) count r c used = fails (λ e. absurd (cc (r, e)))
answer-Says a pid (pos zero) (negsuc n) r c used = miscounts (λ k least most e. absurd (cc (c, e)))
answer-Says a pid (pos zero) (pos n) r c used = elim (Bool-cases (n == 0 || ltb 64 n)) [
  | inl off ↦ rw off (miscounts (λ k least most e. let same : k ≡ n = cc (c, e) in ground arith))
  | inr few ↦ rw few (
      reads n (dcmimap (take n a.procs) pid) r c (ground arith) (ground arith)
        (dcmimap-IsLatest (take n a.procs) pid used))
]

device_processes-Says :
    (a : DeviceAnswer) (pid : ℕ) → pid ≢ 0 → Says a pid (reported_in (device_processes a) pid)
unfolding device_processes
device_processes-Says a pid used = answer-Says a pid a.ret a.proc_num refl refl used

-- When the library counts one to eight cards, the counter of device `d` of a slot in use, with
-- its eight counters, is afterwards the memory that the last entry about the slot's process names
-- in the answer of device 0 of the `d`-th card, if the call succeeded and counts one to 64
-- processes, that process among them, and what it was before if not. The slot's pid and its
-- activity stay.
pub refresh_lem :
    (cards : Cards) (ask : ℤ × ℤ → DeviceAnswer) (s : LocalContainerShmem) (i n d : ℕ)
    (slot : ProcessSlot) (card : ℤ)
    → cards.card_num ≡ pos n
    → n ≤ npu_device_max
    → d < n
    → get_elem? cards.card_list d ≡ some card
    → length slot.hbm_used ≡ npu_device_max
    → slot.pid ≢ 0
    → get_elem? s.procs i ≡ some slot
    → (slot' : ProcessSlot) × (get_elem? (refresh cards ask s).procs i ≡ some slot')
      × (slot'.pid ≡ slot.pid)
      × (slot'.is_active ≡ slot.is_active)
      × ((answer : Option ℕ) × Says (ask (card, pos 0)) slot.pid answer
          × (get_elem? slot'.hbm_used d ≡ or_kept answer (get_elem? slot.hbm_used d)))
unfolding refresh discover_npu_devices
refresh_lem cards ask s i n d slot card count le lt listed laid taken at =
    let answers = all_answers cards ask in
    let some_cards : n == 0 || ltb 8 n ≡ false = ground arith in
    let few : length answers ≤ npu_device_max = omega (
      arith,
      length-map (λ device. device_processes (ask device)) (discover_npu_devices cards),
      length-map device_0 (cards_up_to cards.card_num cards.card_list),
      cards_up_to-le cards.card_num cards.card_list,
    ) in
    let chosen : get_elem? (cards_up_to cards.card_num cards.card_list) d ≡ some card =
      rw (count, some_cards) (get_elem?-take n cards.card_list d lt ∙ listed) in
    let answer : get_elem? answers d ≡ some (device_processes (ask (card, pos 0))) =
      get_elem?-map (λ device. device_processes (ask device)) (discover_npu_devices cards) d
        (card, pos 0)
        (get_elem?-map device_0 (cards_up_to cards.card_num cards.card_list) d card chosen) in
    let zero_add : 0 + d ≡ d = omega arith in
    let (slot', stands, fresh) = discover_and_update_lem answers s i slot few laid taken at in
    (
      slot',
      stands,
      fresh.same_pid,
      fresh.same_active,
      (
        reported_in (device_processes (ask (card, pos 0))) slot.pid,
        device_processes-Says (ask (card, pos 0)) slot.pid taken,
        rw zero_add at (fresh.from d (omega arith))
            ∙ ap (λ o. or_kept (of_device o slot.pid) (get_elem? slot.hbm_used d)) answer,
      ),
    )
