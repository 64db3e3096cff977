-- ===== src/Worker/Compute/Tokens/Overdraft.antt =====
-- How many tokens the workers can take.
use hami_vnpu_core_hhy.Common.{
  ℕ, zero, suc, ◌+◌, ◌-◌, ◌%◌, ◌^◌, ◌≤◌, ◌<◌, ◌≡◌, refl, sym, ap, ◌∙◌, ◌≢◌, inl, inr, arith, ◌==◌,
  Bool-cases,
}
use hami_vnpu_core_hhy.Common.Words.{dec_u64}
use hami_vnpu_core_hhy.Worker.Compute.Tokens.{
  Pc, ready, loaded, race_failed, Bucket, update, Step, load_some, load_none, take, lose, put_back,
  dealt, Reach, start, later,
}

-- The workers below `n` that have to put a token back.
abbrev owes : Pc → ℕ
owes ready = 0
owes loaded = 0
owes race_failed = 1

pub owed : ℕ → (ℕ → Pc) → ℕ
owed zero pc = 0
owed (suc n) pc = owed n pc + owes (pc n)

owed-update_above :
    (n : ℕ) (pc : ℕ → Pc) (i : ℕ) (p : Pc) → n ≤ i → owed n (update pc i p) ≡ owed n pc
unfolding owed
owed-update_above zero pc i p h = refl
owed-update_above (suc n) pc i p h = ground (arith, owed-update_above n pc i p)

owed-update :
    (n : ℕ) (pc : ℕ → Pc) (i : ℕ) (p : Pc)
    → i < n
    → owed n (update pc i p) + owes (pc i) ≡ owed n pc + owes p
unfolding owed
owed-update zero pc i p h = absurd (omega arith)
owed-update (suc n) pc i p h = elim (Bool-cases (i == n)) [
  | inl last ↦ ground (arith, owed-update_above n pc i p)
  | inr below ↦ ground (arith, owed-update n pc i p)
]

owed-start : (n : ℕ) → owed n (λ _. ready) ≡ 0
unfolding owed
owed-start zero = refl
owed-start (suc n) = omega (arith, owed-start n)

-- The counter, what was granted and what is owed.
abbrev pub Balances : ℕ → ℕ → Bucket → Type 0
Balances n budget s =
    (s.tokens_remaining < 2 ^ 64)
    × ((s.tokens_remaining + s.granted + owed n s.pc) % 2 ^ 64 ≡ budget)

Step-Balances :
    {n budget : ℕ} {s t : Bucket} → Step n s t → Balances n budget s → Balances n budget t
Step-Balances {n} {s} (load_some i lt at some_left) b =
    ground (arith, owed-update n s.pc i loaded lt)
Step-Balances (load_none i lt at none_left) b = b
Step-Balances {n} {s} (take i lt at some_left) b = ground (arith, owed-update n s.pc i ready lt)
Step-Balances {n} {s} (lose i lt at none_left) b =
    ground (arith, owed-update n s.pc i race_failed lt)
Step-Balances {n} {s} (put_back i lt at) b = ground (arith, owed-update n s.pc i ready lt)

-- However the workers interleave, the tokens left, granted and owed add up to the budget modulo
-- 2 ^ 64: the put-back of a failed race repairs the counter.
pub Reach-Balances :
    {n budget : ℕ} {s : Bucket} → budget < 2 ^ 64 → Reach n budget s → Balances n budget s
Reach-Balances {n} {budget} small start = ground (arith, owed-start n)
Reach-Balances small (later r st) = Step-Balances st (Reach-Balances small r)

-- What a single worker keeps: it never loses a race, and all that it was granted was in the
-- bucket.
record IsAlone (budget : ℕ) (s : Bucket) : Type 0 where
  exact : s.tokens_remaining + s.granted ≡ budget
  no_race : s.pc 0 ≢ race_failed
  fresh : s.pc 0 ≡ loaded → s.tokens_remaining ≢ 0

Step-IsAlone :
    {budget : ℕ} {s t : Bucket} → budget < 2 ^ 64 → Step 1 s t → IsAlone budget s → IsAlone budget t
Step-IsAlone small (load_some i lt at some_left) a = ground arith
Step-IsAlone small (load_none i lt at none_left) a = a
Step-IsAlone small (take i lt at some_left) a = ground arith
Step-IsAlone {s} small (lose i lt at none_left) a =
    let only : i ≡ 0 = omega arith in absurd (a.fresh (ap s.pc (sym only) ∙ at) none_left)
Step-IsAlone {s} small (put_back i lt at) a =
    let only : i ≡ 0 = omega arith in absurd (a.no_race (ap s.pc (sym only) ∙ at))

Reach-IsAlone : {budget : ℕ} {s : Bucket} → budget < 2 ^ 64 → Reach 1 budget s → IsAlone budget s
Reach-IsAlone small start = ground arith
Reach-IsAlone small (later r st) = Step-IsAlone small st (Reach-IsAlone small r)

-- A worker that is alone is never granted more tokens than the budget.
pub granted-le-budget :
    {budget : ℕ} {s : Bucket} → budget < 2 ^ 64 → Reach 1 budget s → s.granted ≤ budget
granted-le-budget small r = omega (arith, Reach-IsAlone small r)

-- Worker 1 takes `k` tokens that are there, while worker 0 stands still.
record Drained (n budget left granted : ℕ) (still : Pc) : Type 0 where
  state : Bucket
  reach : Reach n budget state
  tokens : state.tokens_remaining ≡ left
  taken : state.granted ≡ granted
  other : state.pc 0 ≡ still
  idle : state.pc 1 ≡ ready

drain :
    (n budget left k granted : ℕ) (still : Pc)
    → 1 < n
    → left + k < 2 ^ 64
    → Drained n budget (left + k) granted still
    → Drained n budget left (granted + k) still
drain n budget left zero granted still lt word d = record {
  state = d.state;
  reach = d.reach;
  tokens = omega (arith, d.tokens);
  taken = omega (arith, d.taken);
  other = d.other;
  idle = d.idle;
}
drain n budget left (suc k) granted still lt word d =
    let s = d.state in
    let one : Bucket = record s { pc = update s.pc 1 loaded } in
    let two : Bucket = record {
      tokens_remaining = dec_u64 s.tokens_remaining;
      granted = s.granted + 1;
      pc = update one.pc 1 ready;
    } in
    let step : Drained n budget (left + k) (granted + 1) still = record {
      state = two;
      reach =
          later (later d.reach (load_some 1 lt d.idle (omega (arith, d.tokens))))
            (take 1 lt refl (omega (arith, d.tokens)));
      tokens = omega (arith, d.tokens);
      taken = omega (arith, d.taken);
      other = d.other;
      idle = refl;
    } in
    let rest = drain n budget left k (granted + 1) still lt (omega arith) step in
    record {
      state = rest.state;
      reach = rest.reach;
      tokens = rest.tokens;
      taken = omega (arith, rest.taken);
      other = rest.other;
      idle = rest.idle;
    }

-- With two workers or more the budget does not bound the grants: after a lost race the counter
-- stands at 2 ^ 64 - 1 until the token is put back, and the other worker takes tokens from there.
-- From every budget but 0 the workers can be granted any number of tokens more, up to 2 ^ 64 - 1.
pub overdraft :
    (n budget k : ℕ)
    → 1 < n
    → 0 < budget
    → budget < 2 ^ 64
    → k < 2 ^ 64
    → (s : Bucket) × Reach n budget s × (s.granted ≡ budget + k)
overdraft n budget k lt pos_budget small small_k =
    let from_start : Drained n budget (1 + (budget - 1)) 0 ready = record {
      state = dealt budget;
      reach = start;
      tokens = omega arith;
      taken = refl;
      other = refl;
      idle = refl;
    } in
    let last = drain n budget 1 (budget - 1) 0 ready lt (omega arith) from_start in
    let s = last.state in
    let s1 : Bucket = record s { pc = update s.pc 0 loaded } in
    let s2 : Bucket = record s1 { pc = update s1.pc 1 loaded } in
    let s3 : Bucket = record {
      tokens_remaining = dec_u64 s.tokens_remaining;
      granted = s.granted + 1;
      pc = update s2.pc 1 ready;
    } in
    let s4 : Bucket = record s3 {
      tokens_remaining = dec_u64 s3.tokens_remaining;
      pc = update s3.pc 0 race_failed;
    } in
    let left : ℕ = 2 ^ 64 - 1 - k in
    let raced : Drained n budget (left + k) budget race_failed = record {
      state = s4;
      reach =
          later
            (later
              (later
                (later last.reach
                  (load_some 0 (omega arith) last.other (omega (arith, last.tokens))))
                (load_some 1 lt last.idle (omega (arith, last.tokens))))
              (take 1 lt refl (omega (arith, last.tokens))))
            (lose 0 (omega arith) refl (omega (arith, last.tokens)));
      tokens = omega (arith, last.tokens);
      taken = omega (arith, last.taken);
      other = refl;
      idle = refl;
    } in
    let over = drain n budget left k budget race_failed lt (omega arith) raced in
    (over.state, over.reach, over.taken)
