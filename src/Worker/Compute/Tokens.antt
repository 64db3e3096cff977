-- ===== src/Worker/Compute/Tokens.antt =====
-- crates/limiter/src/worker.rs: how the workers of a batch take tokens from the shared counter,
-- one atomic access at a time and interleaved in any order: the load of `tokens_remaining`, the
-- `fetch_sub`, and the `fetch_add` of the path "Race failed". The manager deals the budget once
-- and does not interfere.
pub mod Overdraft
use hami_vnpu_core_hhy.Common.{ℕ, ◌+◌, ◌<◌, ◌≡◌, ◌≢◌, ◌==◌, if◌then◌else◌}
use hami_vnpu_core_hhy.Common.Words.{add_u64, dec_u64}

-- Where a worker stands between its accesses.
pub data Pc : Type 0 where
  ready : Pc
  loaded : Pc
  race_failed : Pc

pub record Bucket : Type 0 where
  pub tokens_remaining : ℕ
  pub granted : ℕ
  pub pc : ℕ → Pc

abbrev pub update : (ℕ → Pc) → ℕ → Pc → ℕ → Pc
update pc i p j = if i == j then p else pc j

-- One access of worker `i` of `n`.
pub data Step (n : ℕ) (s : Bucket) : Bucket → Type 0 where
  load_some :
      (i : ℕ)
      → i < n
      → s.pc i ≡ ready
      → s.tokens_remaining ≢ 0
      → Step n s (record s { pc = update s.pc i loaded })
  load_none : (i : ℕ) → i < n → s.pc i ≡ ready → s.tokens_remaining ≡ 0 → Step n s s
  take :
      (i : ℕ)
      → i < n
      → s.pc i ≡ loaded
      → s.tokens_remaining ≢ 0
      → Step n s (record {
        tokens_remaining = dec_u64 s.tokens_remaining;
        granted = s.granted + 1;
        pc = update s.pc i ready;
      })
  lose :
      (i : ℕ)
      → i < n
      → s.pc i ≡ loaded
      → s.tokens_remaining ≡ 0
      → Step n s (record s {
        tokens_remaining = dec_u64 s.tokens_remaining;
        pc = update s.pc i race_failed;
      })
  put_back :
      (i : ℕ)
      → i < n
      → s.pc i ≡ race_failed
      → Step n s
          (record s { tokens_remaining = add_u64 s.tokens_remaining 1; pc = update s.pc i ready })

abbrev pub dealt : ℕ → Bucket
dealt budget = record { tokens_remaining = budget; granted = 0; pc = λ _. ready }

pub data Reach (n budget : ℕ) : Bucket → Type 0 where
  start : Reach n budget (dealt budget)
  later : {s t : Bucket} → Reach n budget s → Step n s t → Reach n budget t
