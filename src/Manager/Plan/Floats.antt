-- ===== src/Manager/Plan/Floats.antt =====
-- The operations of `f64` that the manager calls, on an unknown type. Nothing is assumed of them.
use hami_vnpu_core_hhy.Common.{ℕ}

-- `decimal n d` is the literal n / 10 ^ d. `to_word` is `as u64`, `from_word` is `as f64`.
pub record Float : Type 1 where
  pub F : Type 0
  pub decimal : ℕ → ℕ → F
  pub from_word : ℕ → F
  pub to_word : F → ℕ
  pub add : F → F → F
  pub sub : F → F → F
  pub mul : F → F → F
  pub div : F → F → F
  pub max : F → F → F
  pub clamp : F → F → F → F
  pub ceil : F → F
  pub round : F → F
