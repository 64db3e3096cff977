-- ===== src/Common/Words.antt =====
-- Machine words: `u64` and `u32` arithmetic as the release build does it, and `i32` values.
use Prim.Native.Nat.{ℕ, ◌+◌, ◌-◌, ◌*◌, ◌%◌, ◌^◌, min}

abbrev pub u64_max : ℕ
u64_max = 2 ^ 64 - 1

-- `a + b` on u64, and an atomic `fetch_add`: both wrap.
abbrev pub add_u64 : ℕ → ℕ → ℕ
add_u64 a b = (a + b) % 2 ^ 64

-- An atomic `fetch_sub(1)` on u64 wraps below 0.
abbrev pub dec_u64 : ℕ → ℕ
dec_u64 a = (a + 2 ^ 64 - 1) % 2 ^ 64

-- An atomic `fetch_add(1)` on u32.
abbrev pub inc_u32 : ℕ → ℕ
inc_u32 a = (a + 1) % 2 ^ 32

-- `n as u32`
abbrev pub as_u32 : ℕ → ℕ
as_u32 n = n % 2 ^ 32

-- `u64::saturating_mul`
abbrev pub saturating_mul : ℕ → ℕ → ℕ
saturating_mul a b = min (a * b) u64_max

-- A signed integer: `negsuc n` is -(n + 1).
pub data ℤ : Type 0 where
  pos : ℕ → ℤ
  negsuc : ℕ → ℤ
