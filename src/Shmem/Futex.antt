-- ===== src/Shmem/Futex.antt =====
-- crates/limiter/src/shmem/futex.rs: what the four functions hand to the system call, which is
-- not modelled. An address is a natural number; `none` for the timeout is a wait without end.
use hami_vnpu_core_hhy.Common.{ℕ, ◌+◌, ◌*◌, ◌/◌, ◌%◌, ◌^◌, ◌-◌, ◌<◌, ◌≡◌, Option, none, some, arith}

-- `timespec`, with signed 64-bit fields.
pub record Timespec : Type 0 where
  pub tv_sec : ℕ
  pub tv_nsec : ℕ

pub data FutexCall : Type 0 where
  futex_wait : (address expected : ℕ) (timeout : Option Timespec) → FutexCall
  futex_wake : (address n : ℕ) → FutexCall

-- `wait`
abbrev pub wait_forever : ℕ → ℕ → FutexCall
wait_forever address expected = futex_wait address expected none

abbrev pub timespec_of : ℕ → Timespec
timespec_of timeout_us = record {
  tv_sec = timeout_us / 1_000_000;
  tv_nsec = timeout_us % 1_000_000 * 1000;
}

abbrev pub wait_timeout : ℕ → ℕ → ℕ → FutexCall
wait_timeout address expected timeout_us =
    futex_wait address expected (some (timespec_of timeout_us))

abbrev pub wake : ℕ → ℕ → FutexCall
wake address n = futex_wake address n

abbrev pub wake_all : ℕ → FutexCall
wake_all address = futex_wake address (2 ^ 31 - 1)

-- For every timeout of 64 bits, both fields of the timespec are within their signed type, the
-- nanoseconds are less than a second, as the system call demands, and together they are the
-- timeout.
pub timespec_of_lem :
    (timeout_us : ℕ)
    → timeout_us < 2 ^ 64
    → ((timespec_of timeout_us).tv_sec < 2 ^ 63)
      × ((timespec_of timeout_us).tv_nsec < 1_000_000_000)
      × ((timespec_of timeout_us).tv_sec * 1_000_000_000 + (timespec_of timeout_us).tv_nsec
          ≡ timeout_us * 1000)
timespec_of_lem timeout_us small = (omega arith, omega arith, omega arith)
