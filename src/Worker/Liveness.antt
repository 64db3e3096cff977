-- ===== src/Worker/Liveness.antt =====
-- crates/limiter/src/worker.rs: `proc_alive`, from the text of /proc/<pid>/stat, `none` if it
-- cannot be read. The text is a list of bytes. The outer `none` of a result is the panic of a
-- slice that starts behind the end.
pub mod Stat
use hami_vnpu_core_hhy.Common.{
  [], ℕ, zero, suc, ◌+◌, Bool, true, false, not, ◌||◌, Option, none, some, List, ◌∷◌, ◌==◌,
  if◌then◌else◌, ◌>>=◌,
}

abbrev pub close_paren : ℕ
close_paren = b')'

-- `str::rfind` of a character.
unfoldable pub rfind : ℕ → List ℕ → Option ℕ
rfind c [] = none
rfind c (x ∷ xs) = elim (rfind c xs) as (λ _. Option ℕ) [
  | some i ↦ some (suc i)
  | none ↦ if x == c then some 0 else none
]

-- `&s[n..]`
unfoldable pub slice_from : List ℕ → ℕ → Option (List ℕ)
slice_from xs zero = some xs
slice_from [] (suc n) = none
slice_from (x ∷ xs) (suc n) = slice_from xs n

abbrev pub is_dead_state : ℕ → Bool
is_dead_state ch = ch == b'Z' || (ch == b'X' || ch == b'x')

-- The state character decides; without one the process is taken to be alive.
abbrev pub state_alive : List ℕ → Bool
state_alive [] = true
state_alive (ch ∷ rest) = not (is_dead_state ch)

abbrev alive_after : List ℕ → Option ℕ → Option Bool
alive_after stat none = some true
alive_after stat (some at) = slice_from stat (at + 2) >>= λ rest. some (state_alive rest)

unfoldable pub proc_alive : Option (List ℕ) → Option Bool
unfolding rfind slice_from
proc_alive none = some false
proc_alive (some stat) = alive_after stat (rfind close_paren stat)
