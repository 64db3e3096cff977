-- ===== src/Shmem/Setup.antt =====
-- crates/limiter/src/shmem/setup.rs: how a process attaches to a file of shared memory. The calls
-- of the operating system are collected in order, each with its answer; the answers are an
-- argument, and so are the size of the type and whether the path holds a NUL, at which
-- `CString::new(path).unwrap()` panics.
pub mod Descriptors
mod Tests
use hami_vnpu_core_hhy.Common.{
  [], ℕ, ◌^◌, ◌-◌, Bool, true, false, Option, none, some, List, ◌∷◌, ltb, if◌then◌else◌, not, ◌++◌,
}
use hami_vnpu_core_hhy.Common.Words.{ℤ, pos, negsuc}
use hami_vnpu_core_hhy.Shmem.{GlobalRegistry, max_managers}

-- `none` is an answer below 0.
pub data Call : Type 0 where
  creates_parents : Call
  opens : (create : Bool) (fd : Option ℕ) → Call
  truncates : (fd size : ℕ) (done : Bool) → Call
  stats : (fd : ℕ) (st_size : Option ℤ) → Call
  maps : (fd size : ℕ) → Call
  closes : (fd : ℕ) → Call

-- `fd` and `created` are the answers of `open` without and with O_CREAT, and `memory` is what a
-- mapping shows, `none` for MAP_FAILED.
pub record Os {ℓ} (A : Type ℓ) : Type ℓ where
  pub path_has_nul : Bool
  pub has_parent : Bool
  pub fd : Option ℕ
  pub created : Option ℕ
  pub truncated : Bool
  pub st_size : Option ℤ
  pub memory : Option A

-- How a function ends, with the calls that it made. `none` is a panic.
pub record Ended {ℓ} (A : Type ℓ) : Type ℓ where
  pub result : Option A
  pub calls : List Call

abbrev goes_on {ℓ κ} : {A : Type ℓ} {B : Type κ} → List Call → Option A → (A → Ended B) → Ended B
goes_on before none f = record { result = none; calls = before }
goes_on before (some a) f = record { result = (f a).result; calls = before ++ (f a).calls }

infixl 5 ◌>>=◌ ◌>>◌
abbrev ◌>>=◌ {ℓ κ} : {A : Type ℓ} {B : Type κ} → Ended A → (A → Ended B) → Ended B
m >>= f = goes_on m.calls m.result f

abbrev ◌>>◌ {ℓ κ} : {A : Type ℓ} {B : Type κ} → Ended A → Ended B → Ended B
m >> next = m >>= λ _. next

abbrev pub call {ℓ} : {A : Type ℓ} → Call → A → Ended A
call c answer = record { result = some answer; calls = c ∷ [] }

abbrev return {ℓ} : {A : Type ℓ} → A → Ended A
return a = record { result = some a; calls = [] }

-- The answer, or a panic.
abbrev pub or_panic {ℓ} : {A : Type ℓ} → Option A → Ended A
or_panic answer = record { result = answer; calls = [] }

abbrev panics_if : Bool → Ended (Unit {0})
panics_if true = record { result = none; calls = [] }
panics_if false = return tt

abbrev when : Bool → Ended (Unit {0}) → Ended (Unit {0})
when b m = if b then m else return tt

-- `as usize` of an `off_t`.
abbrev pub as_usize : ℤ → ℕ
as_usize (pos n) = n
as_usize (negsuc n) = 2 ^ 64 - 1 - n

-- The condition under which the file is not mapped: `fstat` fails, or the file is too small.
abbrev pub is_unsized : ℕ → Option ℤ → Bool
is_unsized size none = true
is_unsized size (some st_size) = ltb (as_usize st_size) size

module _ {ℓ} {A : Type ℓ} (size : ℕ) (os : Os A) where
  unfoldable pub create_shmem : Ended A
  create_shmem = do
    when os.has_parent (call creates_parents tt)
    panics_if os.path_has_nul
    answer ← call (opens true os.created) os.created
    fd ← or_panic answer
    done ← call (truncates fd size os.truncated) os.truncated
    panics_if (not done)
    mapping ← call (maps fd size) os.memory
    memory ← or_panic mapping
    call (closes fd) memory

  abbrev pub map_sized : ℕ → Ended (Option A)
  map_sized fd = do memory ← call (maps fd size) os.memory; call (closes fd) memory

  -- What follows a successful `open`.
  abbrev pub map_existing : Option ℕ → Ended (Option A)
  map_existing none = return none
  map_existing (some fd) = do
    st_size ← call (stats fd os.st_size) os.st_size
    (if is_unsized size st_size then call (closes fd) none else map_sized fd)

  unfoldable pub try_open_shmem : Ended (Option A)
  try_open_shmem = do
    panics_if os.path_has_nul
    fd ← call (opens false os.fd) os.fd
    map_existing fd

  unfoldable pub open_shmem : Ended A
  unfolding try_open_shmem
  open_shmem = do memory ← try_open_shmem; or_panic memory

-- The descriptor to map, and whether this process created the file.
abbrev pub open_or_create : Os GlobalRegistry → Option ℕ → Ended (ℕ × Bool)
open_or_create os (some fd) = return (fd, false)
open_or_create os none = do
  answer ← call (opens true os.created) os.created
  fd ← or_panic answer
  return (fd, true)

-- The registry as the mapping shows it when the function ends.
unfoldable pub open_global_registry : ℕ → Os GlobalRegistry → Ended GlobalRegistry
open_global_registry size os = do
  panics_if os.path_has_nul
  existing ← call (opens false os.fd) os.fd
  (fd, needs_init) ← open_or_create os existing
  when needs_init (call (truncates fd size os.truncated) tt)
  mapping ← call (maps fd size) os.memory
  reg ← or_panic mapping
  return (if needs_init then record reg { lock_owner = max_managers } else reg)
