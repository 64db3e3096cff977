-- ===== src/Supervisor/Begin.antt =====
-- crates/limiter/src/supervisor.rs: `run` before its loop, with the configuration and the
-- creation of the pod's memory. The log and the signal mask are left out; whether the process has
-- forked in the meantime, and the answers of the operating system, are arguments.
use hami_vnpu_core_hhy.Common.{
  ℕ, ◌≡◌, refl, sym, Bool, true, false, Option, none, some, if◌then◌else◌,
}
use Prim.Native.String.{String}
use hami_vnpu_core_hhy.Shmem.{LocalContainerShmem}
use hami_vnpu_core_hhy.Shmem.Setup.{Os, create_shmem}
use hami_vnpu_core_hhy.Shmem.Setup.Descriptors.{created_memory, create_shmem_lem}
use hami_vnpu_core_hhy.Config.{Environment, ManagerConfig, Loaded, ok, err, from_env}

-- The seconds that a process must live before it contends.
abbrev pub manager_min_age_secs : ℕ
manager_min_age_secs = 3

module _ (env : Environment) where
  pub data Begun : Type 0 where
    worker_only : Begun
    leaves : Begun
    panics : Begun
    contends : (cfg : ManagerConfig env) (local : LocalContainerShmem) → Begun

  abbrev attached : ManagerConfig env → Option LocalContainerShmem → Begun
  attached cfg none = panics
  attached cfg (some local) = contends cfg local

  abbrev configured : Bool → ℕ → Os LocalContainerShmem → Loaded env → Begun
  configured forked size os (err missing) = worker_only
  configured forked size os (ok cfg) =
      if forked then leaves else attached cfg (create_shmem size os).result

  unfoldable pub begin : Bool → ℕ → Os LocalContainerShmem → Begun
  unfolding from_env create_shmem
  begin forked size os = configured forked size os (from_env env)

  -- How the thread begins.
  abbrev pub IsBegun : Bool → Os LocalContainerShmem → Begun → Type 0
  IsBegun forked os worker_only = (missing : String) × (from_env env ≡ err missing)
  IsBegun forked os leaves = forked ≡ true
  IsBegun forked os panics =
      (if os.path_has_nul then none else created_memory os.created os.truncated os.memory) ≡ none
  IsBegun forked os (contends cfg local) =
      (from_env env ≡ ok cfg)
      × (forked ≡ false)
      × (os.path_has_nul ≡ false)
      × (os.memory ≡ some local)

  memory_shown :
      (nul : Bool) (created : Option ℕ) (truncated : Bool) (memory : Option LocalContainerShmem)
      (local : LocalContainerShmem)
      → (if nul then none else created_memory created truncated memory) ≡ some local
      → (nul ≡ false) × (memory ≡ some local)
  memory_shown true created truncated memory local h = absurd (cc)
  memory_shown false none truncated memory local h = absurd (cc)
  memory_shown false (some fd) false memory local h = absurd (cc)
  memory_shown false (some fd) true memory local h = (refl, h)

  attached-IsBegun :
      (forked : Bool) (os : Os LocalContainerShmem) (cfg : ManagerConfig env)
      (r : Option LocalContainerShmem)
      → from_env env ≡ ok cfg
      → forked ≡ false
      → r ≡ (if os.path_has_nul then none else created_memory os.created os.truncated os.memory)
      → IsBegun forked os (attached cfg r)
  attached-IsBegun forked os cfg none loaded stays shown = sym shown
  attached-IsBegun forked os cfg (some local) loaded stays shown =
      let (path, memory) =
        memory_shown os.path_has_nul os.created os.truncated os.memory local (sym shown) in
      (loaded, stays, path, memory)

  configured-IsBegun :
      (forked : Bool) (size : ℕ) (os : Os LocalContainerShmem) (l : Loaded env)
      → from_env env ≡ l
      → IsBegun forked os (configured forked size os l)
  configured-IsBegun forked size os (err missing) loaded = (missing, loaded)
  configured-IsBegun true size os (ok cfg) loaded = refl
  configured-IsBegun false size os (ok cfg) loaded =
      attached-IsBegun false os cfg (create_shmem size os).result loaded refl
        (create_shmem_lem size os).0

  -- The thread contends for the manager's role only with a configuration that loads, in the
  -- process that started it, over the memory that was mapped; otherwise it leaves the process a
  -- worker if the configuration does not load, returns after a fork, and panics if the memory
  -- cannot be created.
  pub begin-IsBegun :
      (forked : Bool) (size : ℕ) (os : Os LocalContainerShmem)
      → IsBegun forked os (begin forked size os)
  unfolding begin
  begin-IsBegun forked size os = configured-IsBegun forked size os (from_env env) refl
