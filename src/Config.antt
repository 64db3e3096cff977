-- ===== src/Config.antt =====
-- crates/limiter/src/config.rs: the configuration from the environment. The environment and the
-- two parsers of the standard library are parameters; a priority is a value of an abstract type.
pub mod Defaults
mod Tests
use hami_vnpu_core_hhy.Common.{ℕ, Option, none, some, ◌>>=◌}
use Prim.Native.String.{String}

abbrev pub default_local_shmem_path : String
default_local_shmem_path = "/tmp/vnpu_local_shmem"

abbrev pub default_mem_quota_mb : ℕ
default_mem_quota_mb = 0

-- What `std::env::var`, `parse::<f64>` and `parse::<u64>` give, and the number 1.0.
pub record Environment : Type 1 where
  pub Float : Type 0
  pub default_priority : Float
  pub var : String → Option String
  pub parse_float : String → Option Float
  pub parse_word : String → Option ℕ

module _ (env : Environment) where
  open env use {Float, default_priority, var, parse_float, parse_word}

  pub record ManagerConfig : Type 0 where
    pub global_shm_path : String
    pub local_shm_path : String
    pub priority : Float
    pub memory_limit_mb : ℕ

  -- `Err` carries the name of the missing variable.
  pub data Loaded : Type 0 where
    ok : ManagerConfig → Loaded
    err : String → Loaded

  abbrev pub unwrap_or {ℓ} : {A : Type ℓ} → Option A → A → A
  unwrap_or none d = d
  unwrap_or (some a) d = a

  unfoldable pub local_shmem_path : String
  local_shmem_path = unwrap_or (var "NPU_LOCAL_SHM_PATH") default_local_shmem_path

  unfoldable pub parse_f64 : String → Float → Float
  parse_f64 name default = unwrap_or (var name >>= parse_float) default

  unfoldable pub parse_u64 : String → ℕ → ℕ
  parse_u64 name default = unwrap_or (var name >>= parse_word) default

  abbrev pub config_with : String → ManagerConfig
  config_with path = record {
    global_shm_path = path;
    local_shm_path = unwrap_or (var "NPU_LOCAL_SHM_PATH") default_local_shmem_path;
    priority = parse_f64 "NPU_PRIORITY" default_priority;
    memory_limit_mb = parse_u64 "NPU_MEM_QUOTA" default_mem_quota_mb;
  }

  abbrev config_for : Option String → Loaded
  config_for none = err "NPU_GLOBAL_SHM_PATH"
  config_for (some path) = ok (config_with path)

  unfoldable pub from_env : Loaded
  unfolding parse_f64 parse_u64
  from_env = config_for (var "NPU_GLOBAL_SHM_PATH")
