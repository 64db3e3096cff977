-- ===== src/Config/Tests.antt =====
-- An environment with a global path and a quota that is no number.
use hami_vnpu_core_hhy.Common.{ℕ, ◌≡◌, ◌⊎◌, none, some, ◌>>=◌}
use Prim.Native.String.{String}
use hami_vnpu_core_hhy.Config.{Environment, ManagerConfig, ok, err, local_shmem_path, from_env}
use hami_vnpu_core_hhy.Config.Defaults.{from_env_lem}

-- Every variable holds "/shm", and nothing parses.
abbrev env : Environment
env = record {
  Float = ℕ;
  default_priority = 1;
  var = λ name. some "/shm";
  parse_float = λ text. none;
  parse_word = λ text. none;
}

from_env_lem_example :
    ((env.var "NPU_GLOBAL_SHM_PATH" ≡ none) × (from_env env ≡ err "NPU_GLOBAL_SHM_PATH"))
    ⊎ ((path : String) × (env.var "NPU_GLOBAL_SHM_PATH" ≡ some path)
        × (cfg : ManagerConfig env) × (from_env env ≡ ok cfg)
        × (cfg.global_shm_path ≡ path)
        × (cfg.local_shm_path ≡ local_shmem_path env)
        × (((env.var "NPU_MEM_QUOTA" >>= env.parse_word) ≡ none) → cfg.memory_limit_mb ≡ 0))
from_env_lem_example = from_env_lem env
