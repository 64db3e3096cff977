-- ===== src/Config/Defaults.antt =====
-- When the configuration loads, and what it then holds.
use hami_vnpu_core_hhy.Common.{◌≡◌, refl, ◌⊎◌, inl, inr, none, some, Option-cases, ◌>>=◌}
use Prim.Native.String.{String}
use hami_vnpu_core_hhy.Config.{
  Environment, ManagerConfig, ok, err, local_shmem_path, parse_u64, config_with, from_env,
}

-- The manager and the workers of a process open the same file of local shared memory: a
-- configuration that loads has the path that a worker computes by itself; it has the global path
-- of the environment, and a quota of 0, which means no limit, where none is given or it is no
-- number. It loads exactly if the global path is given.
pub from_env_lem :
    (env : Environment)
    → ((env.var "NPU_GLOBAL_SHM_PATH" ≡ none) × (from_env env ≡ err "NPU_GLOBAL_SHM_PATH"))
      ⊎ ((path : String) × (env.var "NPU_GLOBAL_SHM_PATH" ≡ some path)
          × (cfg : ManagerConfig env) × (from_env env ≡ ok cfg)
          × (cfg.global_shm_path ≡ path)
          × (cfg.local_shm_path ≡ local_shmem_path env)
          × (((env.var "NPU_MEM_QUOTA" >>= env.parse_word) ≡ none) → cfg.memory_limit_mb ≡ 0))
unfolding from_env local_shmem_path parse_u64
from_env_lem env = elim (Option-cases (env.var "NPU_GLOBAL_SHM_PATH")) [
  | inl missing ↦ inl (missing, rw (from_env, missing))
  | inr (path, e) ↦
      inr (path, e, config_with env path, rw (from_env, e), refl, refl, λ h. rw (parse_u64, h))
]
