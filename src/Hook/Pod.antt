-- ===== src/Hook/Pod.antt =====
-- The processes of a pod that share one device, each intercepted call running whole: a system of
-- clients over one shared memory, with processes that die between the calls.
pub mod Safety
pub mod Totality
pub mod Life
mod Tests
use hami_vnpu_core_hhy.Common.{
  [], ℕ, Bool, false, Option, some, List, ◌∷◌, ◌==◌, if◌then◌else◌, ◌>>=◌, get_elem?, set,
}
use hami_vnpu_core_hhy.Shmem.{LocalContainerShmem}
use hami_vnpu_core_hhy.Worker.{SchedulerClient}
use hami_vnpu_core_hhy.Hook.{RealAlloc, Outcome, rt_malloc, rt_free, rt_mem_get_info_ex}

pub record Pod : Type 0 where
  pub shmem : LocalContainerShmem
  pub clients : List SchedulerClient
  pub alive : ℕ → Bool

-- `client` is the index of the process that makes the call.
pub data Call : Type 0 where
  mallocs : (client size : ℕ) (real : RealAlloc) → Call
  frees : (client ptr ret : ℕ) → Call
  asks : (client : ℕ) (real : ℕ × ℕ × ℕ) → Call
  dies : (pid : ℕ) → Call

abbrev after : Pod → ℕ → Outcome → Pod
after p i o = record p { shmem = o.shmem; clients = set p.clients i o.client }

unfoldable pub step : Pod → Call → Option Pod
unfolding rt_malloc rt_free rt_mem_get_info_ex
step p (mallocs i size real) = do
  client ← get_elem? p.clients i
  o ← rt_malloc p.alive real size [] client p.shmem
  some (after p i o)
step p (frees i ptr ret) = do
  client ← get_elem? p.clients i
  o ← rt_free p.alive ptr ret client p.shmem
  some (after p i o)
step p (asks i real) = do
  client ← get_elem? p.clients i
  (answer, s) ← rt_mem_get_info_ex p.alive real client p.shmem
  some (record p { shmem = s })
step p (dies pid) = some (record p { alive = λ q. if q == pid then false else p.alive q })

unfoldable pub run : Pod → List Call → Option Pod
run p [] = some p
run p (c ∷ cs) = step p c >>= λ p'. run p' cs
