-- ===== src/Hook/Launch.antt =====
-- crates/hook/src/hook.rs: the five intercepted launches. Each waits for a token of the stream
-- and then calls the real function of its name with its own arguments; what that returns is a
-- parameter.
mod Tests
use hami_vnpu_core_hhy.Common.{
  [], ℕ, false, ◌≡◌, ◌∙◌, ap, Option, some, List, ◌∷◌, ◌>>=◌, >>=-eq-some,
}
use mathlib.Core.Option.{some-injective}
use hami_vnpu_core_hhy.Shmem.{LocalContainerShmem}
use hami_vnpu_core_hhy.Worker.{InnerLock, SchedulerClient}
use hami_vnpu_core_hhy.Worker.Compute.{Round, Wait, launched, waiting, wait_rounds, wait_for_token}
use hami_vnpu_core_hhy.Worker.Compute.Launch.{GrantedIn, AllWords, wait_rounds-GrantedIn}

-- The intercepted functions with their arguments; all are words.
pub data LaunchCall : Type 0 where
  rt_aicpu_kernel_launch_ex_with_args :
      (kernel_type op_name block_dim args_info sm_desc stm flags : ℕ) → LaunchCall
  rt_aicpu_kernel_launch_with_flag :
      (launch_names block_dim args_info sm_desc stm flags : ℕ) → LaunchCall
  rt_kernel_launch_with_flag_v2 :
      (stub_func block_dim args_info sm_desc stm flags cfg_info : ℕ) → LaunchCall
  rt_kernel_launch_with_handle_v2 :
      (handle tiling_key block_dim args_info sm_desc stm cfg_info : ℕ) → LaunchCall
  rt_model_execute : (mdl stm flag : ℕ) → LaunchCall

abbrev pub stream_of : LaunchCall → ℕ
stream_of
      (rt_aicpu_kernel_launch_ex_with_args kernel_type op_name block_dim args_info sm_desc stm
        flags) =
    stm
stream_of (rt_aicpu_kernel_launch_with_flag launch_names block_dim args_info sm_desc stm flags) =
    stm
stream_of (rt_kernel_launch_with_flag_v2 stub_func block_dim args_info sm_desc stm flags cfg_info) =
    stm
stream_of
      (rt_kernel_launch_with_handle_v2 handle tiling_key block_dim args_info sm_desc stm cfg_info) =
    stm
stream_of (rt_model_execute mdl stm flag) = stm

-- A call that has not returned has called nothing yet.
pub data Launching : Type 0 where
  returns :
      (ret : ℕ) (called : List LaunchCall) (lock : InnerLock) (s : LocalContainerShmem) → Launching
  waits : (lock : InnerLock) → Launching

module _ (real : LaunchCall → ℕ) where
  abbrev pub forward : LaunchCall → Wait → Launching
  forward c (launched lock s) = returns (real c) (c ∷ []) lock s
  forward c (waiting lock) = waits lock

  -- `none` is a panic of the wait.
  unfoldable pub launch : LaunchCall → SchedulerClient → List Round → Option Launching
  unfolding wait_for_token
  launch c client rounds = wait_for_token client (stream_of c) rounds >>= λ w. some (forward c w)

  forward-returns :
      (c : LaunchCall) (w : Wait) (ret : ℕ) (called : List LaunchCall) (lock : InnerLock)
      (s : LocalContainerShmem)
      → forward c w ≡ returns ret called lock s
      → (ret ≡ real c) × (called ≡ c ∷ []) × (w ≡ launched lock s)
  forward-returns c (launched lock' s') ret called lock s h = (cc, cc, cc)
  forward-returns c (waiting lock') ret called lock s h = absurd (cc)

  -- An intercepted launch of a client that is no stub returns only after a round of its wait has
  -- taken a token for it; it then has called its own real function, once, with its own arguments,
  -- and returns what that returned.
  pub launch-GrantedIn :
      (c : LaunchCall) (client : SchedulerClient) (rounds : List Round) (ret : ℕ)
      (called : List LaunchCall) (lock : InnerLock) (s : LocalContainerShmem)
      → client.is_stub ≡ false
      → AllWords rounds
      → launch c client rounds ≡ some (returns ret called lock s)
      → (ret ≡ real c) × (called ≡ c ∷ []) × GrantedIn rounds lock s
  unfolding launch
  launch-GrantedIn c client rounds ret called lock s limited words h =
      let (w, e, h') = >>=-eq-some (wait_for_token client (stream_of c) rounds) _ h in
      let (got, calls, let_through) =
        forward-returns c w ret called lock s (some-injective _ _ h') in
      let waited = record client.lock { last_user_stream = stream_of c } in
      let rounds_end : wait_rounds client.my_slot_idx rounds waited ≡ some w =
        rw (wait_for_token, limited) at e in
      (
        got,
        calls,
        wait_rounds-GrantedIn client.my_slot_idx rounds waited lock s words
            (rounds_end ∙ ap some let_through),
      )
