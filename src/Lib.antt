-- ===== src/Lib.antt =====
-- Verification of the soft limiter of NPU memory and computing power: the library that is
-- preloaded into every process of a pod, intercepts the calls of the NPU runtime, and shares one
-- device among the processes of a pod and among the pods of a node.
--
-- The program. `crates/hook` intercepts allocations, frees, memory queries and kernel launches,
-- and passes them to the process's scheduler client, `crates/limiter/src/worker.rs`. All clients
-- of a pod work on one `LocalContainerShmem` (`crates/limiter/src/shmem/mod.rs`): the quota check
-- sums the bytes of the live processes' slots and reserves in the counter `memory_used`; a launch
-- waits for a token of the batch that the pod's manager has opened. One process of the pod hosts
-- the manager, elected by the supervisors (`crates/limiter/src/supervisor.rs`). The managers of
-- the pods take turns on the device through the `GlobalRegistry`, a circular queue with an owner
-- (`crates/limiter/src/manager.rs`); in its turn a manager deals tokens to its workers, waits for
-- their reports, and hands the turn on.
--
-- The files.
--   Common           names of the libraries, Boolean tests, lists, panics as `none`, machine words
--                    (Words), lists without repetition (Distinct)
--   Shmem            crates/limiter/src/shmem/mod.rs: the records of both shared memories
--   Shmem/Setup      crates/limiter/src/shmem/setup.rs: create_shmem, try_open_shmem, open_shmem and
--                    open_global_registry as traces of system calls; below it what they leave open and
--                    whether they map within the file (Descriptors)
--   Shmem/Futex      crates/limiter/src/shmem/futex.rs: what is handed to the system call
--   Config           crates/limiter/src/config.rs: ManagerConfig::from_env and its defaults
--   Worker           crates/limiter/src/worker.rs: the client's record
--   Worker/Memory    check_memory_quota, post_alloc_hbm, post_free_hbm, get_hbm_info,
--                    recalculate_usage_for_device; below it the live bytes as a plain sum (Usage), what a
--                    recalculation leaves (Recalculate), the quota (Quota), the layout of the
--                    slots (Shape), two processes between check and booking (Race), and an
--                    allocation with its free (RoundTrip), the memory reported (Report)
--   Worker/Compute   wait_for_token and measure_and_report_batch; below it one round and the whole wait
--                    (Launch), and the token counter access by access (Tokens, Tokens/Overdraft)
--   Worker/Registration   register_worker_slot, register_proc_slot and the drop of a client
--   Worker/Start     SchedulerClient::new and create_inner_lock; below it the wait for the memory (Looks),
--                    the new client (Client), and a device without a counter (Device)
--   Worker/Liveness  proc_alive on the text of /proc/<pid>/stat
--   Hook             crates/hook/src/hook.rs: rtMalloc, rtMallocPhysical, rtFree, rtFreePhysical,
--                    rtMemGetInfoEx; below it each call by itself (Alloc), and sequences of calls
--                    by the processes of a pod (Pod, Pod/Safety, Pod/Totality), also with processes
--                    that register in between (Pod/Life)
--   Hook/Launch      crates/hook/src/hook.rs: the five intercepted kernel launches
--   Hook/Signals     crates/hook/src/signal_compat.rs: sigaction
--   Hook/Process     crates/hook/src/lib.rs: ensure_supervisor and npu_limiter, across forks
--                    (Forks), and what the child's first call does to its parent's slot (Dropped)
--   Manager/Baton    register_global_slot, join_global_queue, wait_for_global_turn, pass_baton,
--                    update_heartbeat and the drop; below it the hand-over (Handover), the queue as a
--                    rotating list (Rotation), what leaves that list alone (Frame), the wait (Turns), the
--                    slots (Slots), the first turn on a new registry (Boot), and the managers of a node as
--                    a step relation (Pods, Pods/Order)
--   Manager/Plan     ContainerManager::new, calculate_fair_share, update_local_stats, schedule_rest_wait and
--                    honor_fixed_rest_wait, over a record of floating-point operations (Floats); below it the
--                    plan (Bounds), the statistics (Stats), the rest (Rest), a new manager (Creation)
--   Manager/Run      one pass through the loop of ContainerManager::run, composed of the parts above; below it
--                    what its parts and a whole pass leave (Parts, Turn)
--   Manager/Round    start_local_batch, enter_measuring_state, run_local_round,
--                    aggregate_local_times
--   Manager/Reaper   reap_dead_slots (Sweep), discover_and_update (Refresh) and discover_npu_devices
--                    (Discovery)
--   Supervisor       try_become_manager, manager_alive, watch, reclaim_stale_global_slot; below it
--                    single steps (Election), attempts and heartbeats in any order (Reign), supervisor::run
--                    before its loop (Begin) and a pass through it (Pass), and a worker that starts
--                    after the manager (Workers)
--   */Tests          concrete runs
--
-- How code becomes definitions. An atomic variable is the natural number that it holds; u64 and
-- u32 sums wrap as in the release build, where overflow is not checked, and a saturating
-- operation saturates. A panic (an index out of range, a full registry) is `none`. A pid is a
-- natural number, 0 for none. What lies outside the repository is a parameter: which processes
-- live, the clock, the environment, the runtime's answers. Logging is left out.
--
-- Concurrency. An operation runs whole, but where other processes matter most they are explicit:
-- the quota's compare-exchange loop is given the values that others leave at its attempts; the
-- wait for a token meets in each round any shared memory and any value at its decrement; the wait
-- for the turn meets any registry in each round and any owner at each later access;
-- Worker/Compute/Tokens interleaves single accesses in any order. In the sequences of calls of
-- Hook/Pod the manager's reaper and refresh threads do not run, and no process is forked from one
-- that has a client. A pass of the manager (Manager/Run) carries the registry unchanged from part
-- to part, and in the steps of Manager/Baton/Pods the time stamp of the lock is fresh, so the
-- watchdog of the wait does not fire there; Manager/Baton/Turns has it.
--
-- Loops. A loop over an array is a recursion on the list of its elements. The scan of
-- `pass_baton` recurses on the 64 entries that the code allows it. A loop that waits for others
-- recurses on the list of what it meets, turn by turn, and the results on it say which turn ends
-- it; a pass of the manager is given what each of its parts meets; no other bound is put on such
-- a list, so no fuel has to be chosen.
--
-- Floating-point numbers. The operations of f64 are the fields of a record over an unknown type,
-- and nothing is assumed of them: the bounds of a plan come from the integer clamps around them.
--
-- Not modelled. Memory orderings weaker than sequential consistency; the repetition for ever of
-- the passes of the manager's and the supervisor's loops, and the threads that
-- ContainerManager::run spawns, whose bodies are Manager/Reaper; a manager that dies in the step
-- relation of Manager/Baton/Pods; the log and the signal mask of the supervisor's thread; the
-- symbol lookup with dlsym; the byte offsets of the shared structures; scripts, build files and
-- manual tests.
pub mod Common
pub mod Shmem
pub mod Config
pub mod Worker
pub mod Hook
pub mod Manager
pub mod Supervisor
