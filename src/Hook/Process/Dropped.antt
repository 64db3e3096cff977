-- ===== src/Hook/Process/Dropped.antt =====
-- crates/hook/src/lib.rs and the drop in crates/limiter/src/worker.rs: what the first call of a
-- forked process does to the slot of its parent, where no other thread of the parent held the
-- client at the fork, so that the child's copy of the guard is its last owner.
use hami_vnpu_core_hhy.Common.{
  ℕ, ◌+◌, ◌≡◌, ◌≢◌, refl, sym, ap, ◌∙◌, Bool, true, false, Option, none, some, arith, ◌==◌,
  if◌then◌else◌, get_elem?, set, get_elem?-set_self, get_elem?-set_ne, lt_of_get_elem?,
}
use mathlib.Core.Path.{subst}
use mathlib.Core.Option.{some-injective}
use hami_vnpu_core_hhy.Shmem.{LocalContainerShmem, ProcessSlot}
use hami_vnpu_core_hhy.Worker.{SchedulerClient}
use hami_vnpu_core_hhy.Worker.Memory.Usage.{live_bytes, live_share, live_bytes-set, used_on}
use hami_vnpu_core_hhy.Worker.Registration.{drop_client}
use hami_vnpu_core_hhy.Worker.Registration.Ownership.{MayTake}
use hami_vnpu_core_hhy.Worker.Start.{ready, RtAnswers, register}
use hami_vnpu_core_hhy.Worker.Start.Looks.{Ends}
use hami_vnpu_core_hhy.Worker.Start.Client.{IsTaken, register-IsTaken}
use hami_vnpu_core_hhy.Hook.Process.{npu_limiter}

-- The drop of a stub writes to a memory of its own.
unfoldable pub drop_replaced : Option SchedulerClient → LocalContainerShmem → LocalContainerShmem
unfolding drop_client
drop_replaced none s = s
drop_replaced (some client) s = if client.is_stub then s else drop_client client.my_proc_idx s

drop_client_at :
    (i : ℕ) (s : LocalContainerShmem) (slot : ProcessSlot)
    → get_elem? s.procs i ≡ some slot
    → drop_client i s ≡ record s { procs = set s.procs i (record slot { pid = 0; is_active = 0 }) }
unfolding drop_client
drop_client_at i s slot at = rw (drop_client, at) refl

module _ (proc_alive : ℕ → Bool) (me : ℕ) (rt : RtAnswers) (stub : SchedulerClient) where
  -- A registration takes no slot of another live process that is active.
  register_others :
      (s s1 : LocalContainerShmem) (child : SchedulerClient) (i : ℕ) (slot : ProcessSlot)
      → register proc_alive me rt s ≡ ready (child, s1)
      → get_elem? s.procs i ≡ some slot
      → slot.pid ≢ me
      → slot.pid ≢ 0
      → proc_alive slot.pid ≡ true
      → slot.is_active ≢ 0
      → get_elem? s1.procs i ≡ some slot
  register_others s s1 child i slot runs at other used lives active =
      let h : IsTaken proc_alive me rt s (child, s1) =
        subst (Ends (IsTaken proc_alive me rt s)) runs (register-IsTaken proc_alive me rt s) in
      let apart : child.my_proc_idx ≢ i = λ e.
        let same : h.old ≡ slot =
          some-injective _ _ (sym h.stood ∙ ap (λ j. get_elem? s.procs j) e ∙ at) in
        let free : MayTake proc_alive me slot = subst (MayTake proc_alive me) same h.free in
        ground arith in
      ap (λ l. get_elem? l i) h.procs
      ∙ get_elem?-set_ne s.procs child.my_proc_idx i h.slot apart
      ∙ at

  -- A process is forked from one with a client, and its first call registers it: the client that
  -- it has inherited is dropped, which takes the slot of the parent, that still lives, out of use
  -- with its bytes in it. So these bytes no longer count as those of a live process.
  fork_uncounts :
      (can_spawn : Bool) (supervisor_pid parent device : ℕ) (s s1 : LocalContainerShmem)
      (child client : SchedulerClient) (slot : ProcessSlot)
      → parent ≢ me
      → parent ≢ 0
      → proc_alive parent ≡ true
      → client.is_stub ≡ false
      → get_elem? s.procs client.my_proc_idx ≡ some slot
      → slot.pid ≡ parent
      → slot.is_active ≢ 0
      → register proc_alive me rt s ≡ ready (child, s1)
      → (let l =
            npu_limiter stub me
              (record { can_spawn = can_spawn; new = some child })
              (record { supervisor_pid = supervisor_pid; limiter = some (parent, client) }) in
          (l.client ≡ child)
          × (get_elem? (drop_replaced l.dropped s1).procs client.my_proc_idx
              ≡ some (record slot { pid = 0; is_active = 0 }))
          × (live_bytes proc_alive device (drop_replaced l.dropped s1).procs + used_on device slot
              ≡ live_bytes proc_alive device s1.procs))
  unfolding npu_limiter drop_replaced
  fork_uncounts can_spawn supervisor_pid parent device s s1 child client slot other used lives real
        at own active runs =
      let kept : get_elem? s1.procs client.my_proc_idx ≡ some slot =
        register_others s s1 child client.my_proc_idx slot runs at (ground (arith, own))
          (ground (arith, own)) (ap proc_alive own ∙ lives) active in
      let counts : live_share proc_alive device slot ≡ used_on device slot =
        let taken : (slot.pid == 0) ≡ false = ground (arith, own) in
        rw (taken, ap proc_alive own ∙ lives) refl in
      let foreign : (parent == me) ≡ false = ground arith in
      let after : ProcessSlot = record slot { pid = 0; is_active = 0 } in
      let sum = live_bytes-set proc_alive device s1.procs client.my_proc_idx slot after kept in
      rw (foreign, real, drop_client_at client.my_proc_idx s1 slot kept)
        (
          refl,
          get_elem?-set_self s1.procs client.my_proc_idx after
              (lt_of_get_elem? s1.procs client.my_proc_idx kept),
          omega (arith, sum, counts),
        )
