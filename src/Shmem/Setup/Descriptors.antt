-- ===== src/Shmem/Setup/Descriptors.antt =====
-- What an attachment leaves: which descriptors stay open, and whether a mapping is within its
-- file.
use hami_vnpu_core_hhy.Common.{
  [], ℕ, ◌≤◌, ◌≡◌, ◌↔◌, refl, ◌⊎◌, inl, inr, Bool, true, false, Option, none, some, List, ◌∷◌, ◌==◌,
  if◌then◌else◌, arith, Bool-cases,
}
use hami_vnpu_core_hhy.Shmem.{GlobalRegistry, max_managers}
use hami_vnpu_core_hhy.Shmem.Setup.{
  Call, Os, Ended, as_usize, is_unsized, create_shmem, open_global_registry, creates_parents, opens,
  truncates, stats, maps, closes,
}

abbrev without : ℕ → List ℕ → List ℕ
without fd [] = []
without fd (x ∷ xs) = if x == fd then xs else x ∷ without fd xs

-- The descriptors that are open after the calls, when those of `open` were before.
abbrev pub held : List ℕ → List Call → List ℕ
held fds [] = fds
held fds (opens create (some fd) ∷ calls) = held (fd ∷ fds) calls
held fds (opens create none ∷ calls) = held fds calls
held fds (creates_parents ∷ calls) = held fds calls
held fds (truncates fd size done ∷ calls) = held fds calls
held fds (stats fd st_size ∷ calls) = held fds calls
held fds (maps fd size ∷ calls) = held fds calls
held fds (closes fd ∷ calls) = held (without fd fds) calls

-- Descriptors with a size that their files are known to have.
abbrev Covers : List (ℕ × ℕ) → ℕ → ℕ → Type 0
Covers [] fd size = ⊥
Covers ((f, n) ∷ known) fd size = ((f ≡ fd) × (size ≤ n)) ⊎ Covers known fd size

-- Each mapping is of a descriptor whose file is known to be long enough: the process has set its
-- length, or it has asked for it. Other mappings may end the process with SIGBUS at an access.
abbrev pub MapsWithin : List (ℕ × ℕ) → List Call → Type 0
MapsWithin known [] = Unit
MapsWithin known (truncates fd size true ∷ calls) = MapsWithin ((fd, size) ∷ known) calls
MapsWithin known (truncates fd size false ∷ calls) = MapsWithin known calls
MapsWithin known (stats fd (some st_size) ∷ calls) =
    MapsWithin ((fd, as_usize st_size) ∷ known) calls
MapsWithin known (stats fd none ∷ calls) = MapsWithin known calls
MapsWithin known (maps fd size ∷ calls) = Covers known fd size × MapsWithin known calls
MapsWithin known (closes fd ∷ calls) = MapsWithin [] calls
MapsWithin known (opens create fd ∷ calls) = MapsWithin known calls
MapsWithin known (creates_parents ∷ calls) = MapsWithin known calls

without_first : (fd : ℕ) (fds : List ℕ) → without fd (fd ∷ fds) ≡ fds
without_first fd fds = ground arith

module _ {ℓ} {A : Type ℓ} (size : ℕ) (os : Os A) where
  -- What a caller of `try_open_shmem` expects: memory, if the file is there and long enough and
  -- the mapping succeeds.
  abbrev pub attached : Option ℕ → Option A
  attached none = none
  attached (some fd) = if is_unsized size os.st_size then none else os.memory

-- What the operating system answers to `create_shmem`; it does not ask for the rest.
abbrev answers {ℓ} : {A : Type ℓ} → Bool → Bool → Option ℕ → Bool → Option A → Os A
answers nul parent created truncated memory = record {
  path_has_nul = nul;
  has_parent = parent;
  fd = none;
  created = created;
  truncated = truncated;
  st_size = none;
  memory = memory;
}

-- What `create_shmem` returns when the path has no NUL.
abbrev pub created_memory {ℓ} : {A : Type ℓ} → Option ℕ → Bool → Option A → Option A
created_memory none truncated memory = none
created_memory (some fd) false memory = none
created_memory (some fd) true memory = memory

module _ {ℓ} {A : Type ℓ} (size : ℕ) where
  -- What is to hold of the end of `create_shmem`.
  abbrev pub Creates : Bool → Option A → Ended A → Type ℓ
  Creates nul expected r =
      (r.result ≡ (if nul then none else expected))
      × ((r.result ≡ none) ⊎ (held [] r.calls ≡ []))
      × MapsWithin [] r.calls

  answers-Creates :
      (nul parent : Bool) (created : Option ℕ) (truncated : Bool) (memory : Option A)
      → Creates nul
          (created_memory created truncated memory)
          (create_shmem size (answers nul parent created truncated memory))
  unfolding create_shmem
  answers-Creates true true created truncated memory = (refl, inl refl, tt)
  answers-Creates true false created truncated memory = (refl, inl refl, tt)
  answers-Creates false true none truncated memory = (refl, inl refl, tt)
  answers-Creates false false none truncated memory = (refl, inl refl, tt)
  answers-Creates false true (some fd) false memory = (refl, inl refl, tt)
  answers-Creates false false (some fd) false memory = (refl, inl refl, tt)
  answers-Creates false true (some fd) true none = (refl, inl refl, (inl (refl, omega arith), tt))
  answers-Creates false false (some fd) true none = (refl, inl refl, (inl (refl, omega arith), tt))
  answers-Creates false true (some fd) true (some memory) =
      (refl, inr (without_first fd []), (inl (refl, omega arith), tt))
  answers-Creates false false (some fd) true (some memory) =
      (refl, inr (without_first fd []), (inl (refl, omega arith), tt))

  -- For every answer of the operating system: `create_shmem` returns the memory of the file if
  -- the path has no NUL, the file could be opened or created, set to the size and mapped, and
  -- panics if not; when it returns, no descriptor stays open; it maps the file only after it has
  -- set its length.
  pub create_shmem_lem :
      (os : Os A)
      → Creates os.path_has_nul
          (created_memory os.created os.truncated os.memory)
          (create_shmem size os)
  unfolding create_shmem
  create_shmem_lem os =
      answers-Creates os.path_has_nul os.has_parent os.created os.truncated os.memory

-- The answers when there is a file, which can be mapped.
abbrev pub found : Os GlobalRegistry → ℕ → GlobalRegistry → Os GlobalRegistry
found os fd reg = record os { path_has_nul = false; fd = some fd; memory = some reg }

-- The answers when there is none, and one is created and can be mapped.
abbrev pub fresh : Os GlobalRegistry → ℕ → GlobalRegistry → Os GlobalRegistry
fresh os fd reg = record os {
  path_has_nul = false;
  fd = none;
  created = some fd;
  memory = some reg;
}

-- When `open_global_registry` finds a file and its mapping succeeds, it returns the mapping as it
-- is, whatever the length of the file, which it does not ask for; and its descriptor stays open.
pub open_global_registry-unsized :
    (size fd : ℕ) (reg : GlobalRegistry) (os : Os GlobalRegistry)
    → (let r = open_global_registry size (found os fd reg) in
        (r.result ≡ some reg) × (held [] r.calls ≡ fd ∷ []) × ¬ MapsWithin [] r.calls)
unfolding open_global_registry
open_global_registry-unsized size fd reg os = (refl, refl, λ h. h.0)

-- When there is no file yet, this process creates it, and the mapping succeeds: the registry has
-- no owner, the descriptor stays open, and the mapping is known to be within the file exactly if
-- `ftruncate` succeeded, whose answer is not looked at.
pub open_global_registry-created :
    (size fd : ℕ) (reg : GlobalRegistry) (os : Os GlobalRegistry)
    → (let r = open_global_registry size (fresh os fd reg) in
        (r.result ≡ some (record reg { lock_owner = max_managers }))
        × (held [] r.calls ≡ fd ∷ [])
        × (MapsWithin [] r.calls ↔ (os.truncated ≡ true)))
unfolding open_global_registry
open_global_registry-created size fd reg os = elim (Bool-cases os.truncated) [
  | inl e ↦ rw e (refl, refl, (λ h. refl, λ h. (inl (refl, omega arith), tt)))
  | inr e ↦ rw e (refl, refl, (λ h. elim h.0 [ ], λ h. absurd (cc)))
]
