-- ===== src/Worker/Start/Looks.antt =====
-- How the wait for the memory ends.
use hami_vnpu_core_hhy.Common.{
  [], ℕ, ◌≤◌, ◌<◌, ◌≡◌, refl, ◌⊎◌, inl, inr, Bool, true, false, Option, none, some, List, ◌∷◌,
  arith, leb, ◌==◌, Bool-cases, set, if◌then◌else◌,
}
use hami_vnpu_core_hhy.Shmem.{LocalContainerShmem}
use hami_vnpu_core_hhy.Shmem.Setup.{try_open_shmem}
use hami_vnpu_core_hhy.Worker.Start.{
  Attach, ready, panics, looks, Look, on_look, wait_for_shmem, or_panics, ◌>>=◌,
}

-- Some look ends at the deadline or later.
abbrev pub SomeLate : ℕ → List Look → Type 0
SomeLate deadline [] = ⊥
SomeLate deadline (v ∷ views) = (deadline ≤ v.now_us) ⊎ SomeLate deadline views

-- Some look finds the memory, initialised.
abbrev pub SomeFound : ℕ → LocalContainerShmem → List Look → Type 0
SomeFound size s [] = ⊥
SomeFound size s (v ∷ views) =
    (((try_open_shmem size v.os).result ≡ some (some s)) × (s.initialized ≡ 1))
    ⊎ SomeFound size s views

-- A wait that has ended with the memory or with a panic.
abbrev pub Ends {ℓ} : {A : Type ℓ} → (A → Type 0) → Attach A → Type 0
Ends P (ready a) = P a
Ends P panics = Unit {0}
Ends P looks = ⊥

pub Ends-map {ℓ} :
    {A : Type ℓ} (P Q : A → Type 0) (m : Attach A) → ((a : A) → P a → Q a) → Ends P m → Ends Q m
Ends-map P Q (ready a) f h = f a h
Ends-map P Q panics f h = tt
Ends-map P Q looks f h = h

pub >>=-Ends {ℓ κ} :
    {A : Type ℓ} {B : Type κ} (P : A → Type 0) (Q : B → Type 0) (m : Attach A) (f : A → Attach B)
    → Ends P m
    → ((a : A) → P a → Ends Q (f a))
    → Ends Q (m >>= f)
>>=-Ends P Q (ready a) f h k = k a h
>>=-Ends P Q panics f h k = tt
>>=-Ends P Q looks f h k = elim h [ ]

pub or_panics-Ends {ℓ} :
    {A : Type ℓ} (Q : Option A → Type 0) (o : Option A) → Q o → Ends (λ a. Q (some a)) (or_panics o)
or_panics-Ends Q none h = tt
or_panics-Ends Q (some a) h = h

pub late-Ends :
    (P : LocalContainerShmem → Type 0) (late : Bool) (later : Attach LocalContainerShmem)
    → ((late ≡ true) ⊎ Ends P later)
    → Ends P (if late then panics else later)
late-Ends P true later h = tt
late-Ends P false later (inl e) = absurd (cc)
late-Ends P false later (inr h) = h

pub on_look-Ends :
    (P : LocalContainerShmem → Type 0) (r : Option (Option LocalContainerShmem)) (late : Bool)
    (later : Attach LocalContainerShmem)
    → ((s : LocalContainerShmem) → r ≡ some (some s) → s.initialized ≡ 1 → P s)
    → ((late ≡ true) ⊎ Ends P later)
    → Ends P (on_look r late later)
on_look-Ends P none late later h k = tt
on_look-Ends P (some none) late later h k = late-Ends P late later k
on_look-Ends P (some (some s)) late later h k = elim (Bool-cases (s.initialized == 1)) [
  | inl e ↦ rw e (h s refl (ground (arith, e)))
  | inr e ↦ rw e (late-Ends P late later k)
]

pub wait_for_shmem-Ends :
    (size deadline : ℕ) (views : List Look)
    → SomeLate deadline views
    → Ends (λ s. SomeFound size s views) (wait_for_shmem size deadline views)
unfolding wait_for_shmem
wait_for_shmem-Ends size deadline [] h = h
wait_for_shmem-Ends size deadline (v ∷ views) h =
    on_look-Ends (λ s. SomeFound size s (v ∷ views)) (try_open_shmem size v.os).result
      (leb deadline v.now_us) (wait_for_shmem size deadline views) (λ s shown set. inl (shown, set))
      (elim h [
        | inl le ↦ inl (ground arith)
        | inr rest ↦ inr (
            Ends-map _ (λ s. SomeFound size s (v ∷ views)) _ (λ s f. inr f)
              (wait_for_shmem-Ends size deadline views rest))
      ])

-- A look finds the memory initialised, and those before it were made before the deadline and
-- found nothing.
abbrev pub FoundInTime : ℕ → ℕ → LocalContainerShmem → List Look → Type 0
FoundInTime size deadline s [] = ⊥
FoundInTime size deadline s (v ∷ views) =
    (((try_open_shmem size v.os).result ≡ some (some s)) × (s.initialized ≡ 1))
    ⊎ (((try_open_shmem size v.os).result ≡ some none)
        × (v.now_us < deadline)
        × FoundInTime size deadline s views)

pub wait_for_shmem-ready :
    (size deadline : ℕ) (s : LocalContainerShmem) (views : List Look)
    → FoundInTime size deadline s views
    → wait_for_shmem size deadline views ≡ ready s
unfolding wait_for_shmem
wait_for_shmem-ready size deadline s [] h = elim h [ ]
wait_for_shmem-ready size deadline s (v ∷ views) (inl (shown, set)) =
    rw (wait_for_shmem, shown, set) refl
wait_for_shmem-ready size deadline s (v ∷ views) (inr (nothing, early, later)) =
    let not_late : leb deadline v.now_us ≡ false = ground arith in
    rw (wait_for_shmem, nothing, not_late) (wait_for_shmem-ready size deadline s views later)

abbrev pub Joins {ℓ} : {A : Type ℓ} → (A → Type 0) → Attach A → Type 0
Joins P (ready a) = P a
Joins P panics = ⊥
Joins P looks = ⊥

pub >>=-Joins {ℓ κ} :
    {A : Type ℓ} {B : Type κ} (P : A → Type 0) (Q : B → Type 0) (m : Attach A) (f : A → Attach B)
    → Joins P m
    → ((a : A) → P a → Joins Q (f a))
    → Joins Q (m >>= f)
>>=-Joins P Q (ready a) f h k = k a h
>>=-Joins P Q panics f h k = elim h [ ]
>>=-Joins P Q looks f h k = elim h [ ]

pub or_panics-Joins {ℓ} :
    {A : Type ℓ} (Q : Option A → Type 0) (o : Option A)
    → Q o
    → ¬ Q none
    → Joins (λ a. Q (some a)) (or_panics o)
or_panics-Joins Q none h lacks = lacks h
or_panics-Joins Q (some a) h lacks = h

pub Ends-Joins {ℓ} :
    {A : Type ℓ} (P : A → Type 0) (m : Attach A) → Ends P m → Joins (λ a. Unit {0}) m → Joins P m
Ends-Joins P (ready a) h j = h
Ends-Joins P panics h j = j
Ends-Joins P looks h j = j

pub Joins-map {ℓ} :
    {A : Type ℓ} (P Q : A → Type 0) (m : Attach A) → ((a : A) → P a → Q a) → Joins P m → Joins Q m
Joins-map P Q (ready a) f h = f a h
Joins-map P Q panics f h = h
Joins-map P Q looks f h = h
