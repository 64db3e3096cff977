-- ===== src/Worker/Liveness/Stat.antt =====
-- What `proc_alive` makes of the kernel's line.
use hami_vnpu_core_hhy.Common.{[], ℕ, ◌≢◌, List, ◌∷◌}

abbrev pub Lacks : ℕ → List ℕ → Type 0
Lacks c [] = Unit {0}
Lacks c (x ∷ xs) = (x ≢ c) × Lacks c xs
