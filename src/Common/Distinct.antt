-- ===== src/Common/Distinct.antt =====
-- Lists of distinct numbers: membership, and how long such a list can be.
use Prim.Native.Nat.{ℕ, zero, suc, ◌≤◌, ◌<◌}
use mathlib.Core.Path.{◌≡◌, ap, subst}
use mathlib.Core.Logic.{◌≢◌, ◌⊎◌, inl, inr}
use mathlib.Core.List.{List, [], ◌∷◌, ◌++◌}
use native.Mathlib.Omega.{arith}
use hami_vnpu_core_hhy.Common.Tests.{◌==◌, if◌then◌else◌, Bool-cases}
use hami_vnpu_core_hhy.Common.Lists.{length}

-- `m` is none of the numbers in the list.
abbrev pub Lacks : ℕ → List ℕ → Type 0
Lacks m [] = Unit {0}
Lacks m (x ∷ xs) = (x ≢ m) × Lacks m xs

abbrev pub Distinct : List ℕ → Type 0
Distinct [] = Unit {0}
Distinct (x ∷ xs) = Lacks x xs × Distinct xs

abbrev pub AllBelow : ℕ → List ℕ → Type 0
AllBelow n [] = Unit {0}
AllBelow n (x ∷ xs) = (x < n) × AllBelow n xs

abbrev drop_one : ℕ → List ℕ → List ℕ
drop_one k [] = []
drop_one k (x ∷ xs) = if x == k then xs else x ∷ drop_one k xs

length-drop_one : (k : ℕ) (xs : List ℕ) → length xs ≤ suc (length (drop_one k xs))
length-drop_one k [] = omega arith
length-drop_one k (x ∷ xs) = ground (arith, length-drop_one k xs)

Lacks-drop_one : (m k : ℕ) (xs : List ℕ) → Lacks m xs → Lacks m (drop_one k xs)
Lacks-drop_one m k [] h = tt
Lacks-drop_one m k (x ∷ xs) h = ground (arith, Lacks-drop_one m k xs h.1)

Distinct-drop_one : (k : ℕ) (xs : List ℕ) → Distinct xs → Distinct (drop_one k xs)
Distinct-drop_one k [] h = tt
Distinct-drop_one k (x ∷ xs) h =
    ground (arith, Lacks-drop_one x k xs h.0, Distinct-drop_one k xs h.1)

AllBelow-Lacks : (n : ℕ) (xs : List ℕ) → AllBelow (suc n) xs → Lacks n xs → AllBelow n xs
AllBelow-Lacks n [] h l = tt
AllBelow-Lacks n (x ∷ xs) h l = (omega (arith, h.0, l.0), AllBelow-Lacks n xs h.1 l.1)

AllBelow-drop_one :
    (n : ℕ) (xs : List ℕ) → Distinct xs → AllBelow (suc n) xs → AllBelow n (drop_one n xs)
AllBelow-drop_one n [] d h = tt
AllBelow-drop_one n (x ∷ xs) d h = elim (Bool-cases (x == n)) [
  | inl e ↦
      let same : x ≡ n = ground arith in
      rw e (AllBelow-Lacks n xs h.1 (subst (λ m. Lacks m xs) same d.0))
  | inr e ↦ rw e (ground arith, AllBelow-drop_one n xs d.1 h.1)
]

-- Distinct numbers below `n` are at most `n` many.
pub length-le-Distinct : (n : ℕ) (xs : List ℕ) → Distinct xs → AllBelow n xs → length xs ≤ n
length-le-Distinct n [] d h = omega arith
length-le-Distinct zero (x ∷ xs) d h = absurd (omega (arith, h.0))
length-le-Distinct (suc n) (x ∷ xs) d h = omega (
  arith,
  length-drop_one n (x ∷ xs),
  length-le-Distinct n (drop_one n (x ∷ xs)) (Distinct-drop_one n (x ∷ xs) d)
      (AllBelow-drop_one n (x ∷ xs) d h),
)

-- `m` is one of the numbers in the list.
abbrev pub In : ℕ → List ℕ → Type 0
In m [] = ⊥
In m (x ∷ xs) = (x ≡ m) ⊎ In m xs

pub In-append_left : (m : ℕ) (xs ys : List ℕ) → In m xs → In m (xs ++ ys)
In-append_left m [] ys h = absurd h
In-append_left m (x ∷ xs) ys (inl e) = inl e
In-append_left m (x ∷ xs) ys (inr h) = inr (In-append_left m xs ys h)

pub In-append_right : (m : ℕ) (xs ys : List ℕ) → In m ys → In m (xs ++ ys)
In-append_right m [] ys h = h
In-append_right m (x ∷ xs) ys h = inr (In-append_right m xs ys h)

-- A member splits its list.
pub split_In :
    (m : ℕ) (xs : List ℕ)
    → In m xs
    → (ahead : List ℕ) × (behind : List ℕ) × (xs ≡ ahead ++ (m ∷ behind))
split_In m [] h = absurd h
split_In m (x ∷ xs) (inl e) = ([], xs, ap (λ y. y ∷ xs) e)
split_In m (x ∷ xs) (inr h) =
    let (ahead, behind, e) = split_In m xs h in (x ∷ ahead, behind, ap (λ l. x ∷ l) e)
