-- ===== src/Prelude/Members.antt =====
-- Go's `map[int]struct{}` as a list of integers without repetition, and the counting arguments
-- about quorums of node identifiers.
use Prim.Native.Nat.{ℕ, zero, suc, ◌+◌, ◌≤◌}
use mathlib.Core.Path.{◌≡◌, refl}
use mathlib.Core.Bool.{Bool, true, false, ◌||◌}
use mathlib.Core.Logic.{inl, inr}
use mathlib.Core.List.{List, [], ◌∷◌, ◌++◌}
use native.Mathlib.Omega.{arith}
use arladkr_practicaladkr.Prelude.Tests.{if◌then◌else◌, Bool-cases, ltb}
use arladkr_practicaladkr.Prelude.Lists.{length, length-append, All, All-append}
use arladkr_practicaladkr.Prelude.Int.{ℤ, pos, negsuc, eqb_ℤ, eqb_ℤ_iff}

unfoldable pub member : ℤ → List ℤ → Bool
member a [] = false
member a (x ∷ xs) = eqb_ℤ x a || member a xs

-- `set[a] = struct{}{}`
unfoldable pub add : ℤ → List ℤ → List ℤ
add a xs = if member a xs then xs else a ∷ xs

abbrev pub Distinct : List ℤ → Type 0
Distinct [] = Unit {0}
Distinct (x ∷ xs) = (member x xs ≡ false) × Distinct xs

-- `0 <= x && x < n`
abbrev pub in_range : ℕ → ℤ → Bool
in_range n (pos k) = ltb k n
in_range n (negsuc k) = false

pub add-Distinct : (a : ℤ) (xs : List ℤ) → Distinct xs → Distinct (add a xs)
unfolding add
add-Distinct a xs d = elim (Bool-cases (member a xs)) [
  | inl old ↦ rw old d
  | inr new ↦ rw new (new, d)
]

pub add-All {κ} : (P : ℤ → Type κ) (a : ℤ) (xs : List ℤ) → P a → All P xs → All P (add a xs)
unfolding add
add-All P a xs p h = elim (Bool-cases (member a xs)) [
  | inl old ↦ rw old h
  | inr new ↦ rw new (p, h)
]

pub length-add : (a : ℤ) (xs : List ℤ) → length (add a xs) ≤ length xs + 1
unfolding add
length-add a xs = ground arith

pub length-le-add : (a : ℤ) (xs : List ℤ) → length xs ≤ length (add a xs)
unfolding add
length-le-add a xs = ground arith

pub member-add : (a b : ℤ) (xs : List ℤ) → member b (add a xs) ≡ (eqb_ℤ a b || member b xs)
unfolding add member
member-add a b xs = ground (arith, eqb_ℤ_iff a b)

-- The members of the first list that are in the second, and those that are not.
unfoldable pub common : List ℤ → List ℤ → List ℤ
common [] ys = []
common (x ∷ xs) ys = if member x ys then x ∷ common xs ys else common xs ys

others : List ℤ → List ℤ → List ℤ
others [] ys = []
others (x ∷ xs) ys = if member x ys then others xs ys else x ∷ others xs ys

length-common-others : (xs ys : List ℤ) → length (common xs ys) + length (others xs ys) ≡ length xs
unfolding common others
length-common-others [] ys = omega arith
length-common-others (x ∷ xs) ys = ground (arith, length-common-others xs ys)

without : ℤ → List ℤ → List ℤ
without a [] = []
without a (x ∷ xs) = if eqb_ℤ x a then without a xs else x ∷ without a xs

member-without : (a b : ℤ) (xs : List ℤ) → member b xs ≡ false → member b (without a xs) ≡ false
unfolding member without
member-without a b [] h = refl
member-without a b (x ∷ xs) h = ground (arith, member-without a b xs)

without-Distinct : (a : ℤ) (xs : List ℤ) → Distinct xs → Distinct (without a xs)
unfolding without
without-Distinct a [] d = tt
without-Distinct a (x ∷ xs) d = elim (Bool-cases (eqb_ℤ x a)) [
  | inl same ↦ rw same (without-Distinct a xs d.1)
  | inr other ↦ rw other (member-without a x xs d.0, without-Distinct a xs d.1)
]

length-without_of_not :
    (a : ℤ) (xs : List ℤ) → member a xs ≡ false → length (without a xs) ≡ length xs
unfolding member without
length-without_of_not a [] h = refl
length-without_of_not a (x ∷ xs) h = ground (arith, length-without_of_not a xs)

length-without : (a : ℤ) (xs : List ℤ) → Distinct xs → length xs ≤ length (without a xs) + 1
unfolding without
length-without a [] d = omega arith
length-without a (x ∷ xs) d = elim (Bool-cases (eqb_ℤ x a)) [
  | inl same ↦
      let e : x ≡ a = (eqb_ℤ_iff x a).0 same in
      rw same (omega (arith, length-without_of_not a xs (rw (← e) d.0)))
  | inr other ↦ rw other (omega (arith, length-without a xs d.1))
]

abbrev pub InRange : ℕ → List ℤ → Type 0
InRange n = All (λ x. in_range n x ≡ true)

in_range-pred :
    (n : ℕ) (x : ℤ) → in_range (suc n) x ≡ true → eqb_ℤ x (pos n) ≡ false → in_range n x ≡ true
in_range-pred n (pos k) h e = ground arith
in_range-pred n (negsuc k) h e = cc

without-InRange : (n : ℕ) (xs : List ℤ) → InRange (suc n) xs → InRange n (without (pos n) xs)
unfolding without
without-InRange n [] h = tt
without-InRange n (x ∷ xs) h = elim (Bool-cases (eqb_ℤ x (pos n))) [
  | inl same ↦ rw same (without-InRange n xs h.1)
  | inr other ↦ rw other (in_range-pred n x h.0 other, without-InRange n xs h.1)
]

not-in_range-zero : (x : ℤ) → in_range 0 x ≡ true → ⊥
not-in_range-zero (pos k) h = ground arith
not-in_range-zero (negsuc k) h = cc

-- Pigeonhole: distinct identifiers in 0..n-1 are at most n.
pub length-le_of_Distinct : (n : ℕ) (xs : List ℤ) → Distinct xs → InRange n xs → length xs ≤ n
length-le_of_Distinct zero [] d h = omega arith
length-le_of_Distinct zero (x ∷ xs) d h = absurd (not-in_range-zero x h.0)
length-le_of_Distinct (suc n) xs d h = omega (
  arith,
  length-without (pos n) xs d,
  length-le_of_Distinct n (without (pos n) xs) (without-Distinct (pos n) xs d)
      (without-InRange n xs h),
)

member-append : (a : ℤ) (xs ys : List ℤ) → member a (xs ++ ys) ≡ (member a xs || member a ys)
unfolding member
member-append a [] ys = refl
member-append a (x ∷ xs) ys = ground (arith, member-append a xs ys)

member-others : (a : ℤ) (xs ys : List ℤ) → member a xs ≡ false → member a (others xs ys) ≡ false
unfolding member others
member-others a [] ys h = refl
member-others a (x ∷ xs) ys h = ground (arith, member-others a xs ys)

others-Distinct : (xs ys : List ℤ) → Distinct xs → Distinct ys → Distinct (others xs ys ++ ys)
unfolding others
others-Distinct [] ys dx dy = dy
others-Distinct (x ∷ xs) ys dx dy = elim (Bool-cases (member x ys)) [
  | inl shared ↦ rw shared (others-Distinct xs ys dx.1 dy)
  | inr alone ↦ rw alone (
    ground (arith, member-append x (others xs ys) ys, member-others x xs ys dx.0),
    others-Distinct xs ys dx.1 dy,
  )
]

others-All {κ} : (P : ℤ → Type κ) (xs ys : List ℤ) → All P xs → All P (others xs ys)
unfolding others
others-All P [] ys h = tt
others-All P (x ∷ xs) ys h = elim (Bool-cases (member x ys)) [
  | inl shared ↦ rw shared (others-All P xs ys h.1)
  | inr alone ↦ rw alone (h.0, others-All P xs ys h.1)
]

-- Two sets of the n nodes share at least the excess of their sizes over n.
pub quorum_intersection :
    (n : ℕ) (xs ys : List ℤ)
    → Distinct xs
    → Distinct ys
    → InRange n xs
    → InRange n ys
    → length xs + length ys ≤ length (common xs ys) + n
quorum_intersection n xs ys dx dy hx hy = omega (
  arith,
  length-common-others xs ys,
  length-append (others xs ys) ys,
  length-le_of_Distinct n (others xs ys ++ ys) (others-Distinct xs ys dx dy) (
      All-append (λ x. in_range n x ≡ true) (others xs ys) ys
        (others-All (λ x. in_range n x ≡ true) xs ys hx) hy),
)

abbrev pub Within : List ℤ → List ℤ → Type 0
Within ys = All (λ x. member x ys ≡ true)

without-Within : (y : ℤ) (xs ys : List ℤ) → Within (y ∷ ys) xs → Within ys (without y xs)
unfolding without member
without-Within y [] ys h = tt
without-Within y (x ∷ xs) ys h = elim (Bool-cases (eqb_ℤ x y)) [
  | inl same ↦ rw same (without-Within y xs ys h.1)
  | inr other ↦
      rw other
        (ground (arith, other, h.0, eqb_ℤ_iff x y, eqb_ℤ_iff y x), without-Within y xs ys h.1)
]

-- A set within a list is no longer than it.
pub length-le_of_Within : (xs ys : List ℤ) → Distinct xs → Within ys xs → length xs ≤ length ys
unfolding member
length-le_of_Within [] ys d h = omega arith
length-le_of_Within (x ∷ xs) [] d h = cc (h.0)
length-le_of_Within (x ∷ xs) (y ∷ ys) d h = omega (
  arith,
  length-without y (x ∷ xs) d,
  length-le_of_Within (without y (x ∷ xs)) ys (without-Distinct y (x ∷ xs) d)
      (without-Within y (x ∷ xs) ys h),
)
