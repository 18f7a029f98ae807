-- ===== src/Prelude/Ascending.antt =====
-- Strictly ascending lists of integers: rosters and lists of dealers.
use mathlib.Core.Path.{◌≡◌, refl, sym, ◌∙◌}
use mathlib.Core.Logic.{inl, inr}
use mathlib.Core.Bool.{true, false}
use mathlib.Core.List.{List, [], ◌∷◌}
use native.Mathlib.Omega.{arith}
use arladkr_practicaladkr.Prelude.Tests.{Bool-cases}
use arladkr_practicaladkr.Prelude.Lists.{All}
use arladkr_practicaladkr.Prelude.Int.{ℤ, eqb_ℤ, eqb_ℤ_iff, ◌<ℤ◌}
use arladkr_practicaladkr.Prelude.Members.{member, Distinct}

abbrev pub Above : ℤ → List ℤ → Type 0
Above last = All (λ d. ◌<ℤ◌ last d)

abbrev pub Ascending : List ℤ → Type 0
Ascending [] = Unit {0}
Ascending (x ∷ xs) = Above x xs × Ascending xs

pub Above-weaken : (a b : ℤ) (ds : List ℤ) → ◌<ℤ◌ a b → Above b ds → Above a ds
Above-weaken a b [] h k = tt
Above-weaken a b (d ∷ ds) h k = (omega arith, Above-weaken a b ds h k.1)

pub not-member_of_Above : (a : ℤ) (ds : List ℤ) → Above a ds → member a ds ≡ false
unfolding member
not-member_of_Above a [] h = refl
not-member_of_Above a (d ∷ ds) h = ground (arith, not-member_of_Above a ds, eqb_ℤ_iff d a)

pub Ascending-Distinct : (xs : List ℤ) → Ascending xs → Distinct xs
Ascending-Distinct [] h = tt
Ascending-Distinct (x ∷ xs) h = (not-member_of_Above x xs h.0, Ascending-Distinct xs h.1)

pub lt_of_member : (a d : ℤ) (ds : List ℤ) → Above a ds → member d ds ≡ true → ◌<ℤ◌ a d
unfolding member
lt_of_member a d [] h m = cc
lt_of_member a d (x ∷ ds) h m = elim (Bool-cases (eqb_ℤ x d)) [
  | inl same ↦ let e : x ≡ d = (eqb_ℤ_iff x d).0 same in rw e at (h.0)
  | inr other ↦ lt_of_member a d ds h.1 (rw other at m)
]

-- The heads of two ascending lists with the same members.
heads_agree :
    (x y : ℤ) (xs ys : List ℤ)
    → Above x xs
    → Above y ys
    → member x (y ∷ ys) ≡ true
    → member y (x ∷ xs) ≡ true
    → x ≡ y
unfolding member
heads_agree x y xs ys hx hy mx my = elim (Bool-cases (eqb_ℤ y x)) [
  | inl same ↦ sym ((eqb_ℤ_iff y x).0 same)
  | inr other ↦ elim (Bool-cases (eqb_ℤ x y)) [
    | inl same ↦ (eqb_ℤ_iff x y).0 same
    | inr different ↦ absurd (
        omega (
          arith,
          lt_of_member y x ys hy (rw other at mx),
          lt_of_member x y xs hx (rw different at my),
        ))
  ]
]

member_self : (a : ℤ) (xs : List ℤ) → member a (a ∷ xs) ≡ true
unfolding member
member_self a xs = ground (arith, eqb_ℤ_iff a a)

-- Members of the tails, once the heads agree.
tails_agree :
    (x a : ℤ) (xs ys : List ℤ)
    → Above x xs
    → Above x ys
    → member a (x ∷ xs) ≡ member a (x ∷ ys)
    → member a xs ≡ member a ys
unfolding member
tails_agree x a xs ys hx hy e = elim (Bool-cases (eqb_ℤ x a)) [
  | inl same ↦
      let s : x ≡ a = (eqb_ℤ_iff x a).0 same in
      rw (← s) (not-member_of_Above x xs hx ∙ sym (not-member_of_Above x ys hy))
  | inr other ↦ rw other at e
]

-- An ascending list is determined by its members.
pub eq_of_members :
    (xs ys : List ℤ) → Ascending xs → Ascending ys → ((a : ℤ) → member a xs ≡ member a ys) → xs ≡ ys
eq_of_members [] [] hx hy same = refl
eq_of_members [] (y ∷ ys) hx hy same = unfold member in cc (same y, member_self y ys)
eq_of_members (x ∷ xs) [] hx hy same = unfold member in cc (same x, member_self x xs)
eq_of_members (x ∷ xs) (y ∷ ys) hx hy same =
    let e : x ≡ y =
      heads_agree x y xs ys hx.0 hy.0 (sym (same x) ∙ member_self x xs)
        (same y ∙ member_self y ys) in
    let below : Above x ys = rw e hy.0 in
    let rest : xs ≡ ys =
      eq_of_members xs ys hx.1 hy.1 (λ a. tails_agree x a xs ys hx.0 below (rw (← e) at same a)) in
    cc (e, rest)
