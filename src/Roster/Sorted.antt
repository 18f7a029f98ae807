-- ===== src/Roster/Sorted.antt =====
-- sortedUnique against its reference: the strictly ascending list with the same members; and the
-- roster test that the handlers of core/ make.
use arladkr_practicaladkr.Prelude.{
  ◌≡◌, ◌↔◌, refl, sym, ap, ◌∙◌, inl, inr, true, false, ◌||◌, List, [], ◌∷◌, arith, Bool-cases, All,
}
use arladkr_practicaladkr.Prelude.Int.{ℤ, eqb_ℤ, eqb_ℤ_iff, leb_ℤ, ◌<ℤ◌}
use arladkr_practicaladkr.Prelude.Members.{member}
use arladkr_practicaladkr.Prelude.Ascending.{Above, Above-weaken, Ascending, eq_of_members}
use arladkr_practicaladkr.Roster.{
  insert, sorted_copy, unique_after, unique, sorted_unique, equal_ints,
}

abbrev ◌≤ℤ◌ : ℤ → ℤ → Type 0
◌≤ℤ◌ a b = leb_ℤ a b ≡ true

abbrev Sorted : List ℤ → Type 0
Sorted [] = Unit {0}
Sorted (x ∷ xs) = All (λ d. ◌≤ℤ◌ x d) xs × Sorted xs

below-weaken : (a b : ℤ) (ds : List ℤ) → ◌≤ℤ◌ a b → All (λ d. ◌≤ℤ◌ b d) ds → All (λ d. ◌≤ℤ◌ a d) ds
below-weaken a b [] h k = tt
below-weaken a b (d ∷ ds) h k = (ground arith, below-weaken a b ds h k.1)

below-insert :
    (a b : ℤ) (ds : List ℤ) → ◌≤ℤ◌ a b → All (λ d. ◌≤ℤ◌ a d) ds → All (λ d. ◌≤ℤ◌ a d) (insert b ds)
unfolding insert
below-insert a b [] h k = (h, tt)
below-insert a b (d ∷ ds) h k = elim (Bool-cases (leb_ℤ b d)) [
  | inl first ↦ rw first (h, k)
  | inr later ↦ rw later (k.0, below-insert a b ds h k.1)
]

insert-Sorted : (a : ℤ) (ds : List ℤ) → Sorted ds → Sorted (insert a ds)
unfolding insert
insert-Sorted a [] s = (tt, tt)
insert-Sorted a (d ∷ ds) s = elim (Bool-cases (leb_ℤ a d)) [
  | inl first ↦ rw first ((first, below-weaken a d ds first s.0), s)
  | inr later ↦ rw later (below-insert d a ds (ground arith) s.0, insert-Sorted a ds s.1)
]

sorted_copy-Sorted : (v : List ℤ) → Sorted (sorted_copy v)
unfolding sorted_copy
sorted_copy-Sorted [] = tt
sorted_copy-Sorted (x ∷ v) = insert-Sorted x (sorted_copy v) (sorted_copy-Sorted v)

member-insert : (a b : ℤ) (ds : List ℤ) → member b (insert a ds) ≡ member b (a ∷ ds)
unfolding member insert
member-insert a b [] = refl
member-insert a b (d ∷ ds) = ground (arith, member-insert a b ds)

member-sorted_copy : (b : ℤ) (v : List ℤ) → member b (sorted_copy v) ≡ member b v
unfolding member sorted_copy
member-sorted_copy b [] = refl
member-sorted_copy b (x ∷ v) =
    member-insert x b (sorted_copy v) ∙ ap (λ t. eqb_ℤ x b || t) (member-sorted_copy b v)

-- Behind an identifier that is below the rest.
unique_after-Ascending :
    (last : ℤ) (ids : List ℤ)
    → All (λ d. ◌≤ℤ◌ last d) ids
    → Sorted ids
    → Above last (unique_after last ids) × Ascending (unique_after last ids)
unfolding unique_after
unique_after-Ascending last [] h s = (tt, tt)
unique_after-Ascending last (id ∷ ids) h s =
    let (above, ascending) = unique_after-Ascending id ids s.0 s.1 in
    elim (Bool-cases (eqb_ℤ id last)) [
      | inl same ↦
          let e : id ≡ last = (eqb_ℤ_iff id last).0 same in rw same (rw (← e) above, ascending)
      | inr other ↦
          let lower : ◌<ℤ◌ last id = strict last id (h.0) other in
          rw other
            ((lower, Above-weaken last id (unique_after id ids) lower above), (above, ascending))
    ]
  where
    strict : (a b : ℤ) → ◌≤ℤ◌ a b → eqb_ℤ b a ≡ false → ◌<ℤ◌ a b
    strict a b le ne = ground arith

member-unique_after :
    (last a : ℤ) (ids : List ℤ) → member a (last ∷ unique_after last ids) ≡ member a (last ∷ ids)
unfolding member unique_after
member-unique_after last a [] = refl
member-unique_after last a (id ∷ ids) = elim (Bool-cases (eqb_ℤ id last)) [
  | inl same ↦
      let e : id ≡ last = (eqb_ℤ_iff id last).0 same in
      rw same (ground (arith, e, member-unique_after id a ids))
  | inr other ↦ rw other (ap (λ t. eqb_ℤ last a || t) (member-unique_after id a ids))
]

unique-Ascending : (ids : List ℤ) → Sorted ids → Ascending (unique ids)
unfolding unique
unique-Ascending [] s = tt
unique-Ascending (id ∷ ids) s = unique_after-Ascending id ids s.0 s.1

member-unique : (a : ℤ) (ids : List ℤ) → member a (unique ids) ≡ member a ids
unfolding unique
member-unique a [] = refl
member-unique a (id ∷ ids) = member-unique_after id a ids

pub sorted_unique-Ascending : (v : List ℤ) → Ascending (sorted_unique v)
unfolding sorted_unique
sorted_unique-Ascending v = unique-Ascending (sorted_copy v) (sorted_copy-Sorted v)

pub member-sorted_unique : (a : ℤ) (v : List ℤ) → member a (sorted_unique v) ≡ member a v
unfolding sorted_unique
member-sorted_unique a v = member-unique a (sorted_copy v) ∙ member-sorted_copy a v

-- SortedUnique gives a list exactly when the list ascends strictly and has the members of the
-- argument.
pub sorted_unique_iff :
    (v out : List ℤ)
    → (sorted_unique v ≡ out) ↔ (Ascending out × ((a : ℤ) → member a out ≡ member a v))
sorted_unique_iff v out = (
  λ e. (rw (← e) (sorted_unique-Ascending v), λ a. rw (← e) (member-sorted_unique a v)),
  λ h.
      eq_of_members (sorted_unique v) out (sorted_unique-Ascending v) h.0
        (λ a. member-sorted_unique a v ∙ sym (h.1 a)),
)

pub equal_ints_iff : (xs ys : List ℤ) → (equal_ints xs ys ≡ true) ↔ (xs ≡ ys)
unfolding equal_ints
equal_ints_iff [] [] = (λ h. refl, λ h. refl)
equal_ints_iff [] (y ∷ ys) = (λ h. cc, λ h. cc)
equal_ints_iff (x ∷ xs) [] = (λ h. cc, λ h. cc)
equal_ints_iff (x ∷ xs) (y ∷ ys) = (
  λ h. ground (arith, eqb_ℤ_iff x y, (equal_ints_iff xs ys).0),
  λ h. ground (arith, eqb_ℤ_iff x y, (equal_ints_iff xs ys).1),
)

-- The roster test accepts exactly the strictly ascending lists.
pub roster_test_iff : (v : List ℤ) → (equal_ints v (sorted_unique v) ≡ true) ↔ Ascending v
roster_test_iff v = (
  λ h.
      let e : v ≡ sorted_unique v = (equal_ints_iff v (sorted_unique v)).0 h in
      rw e (sorted_unique-Ascending v),
  λ h. (equal_ints_iff v (sorted_unique v)).1 (sym ((sorted_unique_iff v v).1 (h, λ a. refl))),
)
