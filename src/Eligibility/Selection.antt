-- ===== src/Eligibility/Selection.antt =====
-- The set of proposers: members of the roster with the least digests, whatever order the roster has.
use mathlib.Core.Path.{subst}
use arladkr_practicaladkr.Prelude.{
  ℕ, zero, suc, ◌≤◌, ◌≡◌, refl, sym, ap, ◌∙◌, inl, inr, Bool, true, false, not, ◌&&◌, ◌||◌, some,
  List, [], ◌∷◌, arith, leb, ltb, leb→le, ◌==◌, length, length-take, take, All, Bool-cases,
  guard->>, some-inj, &&-right,
}
use arladkr_practicaladkr.Prelude.Int.{ℤ, eqb_ℤ, eqb_ℤ_iff}
use arladkr_practicaladkr.Prelude.Bytes.{Bytes}
use arladkr_practicaladkr.Prelude.Members.{member, Distinct}
use arladkr_practicaladkr.Prelude.Ascending.{Ascending-Distinct, eq_of_members}
use arladkr_practicaladkr.Prelude.Entries.{keys, length-keys}
use arladkr_practicaladkr.Roster.{sorted_unique}
use arladkr_practicaladkr.Roster.Sorted.{sorted_unique-Ascending, member-sorted_unique}
use arladkr_practicaladkr.Eligibility.{digest_lt, sort_keys, key_of, with_keys, proposer_set}
use arladkr_practicaladkr.Eligibility.Order.{
  NoneLess, SortedKeys, sort_keys-SortedKeys, sort_keys-All, sort_keys-Distinct, length-sort_keys,
  member-sort_keys, member-take, take-Distinct,
}

module _ (sha256 : Bytes → Bytes) (coin : Bytes) where
  -- An entry with its member's digest.
  abbrev Keyed : ℤ × Bytes → Type 0
  Keyed e = e.1 ≡ key_of sha256 coin (e.0)

  with_keys-Keyed : (ids : List ℤ) → All Keyed (with_keys sha256 coin ids)
  unfolding with_keys
  with_keys-Keyed [] = tt
  with_keys-Keyed (id ∷ ids) = (refl, with_keys-Keyed ids)

  keys-with_keys : (ids : List ℤ) → keys (with_keys sha256 coin ids) ≡ ids
  unfolding with_keys
  keys-with_keys [] = refl
  keys-with_keys (id ∷ ids) = ap (λ l. id ∷ l) (keys-with_keys ids)

  NoneLess-of_member :
      (k : ℤ × Bytes) (b : ℤ) (xs : List (ℤ × Bytes))
      → NoneLess k xs
      → All Keyed xs
      → member b (keys xs) ≡ true
      → digest_lt (key_of sha256 coin b) (k.1) ≡ false
  unfolding member
  NoneLess-of_member k b [] n e h = cc h
  NoneLess-of_member k b (x ∷ xs) n e h = elim (Bool-cases (eqb_ℤ (x.0) b)) [
    | inl same ↦
        let id : x.0 ≡ b = (eqb_ℤ_iff (x.0) b).0 same in
        let key : x.1 ≡ key_of sha256 coin b = e.0 ∙ ap (key_of sha256 coin) id in rw (← key) (n.0)
    | inr other ↦ NoneLess-of_member k b xs n.1 e.1 (rw other at h)
  ]

  -- No entry behind the first c is less than one of them.
  least_first :
      (c : ℕ) (a b : ℤ) (xs : List (ℤ × Bytes))
      → SortedKeys xs
      → All Keyed xs
      → member a (keys (take c xs)) ≡ true
      → member b (keys xs) ≡ true
      → member b (keys (take c xs)) ≡ false
      → digest_lt (key_of sha256 coin b) (key_of sha256 coin a) ≡ false
  unfolding member
  least_first zero a b xs s e ha hb out = cc ha
  least_first (suc c) a b [] s e ha hb out = cc ha
  least_first (suc c) a b (x ∷ xs) s e ha hb out =
      let (apart, later) = both_false (eqb_ℤ (x.0) b) _ out in
      let there : member b (keys xs) ≡ true = rw apart at hb in
      elim (Bool-cases (eqb_ℤ (x.0) a)) [
        | inl same ↦
            let id : x.0 ≡ a = (eqb_ℤ_iff (x.0) a).0 same in
            let key : x.1 ≡ key_of sha256 coin a = e.0 ∙ ap (key_of sha256 coin) id in
            rw (← key) (NoneLess-of_member x b xs s.0 e.1 there)
        | inr other ↦ least_first c a b xs s.1 e.1 (rw other at ha) there later
      ]
    where
      both_false : (p q : Bool) → (p || q) ≡ false → (p ≡ false) × (q ≡ false)
      both_false true q h = cc
      both_false false q h = (refl, h)

  -- c different members of the roster, and no other one has a lesser digest.
  pub record Selected (roster : List ℤ) (c : ℕ) (out : List ℤ) : Type 0 where
    pub size : length out ≡ c
    pub different : Distinct out
    pub members : (a : ℤ) → member a out ≡ true → member a roster ≡ true
    pub least :
        (a b : ℤ)
        → member a out ≡ true
        → member b roster ≡ true
        → member b out ≡ false
        → digest_lt (key_of sha256 coin b) (key_of sha256 coin a) ≡ false

  Selected-of_members :
      (roster ordered : List ℤ) (c : ℕ)
      → ((a : ℤ) → member a ordered ≡ member a roster)
      → Distinct ordered
      → c ≤ length ordered
      → Selected roster c (keys (take c (sort_keys (with_keys sha256 coin ordered))))
  Selected-of_members roster ordered c same distinct fits =
      let entries = with_keys sha256 coin ordered in
      let sorted = sort_keys entries in
      let member_sorted : (a : ℤ) → member a (keys sorted) ≡ member a roster =
        λ a. member-sort_keys a entries ∙ ap (member a) (keys-with_keys ordered) ∙ same a in
      let size : length sorted ≡ length ordered =
        length-sort_keys entries ∙ sym (length-keys entries) ∙ ap length (keys-with_keys ordered) in
      record {
        size = length-keys (take c sorted) ∙ exact_length c sorted (omega (arith, fits, size));
        different =
            take-Distinct c sorted
              (sort_keys-Distinct entries (rw (keys-with_keys ordered) distinct));
        members = λ a h. sym (member_sorted a) ∙ member-take a c sorted h;
        least = λ a b ha hb left_out.
            least_first c a b sorted (sort_keys-SortedKeys entries)
              (sort_keys-All Keyed entries (with_keys-Keyed ordered)) ha (member_sorted b ∙ hb)
              left_out;
      }
    where
      exact_length : (c : ℕ) (xs : List (ℤ × Bytes)) → c ≤ length xs → length (take c xs) ≡ c
      exact_length c xs h = omega (arith, h, length-take c xs)

  -- When a coin gives a set of proposers, and another roster has the same length and the same
  -- members: the set is c different members of the roster, no member that is left out has a
  -- lesser digest than one in the set, and the other roster gives the same set.
  pub proposer_set-Selected :
      (roster other : List ℤ) (c f : ℕ) (out : List ℤ)
      → proposer_set sha256 roster c f coin ≡ some out
      → length other ≡ length roster
      → ((a : ℤ) → member a other ≡ member a roster)
      → Selected roster c out × (proposer_set sha256 other c f coin ≡ some out)
  unfolding proposer_set
  proposer_set-Selected roster other c f out h long same =
      let ordered = sorted_unique roster in
      let (valid, h1) =
        guard->>
          (not (length coin == 0) && not (c == 0) && leb c (length roster) && ltb f (length roster))
          _ h in
      let (sized, h2) = guard->> (length ordered == length roster && leb c (length ordered)) _ h1 in
      let fits = leb→le c (length ordered) (&&-right (length ordered == length roster) _ sized) in
      let e : sorted_unique other ≡ ordered =
        eq_of_members (sorted_unique other) ordered (sorted_unique-Ascending other)
          (sorted_unique-Ascending roster)
          (λ a. member-sorted_unique a other ∙ same a ∙ sym (member-sorted_unique a roster)) in
      (
        subst (Selected roster c) (some-inj _ out h2) (
            Selected-of_members roster ordered c (λ a. member-sorted_unique a roster)
              (Ascending-Distinct ordered (sorted_unique-Ascending roster)) fits),
        rw (e, long) h,
      )
