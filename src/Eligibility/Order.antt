-- ===== src/Eligibility/Order.antt =====
-- The sort by digests: an order on byte strings, and a list sorted by it with the same entries.
use arladkr_practicaladkr.Prelude.{
  ℕ, zero, suc, ◌≡◌, refl, ap, ◌∙◌, inl, inr, true, false, ◌||◌, List, [], ◌∷◌, arith, Bool-cases,
  length, take, All,
}
use arladkr_practicaladkr.Prelude.Int.{ℤ, eqb_ℤ, eqb_ℤ_iff}
use arladkr_practicaladkr.Prelude.Bytes.{Bytes}
use arladkr_practicaladkr.Prelude.Members.{member, Distinct}
use arladkr_practicaladkr.Prelude.Entries.{keys}
use arladkr_practicaladkr.Eligibility.{digest_lt, insert_key, sort_keys}

digest_lt-asym : (a b : Bytes) → digest_lt a b ≡ true → digest_lt b a ≡ false
unfolding digest_lt
digest_lt-asym [] [] h = cc
digest_lt-asym [] (y ∷ ys) h = refl
digest_lt-asym (x ∷ xs) [] h = cc
digest_lt-asym (x ∷ xs) (y ∷ ys) h = ground (arith, digest_lt-asym xs ys)

-- "Not less" is transitive.
not_less_trans :
    (a b c : Bytes) → digest_lt b a ≡ false → digest_lt c b ≡ false → digest_lt c a ≡ false
unfolding digest_lt
not_less_trans [] [] c h k = k
not_less_trans [] (y ∷ ys) [] h k = refl
not_less_trans [] (y ∷ ys) (z ∷ zs) h k = refl
not_less_trans (x ∷ xs) [] c h k = cc
not_less_trans (x ∷ xs) (y ∷ ys) [] h k = cc
not_less_trans (x ∷ xs) (y ∷ ys) (z ∷ zs) h k = ground (arith, not_less_trans xs ys zs)

-- No digest behind is less.
abbrev pub NoneLess : ℤ × Bytes → List (ℤ × Bytes) → Type 0
NoneLess k = All (λ x. digest_lt (x.1) (k.1) ≡ false)

abbrev pub SortedKeys : List (ℤ × Bytes) → Type 0
SortedKeys [] = Unit {0}
SortedKeys (k ∷ ks) = NoneLess k ks × SortedKeys ks

NoneLess-trans :
    (a b : ℤ × Bytes) (xs : List (ℤ × Bytes))
    → digest_lt (b.1) (a.1) ≡ false
    → NoneLess b xs
    → NoneLess a xs
NoneLess-trans a b [] h n = tt
NoneLess-trans a b (x ∷ xs) h n =
    (not_less_trans (a.1) (b.1) (x.1) h n.0, NoneLess-trans a b xs h n.1)

insert_key-All {κ} :
    (P : ℤ × Bytes → Type κ) (k : ℤ × Bytes) (xs : List (ℤ × Bytes))
    → P k
    → All P xs
    → All P (insert_key k xs)
unfolding insert_key
insert_key-All P k [] p h = (p, tt)
insert_key-All P k (x ∷ xs) p h = elim (Bool-cases (digest_lt (x.1) (k.1))) [
  | inl behind ↦ rw behind (h.0, insert_key-All P k xs p h.1)
  | inr here ↦ rw here (p, h)
]

insert_key-SortedKeys :
    (k : ℤ × Bytes) (xs : List (ℤ × Bytes)) → SortedKeys xs → SortedKeys (insert_key k xs)
unfolding insert_key
insert_key-SortedKeys k [] s = (tt, tt)
insert_key-SortedKeys k (x ∷ xs) s = elim (Bool-cases (digest_lt (x.1) (k.1))) [
  | inl behind ↦ rw behind (
    insert_key-All (λ y. digest_lt (y.1) (x.1) ≡ false) k xs (digest_lt-asym (x.1) (k.1) behind)
        s.0,
    insert_key-SortedKeys k xs s.1,
  )
  | inr here ↦ rw here ((here, NoneLess-trans k x xs here s.0), s)
]

pub sort_keys-SortedKeys : (xs : List (ℤ × Bytes)) → SortedKeys (sort_keys xs)
unfolding sort_keys
sort_keys-SortedKeys [] = tt
sort_keys-SortedKeys (x ∷ xs) = insert_key-SortedKeys x (sort_keys xs) (sort_keys-SortedKeys xs)

pub sort_keys-All {κ} :
    (P : ℤ × Bytes → Type κ) (xs : List (ℤ × Bytes)) → All P xs → All P (sort_keys xs)
unfolding sort_keys
sort_keys-All P [] h = tt
sort_keys-All P (x ∷ xs) h = insert_key-All P x (sort_keys xs) h.0 (sort_keys-All P xs h.1)

length-insert_key :
    (k : ℤ × Bytes) (xs : List (ℤ × Bytes)) → length (insert_key k xs) ≡ suc (length xs)
unfolding insert_key
length-insert_key k [] = refl
length-insert_key k (x ∷ xs) = ground (arith, length-insert_key k xs)

pub length-sort_keys : (xs : List (ℤ × Bytes)) → length (sort_keys xs) ≡ length xs
unfolding sort_keys
length-sort_keys [] = refl
length-sort_keys (x ∷ xs) = length-insert_key x (sort_keys xs) ∙ ap suc (length-sort_keys xs)

member-insert_key :
    (a : ℤ) (k : ℤ × Bytes) (xs : List (ℤ × Bytes))
    → member a (keys (insert_key k xs)) ≡ (eqb_ℤ (k.0) a || member a (keys xs))
unfolding member insert_key
member-insert_key a k [] = refl
member-insert_key a k (x ∷ xs) = ground (arith, member-insert_key a k xs)

pub member-sort_keys :
    (a : ℤ) (xs : List (ℤ × Bytes)) → member a (keys (sort_keys xs)) ≡ member a (keys xs)
unfolding member sort_keys
member-sort_keys a [] = refl
member-sort_keys a (x ∷ xs) =
    member-insert_key a x (sort_keys xs) ∙ ap (λ t. eqb_ℤ (x.0) a || t) (member-sort_keys a xs)

insert_key-Distinct :
    (k : ℤ × Bytes) (xs : List (ℤ × Bytes))
    → member (k.0) (keys xs) ≡ false
    → Distinct (keys xs)
    → Distinct (keys (insert_key k xs))
unfolding insert_key member
insert_key-Distinct k [] new d = (refl, tt)
insert_key-Distinct k (x ∷ xs) new d = elim (Bool-cases (digest_lt (x.1) (k.1))) [
  | inl behind ↦ rw behind (
    member-insert_key (x.0) k xs ∙ apart (k.0) (x.0) (keys xs) new (d.0),
    insert_key-Distinct k xs (ground (arith, new)) d.1,
  )
  | inr here ↦ rw here (new, d)
]
  where
    apart :
        (a b : ℤ) (ys : List ℤ)
        → (eqb_ℤ b a || member a ys) ≡ false
        → member b ys ≡ false
        → (eqb_ℤ a b || member b ys) ≡ false
    apart a b ys h k = ground (arith, h, k, eqb_ℤ_iff a b, eqb_ℤ_iff b a)

pub sort_keys-Distinct :
    (xs : List (ℤ × Bytes)) → Distinct (keys xs) → Distinct (keys (sort_keys xs))
unfolding sort_keys
sort_keys-Distinct [] d = tt
sort_keys-Distinct (x ∷ xs) d =
    insert_key-Distinct x (sort_keys xs) (member-sort_keys (x.0) xs ∙ d.0)
      (sort_keys-Distinct xs d.1)

pub member-take :
    (a : ℤ) (c : ℕ) (xs : List (ℤ × Bytes))
    → member a (keys (take c xs)) ≡ true
    → member a (keys xs) ≡ true
unfolding member
member-take a zero xs h = cc h
member-take a (suc c) [] h = h
member-take a (suc c) (x ∷ xs) h = ground (arith, h, member-take a c xs)

pub take-Distinct :
    (c : ℕ) (xs : List (ℤ × Bytes)) → Distinct (keys xs) → Distinct (keys (take c xs))
take-Distinct zero xs d = tt
take-Distinct (suc c) [] d = tt
take-Distinct (suc c) (x ∷ xs) d = (absent (x.0) c xs d.0, take-Distinct c xs d.1)
  where
    absent :
        (a : ℤ) (c : ℕ) (xs : List (ℤ × Bytes))
        → member a (keys xs) ≡ false
        → member a (keys (take c xs)) ≡ false
    absent a c xs h = elim (Bool-cases (member a (keys (take c xs)))) [
      | inl there ↦ cc (h, member-take a c xs there)
      | inr gone ↦ gone
    ]
