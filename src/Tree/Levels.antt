-- ===== src/Tree/Levels.antt =====
-- A level of a hash tree and the one above it.
use arladkr_practicaladkr.Prelude.{
  ℕ, zero, suc, ◌+◌, ◌-◌, ◌*◌, ◌/◌, ◌%◌, ◌<◌, ◌≡◌, refl, inl, inr, List, [], ◌∷◌, ◌++◌, arith, ◌==◌,
  length, length-append, get_or, Bool-cases,
}
use arladkr_practicaladkr.Prelude.Bytes.{Bytes}
use arladkr_practicaladkr.Tree.{pad, pair_up, join, follow}

get_or-append :
    (xs ys : List Bytes) (i : ℕ) → i < length xs → get_or (xs ++ ys) i [] ≡ get_or xs i []
get_or-append [] ys i h = absurd (omega (arith, h))
get_or-append (x ∷ xs) ys zero h = refl
get_or-append (x ∷ xs) ys (suc i) h = get_or-append xs ys i (omega arith)

pub get_or-pad :
    (level : List Bytes) (i : ℕ) → i < length level → get_or (pad level) i [] ≡ get_or level i []
get_or-pad level i h = elim (Bool-cases (length level % 2 == 1)) [
  | inl odd ↦ rw (odd, pad) (get_or-append level (get_or level (length level - 1) [] ∷ []) i h)
  | inr even ↦ rw (even, pad) refl
]

pub length-pad : (level : List Bytes) → length (pad level) ≡ length level + length level % 2
length-pad level = elim (Bool-cases (length level % 2 == 1)) [
  | inl odd ↦
      rw (odd, pad) (ground (arith, length-append level (get_or level (length level - 1) [] ∷ [])))
  | inr even ↦ rw (even, pad) (ground arith)
]

module _ (node : Bytes → Bytes → Bytes) where
  pub length-pair_up : (xs : List Bytes) → length (pair_up node xs) ≡ length xs / 2
  unfolding pair_up
  length-pair_up [] = omega arith
  length-pair_up (l ∷ []) = omega arith
  length-pair_up (l ∷ r ∷ rest) = omega (arith, length-pair_up rest)

  pub get_or-pair_up :
      (xs : List Bytes) (j : ℕ)
      → 2 * j + 1 < length xs
      → get_or (pair_up node xs) j [] ≡ node (get_or xs (2 * j) []) (get_or xs (2 * j + 1) [])
  unfolding pair_up
  get_or-pair_up [] j h = absurd (omega (arith, h))
  get_or-pair_up (l ∷ []) j h = absurd (omega (arith, h))
  get_or-pair_up (l ∷ r ∷ rest) zero h = refl
  get_or-pair_up (l ∷ r ∷ rest) (suc j) h =
      let e : 2 * suc j ≡ suc (suc (2 * j)) = omega arith in
      let e' : 2 * suc j + 1 ≡ suc (suc (2 * j + 1)) = omega arith in
      rw (e', e) (get_or-pair_up rest j (omega arith))

  pub follow-append :
      (cur : Bytes) (idx : ℕ) (xs : List Bytes) (s : Bytes)
      → follow node cur idx (xs ++ s ∷ [])
        ≡ follow node (follow node cur idx xs).0 (follow node cur idx xs).1 (s ∷ [])
  unfolding follow
  follow-append cur idx [] s = refl
  follow-append cur idx (x ∷ xs) s = follow-append (join node cur idx x) (idx / 2) xs s
