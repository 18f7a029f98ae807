-- ===== src/Apdb/Store/Branches.antt =====
-- A branch that cvAPDBBuildMerkleScalar computes leads from its node to the top of the tree.
use arladkr_practicaladkr.Prelude.{
  ℕ, zero, suc, ◌+◌, ◌-◌, ◌*◌, ◌/◌, ◌%◌, ◌≤◌, ◌<◌, ◌≡◌, refl, sym, ◌∙◌, inl, inr, true, false, some,
  List, [], ◌∷◌, ◌++◌, arith, leb, ◌==◌, length, get_or, Bool-cases, All,
}
use arladkr_practicaladkr.Prelude.Bytes.{Bytes}
use arladkr_practicaladkr.Util.{hash_bytes}
use arladkr_practicaladkr.Tree.{pad, pair_up, join}
use arladkr_practicaladkr.Tree.Levels.{get_or-pad, length-pad, length-pair_up, get_or-pair_up}
use arladkr_practicaladkr.Apdb.Store.{
  tree_hash, levels, branch_sibling, branch, top, depth_from, follow_checked,
}

module _ (sha256 : Bytes → Bytes) (digest_size : (x : Bytes) → length (sha256 x) ≡ 32) where
  abbrev pub Sized : List Bytes → Type 0
  Sized = All (λ d. length d ≡ 32)

  pub get_or-Sized :
      (level : List Bytes) (i : ℕ)
      → i < length level
      → Sized level
      → length (get_or level i []) ≡ 32
  get_or-Sized [] i h s = absurd (omega (arith, h))
  get_or-Sized (x ∷ level) zero h s = s.0
  get_or-Sized (x ∷ level) (suc i) h s = get_or-Sized level i (omega arith) s.1

  pub pair_up-Sized : (level : List Bytes) → Sized (pair_up (tree_hash sha256) level)
  unfolding pair_up tree_hash hash_bytes
  pair_up-Sized [] = tt
  pair_up-Sized (l ∷ []) = tt
  pair_up-Sized (l ∷ r ∷ rest) = (digest_size _, pair_up-Sized rest)

get_or-end : (xs : List Bytes) (x : Bytes) → get_or (xs ++ x ∷ []) (length xs) [] ≡ x
get_or-end [] x = refl
get_or-end (y ∷ xs) x = get_or-end xs x

-- The node that makes an odd level even.
get_or-pad_end :
    (level : List Bytes)
    → (length level % 2 == 1) ≡ true
    → get_or (pad level) (length level) [] ≡ get_or level (length level - 1) []
get_or-pad_end level odd = rw (odd, pad) (get_or-end level (get_or level (length level - 1) []))

-- The sibling of a node in its level is the one in the padded level.
get_or-sibling_even :
    (level : List Bytes) (i : ℕ)
    → i < length level
    → (i % 2 == 0) ≡ true
    → get_or level (branch_sibling level i) [] ≡ get_or (pad level) (i + 1) []
get_or-sibling_even level i h even = elim (Bool-cases (leb (length level) (i + 1))) [
  | inl past ↦
      let last : i + 1 ≡ length level = ground arith in
      let odd : (length level % 2 == 1) ≡ true = ground arith in
      let s : branch_sibling level i ≡ length level - 1 = ground arith in
      rw (s, last) (sym (get_or-pad_end level odd))
  | inr inside ↦
      let s : branch_sibling level i ≡ i + 1 = ground arith in
      rw s (sym (get_or-pad level (i + 1) (ground arith)))
]

get_or-sibling_odd :
    (level : List Bytes) (i : ℕ)
    → i < length level
    → (i % 2 == 0) ≡ false
    → get_or level (branch_sibling level i) [] ≡ get_or (pad level) (i - 1) []
get_or-sibling_odd level i h odd =
    let s : branch_sibling level i ≡ i - 1 = ground arith in
    rw s (sym (get_or-pad level (i - 1) (omega arith)))

branch_sibling-lt :
    (level : List Bytes) (i : ℕ) → i < length level → branch_sibling level i < length level
branch_sibling-lt level i h = ground arith

module _ (node : Bytes → Bytes → Bytes) where
  -- A node joined with its sibling is the node above.
  join-above :
      (level : List Bytes) (i : ℕ)
      → i < length level
      → join node (get_or level i []) i (get_or level (branch_sibling level i) [])
        ≡ get_or (pair_up node (pad level)) (i / 2) []
  join-above level i h =
      let size = length-pad level in
      let own = get_or-pad level i h in
      let above = get_or-pair_up node (pad level) (i / 2) (omega (arith, size, h)) in
      elim (Bool-cases (i % 2 == 0)) [
        | inl even ↦
            let l : 2 * (i / 2) ≡ i = ground arith in
            rw (get_or-sibling_even level i h even, even) (sym (above ∙ rw (l, own) refl))
        | inr odd ↦
            let l : 2 * (i / 2) ≡ i - 1 = ground arith in
            let r : 2 * (i / 2) + 1 ≡ i = ground arith in
            rw (get_or-sibling_odd level i h odd, odd) (sym (above ∙ rw (r, l, own) refl))
      ]

module _ (sha256 : Bytes → Bytes) (digest_size : (x : Bytes) → length (sha256 x) ≡ 32) where
  branch-levels :
      (level next : List Bytes) (fuel i : ℕ)
      → branch i (level ∷ levels sha256 fuel next)
        ≡ get_or level (branch_sibling level i) [] ∷ branch (i / 2) (levels sha256 fuel next)
  unfolding levels branch
  branch-levels level next zero i = refl
  branch-levels level next (suc fuel) i = elim (Bool-cases (leb (length next) 1)) [
    | inl done ↦ rw (done, levels) refl
    | inr more ↦ rw (more, levels) refl
  ]

  pub top-levels :
      (level next : List Bytes) (fuel : ℕ)
      → top (level ∷ levels sha256 fuel next) ≡ top (levels sha256 fuel next)
  unfolding levels top
  top-levels level next zero = refl
  top-levels level next (suc fuel) = elim (Bool-cases (leb (length next) 1)) [
    | inl done ↦ rw (done, levels) refl
    | inr more ↦ rw (more, levels) refl
  ]

  -- The branch of a node leads to the top.
  pub follow_checked-branch :
      (fuel : ℕ) (level : List Bytes) (i : ℕ)
      → length level ≤ fuel + 1
      → i < length level
      → Sized sha256 digest_size level
      → follow_checked sha256 (get_or level i []) i (branch i (levels sha256 fuel level))
        ≡ some (top (levels sha256 fuel level))
  unfolding levels branch top follow_checked
  follow_checked-branch zero level i short h sized =
      let first : i ≡ 0 = omega (arith, h, short) in rw first refl
  follow_checked-branch (suc fuel) level i short h sized =
      elim (Bool-cases (leb (length level) 1)) [
        | inl done ↦ let first : i ≡ 0 = ground (arith, h) in rw (done, levels, first) refl
        | inr more ↦
            let next = pair_up (tree_hash sha256) (pad level) in
            let size = length-pad level in
            let half = length-pair_up (tree_hash sha256) (pad level) in
            rw (more, levels, branch-levels level next fuel i, top-levels level next fuel)
              (rw
                (get_or-Sized sha256 digest_size level (branch_sibling level i)
                  (branch_sibling-lt level i h) sized)
                (rw (join-above (tree_hash sha256) level i h) (
                  follow_checked-branch fuel next (i / 2) (ground (arith, size, half))
                    (omega (arith, size, half)) (pair_up-Sized sha256 digest_size (pad level)))))
      ]

  pub length-branch :
      (fuel : ℕ) (level : List Bytes) (i : ℕ)
      → length (branch i (levels sha256 fuel level)) ≡ depth_from fuel (length level)
  unfolding levels branch depth_from
  length-branch zero level i = refl
  length-branch (suc fuel) level i = elim (Bool-cases (leb (length level) 1)) [
    | inl done ↦ rw (done, levels) refl
    | inr more ↦
        let next = pair_up (tree_hash sha256) (pad level) in
        let e : length next ≡ (length level + 1) / 2 =
          omega (arith, length-pad level, length-pair_up (tree_hash sha256) (pad level)) in
        rw (more, levels, branch-levels level next fuel i)
          (rw (← e) (omega (arith, length-branch fuel next (i / 2))))
  ]
