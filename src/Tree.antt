-- ===== src/Tree.antt =====
-- What the hash trees of the repository share: core/cv_sapvss_apdb.go and
-- experiments/dumbomvba-go/core/equivalent_utils.go build and follow them in the same way, each with a
-- hash of two nodes of its own, here a parameter.
pub mod Levels
pub mod Binding
use arladkr_practicaladkr.Prelude.{
  ℕ, suc, ◌+◌, ◌-◌, ◌/◌, ◌%◌, List, [], ◌∷◌, ◌++◌, leb, ◌==◌, if◌then◌else◌, length, get_or,
}
use arladkr_practicaladkr.Prelude.Bytes.{Bytes}

-- The copy of the last node that makes a level even.
abbrev pub pad : List Bytes → List Bytes
pad level =
    if length level % 2 == 1 then level ++ get_or level (length level - 1) [] ∷ [] else level

-- The next level, of an even one.
unfoldable pub pair_up : (Bytes → Bytes → Bytes) → List Bytes → List Bytes
pair_up node [] = []
pair_up node (l ∷ []) = []
pair_up node (l ∷ r ∷ rest) = node l r ∷ pair_up node rest

-- A step up a branch: the index says on which side the sibling stands.
abbrev pub join : (Bytes → Bytes → Bytes) → Bytes → ℕ → Bytes → Bytes
join node cur idx sib = if idx % 2 == 0 then node cur sib else node sib cur

-- The loop that verifies a branch: the hash and the index after the siblings.
unfoldable pub follow : (Bytes → Bytes → Bytes) → Bytes → ℕ → List Bytes → Bytes × ℕ
follow node cur idx [] = (cur, idx)
follow node cur idx (sib ∷ siblings) = follow node (join node cur idx sib) (idx / 2) siblings
