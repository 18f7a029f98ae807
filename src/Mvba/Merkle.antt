-- ===== src/Mvba/Merkle.antt =====
-- experiments/dumbomvba-go/core/equivalent_utils.go: buildMerkle and verifyMerkle, the tree over the
-- stripes of a dispersed value.
pub mod Climb
pub mod Verifies
pub mod Binding
use arladkr_practicaladkr.Prelude.{
  ℕ, zero, suc, ◌+◌, ◌-◌, ◌/◌, ◌%◌, ◌≤◌, Bool, true, false, List, [], ◌∷◌, ◌++◌, map, ltb, leb,
  ◌==◌, if◌then◌else◌, length, get_or,
}
use arladkr_practicaladkr.Prelude.Bytes.{Bytes, beq}
use arladkr_practicaladkr.Util.{hash_bytes}
use arladkr_practicaladkr.Tree.{pad, pair_up, follow}

unfoldable pub leaf_hash : (Bytes → Bytes) → Bytes → Bytes
leaf_hash sha256 v = hash_bytes sha256 ((0 ∷ []) ∷ v ∷ [])

unfoldable pub node_hash : (Bytes → Bytes) → Bytes → Bytes → Bytes
node_hash sha256 l r = hash_bytes sha256 ((1 ∷ []) ∷ l ∷ r ∷ [])

-- `merkleBranch`, with an index that is not negative
pub record MerkleBranch : Type 0 where
  pub index : ℕ
  pub siblings : List Bytes

-- `pos ^ 1`, and the last node where that is past the end.
abbrev pub sibling : List Bytes → ℕ → ℕ
sibling padded pos =
    let s = if pos % 2 == 0 then pos + 1 else pos - 1 in
    if leb (length padded) s then length padded - 1 else s

-- `indexes[i]` and `branches[i].Siblings` after a level.
abbrev pub extend : List Bytes → ℕ × List Bytes → ℕ × List Bytes
extend padded (pos, siblings) = (pos / 2, siblings ++ get_or padded (sibling padded pos) [] ∷ [])

-- `for len(level) > 1`, on fuel
unfoldable pub climb :
    (Bytes → Bytes) → ℕ → List Bytes → List (ℕ × List Bytes) → List Bytes × List (ℕ × List Bytes)
climb sha256 zero level paths = (level, paths)
climb sha256 (suc fuel) level paths =
    let above =
      climb sha256 fuel (pair_up (node_hash sha256) (pad level)) (map (extend (pad level)) paths) in
    if leb (length level) 1 then (level, paths) else above

-- The paths at the bottom: each leaf at its own index.
abbrev pub start_paths : ℕ → List Bytes → List (ℕ × List Bytes)
start_paths i [] = []
start_paths i (stripe ∷ stripes) = (i, []) ∷ start_paths (suc i) stripes

abbrev pub to_branches : ℕ → List (ℕ × List Bytes) → List MerkleBranch
to_branches i [] = []
to_branches i ((pos, siblings) ∷ paths) =
    record { index = i; siblings = siblings } ∷ to_branches (suc i) paths

-- `buildMerkle`: each level has at most half the nodes, so that many stripes are fuel enough.
unfoldable pub build_merkle : (Bytes → Bytes) → List Bytes → Bytes × List MerkleBranch
build_merkle sha256 [] = (hash_bytes sha256 ([] ∷ []), [])
build_merkle sha256 (stripe ∷ stripes) =
    let level = map (leaf_hash sha256) (stripe ∷ stripes) in
    let (top, paths) = climb sha256 (length level) level (start_paths 0 (stripe ∷ stripes)) in
    (get_or top 0 [], to_branches 0 paths)

unfoldable pub verify_merkle : (Bytes → Bytes) → Bytes → Bytes → MerkleBranch → Bool
verify_merkle sha256 stripe root branch =
    beq (follow (node_hash sha256) (leaf_hash sha256 stripe) branch.index branch.siblings).0 root
