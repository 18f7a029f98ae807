-- ===== src/Tests/MerkleTests.antt =====
-- A concrete tree over three stripes.
use arladkr_practicaladkr.Prelude.{◌≡◌, ◌⊎◌, refl, true, some, List, [], ◌∷◌, get_or, get_elem?}
use arladkr_practicaladkr.Prelude.Bytes.{Bytes, beq}
use arladkr_practicaladkr.Util.{Collision, hash_bytes}
use arladkr_practicaladkr.Tree.{pair_up, follow}
use arladkr_practicaladkr.Mvba.Merkle.{
  leaf_hash, node_hash, MerkleBranch, climb, build_merkle, verify_merkle,
}
use arladkr_practicaladkr.Mvba.Merkle.Verifies.{every_branch_verifies}
use arladkr_practicaladkr.Mvba.Merkle.Binding.{root_binds_stripe}
use arladkr_practicaladkr.Tests.{toy_hash, length-toy_hash}

abbrev stripes : List Bytes
stripes = (11 ∷ []) ∷ (22 ∷ []) ∷ (33 ∷ []) ∷ []

abbrev last_stripe : Bytes
last_stripe = 33 ∷ []

abbrev tree_root : Bytes
tree_root = (build_merkle toy_hash stripes).0

abbrev branch_2 : MerkleBranch
branch_2 = get_or (build_merkle toy_hash stripes).1 2 (record { index = 0; siblings = [] })

every_branch_verifies_example :
    (b : MerkleBranch) × (get_elem? (build_merkle toy_hash stripes).1 2 ≡ some b)
    × (b.index ≡ 2)
    × (verify_merkle toy_hash last_stripe tree_root b ≡ true)
every_branch_verifies_example = every_branch_verifies toy_hash stripes 2 last_stripe refl

branch_2_verifies : verify_merkle toy_hash last_stripe tree_root branch_2 ≡ true
unfolding verify_merkle build_merkle climb pair_up follow leaf_hash node_hash hash_bytes beq
branch_2_verifies = refl

root_binds_stripe_example : (last_stripe ≡ last_stripe) ⊎ Collision toy_hash
root_binds_stripe_example =
    root_binds_stripe toy_hash length-toy_hash last_stripe last_stripe tree_root branch_2 branch_2
      refl refl branch_2_verifies branch_2_verifies
