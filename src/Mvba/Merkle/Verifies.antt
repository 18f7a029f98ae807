-- ===== src/Mvba/Merkle/Verifies.antt =====
-- Every branch that buildMerkle makes passes verifyMerkle.
use mathlib.Core.Path.{subst}
use arladkr_practicaladkr.Prelude.{
  ℕ, zero, suc, ◌+◌, ◌≤◌, ◌≡◌, refl, sym, ap, true, Option, some, List, [], ◌∷◌, map, arith, length,
  length-map, get_or, get_elem?,
}
use arladkr_practicaladkr.Prelude.Bytes.{Bytes, beq_refl}
use arladkr_practicaladkr.Tree.{follow}
use arladkr_practicaladkr.Mvba.Merkle.{
  leaf_hash, MerkleBranch, climb, start_paths, to_branches, build_merkle, verify_merkle,
}
use arladkr_practicaladkr.Mvba.Merkle.Climb.{AllLead, climb-AllLead, length-climb}

module _ (sha256 : Bytes → Bytes) where
  -- The nodes of the level from k on are those of the leaves.
  start-AllLead :
      (level : List Bytes) (k : ℕ) (stripes : List Bytes)
      → ((j : ℕ) → get_or level (k + j) [] ≡ get_or (map (leaf_hash sha256) stripes) j [])
      → k + length stripes ≡ length level
      → AllLead sha256 level k (map (leaf_hash sha256) stripes) (start_paths k stripes)
  unfolding AllLead follow
  start-AllLead level k [] here size = tt
  start-AllLead level k (stripe ∷ stripes) here size =
      let at_k : k + 0 ≡ k = omega arith in
      let own : get_or level k [] ≡ leaf_hash sha256 stripe = rw (← at_k) (here 0) in
      (
        (ap (λ v. (v, k)) (sym own), omega (arith, size)),
        start-AllLead level (suc k) stripes
            (λ j. let e : suc k + j ≡ k + suc j = omega arith in rw e (here (suc j)))
            (omega (arith, size)),
      )

  -- The branch of one stripe, and that it verifies.
  abbrev Verified : Bytes → ℕ → Bytes → Option MerkleBranch → Type 0
  Verified root i stripe branch =
      (b : MerkleBranch) × (branch ≡ some b)
      × (b.index ≡ i)
      × (verify_merkle sha256 stripe root b ≡ true)

  branch-Verified :
      (top : List Bytes) (k i : ℕ) (stripes : List Bytes) (paths : List (ℕ × List Bytes))
      (stripe : Bytes)
      → length top ≤ 1
      → AllLead sha256 top k (map (leaf_hash sha256) stripes) paths
      → get_elem? stripes i ≡ some stripe
      → Verified (get_or top 0 []) (k + i) stripe (get_elem? (to_branches k paths) i)
  unfolding AllLead verify_merkle
  branch-Verified top k i [] paths stripe one h at_i = cc at_i
  branch-Verified top k i (s ∷ stripes) [] stripe one h at_i = absurd h
  branch-Verified top k zero (s ∷ stripes) ((pos, siblings) ∷ paths) stripe one h at_i =
      let (leads, inside) = h.0 in
      let same : pos ≡ 0 = omega (arith, inside, one) in
      let stripe_eq : s ≡ stripe = cc at_i in
      (
        record { index = k; siblings = siblings },
        refl,
        omega arith,
        rw (← stripe_eq) (rw leads (rw same (beq_refl (get_or top 0 [])))),
      )
  branch-Verified top k (suc i) (s ∷ stripes) ((pos, siblings) ∷ paths) stripe one h at_i =
      let e : k + suc i ≡ suc k + i = omega arith in
      rw e (branch-Verified top (suc k) i stripes paths stripe one h.1 at_i)

  -- For every stripe of a list, buildMerkle gives a branch with the stripe's index, and
  -- verifyMerkle accepts the stripe with that branch against the root.
  pub every_branch_verifies :
      (stripes : List Bytes) (i : ℕ) (stripe : Bytes)
      → get_elem? stripes i ≡ some stripe
      → Verified
          (build_merkle sha256 stripes).0
          i
          stripe
          (get_elem? (build_merkle sha256 stripes).1 i)
  unfolding build_merkle
  every_branch_verifies [] i stripe at_i = cc at_i
  every_branch_verifies (s ∷ stripes) i stripe at_i =
      let level = map (leaf_hash sha256) (s ∷ stripes) in
      let size : length level ≡ length (s ∷ stripes) =
        length-map (s ∷ stripes) (leaf_hash sha256) in
      let start =
        start-AllLead level 0 (s ∷ stripes) (λ j. let e : 0 + j ≡ j = omega arith in rw e refl)
          (omega (arith, size)) in
      let from_zero : 0 + i ≡ i = omega arith in
      subst
        (λ m.
          Verified (build_merkle sha256 (s ∷ stripes)).0 m stripe
            (get_elem? (build_merkle sha256 (s ∷ stripes)).1 i))
        from_zero
        (branch-Verified (climb sha256 (length level) level (start_paths 0 (s ∷ stripes))).0 0 i
          (s ∷ stripes) (climb sha256 (length level) level (start_paths 0 (s ∷ stripes))).1 stripe
          (length-climb sha256 (length level) level (start_paths 0 (s ∷ stripes)) (omega arith))
          (climb-AllLead sha256 (length level) level 0 level (start_paths 0 (s ∷ stripes)) start)
          at_i)
