-- ===== src/Apdb/Store/Verifies.antt =====
-- The branches of cvAPDBBuildMerkleScalar pass cvVerifyAPDBStoreScalar.
use arladkr_practicaladkr.Prelude.{
  ℕ, zero, suc, ◌+◌, ◌≤◌, ◌<◌, ◌≡◌, refl, ap, inl, inr, true, some, List, [], ◌∷◌, arith, leb,
  lt→ltb, ==_iff, not, ◌&&◌, ◌==◌, length, get_or, Bool-cases,
}
use arladkr_practicaladkr.Prelude.Int.{pos}
use arladkr_practicaladkr.Prelude.Bytes.{Bytes, beq_refl}
use arladkr_practicaladkr.Util.{hash_bytes}
use arladkr_practicaladkr.Tree.{pad, pair_up}
use arladkr_practicaladkr.Tree.Levels.{length-pad, length-pair_up}
use arladkr_practicaladkr.Apdb.Store.{
  Store, shard_hash, tree_hash, levels, branch, top, leaves, build_tree, merkle_depth,
  follow_checked, index_of, verify_store,
}
use arladkr_practicaladkr.Apdb.Store.Branches.{
  Sized, get_or-Sized, pair_up-Sized, top-levels, follow_checked-branch, length-branch,
}

verify_store-intro :
    (sha256 : Bytes → Bytes) (total_shards shard_bytes i : ℕ) (store : Store)
    → length store.instance_digest ≡ 32
    → length store.root ≡ 32
    → store.index ≡ pos i
    → i < total_shards
    → 1 ≤ shard_bytes
    → length store.shard ≡ shard_bytes
    → length store.siblings ≡ merkle_depth total_shards
    → follow_checked sha256
        (shard_hash sha256 store.instance_digest store.index store.shard)
        i
        store.siblings
      ≡ some store.root
    → verify_store sha256 total_shards shard_bytes (some store) ≡ some tt
unfolding verify_store
verify_store-intro sha256 total_shards shard_bytes i store inst root at_i inside positive size depth
      leads =
    let sizes : (length store.instance_digest == 32 && length store.root == 32) ≡ true =
      ground arith in
    let index : index_of total_shards store.index ≡ some i =
      rw at_i (rw (lt→ltb i total_shards inside) refl) in
    let shard : (not (shard_bytes == 0) && length store.shard == shard_bytes) ≡ true =
      ground arith in
    let branch : (length store.siblings == merkle_depth total_shards) ≡ true =
      (==_iff (length store.siblings) (merkle_depth total_shards)).1 depth in
    rw (sizes, index, shard, branch, leads, beq_refl store.root) refl

module _ (sha256 : Bytes → Bytes) (digest_size : (x : Bytes) → length (sha256 x) ≡ 32) where
  pub length-leaves :
      (instance_id : Bytes) (k : ℕ) (shards : List Bytes)
      → length (leaves sha256 instance_id k shards) ≡ length shards
  length-leaves instance_id k [] = refl
  length-leaves instance_id k (s ∷ shards) = ap suc (length-leaves instance_id (suc k) shards)

  pub leaves-Sized :
      (instance_id : Bytes) (k : ℕ) (shards : List Bytes)
      → Sized sha256 digest_size (leaves sha256 instance_id k shards)
  unfolding shard_hash hash_bytes
  leaves-Sized instance_id k [] = tt
  leaves-Sized instance_id k (s ∷ shards) = (digest_size _, leaves-Sized instance_id (suc k) shards)

  get_or-leaves :
      (instance_id : Bytes) (k i : ℕ) (shards : List Bytes)
      → i < length shards
      → get_or (leaves sha256 instance_id k shards) i []
        ≡ shard_hash sha256 instance_id (pos (k + i)) (get_or shards i [])
  get_or-leaves instance_id k i [] h = absurd (omega (arith, h))
  get_or-leaves instance_id k zero (s ∷ shards) h = let e : k + 0 ≡ k = omega arith in rw e refl
  get_or-leaves instance_id k (suc i) (s ∷ shards) h =
      let e : k + suc i ≡ suc k + i = omega arith in
      rw e (get_or-leaves instance_id (suc k) i shards (omega arith))

  -- The store that holds a shard with its branch.
  abbrev pub store_at : Bytes → List Bytes → ℕ → Store
  store_at instance_id shards i = record {
    instance_digest = instance_id;
    root = (build_tree sha256 instance_id shards).0;
    index = pos i;
    shard = get_or shards i [];
    siblings = branch i (levels sha256 (length shards) (leaves sha256 instance_id 0 shards));
  }

  pub follow_checked-store :
      (instance_id : Bytes) (shards : List Bytes) (i : ℕ)
      → i < length shards
      → follow_checked sha256
          (shard_hash sha256 instance_id (pos i) (get_or shards i []))
          i
          (store_at instance_id shards i).siblings
        ≡ some (build_tree sha256 instance_id shards).0
  unfolding build_tree
  follow_checked-store instance_id shards i h =
      let size = length-leaves instance_id 0 shards in
      let from_zero : 0 + i ≡ i = omega arith in
      let leaf : get_or (leaves sha256 instance_id 0 shards) i []
          ≡ shard_hash sha256 instance_id (pos i) (get_or shards i []) =
        rw from_zero at (get_or-leaves instance_id 0 i shards h) in
      rw (← leaf) (
        follow_checked-branch sha256 digest_size (length shards)
          (leaves sha256 instance_id 0 shards) i (omega (arith, size)) (omega (arith, size))
          (leaves-Sized instance_id 0 shards))

  pub top-Sized :
      (fuel : ℕ) (level : List Bytes)
      → 1 ≤ length level
      → Sized sha256 digest_size level
      → length (top (levels sha256 fuel level)) ≡ 32
  unfolding levels top
  top-Sized zero level some_node sized = get_or-Sized sha256 digest_size level 0 (omega arith) sized
  top-Sized (suc fuel) level some_node sized = elim (Bool-cases (leb (length level) 1)) [
    | inl done ↦ rw (done, levels) (get_or-Sized sha256 digest_size level 0 (omega arith) sized)
    | inr more ↦
        let next = pair_up (tree_hash sha256) (pad level) in
        rw (more, levels, top-levels sha256 digest_size level next fuel)
          (top-Sized fuel next
            (ground (arith, length-pad level, length-pair_up (tree_hash sha256) (pad level)))
            (pair_up-Sized sha256 digest_size (pad level)))
  ]

  -- When SHA-256 digests have 32 bytes: for shards under a 32-byte instance digest, the store of
  -- a shard of the positive size that is asked for, with the branch that cvAPDBBuildMerkleScalar
  -- computes, passes cvVerifyAPDBStoreScalar.
  pub every_store_verifies :
      (instance_id : Bytes) (shards : List Bytes) (shard_bytes i : ℕ)
      → length instance_id ≡ 32
      → i < length shards
      → 1 ≤ shard_bytes
      → length (get_or shards i []) ≡ shard_bytes
      → verify_store sha256 (length shards) shard_bytes (some (store_at instance_id shards i))
        ≡ some tt
  unfolding verify_store build_tree
  every_store_verifies instance_id shards shard_bytes i instance_size h positive size =
      let count = length-leaves instance_id 0 shards in
      let root_size =
        top-Sized (length shards) (leaves sha256 instance_id 0 shards) (omega (arith, count, h))
          (leaves-Sized instance_id 0 shards) in
      let depth : length (store_at instance_id shards i).siblings ≡ merkle_depth (length shards) =
        rw count at (
          length-branch sha256 digest_size (length shards) (leaves sha256 instance_id 0 shards)
            i) in
      verify_store-intro sha256 (length shards) shard_bytes i (store_at instance_id shards i)
        instance_size root_size refl h positive size depth
        (follow_checked-store instance_id shards i h)
