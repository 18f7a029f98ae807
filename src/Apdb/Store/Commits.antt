-- ===== src/Apdb/Store/Commits.antt =====
-- The root of the tree over the shards commits to all shards.
use mathlib.Core.List.{append-nil}
use arladkr_practicaladkr.Prelude.{
  ℕ, suc, ◌/◌, ◌<◌, ◌≡◌, refl, sym, ◌∙◌, ap, ◌⊎◌, inl, inr, some, List, [], ◌∷◌, ◌++◌, arith, ◌==◌,
  length, get_or, drop, drop-append, guard->>, some-inj, guard-true, not, ◌&&◌, ==_iff, >>=-eq-some,
}
use arladkr_practicaladkr.Prelude.Int.{ℤ, pos, negsuc}
use arladkr_practicaladkr.Prelude.Bytes.{Bytes, beq, beq→eq}
use arladkr_practicaladkr.Util.{hash_bytes, Collision, hash_bytes-Collision}
use arladkr_practicaladkr.Wire.{put_be}
use arladkr_practicaladkr.Tree.{join, follow}
use arladkr_practicaladkr.Tree.Binding.{follow-binds}
use arladkr_practicaladkr.Apdb.Store.{
  shard_domain, node_domain, uint32, shard_hash, tree_hash, build_tree, follow_checked, leaves,
  depth_from, merkle_depth, Store, index_of, verify_store,
}
use arladkr_practicaladkr.Apdb.Store.Branches.{length-branch}
use arladkr_practicaladkr.Apdb.Store.Verifies.{store_at, follow_checked-store, length-leaves}

append-cancel : (xs a b : Bytes) → xs ++ a ≡ xs ++ b → a ≡ b
append-cancel xs a b e = sym (drop-append xs a) ∙ ap (drop (length xs)) e ∙ drop-append xs b

follow_checked-follow :
    (sha256 : Bytes → Bytes) (digest : Bytes) (index : ℕ) (siblings : List Bytes) (out : Bytes)
    → follow_checked sha256 digest index siblings ≡ some out
    → (follow (tree_hash sha256) digest index siblings).0 ≡ out
unfolding follow_checked follow
follow_checked-follow sha256 digest index [] out e = some-inj digest out e
follow_checked-follow sha256 digest index (s ∷ siblings) out e =
    let (sized, rest) = guard->> (length s == 32) _ e in
    follow_checked-follow sha256 (join (tree_hash sha256) digest index s) (index / 2) siblings out
      rest

-- Lists that agree at every place, unless something else holds.
lists-equal :
    {Broken : Type 0} (xs ys : List Bytes)
    → length xs ≡ length ys
    → ((i : ℕ) → i < length xs → (get_or xs i [] ≡ get_or ys i []) ⊎ Broken)
    → (xs ≡ ys) ⊎ Broken
lists-equal [] [] same h = inl refl
lists-equal [] (y ∷ ys) same h = absurd (omega (arith, same))
lists-equal (x ∷ xs) [] same h = absurd (omega (arith, same))
lists-equal (x ∷ xs) (y ∷ ys) same h = elim (h 0 (omega arith)) [
  | inl first ↦
      elim (lists-equal xs ys (omega (arith, same))
        (λ i inside. h (suc i) (omega (arith, inside)))) [
          | inl rest ↦ inl (cc (first, rest))
          | inr broken ↦ inr broken
        ]
  | inr broken ↦ inr broken
]

module _ (sha256 : Bytes → Bytes) (digest_size : (x : Bytes) → length (sha256 x) ≡ 32) where
  shard_hash-binds :
      (instance_id : Bytes) (index : ℤ) (v w : Bytes)
      → shard_hash sha256 instance_id index v ≡ shard_hash sha256 instance_id index w
      → (v ≡ w) ⊎ Collision sha256
  unfolding shard_hash
  shard_hash-binds instance_id index v w e =
      elim (hash_bytes-Collision sha256
        (shard_domain ∷ instance_id ∷ put_be 4 (uint32 index) ∷ v ∷ [])
        (shard_domain ∷ instance_id ∷ put_be 4 (uint32 index) ∷ w ∷ []) e) [
          | inl same ↦
              let s1 = append-cancel shard_domain _ _ same in
              let s2 = append-cancel instance_id _ _ s1 in
              let s3 = append-cancel (put_be 4 (uint32 index)) (v ++ []) (w ++ []) s2 in
              inl (sym (append-nil v) ∙ s3 ∙ append-nil w)
          | inr collision ↦ inr collision
        ]

  tree_hash-binds :
      (l l' r r' : Bytes)
      → tree_hash sha256 l r ≡ tree_hash sha256 l' r'
      → (l ++ r ≡ l' ++ r') ⊎ Collision sha256
  unfolding tree_hash
  tree_hash-binds l l' r r' e =
      elim (hash_bytes-Collision sha256 (node_domain ∷ l ∷ r ∷ []) (node_domain ∷ l' ∷ r' ∷ []) e) [
        | inl same ↦
            let s1 = append-cancel node_domain (l ++ (r ++ [])) (l' ++ (r' ++ [])) same in
            inl (ap (λ x. l ++ x) (sym (append-nil r)) ∙ s1 ∙ ap (λ x. l' ++ x) (append-nil r'))
        | inr collision ↦ inr collision
      ]

  length-tree_hash : (l r : Bytes) → length (tree_hash sha256 l r) ≡ 32
  unfolding tree_hash hash_bytes
  length-tree_hash l r = digest_size _

  length-shard_hash :
      (instance_id : Bytes) (index : ℤ) (v : Bytes)
      → length (shard_hash sha256 instance_id index v) ≡ 32
  unfolding shard_hash hash_bytes
  length-shard_hash instance_id index v = digest_size _

  length-own :
      (instance_id : Bytes) (shards : List Bytes) (i : ℕ)
      → length (store_at sha256 digest_size instance_id shards i).siblings
        ≡ merkle_depth (length shards)
  length-own instance_id shards i =
      length-branch sha256 digest_size (length shards) (leaves sha256 instance_id 0 shards) i
      ∙ ap (depth_from (length shards)) (length-leaves sha256 digest_size instance_id 0 shards)

  length-siblings :
      (instance_id : Bytes) (shards shards' : List Bytes) (i : ℕ)
      → length shards ≡ length shards'
      → length (store_at sha256 digest_size instance_id shards i).siblings
        ≡ length (store_at sha256 digest_size instance_id shards' i).siblings
  length-siblings instance_id shards shards' i same =
      length-own instance_id shards i
      ∙ ap merkle_depth same
      ∙ sym (length-own instance_id shards' i)

  -- When SHA-256 digests have 32 bytes: equally many shards under one instance digest with one
  -- root are the same shards, or a collision of SHA-256 is given.
  pub root_binds_shards :
      (instance_id : Bytes) (shards shards' : List Bytes)
      → length shards ≡ length shards'
      → (build_tree sha256 instance_id shards).0 ≡ (build_tree sha256 instance_id shards').0
      → (shards ≡ shards') ⊎ Collision sha256
  root_binds_shards instance_id shards shards' same root =
      lists-equal shards shards' same (λ i inside.
        let leads =
          follow_checked-follow sha256 _ i _ _
            (follow_checked-store sha256 digest_size instance_id shards i inside) in
        let leads' = follow_checked-follow sha256 _ i _ _ (
          follow_checked-store sha256 digest_size instance_id shards' i
            (omega (arith, inside, same))) in
        elim (follow-binds (tree_hash sha256) tree_hash-binds 32 length-tree_hash
          (shard_hash sha256 instance_id (pos i) (get_or shards i []))
          (shard_hash sha256 instance_id (pos i) (get_or shards' i [])) i
          (store_at sha256 digest_size instance_id shards i).siblings
          (store_at sha256 digest_size instance_id shards' i).siblings
          (length-shard_hash instance_id (pos i) _ ∙ sym (length-shard_hash instance_id (pos i) _))
          (length-siblings instance_id shards shards' i same) (leads ∙ root ∙ sym leads')) [
            | inl leaf ↦ shard_hash-binds instance_id (pos i) _ _ leaf
            | inr collision ↦ inr collision
          ])

  -- What the check of a store computes.
  record Leads (total_shards : ℕ) (store : Store) : Type 0 where
    at_index : ℕ
    index_eq : store.index ≡ pos at_index
    inside : at_index < total_shards
    depth : length store.siblings ≡ merkle_depth total_shards
    leads :
        (follow
          (tree_hash sha256)
          (shard_hash sha256 store.instance_digest store.index store.shard)
          at_index
          store.siblings).0
        ≡ store.root

  index_of-eq :
      (total_shards : ℕ) (index : ℤ) (i : ℕ)
      → index_of total_shards index ≡ some i
      → (index ≡ pos i) × (i < total_shards)
  index_of-eq total_shards (pos j) i e = (ground arith, ground arith)
  index_of-eq total_shards (negsuc j) i e = cc e

  verify_store-Leads :
      (total_shards shard_bytes : ℕ) (store : Store)
      → verify_store sha256 total_shards shard_bytes (some store) ≡ some tt
      → Leads total_shards store
  unfolding verify_store
  verify_store-Leads total_shards shard_bytes store e =
      let (sizes, e1) =
        guard->> (length store.instance_digest == 32 && length store.root == 32) _ e in
      let (i, at_i, e2) = >>=-eq-some (index_of total_shards store.index) _ e1 in
      let (shard, e3) =
        guard->> (not (shard_bytes == 0) && length store.shard == shard_bytes) _ e2 in
      let (depth, e4) = guard->> (length store.siblings == merkle_depth total_shards) _ e3 in
      let leaf = shard_hash sha256 store.instance_digest store.index store.shard in
      let (digest, walked, e5) = >>=-eq-some (follow_checked sha256 leaf i store.siblings) _ e4 in
      let same = beq→eq digest store.root (guard-true (beq digest store.root) tt e5) in
      let (index, inside) = index_of-eq total_shards store.index i at_i in
      record {
        at_index = i;
        index_eq = index;
        inside = inside;
        depth = (==_iff (length store.siblings) (merkle_depth total_shards)).0 depth;
        leads = follow_checked-follow sha256 leaf i store.siblings digest walked ∙ same;
      }

  -- A store that passes its check under the root of a tree holds the tree's shard at its index.
  pub store_holds_shard :
      (instance_id : Bytes) (shards : List Bytes) (shard_bytes : ℕ) (store : Store)
      → verify_store sha256 (length shards) shard_bytes (some store) ≡ some tt
      → store.instance_digest ≡ instance_id
      → store.root ≡ (build_tree sha256 instance_id shards).0
      → ((i : ℕ) × (store.index ≡ pos i) × (i < length shards) × (store.shard ≡ get_or shards i []))
        ⊎ Collision sha256
  store_holds_shard instance_id shards shard_bytes store verified same_instance same_root =
      let l = verify_store-Leads (length shards) shard_bytes store verified in
      let i = l.at_index in
      let own =
        follow_checked-follow sha256 _ i _ _
          (follow_checked-store sha256 digest_size instance_id shards i l.inside) in
      let theirs : (follow (tree_hash sha256) (shard_hash sha256 instance_id (pos i) store.shard) i
            store.siblings).0
          ≡ store.root =
        rw (same_instance, l.index_eq) at l.leads in
      elim (follow-binds (tree_hash sha256) tree_hash-binds 32 length-tree_hash
        (shard_hash sha256 instance_id (pos i) store.shard)
        (shard_hash sha256 instance_id (pos i) (get_or shards i [])) i store.siblings
        (store_at sha256 digest_size instance_id shards i).siblings
        (length-shard_hash instance_id (pos i) _ ∙ sym (length-shard_hash instance_id (pos i) _))
        (l.depth ∙ sym (length-own instance_id shards i)) (theirs ∙ same_root ∙ sym own)) [
          | inr collision ↦ inr collision
          | inl leaf ↦ elim (shard_hash-binds instance_id (pos i) _ _ leaf) [
            | inl shard ↦ inl (i, l.index_eq, l.inside, shard)
            | inr collision ↦ inr collision
          ]
        ]
