-- ===== src/Mvba/Merkle/Binding.antt =====
-- What a root commits to: two stripes that verify at one place are the same, or SHA-256 collides.
use mathlib.Core.List.{append-nil}
use arladkr_practicaladkr.Prelude.{ℕ, ◌≡◌, sym, ◌∙◌, ◌⊎◌, inl, inr, true, [], ◌∷◌, ◌++◌, length}
use arladkr_practicaladkr.Prelude.Bytes.{Bytes, beq→eq}
use arladkr_practicaladkr.Util.{concat, hash_bytes, Collision, hash_bytes-Collision}
use arladkr_practicaladkr.Tree.Binding.{follow-binds}
use arladkr_practicaladkr.Mvba.Merkle.{leaf_hash, node_hash, MerkleBranch, verify_merkle}

concat-pair : (a b : Bytes) → concat (a ∷ b ∷ []) ≡ a ++ b
concat-pair a b = simp append-nil

tail_of_cons : (x : ℕ) (xs ys : Bytes) → x ∷ xs ≡ x ∷ ys → xs ≡ ys
tail_of_cons x xs ys e = cc e

module _ (sha256 : Bytes → Bytes) (digest_size : (x : Bytes) → length (sha256 x) ≡ 32) where
  node_hash-binds :
      (l l' r r' : Bytes)
      → node_hash sha256 l r ≡ node_hash sha256 l' r'
      → (l ++ r ≡ l' ++ r') ⊎ Collision sha256
  unfolding node_hash
  node_hash-binds l l' r r' e =
      elim (hash_bytes-Collision sha256 ((1 ∷ []) ∷ l ∷ r ∷ []) ((1 ∷ []) ∷ l' ∷ r' ∷ []) e) [
        | inl same ↦ inl (sym (concat-pair l r) ∙ tail_of_cons 1 _ _ same ∙ concat-pair l' r')
        | inr collision ↦ inr collision
      ]

  length-node_hash : (l r : Bytes) → length (node_hash sha256 l r) ≡ 32
  unfolding node_hash hash_bytes
  length-node_hash l r = digest_size _

  leaf_hash-binds :
      (v w : Bytes) → leaf_hash sha256 v ≡ leaf_hash sha256 w → (v ≡ w) ⊎ Collision sha256
  unfolding leaf_hash
  leaf_hash-binds v w e =
      elim (hash_bytes-Collision sha256 ((0 ∷ []) ∷ v ∷ []) ((0 ∷ []) ∷ w ∷ []) e) [
        | inl same ↦ inl (sym (append-nil v) ∙ tail_of_cons 0 _ _ same ∙ append-nil w)
        | inr collision ↦ inr collision
      ]

  -- When every SHA-256 digest has 32 bytes, two stripes that verifyMerkle accepts for one root,
  -- one index and as many siblings are the same stripe, or a collision of SHA-256 is given.
  pub root_binds_stripe :
      (v w root : Bytes) (b c : MerkleBranch)
      → b.index ≡ c.index
      → length b.siblings ≡ length c.siblings
      → verify_merkle sha256 v root b ≡ true
      → verify_merkle sha256 w root c ≡ true
      → (v ≡ w) ⊎ Collision sha256
  unfolding verify_merkle leaf_hash hash_bytes
  root_binds_stripe v w root b c same_index depth hv hw =
      let ev = beq→eq _ root hv in
      let ew = beq→eq _ root hw in
      elim (follow-binds (node_hash sha256) node_hash-binds 32 length-node_hash (leaf_hash sha256 v)
        (leaf_hash sha256 w) b.index b.siblings c.siblings (digest_size _ ∙ sym (digest_size _))
        depth (ev ∙ sym (rw same_index ew))) [
          | inl equal ↦ leaf_hash-binds v w equal
          | inr collision ↦ inr collision
        ]
