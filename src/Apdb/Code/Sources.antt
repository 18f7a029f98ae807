-- ===== src/Apdb/Code/Sources.antt =====
-- The stores that a recovery was made from.
use arladkr_practicaladkr.Prelude.{
  ℕ, zero, suc, ◌<◌, ◌≡◌, refl, sym, ◌∙◌, ap, inl, inr, ◌⊎◌, Bool, not, ◌&&◌, none, some, Option,
  List, [], ◌∷◌, arith, if-none-eq-some, length, get_or, get_elem?, set, replicate, All, guard->>,
  >>=-eq-some, &&-left, &&-right,
}
use arladkr_practicaladkr.Prelude.Int.{ℤ, pos, pos_part}
use arladkr_practicaladkr.Prelude.Bytes.{Bytes, beq, beq→eq}
use arladkr_practicaladkr.Prelude.Members.{member, add}
use arladkr_practicaladkr.Util.{Collision}
use arladkr_practicaladkr.Apdb.Lock.{Lock}
use arladkr_practicaladkr.Apdb.Store.{Store, verify_store}
use arladkr_practicaladkr.Apdb.Store.Commits.{store_holds_shard}
use arladkr_practicaladkr.Apdb.Code.{
  ReedSolomon, Encoded, encode_sized, make_stores, place, recover,
}
use arladkr_practicaladkr.Apdb.Code.Recovery.{recover-Recovered, Dispersed, encode_sized-Dispersed}

-- What the loop has checked of a store.
record Checked (sha256 : Bytes → Bytes) (lock : Lock) (total_shards shard_bytes : ℕ) (store : Store)
    : Type 0 where
  same_instance : store.instance_digest ≡ lock.instance_digest
  same_root : store.root ≡ lock.root
  verified : verify_store sha256 total_shards shard_bytes (some store) ≡ some tt

place-Checked :
    (sha256 : Bytes → Bytes) (lock : Lock) (total_shards shard_bytes : ℕ) (stores : List Store)
    (seen : List ℤ) (shards : List (Option Bytes)) (placed : List ℤ × List (Option Bytes))
    → place sha256 lock total_shards shard_bytes stores seen shards ≡ some placed
    → All (Checked sha256 lock total_shards shard_bytes) stores
unfolding place
place-Checked sha256 lock total_shards shard_bytes [] seen shards placed e = tt
place-Checked sha256 lock total_shards shard_bytes (store ∷ stores) seen shards placed e =
    let (same, e1) =
      guard->> (beq store.instance_digest lock.instance_digest && beq store.root lock.root) _ e in
    let (u, verified, e2) =
      >>=-eq-some (verify_store sha256 total_shards shard_bytes (some store)) _ e1 in
    let (new, e3) = guard->> (not (member store.index seen)) _ e2 in
    (
      record {
        same_instance =
            beq→eq store.instance_digest lock.instance_digest
              (&&-left (beq store.instance_digest lock.instance_digest) _ same);
        same_root =
            beq→eq store.root lock.root
              (&&-right (beq store.instance_digest lock.instance_digest) _ same);
        verified = verified;
      },
      place-Checked sha256 lock total_shards shard_bytes stores (add store.index seen)
          (set shards (pos_part store.index) (some store.shard)) placed e3,
    )

make_stores-shard :
    (instance_id root : Bytes) (k i : ℕ) (shards : List Bytes) (branches : List (List Bytes))
    → i < length shards
    → (own : Store) × (get_elem? (make_stores instance_id root k shards branches) i ≡ some own)
      × (own.shard ≡ get_or shards i [])
make_stores-shard instance_id root k i [] branches h = absurd (omega (arith, h))
make_stores-shard instance_id root k zero (s ∷ shards) branches h = (_, refl, refl)
make_stores-shard instance_id root k (suc i) (s ∷ shards) branches h =
    make_stores-shard instance_id root (suc k) i shards branches (omega (arith, h))

-- A store with the shard that a dispersal has for its holder.
pub record IsFrom (encoded : Encoded) (store : Store) : Type 0 where
  pub at_index : ℕ
  pub own : Store
  pub index_eq : store.index ≡ pos at_index
  pub dispersed : get_elem? encoded.stores at_index ≡ some own
  pub same_shard : store.shard ≡ own.shard

-- The dispersal of a payload, with the root of the lock, which the stores are from.
pub record IsSource (rs : ReedSolomon) (sha256 : Bytes → Bytes) (lock : Lock)
    (data_shards total_shards shard_bytes maximum : ℕ) (stores : List Store) (payload : Bytes)
    : Type 0 where
  pub encoded : Encoded
  pub encodes :
      encode_sized rs sha256 lock.instance_digest payload data_shards total_shards shard_bytes
        maximum
      ≡ some encoded
  pub same_root : encoded.root ≡ lock.root
  pub from_it : All (IsFrom encoded) stores

module _ (rs : ReedSolomon) (sha256 : Bytes → Bytes)
    (digest_size : (x : Bytes) → length (sha256 x) ≡ 32)
    (data_shards total_shards shard_bytes maximum : ℕ) where
  Checked-IsFrom :
      (lock : Lock) (payload : Bytes) (encoded : Encoded) (stores : List Store)
      → Dispersed rs sha256 lock.instance_digest payload data_shards total_shards shard_bytes
          maximum encoded
      → encoded.root ≡ lock.root
      → All (Checked sha256 lock total_shards shard_bytes) stores
      → All (IsFrom encoded) stores ⊎ Collision sha256
  Checked-IsFrom lock payload encoded [] d root checked = inl tt
  Checked-IsFrom lock payload encoded (store ∷ stores) d root checked =
      elim (store_holds_shard sha256 digest_size lock.instance_digest d.shards shard_bytes store
        (rw (← d.count) at checked.0.verified) checked.0.same_instance
        (checked.0.same_root ∙ sym root ∙ sym d.root_eq)) [
          | inr collision ↦ inr collision
          | inl (i, index, inside, shard) ↦
              let (own, there, same) =
                make_stores-shard lock.instance_digest _ 0 i d.shards _ inside in
              elim (Checked-IsFrom lock payload encoded stores d root checked.1) [
                | inr collision ↦ inr collision
                | inl rest ↦ inl (
                  record {
                    at_index = i;
                    own = own;
                    index_eq = index;
                    dispersed = ap (λ l. get_elem? l i) d.stores_eq ∙ there;
                    same_shard = shard ∙ sym same;
                  },
                  rest,
                )
              ]
        ]

  Checked-stores :
      (lock : Lock) (stores : List Store) (binding_check : Bytes → Bool) (payload : Bytes)
      → recover rs sha256
          (some lock)
          stores
          data_shards
          total_shards
          shard_bytes
          maximum
          binding_check
        ≡ some payload
      → All (Checked sha256 lock total_shards shard_bytes) stores
  unfolding recover
  Checked-stores lock stores binding_check payload e =
      let (valid, e1) = if-none-eq-some _ _ e in
      let (placed, places, e2) =
        >>=-eq-some
          (place sha256 lock total_shards shard_bytes stores [] (replicate total_shards none)) _
          e1 in
      place-Checked sha256 lock total_shards shard_bytes stores [] (replicate total_shards none)
        placed places

  -- When SHA-256 digests have 32 bytes: a payload that cvRecoverAPDBScalar returns has a
  -- dispersal with the root of the lock, and every store that it was recovered from holds the
  -- shard that this dispersal has at the index of the store, or a collision of SHA-256 is given.
  pub recover-IsSource :
      (lock : Lock) (stores : List Store) (binding_check : Bytes → Bool) (payload : Bytes)
      → recover rs sha256
          (some lock)
          stores
          data_shards
          total_shards
          shard_bytes
          maximum
          binding_check
        ≡ some payload
      → IsSource rs sha256 lock data_shards total_shards shard_bytes maximum stores payload
        ⊎ Collision sha256
  recover-IsSource lock stores binding_check payload e =
      let r =
        recover-Recovered rs sha256 data_shards total_shards shard_bytes maximum lock stores
          binding_check payload e in
      let d =
        encode_sized-Dispersed rs sha256 lock.instance_digest payload data_shards total_shards
          shard_bytes maximum r.encoded r.encodes in
      elim (Checked-IsFrom lock payload r.encoded stores d r.same_root
        (Checked-stores lock stores binding_check payload e)) [
          | inl from_it ↦ inl (record {
            encoded = r.encoded;
            encodes = r.encodes;
            same_root = r.same_root;
            from_it = from_it;
          })
          | inr collision ↦ inr collision
        ]
