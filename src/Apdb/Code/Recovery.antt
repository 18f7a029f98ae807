-- ===== src/Apdb/Code/Recovery.antt =====
-- Recovery from the shards of a dispersed payload.
use mathlib.Core.Path.{subst}
use arladkr_practicaladkr.Prelude.{
  ℕ, suc, ◌+◌, ◌*◌, ◌≤◌, ◌≡◌, refl, sym, ◌∙◌, ap, inl, inr, ◌⊎◌, Bool, true, not, ◌&&◌, ◌||◌, none,
  some, List, [], ◌∷◌, map, arith, leb, ltb, ◌==◌, some-inj, if-none-eq-some, length, get_or,
  replicate, guard->>, >>=-eq-some,
}
use arladkr_practicaladkr.Prelude.Bytes.{Bytes, beq, beq→eq}
use arladkr_practicaladkr.Util.{Collision}
use arladkr_practicaladkr.Wire.{max_int}
use arladkr_practicaladkr.Apdb.Lock.{Lock}
use arladkr_practicaladkr.Apdb.Store.{Store, build_tree}
use arladkr_practicaladkr.Apdb.Store.Commits.{root_binds_shards}
use arladkr_practicaladkr.Apdb.Code.{
  ReedSolomon, Encoded, erasure_encode, erasure_decode, pack, unpack, encode_sized, make_stores,
  place, recover,
}
use arladkr_practicaladkr.Apdb.Code.Shards.{
  length-pack, unpack-pack, Agrees, present, max_gf8_shards, IsReedSolomon,
  erasure_decode-erasure_encode,
}

-- What a recovery that succeeds has checked.
pub record Recovered (rs : ReedSolomon) (sha256 : Bytes → Bytes) (lock : Lock)
    (data_shards total_shards shard_bytes maximum : ℕ) (binding_check : Bytes → Bool)
    (payload : Bytes) : Type 0 where
  pub encoded : Encoded
  pub encodes :
      encode_sized rs sha256 lock.instance_digest payload data_shards total_shards shard_bytes
        maximum
      ≡ some encoded
  pub same_root : encoded.root ≡ lock.root
  pub bound : binding_check payload ≡ true

module _ (rs : ReedSolomon) (sha256 : Bytes → Bytes)
    (data_shards total_shards shard_bytes maximum : ℕ) where
  -- A payload that is recovered under a lock passes the binding check of the caller, and its own
  -- dispersal succeeds with the root of the lock.
  pub recover-Recovered :
      (lock : Lock) (stores : List Store) (binding_check : Bytes → Bool) (payload : Bytes)
      → recover rs sha256
          (some lock)
          stores
          data_shards
          total_shards
          shard_bytes
          maximum
          binding_check
        ≡ some payload
      → Recovered rs sha256 lock data_shards total_shards shard_bytes maximum binding_check payload
  unfolding recover
  recover-Recovered lock stores binding_check payload e =
      let (valid, k0) = if-none-eq-some _ _ e in
      let (placed, e1, k1) =
        >>=-eq-some
          (place sha256 lock total_shards shard_bytes stores [] (replicate total_shards none)) _
          k0 in
      let (enough, k2) = guard->> (leb data_shards (length placed.0)) _ k1 in
      let (packed, e2, k3) = >>=-eq-some (erasure_decode rs placed.1 data_shards) _ k2 in
      let (value, e3, k4) = >>=-eq-some (unpack packed maximum) _ k3 in
      let (encoded, e4, k5) =
        >>=-eq-some
          (encode_sized rs sha256 lock.instance_digest value data_shards total_shards shard_bytes
            maximum)
          _ k4 in
      let (root, k6) = guard->> (beq encoded.root lock.root) _ k5 in
      let (bound, k7) = guard->> (binding_check value) _ k6 in
      let same : value ≡ payload = some-inj value payload k7 in
      subst (Recovered rs sha256 lock data_shards total_shards shard_bytes maximum binding_check)
        same
        (record {
          encoded = encoded;
          encodes = e4;
          same_root = beq→eq encoded.root lock.root root;
          bound = bound;
        })

-- The shards of a dispersal that succeeds.
pub record Dispersed (rs : ReedSolomon) (sha256 : Bytes → Bytes) (instance_id payload : Bytes)
    (data_shards total_shards shard_bytes maximum : ℕ) (encoded : Encoded) : Type 0 where
  pub shards : List Bytes
  pub instance_size : length instance_id ≡ 32
  pub coded :
      erasure_encode rs (pack payload data_shards shard_bytes) data_shards total_shards
      ≡ some shards
  pub count : length shards ≡ total_shards
  pub some_byte : 1 ≤ length payload
  pub bounded : length payload ≤ maximum
  pub some_data : 1 ≤ data_shards
  pub few_data : data_shards ≤ total_shards
  pub some_shard_byte : 1 ≤ shard_bytes
  pub fits : 8 + length payload ≤ data_shards * shard_bytes
  pub root_eq : (build_tree sha256 instance_id shards).0 ≡ encoded.root
  pub stores_eq :
      encoded.stores
      ≡ make_stores instance_id
          (build_tree sha256 instance_id shards).0
          0
          shards
          (build_tree sha256 instance_id shards).1

pub encode_sized-Dispersed :
    (rs : ReedSolomon) (sha256 : Bytes → Bytes) (instance_id payload : Bytes)
    (data_shards total_shards shard_bytes maximum : ℕ) (encoded : Encoded)
    → encode_sized rs sha256 instance_id payload data_shards total_shards shard_bytes maximum
      ≡ some encoded
    → Dispersed rs sha256 instance_id payload data_shards total_shards shard_bytes maximum encoded
unfolding encode_sized
encode_sized-Dispersed rs sha256 instance_id payload data_shards total_shards shard_bytes maximum
      encoded e =
    let (valid, k0) =
      if-none-eq-some
        (not (length instance_id == 32)
          || length payload == 0
          || maximum == 0
          || ltb maximum (length payload)
          || data_shards == 0
          || ltb total_shards data_shards
          || shard_bytes == 0
          || ltb (data_shards * shard_bytes) (8 + length payload))
        _ e in
    let (shards, coded, k1) =
      >>=-eq-some
        (erasure_encode rs (pack payload data_shards shard_bytes) data_shards total_shards) _ k0 in
    let (counted, k2) =
      guard->>
        (length shards == total_shards
          && not (length shards == 0)
          && not (length (get_or shards 0 []) == 0))
        _ k1 in
    record {
      shards = shards;
      instance_size = ground (arith, valid);
      coded = coded;
      count = ground (arith, counted);
      some_byte = ground (arith, valid);
      bounded = ground (arith, valid);
      some_data = ground (arith, valid);
      few_data = ground (arith, valid);
      some_shard_byte = ground (arith, valid);
      fits = ground (arith, valid);
      root_eq = ap (λ (x : Encoded). x.root) (some-inj _ encoded k2);
      stores_eq = ap (λ (x : Encoded). x.stores) (sym (some-inj _ encoded k2));
    }

Agrees-map : (shards : List Bytes) → Agrees (map some shards) shards
unfolding Agrees
Agrees-map [] = tt
Agrees-map (s ∷ shards) = (refl, Agrees-map shards)

present-map : (shards : List Bytes) → present (map some shards) ≡ length shards
present-map [] = refl
present-map (s ∷ shards) = ap suc (present-map shards)

module _ (rs : ReedSolomon) (law : IsReedSolomon rs) (sha256 : Bytes → Bytes)
    (data_shards total_shards shard_bytes maximum : ℕ) where
  -- All shards of a dispersal decode to the packed payload.
  decodes_all :
      (instance_id payload : Bytes) (encoded : Encoded)
      (d : Dispersed rs sha256 instance_id payload data_shards total_shards shard_bytes maximum
        encoded)
      → total_shards ≤ max_gf8_shards
      → erasure_decode rs (map some d.shards) data_shards
        ≡ some (pack payload data_shards shard_bytes)
  decodes_all instance_id payload encoded d few =
      erasure_decode-erasure_encode rs data_shards total_shards shard_bytes
        (pack payload data_shards shard_bytes) d.shards (map some d.shards) law d.some_data
        d.few_data few d.some_shard_byte (length-pack payload data_shards shard_bytes d.fits)
        d.count d.coded (Agrees-map d.shards)
        (omega (arith, present-map d.shards, d.count, d.few_data))

  same_shards_same_payload :
      (instance_id p q : Bytes) (ep eq : Encoded)
      (dp : Dispersed rs sha256 instance_id p data_shards total_shards shard_bytes maximum ep)
      (dq : Dispersed rs sha256 instance_id q data_shards total_shards shard_bytes maximum eq)
      → total_shards ≤ max_gf8_shards
      → maximum ≤ max_int
      → dp.shards ≡ dq.shards
      → p ≡ q
  same_shards_same_payload instance_id p q ep eq dp dq few small same =
      let packed : pack p data_shards shard_bytes ≡ pack q data_shards shard_bytes = some-inj _ _ (
        sym (decodes_all instance_id p ep dp few)
        ∙ ap (λ s. erasure_decode rs (map some s) data_shards) same
        ∙ decodes_all instance_id q eq dq few) in
      some-inj p q (
        sym (unpack-pack p data_shards shard_bytes maximum dp.fits dp.some_byte dp.bounded small)
        ∙ ap (λ w. unpack w maximum) packed
        ∙ unpack-pack q data_shards shard_bytes maximum dq.fits dq.some_byte dq.bounded small)

  -- When SHA-256 digests have 32 bytes, there are at most 256 shards, Reed-Solomon decodes up to
  -- that many, and the payload limit is a Go int: two recoveries under one lock, from whatever
  -- stores and with whatever binding checks, give the same payload, or a collision of SHA-256 is
  -- given.
  pub recoveries_agree :
      ((x : Bytes) → length (sha256 x) ≡ 32)
      → total_shards ≤ max_gf8_shards
      → maximum ≤ max_int
      → (lock : Lock) (stores stores' : List Store) (check check' : Bytes → Bool) (p q : Bytes)
      → recover rs sha256 (some lock) stores data_shards total_shards shard_bytes maximum check
        ≡ some p
      → recover rs sha256 (some lock) stores' data_shards total_shards shard_bytes maximum check'
        ≡ some q
      → (p ≡ q) ⊎ Collision sha256
  recoveries_agree digest_size few small lock stores stores' check check' p q ep eq =
      let rp =
        recover-Recovered rs sha256 data_shards total_shards shard_bytes maximum lock stores check p
          ep in
      let rq =
        recover-Recovered rs sha256 data_shards total_shards shard_bytes maximum lock stores' check'
          q eq in
      let dp =
        encode_sized-Dispersed rs sha256 lock.instance_digest p data_shards total_shards shard_bytes
          maximum rp.encoded rp.encodes in
      let dq =
        encode_sized-Dispersed rs sha256 lock.instance_digest q data_shards total_shards shard_bytes
          maximum rq.encoded rq.encodes in
      elim (root_binds_shards sha256 digest_size lock.instance_digest dp.shards dq.shards
        (dp.count ∙ sym dq.count) (dp.root_eq ∙ rp.same_root ∙ sym rq.same_root ∙ sym dq.root_eq)) [
          | inl same ↦ inl (
              same_shards_same_payload lock.instance_digest p q rp.encoded rq.encoded dp dq few
                small same)
          | inr collision ↦ inr collision
        ]
