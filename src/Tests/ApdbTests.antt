-- ===== src/Tests/ApdbTests.antt =====
-- A payload that is dispersed with the repetition code, one data shard among three, and recovered.
use mathlib.Core.Path.{subst}
use arladkr_practicaladkr.Prelude.{get_elem?}
use arladkr_practicaladkr.Apdb.Code.{Encoded}
use arladkr_practicaladkr.Prelude.{
  ℕ, zero, suc, ◌*◌, ◌≤◌, ◌≡◌, ◌↔◌, ◌⊎◌, refl, sym, inl, inr, arith, Bool, true, Option, none, some,
  List, [], ◌∷◌, length, replicate, ==_iff, ◌==◌, if◌then◌else◌, Bool-cases, All, some-inj, ltb,
  ltb→lt, ◌&&◌, &&-left, &&-right,
}
use arladkr_practicaladkr.Prelude.Bytes.{Bytes, IsBytes, beq}
use arladkr_practicaladkr.Prelude.Members.{member, add}
use arladkr_practicaladkr.Util.{Collision, hash_bytes}
use arladkr_practicaladkr.Wire.{put_be, be_value, write_bytes, write_uint32}
use arladkr_practicaladkr.Tree.{pair_up}
use arladkr_practicaladkr.Apdb.Lock.{Lock}
use arladkr_practicaladkr.Apdb.Store.{
  Store, shard_domain, node_domain, store_domain, shard_hash, tree_hash, levels, branch, top,
  build_tree, depth_from, follow_checked, verify_store, write_siblings, store_bytes, decode_store,
}
use arladkr_practicaladkr.Apdb.Store.Verifies.{store_at, every_store_verifies}
use arladkr_practicaladkr.Apdb.Store.Commits.{root_binds_shards}
use arladkr_practicaladkr.Apdb.Store.RoundTrip.{decode_store-store_bytes}
use arladkr_practicaladkr.Apdb.Code.{
  ReedSolomon, erasure_encode, erasure_decode, pack, unpack, encode_sized, place, recover,
}
use arladkr_practicaladkr.Apdb.Code.Shards.{Agrees, present, IsReedSolomon}
use arladkr_practicaladkr.Apdb.Code.Sources.{IsSource, recover-IsSource}
use arladkr_practicaladkr.Apdb.Code.Recovery.{recoveries_agree}
use arladkr_practicaladkr.Apdb.Code.Completes.{recovers_dispersed}
use arladkr_practicaladkr.Tests.{toy_hash, length-toy_hash, get}

abbrev pub first_present : List (Option Bytes) → Option Bytes
first_present [] = none
first_present (none ∷ received) = first_present received
first_present (some v ∷ received) = some v

-- One data shard, repeated.
abbrev pub repetition : ReedSolomon
repetition = record {
  encode = λ k n payload. if k == 1 then some (replicate n payload) else none;
  decode = λ k received. first_present received;
}

replicate-All :
    (n size : ℕ) (v : Bytes) → length v ≡ size → All (λ s. length s ≡ size) (replicate n v)
replicate-All zero size v e = tt
replicate-All (suc n) size v e = (e, replicate-All n size v e)

first_present-replicate :
    (n : ℕ) (v : Bytes) (received : List (Option Bytes))
    → Agrees received (replicate n v)
    → 1 ≤ present received
    → first_present received ≡ some v
unfolding Agrees
first_present-replicate zero v [] h enough = absurd (omega (arith, enough))
first_present-replicate zero v (r ∷ received) h enough = absurd h
first_present-replicate (suc n) v [] h enough = absurd h
first_present-replicate (suc n) v (none ∷ received) h enough =
    first_present-replicate n v received h enough
first_present-replicate (suc n) v (some w ∷ received) h enough = cc (h.0)

repetition-IsReedSolomon : IsReedSolomon repetition
repetition-IsReedSolomon = record {
  sizes = λ k n size payload shards some_data few small positive filled e.
      elim (Bool-cases (k == 1)) [
        | inl one ↦
            let k1 : k ≡ 1 = (==_iff k 1).0 one in
            let one_size : length payload ≡ size =
              omega (arith, subst (λ m. length payload ≡ m * size) k1 filled) in
            subst (All (λ s. length s ≡ size)) (some-inj (replicate n payload) shards (rw one at e))
              (replicate-All n size payload one_size)
        | inr other ↦ cc (rw other at e)
      ];
  decodes = λ k n size payload shards received some_data few small positive filled e agrees enough.
      elim (Bool-cases (k == 1)) [
        | inl one ↦
            let made = some-inj (replicate n payload) shards (rw one at e) in
            first_present-replicate n payload received (subst (Agrees received) (sym made) agrees)
              (omega (arith, enough, some_data))
        | inr other ↦ cc (rw other at e)
      ];
}

abbrev pub instance_id : Bytes
instance_id = replicate 32 1

abbrev pub payload : Bytes
payload = 42 ∷ 43 ∷ []

abbrev pub packed : Bytes
packed = 0 ∷ 0 ∷ 0 ∷ 0 ∷ 0 ∷ 0 ∷ 0 ∷ 2 ∷ 42 ∷ 43 ∷ []

abbrev pub shards : List Bytes
shards = packed ∷ packed ∷ packed ∷ []

abbrev pub store_of : ℕ → Store
store_of i = store_at toy_hash length-toy_hash instance_id shards i

abbrev pub lock : Lock
lock = record {
  instance_digest = instance_id;
  root = (build_tree toy_hash instance_id shards).0;
  certificate = 1 ∷ [];
  canonical_wire = [];
}

abbrev recovers_from : List Store → Option Bytes
recovers_from stores = recover repetition toy_hash (some lock) stores 1 3 10 100 (λ p. true)

recovered_from_first : recovers_from (store_of 0 ∷ []) ≡ some payload
unfolding recover place verify_store follow_checked depth_from shard_hash tree_hash shard_domain
    node_domain hash_bytes put_be be_value build_tree levels branch top pair_up erasure_decode
    erasure_encode unpack pack encode_sized member add beq
recovered_from_first = refl

recovered_from_last : recovers_from (store_of 2 ∷ store_of 1 ∷ []) ≡ some payload
unfolding recover place verify_store follow_checked depth_from shard_hash tree_hash shard_domain
    node_domain hash_bytes put_be be_value build_tree levels branch top pair_up erasure_decode
    erasure_encode unpack pack encode_sized member add beq
recovered_from_last = refl

recoveries_agree_example : (payload ≡ payload) ⊎ Collision toy_hash
recoveries_agree_example =
    recoveries_agree repetition repetition-IsReedSolomon toy_hash 1 3 10 100 length-toy_hash
      (omega arith) (omega arith) lock (store_of 0 ∷ []) (store_of 2 ∷ store_of 1 ∷ []) (λ p. true)
      (λ p. true) payload payload recovered_from_first recovered_from_last

recover-IsSource_example :
    IsSource repetition toy_hash lock 1 3 10 100 (store_of 2 ∷ store_of 1 ∷ []) payload
    ⊎ Collision toy_hash
recover-IsSource_example =
    recover-IsSource repetition toy_hash length-toy_hash 1 3 10 100 lock
      (store_of 2 ∷ store_of 1 ∷ []) (λ p. true) payload recovered_from_last

every_store_verifies_example : verify_store toy_hash 3 10 (some (store_of 2)) ≡ some tt
every_store_verifies_example =
    every_store_verifies toy_hash length-toy_hash instance_id shards 10 2 refl (omega arith)
      (omega arith) refl

root_binds_shards_example : (shards ≡ shards) ⊎ Collision toy_hash
root_binds_shards_example =
    root_binds_shards toy_hash length-toy_hash instance_id shards shards refl refl

abbrev pub store_wire : Bytes
store_wire = get (store_bytes toy_hash 3 10 (some (store_of 2)))

abbrev pub are_bytes : Bytes → Bool
are_bytes [] = true
are_bytes (x ∷ xs) = ltb x 256 && are_bytes xs

pub are_bytes→IsBytes : (xs : Bytes) → are_bytes xs ≡ true → IsBytes xs
are_bytes→IsBytes [] h = tt
are_bytes→IsBytes (x ∷ xs) h = (
  ltb→lt x 256 (&&-left (ltb x 256) (are_bytes xs) h),
  are_bytes→IsBytes xs (&&-right (ltb x 256) (are_bytes xs) h),
)

store_wire-IsBytes : IsBytes store_wire
unfolding store_bytes store_domain write_siblings write_bytes write_uint32 verify_store
    follow_checked depth_from shard_hash tree_hash shard_domain node_domain hash_bytes put_be
    build_tree levels branch top pair_up beq
store_wire-IsBytes = are_bytes→IsBytes store_wire refl

decode_store-store_bytes_example :
    (decode_store toy_hash 3 10 store_wire ≡ some (store_of 2))
    ↔ (store_bytes toy_hash 3 10 (some (store_of 2)) ≡ some store_wire)
decode_store-store_bytes_example =
    decode_store-store_bytes toy_hash 3 10 (store_of 2) store_wire store_wire-IsBytes (omega arith)
      (omega arith)

abbrev pub encoded_or : Option Encoded → Encoded
encoded_or none = record {
  instance_digest = [];
  root = [];
  data_shards = 0;
  total_shards = 0;
  shard_bytes = 0;
  stores = [];
}
encoded_or (some e) = e

abbrev pub dispersed : Encoded
dispersed = encoded_or (encode_sized repetition toy_hash instance_id payload 1 3 10 100)

payload_disperses : encode_sized repetition toy_hash instance_id payload 1 3 10 100 ≡ some dispersed
unfolding encode_sized erasure_encode pack put_be
payload_disperses = refl

dispersed_root : dispersed.root ≡ lock.root
unfolding encode_sized erasure_encode pack put_be
dispersed_root = refl

dispersed_store : get_elem? dispersed.stores 2 ≡ some (store_of 2)
unfolding encode_sized erasure_encode pack put_be build_tree
dispersed_store = refl

recovers_dispersed_example : recovers_from (store_of 2 ∷ []) ≡ some payload
unfolding member
recovers_dispersed_example =
    recovers_dispersed repetition repetition-IsReedSolomon toy_hash length-toy_hash 1 10 100 lock
      payload 3 dispersed (store_of 2 ∷ []) (λ p. true) (omega arith) (omega arith)
      payload_disperses dispersed_root ((2, dispersed_store), tt) (refl, tt) (omega arith) refl
