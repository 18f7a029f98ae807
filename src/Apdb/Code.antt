-- ===== src/Apdb/Code.antt =====
-- core/cv_sapvss_m4.go: the erasure coder cvErasureEncode and cvErasureDecode; core/cv_sapvss_apdb.go:
-- dispersal of a payload and its recovery from the shards that holders send back. Reed-Solomon is the
-- external library github.com/klauspost/reedsolomon, here a record that the functions take.
pub mod Shards
pub mod Recovery
pub mod Sources
pub mod Placing
pub mod Completes
use arladkr_practicaladkr.Prelude.{
  ℕ, zero, suc, ◌+◌, ◌-◌, ◌*◌, ◌/◌, ◌≤◌, Bool, true, false, not, ◌&&◌, ◌||◌, Option, none, some,
  List, [], ◌∷◌, ◌++◌, leb, ltb, ◌==◌, if◌then◌else◌, length, get_or, set, take, drop, replicate,
  ◌>>=◌, ◌>>◌, guard,
}
use arladkr_practicaladkr.Prelude.Int.{ℤ, pos, pos_part}
use arladkr_practicaladkr.Prelude.Bytes.{Bytes, beq}
use arladkr_practicaladkr.Prelude.Members.{member, add}
use arladkr_practicaladkr.Wire.{put_be, be_value}
use arladkr_practicaladkr.Apdb.Lock.{Lock}
use arladkr_practicaladkr.Apdb.Store.{Store, levels, leaves, branch, build_tree, verify_store}

-- Split and Encode for the data shards and all shards; Reconstruct and Join for the data shards. A
-- missing shard is none. Sizes are those of slices in memory, so that no product of them wraps.
pub record ReedSolomon : Type 0 where
  pub encode : ℕ → ℕ → Bytes → Option (List Bytes)
  pub decode : ℕ → List (Option Bytes) → Option Bytes

-- The shards of the payload, from the left, the last ones filled with zeros.
abbrev pub chunks : ℕ → ℕ → Bytes → List Bytes
chunks size zero payload = []
chunks size (suc n) payload =
    (take size payload ++ replicate (size - length payload) 0) ∷ chunks size n (drop size payload)

-- `cvErasureEncode`
unfoldable pub erasure_encode : ReedSolomon → Bytes → ℕ → ℕ → Option (List Bytes)
erasure_encode rs payload data_shards total_shards =
    if data_shards == total_shards
    then some (chunks ((length payload + data_shards - 1) / data_shards) total_shards payload)
    else rs.encode data_shards total_shards payload

abbrev pub join_shards : List (Option Bytes) → Option Bytes
join_shards [] = some []
join_shards (none ∷ shards) = none
join_shards (some shard ∷ shards) = do rest ← join_shards shards; some (shard ++ rest)

-- `cvErasureDecode`
unfoldable pub erasure_decode : ReedSolomon → List (Option Bytes) → ℕ → Option Bytes
erasure_decode rs shards data_shards =
    if data_shards == length shards then join_shards shards else rs.decode data_shards shards

-- `cvAPDBEncodedScalar`
pub record Encoded : Type 0 where
  pub instance_digest : Bytes
  pub root : Bytes
  pub data_shards : ℕ
  pub total_shards : ℕ
  pub shard_bytes : ℕ
  pub stores : List Store

-- The loop over the shards that makes the stores, with the branches of build_tree.
abbrev pub make_stores : Bytes → Bytes → ℕ → List Bytes → List (List Bytes) → List Store
make_stores instance_id root i [] branches = []
make_stores instance_id root i (shard ∷ shards) branches =
    record {
      instance_digest = instance_id;
      root = root;
      index = pos i;
      shard = shard;
      siblings = get_or branches i [];
    }
    ∷ make_stores instance_id root (suc i) shards branches

-- The length of the payload, the payload, and zeros to the fixed size.
unfoldable pub pack : Bytes → ℕ → ℕ → Bytes
pack payload data_shards shard_bytes =
    put_be 8 (length payload)
    ++ (payload ++ replicate (data_shards * shard_bytes - (8 + length payload)) 0)

-- `cvAPDBEncodeSizedScalar`
unfoldable pub encode_sized :
    ReedSolomon → (Bytes → Bytes) → Bytes → Bytes → ℕ → ℕ → ℕ → ℕ → Option Encoded
encode_sized rs sha256 instance_id payload data_shards total_shards shard_bytes maximum =
    if not (length instance_id == 32)
      || length payload == 0
      || maximum == 0
      || ltb maximum (length payload)
      || data_shards == 0
      || ltb total_shards data_shards
      || shard_bytes == 0
      || ltb (data_shards * shard_bytes) (8 + length payload)
    then none
    else do
      shards ← erasure_encode rs (pack payload data_shards shard_bytes) data_shards total_shards
      guard (
          length shards == total_shards
          && not (length shards == 0)
          && not (length (get_or shards 0 []) == 0))
      let (root, branches) = build_tree sha256 instance_id shards
      some (record {
        instance_digest = instance_id;
        root = root;
        data_shards = data_shards;
        total_shards = total_shards;
        shard_bytes = length (get_or shards 0 []);
        stores = make_stores instance_id root 0 shards branches;
      })

-- `cvAPDBEncodeScalar`
unfoldable pub encode : ReedSolomon → (Bytes → Bytes) → Bytes → Bytes → ℕ → ℕ → ℕ → Option Encoded
encode rs sha256 instance_id payload data_shards total_shards maximum =
    if not (length instance_id == 32)
      || length payload == 0
      || maximum == 0
      || ltb maximum (length payload)
      || data_shards == 0
      || ltb total_shards data_shards
    then none
    else encode_sized rs sha256 instance_id payload data_shards total_shards
        ((8 + length payload + data_shards - 1) / data_shards) maximum

-- The loop of cvRecoverAPDBScalar over the stores: the indices seen and the shards placed.
unfoldable pub place :
    (Bytes → Bytes)
    → Lock
    → ℕ
    → ℕ
    → List Store
    → List ℤ
    → List (Option Bytes)
    → Option (List ℤ × List (Option Bytes))
place sha256 lock total_shards shard_bytes [] seen shards = some (seen, shards)
place sha256 lock total_shards shard_bytes (store ∷ stores) seen shards = do
  guard (beq store.instance_digest lock.instance_digest && beq store.root lock.root)
  verify_store sha256 total_shards shard_bytes (some store)
  guard (not (member store.index seen))
  place sha256 lock total_shards shard_bytes stores (add store.index seen)
      (set shards (pos_part store.index) (some store.shard))

-- The payload in the packed bytes.
unfoldable pub unpack : Bytes → ℕ → Option Bytes
unpack packed maximum =
    let size = be_value 0 (take 8 packed) in
    if ltb (length packed) 8 || size == 0 || ltb (length packed - 8) size || ltb maximum size
    then none
    else some (take size (drop 8 packed))

-- `cvRecoverAPDBScalar`. The binding check of the caller is a test; one that is nil is always true.
unfoldable pub recover :
    ReedSolomon
    → (Bytes → Bytes)
    → Option Lock
    → List Store
    → ℕ
    → ℕ
    → ℕ
    → ℕ
    → (Bytes → Bool)
    → Option Bytes
recover rs sha256 none stores data_shards total_shards shard_bytes maximum binding_check = none
recover rs sha256 (some lock) stores data_shards total_shards shard_bytes maximum binding_check =
    if not (length lock.instance_digest == 32)
      || not (length lock.root == 32)
      || data_shards == 0
      || ltb total_shards data_shards
      || shard_bytes == 0
      || maximum == 0
      || ltb (length stores) data_shards
    then none
    else do
      (seen, shards) ←
          place sha256 lock total_shards shard_bytes stores [] (replicate total_shards none)
      guard (leb data_shards (length seen))
      packed ← erasure_decode rs shards data_shards
      payload ← unpack packed maximum
      encoded ←
          encode_sized rs sha256 lock.instance_digest payload data_shards total_shards shard_bytes
            maximum
      guard (beq encoded.root lock.root)
      guard (binding_check payload)
      some payload
