-- ===== src/Apdb/Collector.antt =====
-- core/cv_sapvss_apdb_recovery.go: cvAPDBRecoveryCollectorScalar, which gathers the holders' answers
-- under a mutex until the payload can be rebuilt. A collector and its arguments are never nil; an
-- error is none and leaves the state alone.
pub mod Keeps
use arladkr_practicaladkr.Prelude.{
  ℕ, zero, suc, ◌+◌, Bool, true, false, not, ◌&&◌, ◌||◌, Option, none, some, List, [], ◌∷◌, ◌++◌,
  leb, ltb, ◌==◌, if◌then◌else◌, length, ◌>>=◌, ◌>>◌, guard,
}
use arladkr_practicaladkr.Prelude.Int.{ℤ, pos, eqb_ℤ}
use arladkr_practicaladkr.Prelude.Bytes.{Bytes, beq}
use arladkr_practicaladkr.Apdb.Lock.{Lock}
use arladkr_practicaladkr.Apdb.Store.{Store, decode_store}
use arladkr_practicaladkr.Apdb.Code.{ReedSolomon, Encoded, encode_sized, recover}

-- The fields that change stand last. The roster gives each member its index; a binding check that is
-- nil accepts everything; hints that are nil are empty.
pub record Collector : Type 0 where
  pub lock : Lock
  pub old_roster : List ℤ
  pub data_shards : ℕ
  pub shard_bytes : ℕ
  pub maximum_payload : ℕ
  pub binding_check : Bytes → Bool
  pub stores : List (ℕ × Store)
  pub store_wires : List (ℕ × Bytes)
  pub payload : Option Bytes
  pub payload_hints : Bytes

abbrev pub total_shards : Collector → ℕ
total_shards c = length c.old_roster

-- `memberIndex[from]`
unfoldable pub member_index : ℤ → ℕ → List ℤ → Option ℕ
member_index from i [] = none
member_index from i (m ∷ roster) =
    let rest = member_index from (suc i) roster in if eqb_ℤ m from then some i else rest

-- A map from indices.
unfoldable pub lookup {ℓ} : {A : Type ℓ} → ℕ → List (ℕ × A) → Option A
lookup i [] = none
lookup i ((j, a) ∷ entries) = let rest = lookup i entries in if j == i then some a else rest

-- `complete`
abbrev pub complete : Collector → Bool
complete c = elim c.payload [ some p ↦ true | none ↦ leb c.data_shards (length c.stores) ]

-- `AddDecodedStore`: the collector and whether it has enough.
unfoldable pub add_decoded_store : ℤ → Store → Bytes → Collector → Option (Collector × Bool)
add_decoded_store from store wire c = do
  guard (not (length wire == 0))
  index ← member_index from 0 c.old_roster
  guard (
      eqb_ℤ store.index (pos index)
      && beq store.instance_digest c.lock.instance_digest
      && beq store.root c.lock.root)
  elim (lookup index c.store_wires) [
    | some previous ↦
        if beq previous wire then some (c, leb c.data_shards (length c.stores)) else none
    | none ↦
        let c' : Collector = record c {
          stores = (index, store) ∷ c.stores;
          store_wires = (index, wire) ∷ c.store_wires;
        } in
        some (c', leb c.data_shards (length c'.stores))
  ]

-- `AddStore`
unfoldable pub add_store : (Bytes → Bytes) → ℤ → Bytes → Collector → Option (Collector × Bool)
add_store sha256 from wire c = do
  store ← decode_store sha256 (total_shards c) c.shard_bytes wire
  add_decoded_store from store wire c

-- `cvAPDBPayloadResponseScalar`
pub record PayloadResponse : Type 0 where
  pub instance_digest : Bytes
  pub payload : Bytes
  pub hints : Bytes

-- The first locked section of addDecodedPayloadMode: whether the payload is there already.
unfoldable pub check_payload : PayloadResponse → Collector → Option Bool
check_payload response c =
    if not (beq response.instance_digest c.lock.instance_digest) then none else elim c.payload [
      | none ↦ some false
      | some p ↦ if beq p response.payload then some true else none
    ]

-- The rest of addDecodedPayloadMode, whose state may have changed since: the root of the payload, and
-- the second locked section.
unfoldable pub commit_payload :
    ReedSolomon → (Bytes → Bytes) → Bool → PayloadResponse → Collector → Option Collector
commit_payload rs sha256 hints_enabled response c = do
  encoded ←
      encode_sized rs sha256 c.lock.instance_digest response.payload c.data_shards (total_shards c)
        c.shard_bytes c.maximum_payload
  guard (beq encoded.root c.lock.root)
  elim c.payload [
    | some p ↦ if beq p response.payload then some c else none
    | none ↦
        let hints = if hints_enabled then response.hints else [] in
        some (record c {
          payload = some response.payload;
          payload_hints = if length c.payload_hints == 0 then hints else c.payload_hints;
        })
  ]

-- `addDecodedPayloadMode` with no other worker in between
unfoldable pub add_decoded_payload :
    ReedSolomon → (Bytes → Bytes) → Bool → PayloadResponse → Collector → Option Collector
add_decoded_payload rs sha256 hints_enabled response c = do
  known ← check_payload response c
  let committed = commit_payload rs sha256 hints_enabled response c
  if known then some c else committed

-- The stores in the order of their indices.
unfoldable pub ordered_stores : ℕ → ℕ → List (ℕ × Store) → List Store
ordered_stores index zero stores = []
ordered_stores index (suc count) stores =
    let rest = ordered_stores (suc index) count stores in
    elim (lookup index stores) [ none ↦ rest | some store ↦ store ∷ rest ]

-- `recoverWithSource`: the payload and whether it came whole. Its two locked sections are read as one
-- state.
unfoldable pub recover_with_source :
    ReedSolomon → (Bytes → Bytes) → Collector → Option (Bytes × Bool)
recover_with_source rs sha256 c = elim c.payload [
  | some p ↦ if c.binding_check p then some (p, true) else none
  | none ↦ do
    guard (leb c.data_shards (length c.stores))
    recovered ←
        recover rs sha256 (some c.lock) (ordered_stores 0 (total_shards c) c.stores) c.data_shards
          (total_shards c) c.shard_bytes c.maximum_payload c.binding_check
    some (recovered, false)
]
