-- ===== src/Apdb/Holder.antt =====
-- core/cv_sapvss_apdb_store.go: what a holder keeps, and the signature that it gives for it; and the
-- requests of core/cv_sapvss_apdb_service_scalar.go that a holder answers. A threshold signer is a
-- record that is a parameter.
pub mod Signs
use Prim.Native.String.{String}
use arladkr_practicaladkr.Prelude.{
  ℕ, zero, suc, Bool, true, false, not, ◌&&◌, ◌||◌, Option, none, some, List, [], ◌∷◌, ◌++◌, leb,
  ltb, ◌==◌, if◌then◌else◌, length, ◌>>=◌, ◌>>◌, guard,
}
use arladkr_practicaladkr.Prelude.Int.{ℤ, pos, pos_part, eqb_ℤ, is_neg}
use arladkr_practicaladkr.Prelude.Bytes.{Bytes, beq}
use arladkr_practicaladkr.Prelude.Text.{codes}
use arladkr_practicaladkr.Prelude.Members.{member}
use arladkr_practicaladkr.Util.{hash_bytes}
use arladkr_practicaladkr.Wire.{max_int}
use arladkr_practicaladkr.Roster.{sorted_unique, equal_ints}
use arladkr_practicaladkr.Files.{
  FilePath, FileSystem, ReadResult, contents, missing, failed, read_immutable, Calls, put_immutable,
}
use arladkr_practicaladkr.Files.Keys.{decimal, store_key_parts}
use arladkr_practicaladkr.Apdb.Lock.{Lock, max_signature, decode_lock}
use arladkr_practicaladkr.Apdb.Store.{Store, store_bytes, decode_store}
use arladkr_practicaladkr.Apdb.StoredShare.{stored_share_bytes}

-- What core/ asks of a `tblsThresholdSigner` of core/crypto_runtime.go, whose operations are arithmetic
-- of the curve BLS12-381: its role, its members in order, the threshold, and the operations of the
-- signature scheme.
pub record Signer : Type 0 where
  pub has_apdb_role : Bool
  pub member_order : List ℤ
  pub threshold : ℕ
  pub can_sign : ℤ → Bool
  pub sign_share : ℤ → Bytes → Bytes → Option Bytes
  pub verify_share : ℤ → Bytes → Bytes → Bytes → Bool
  pub recover : Bytes → Bytes → List (ℤ × Bytes) → Option Bytes
  pub verify_recovered : Bytes → Bytes → Bytes → Bool

-- cvAPDBStoredDomain
unfoldable pub stored_domain : Bytes
stored_domain = codes "ARL-CV-sAPVSS/v2-scalar-group/apdb-stored"

-- `cvAPDBStoredStatementScalar`
unfoldable pub stored_statement : (Bytes → Bytes) → Bytes → Bytes → Option Bytes
stored_statement sha256 instance_id root =
    if not (length instance_id == 32) || not (length root == 32)
    then none
    else some (hash_bytes sha256 (stored_domain ∷ instance_id ∷ root ∷ []))

-- `cvVerifyAPDBLockScalar`
unfoldable pub verify_lock : (Bytes → Bytes) → Signer → Lock → Bool
verify_lock sha256 signer lock =
    if not (length lock.instance_digest == 32)
      || not (length lock.root == 32)
      || length lock.certificate == 0
      || ltb max_signature (length lock.certificate)
      || not signer.has_apdb_role
    then false
    else elim (stored_statement sha256 lock.instance_digest lock.root) [
      | none ↦ false
      | some statement ↦ signer.verify_recovered stored_domain statement lock.certificate
    ]

-- `path` of the holder's store, below its root
unfoldable pub holder_path : (Bytes → Bytes) → Bytes → ℕ → ℤ → Bytes → Option FilePath
holder_path sha256 sid epoch holder instance_id = do
  guard (
      not (length sid == 0)
      && not (epoch == 0)
      && leb epoch max_int
      && not (is_neg holder)
      && length instance_id == 32)
  (sid_component, instance_name) ← store_key_parts sha256 sid (pos epoch) holder instance_id
  some (
      sid_component
      ∷ (codes "epoch-" ++ decimal epoch)
      ∷ (codes "holder-" ++ decimal (pos_part holder))
      ∷ (instance_name ++ codes ".store")
      ∷ [])

-- The position of a member in the roster.
unfoldable pub position : ℤ → ℕ → List ℤ → Option ℕ
position holder i [] = none
position holder i (m ∷ roster) =
    let rest = position holder (suc i) roster in if eqb_ℤ m holder then some i else rest

-- What a holder is asked to store and sign.
pub record Request : Type 0 where
  pub sid : Bytes
  pub epoch : ℕ
  pub holder : ℤ
  pub old_roster : List ℤ
  pub store : Store

-- The checks and the wire before anything is written.
unfoldable pub prepare : (Bytes → Bytes) → Signer → ℕ → ℕ → Request → Option (FilePath × Bytes)
prepare sha256 signer total_shards shard_bytes q = do
  guard (
      not (length q.sid == 0)
      && not (q.epoch == 0)
      && not (is_neg q.holder)
      && signer.has_apdb_role
      && signer.can_sign q.holder
      && length q.old_roster == total_shards
      && equal_ints q.old_roster (sorted_unique q.old_roster)
      && equal_ints signer.member_order q.old_roster)
  index ← position q.holder 0 q.old_roster
  guard (eqb_ℤ q.store.index (pos index))
  wire ← store_bytes sha256 total_shards shard_bytes (some q.store)
  path ← holder_path sha256 q.sid q.epoch q.holder q.store.instance_digest
  some (path, wire)

-- The signature over a store that is on disk.
unfoldable pub sign_stored : (Bytes → Bytes) → Signer → Request → Option Bytes
sign_stored sha256 signer q = do
  statement ← stored_statement sha256 q.store.instance_digest q.store.root
  share ← signer.sign_share q.holder stored_domain statement
  guard (signer.verify_share q.holder stored_domain statement share)
  some share

-- `StoreAndSignOnce`: the files after it, and the share if there is no error.
unfoldable pub store_and_sign :
    (Bytes → Bytes) → Signer → ℕ → ℕ → Calls → Request → FileSystem → FileSystem × Option Bytes
store_and_sign sha256 signer total_shards shard_bytes calls q fs =
    elim (prepare sha256 signer total_shards shard_bytes q) [
      | none ↦ (fs, none)
      | some (path, wire) ↦
          let (fs', ok) = put_immutable calls path wire fs in
          (fs', if ok then sign_stored sha256 signer q else none)
    ]

-- `Read`
unfoldable pub read_store :
    (Bytes → Bytes) → ℕ → ℕ → Bool → Bytes → ℕ → ℤ → Bytes → Bytes → FileSystem → Option Store
read_store sha256 total_shards shard_bytes faulty sid epoch holder expected_instance expected_root
      fs =
    do
      guard (
          length expected_instance == 32
          && length expected_root == 32
          && not (total_shards == 0)
          && not (shard_bytes == 0))
      path ← holder_path sha256 sid epoch holder expected_instance
      wire ← elim (read_immutable faulty path fs) [
        | contents value ↦ some value
        | missing ↦ none
        | failed ↦ none
      ]
      store ← decode_store sha256 total_shards shard_bytes wire
      guard (beq store.instance_digest expected_instance && beq store.root expected_root)
      some store

-- `!equalInts(oldRoster, sortedUnique(oldRoster)) || !cvMemberInRosterScalar(…)`
abbrev pub participants : ℤ → ℤ → List ℤ → Bool
participants peer holder old_roster =
    equal_ints old_roster (sorted_unique old_roster)
    && member peer old_roster
    && member holder old_roster

-- `cvHandleAPDBStoreOfferScalar`
unfoldable pub handle_store_offer :
    (Bytes → Bytes)
    → Signer
    → ℕ
    → ℕ
    → Calls
    → Bytes
    → ℕ
    → ℤ
    → ℤ
    → List ℤ
    → Bytes
    → FileSystem
    → FileSystem × Option Bytes
handle_store_offer sha256 signer total_shards shard_bytes calls sid epoch proposer holder old_roster
      offer_wire fs =
    if not (participants proposer holder old_roster)
    then (fs, none)
    else elim (decode_store sha256 total_shards shard_bytes offer_wire) [
      | none ↦ (fs, none)
      | some store ↦
          let q : Request = record {
            sid = sid;
            epoch = epoch;
            holder = holder;
            old_roster = old_roster;
            store = store;
          } in
          let (fs', share) = store_and_sign sha256 signer total_shards shard_bytes calls q fs in
          (
            fs',
            share >>= λ s.
                stored_share_bytes (record {
                  instance_digest = store.instance_digest;
                  root = store.root;
                  share = s;
                }),
          )
    ]

-- `cvHandleAPDBRecoveryRequestScalar` and `cvHandleAPDBRecoveryLockScalar`
unfoldable pub handle_recovery_lock :
    (Bytes → Bytes) → ℕ → ℕ → Bool → Bytes → ℕ → ℤ → ℤ → List ℤ → Lock → FileSystem → Option Bytes
handle_recovery_lock sha256 total_shards shard_bytes faulty sid epoch requester holder old_roster
      lock fs =
    do
      guard (participants requester holder old_roster)
      store ←
          read_store sha256 total_shards shard_bytes faulty sid epoch holder lock.instance_digest
            lock.root fs
      store_bytes sha256 total_shards shard_bytes (some store)

unfoldable pub handle_recovery_request :
    (Bytes → Bytes)
    → Signer
    → ℕ
    → ℕ
    → Bool
    → Bytes
    → ℕ
    → ℤ
    → ℤ
    → List ℤ
    → Bytes
    → FileSystem
    → Option Bytes
handle_recovery_request sha256 signer total_shards shard_bytes faulty sid epoch requester holder
      old_roster request_wire fs =
    do
      guard (participants requester holder old_roster)
      lock ← decode_lock request_wire
      guard (verify_lock sha256 signer lock)
      handle_recovery_lock sha256 total_shards shard_bytes faulty sid epoch requester holder
          old_roster lock fs
