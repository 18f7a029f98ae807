-- ===== src/Apdb/LockCollector.antt =====
-- core/cv_sapvss_apdb_service_scalar.go: cvAPDBLockCollectorScalar, with which a proposer offers the
-- stores of a payload and gathers the holders' shares until they make a lock. A collector is never
-- nil; an error is none and leaves the state alone.
pub mod Backed
pub mod Recovers
use arladkr_practicaladkr.Prelude.{
  ℕ, zero, suc, ◌-◌, Bool, true, false, not, ◌&&◌, ◌||◌, Option, none, some, List, [], ◌∷◌,
  get_elem?, leb, ltb, ◌==◌, if◌then◌else◌, length, ◌>>=◌, ◌>>◌, guard,
}
use arladkr_practicaladkr.Prelude.Int.{ℤ, pos, eqb_ℤ, is_neg}
use arladkr_practicaladkr.Prelude.Bytes.{Bytes, beq}
use arladkr_practicaladkr.Prelude.Members.{member}
use arladkr_practicaladkr.Prelude.Entries.{entry}
use arladkr_practicaladkr.Roster.{sorted_unique, equal_ints}
use arladkr_practicaladkr.Apdb.Lock.{Lock, max_signature}
use arladkr_practicaladkr.Apdb.Store.{Store, verify_store, store_bytes}
use arladkr_practicaladkr.Apdb.Code.{Encoded}
use arladkr_practicaladkr.Apdb.StoredShare.{StoredShare, decode_stored_share}
use arladkr_practicaladkr.Apdb.Holder.{
  Signer, stored_domain, stored_statement, verify_lock, position,
}

pub record LockCollector : Type 0 where
  pub encoded : Encoded
  pub old_roster : List ℤ
  pub statement : Bytes
  pub shares : List (ℤ × Bytes)
  pub share_wires : List (ℤ × Bytes)

-- The checks that AddDecodedStoredShare makes first.
abbrev pub from_holder : ℤ → Bytes → LockCollector → Bool
from_holder from wire c = not (length wire == 0) && member from c.old_roster

-- The first locked section: whether the same wire is there already.
unfoldable pub known_share : ℤ → Bytes → LockCollector → Bool
known_share from wire c = elim (entry from c.share_wires) [
  | none ↦ false
  | some previous ↦ beq previous wire
]

-- The loop of RecoverLock: shares in the order of the roster, until as many as are left are found; at least one is wanted.
unfoldable pub select : ℕ → List ℤ → List (ℤ × Bytes) → List (ℤ × Bytes)
select left [] shares = []
select left (m ∷ roster) shares = elim (entry m shares) [
  | none ↦ select left roster shares
  | some share ↦
      let more = select (left - 1) roster shares in
      (m, share) ∷ (if left - 1 == 0 then [] else more)
]

-- `cvNewAPDBLockScalar`
unfoldable pub new_lock : Encoded → Bytes → Option Lock
new_lock encoded certificate =
    if not (length encoded.instance_digest == 32)
      || not (length encoded.root == 32)
      || length certificate == 0
      || ltb max_signature (length certificate)
    then none
    else some (record {
      instance_digest = encoded.instance_digest;
      root = encoded.root;
      certificate = certificate;
      canonical_wire = [];
    })

module _ (sha256 : Bytes → Bytes) (signer : Signer) where
  -- The loop of newCVAPDBLockCollectorScalar over the roster and its stores.
  unfoldable pub check_stores : Encoded → ℕ → List ℤ → List Store → Bool
  check_stores encoded index [] stores = true
  check_stores encoded index (m ∷ roster) [] = false
  check_stores encoded index (m ∷ roster) (store ∷ stores) =
      let rest = check_stores encoded (suc index) roster stores in
      let checked = verify_store sha256 encoded.total_shards encoded.shard_bytes (some store) in
      if is_neg m
        || not (eqb_ℤ store.index (pos index))
        || not (beq store.instance_digest encoded.instance_digest)
        || not (beq store.root encoded.root)
      then false
      else elim checked [ none ↦ false | some ok ↦ rest ]

  -- `newCVAPDBLockCollectorScalar`
  unfoldable pub new_lock_collector : Encoded → List ℤ → Option LockCollector
  new_lock_collector encoded old_roster = do
    guard (
        length encoded.instance_digest == 32
        && length encoded.root == 32
        && length encoded.stores == length old_roster
        && encoded.total_shards == length old_roster
        && not (encoded.data_shards == 0)
        && leb encoded.data_shards encoded.total_shards
        && not (encoded.shard_bytes == 0)
        && equal_ints old_roster (sorted_unique old_roster)
        && signer.has_apdb_role
        && equal_ints signer.member_order old_roster
        && not (signer.threshold == 0)
        && leb signer.threshold (length old_roster))
    guard (check_stores encoded 0 old_roster encoded.stores)
    statement ← stored_statement sha256 encoded.instance_digest encoded.root
    some (record {
      encoded = encoded;
      old_roster = old_roster;
      statement = statement;
      shares = [];
      share_wires = [];
    })

  -- `StoreOffer`
  unfoldable pub store_offer : ℤ → LockCollector → Option Bytes
  store_offer holder c = do
    index ← position holder 0 c.old_roster
    store ← get_elem? c.encoded.stores index
    store_bytes sha256 c.encoded.total_shards c.encoded.shard_bytes (some store)

  abbrev pub enough : LockCollector → Bool
  enough c = leb signer.threshold (length c.shares)

  -- The second half of AddDecodedStoredShare, whose state may have changed since: the share is checked,
  -- and kept in the second locked section.
  unfoldable pub commit_share :
      ℤ → StoredShare → Bytes → LockCollector → Option (LockCollector × Bool)
  commit_share from response wire c = do
    guard (
        beq response.instance_digest c.encoded.instance_digest
        && beq response.root c.encoded.root
        && signer.verify_share from stored_domain c.statement response.share)
    elim (entry from c.share_wires) [
      | some previous ↦ if beq previous wire then some (c, enough c) else none
      | none ↦
          let c' : LockCollector = record c {
            shares = (from, response.share) ∷ c.shares;
            share_wires = (from, wire) ∷ c.share_wires;
          } in
          some (c', enough c')
    ]

  -- `AddDecodedStoredShare` with no other worker in between
  unfoldable pub add_decoded_stored_share :
      ℤ → StoredShare → Bytes → LockCollector → Option (LockCollector × Bool)
  add_decoded_stored_share from response wire c = do
    guard (from_holder from wire c)
    let committed = commit_share from response wire c
    if known_share from wire c then some (c, enough c) else committed

  -- `AddStoredShare`
  unfoldable pub add_stored_share : ℤ → Bytes → LockCollector → Option (LockCollector × Bool)
  add_stored_share from wire c = do
    guard (member from c.old_roster)
    response ← decode_stored_share wire
    add_decoded_stored_share from response wire c

  -- `RecoverLock`
  unfoldable pub recover_lock : LockCollector → Option Lock
  recover_lock c = do
    guard (enough c)
    certificate ←
        signer.recover stored_domain c.statement (select signer.threshold c.old_roster c.shares)
    lock ← new_lock c.encoded certificate
    guard (verify_lock sha256 signer lock)
    some lock
