-- ===== src/Tests/HolderTests.antt =====
-- The holders 4, 5 and 6 of the payload of ApdbTests, with a stand-in for threshold signatures.
use arladkr_practicaladkr.Prelude.{◌≡◌, refl, true, false, some, List, [], ◌∷◌, arith, length}
use arladkr_practicaladkr.Prelude.Int.{ℤ, pos}
use arladkr_practicaladkr.Prelude.Bytes.{beq}
use arladkr_practicaladkr.Prelude.Text.{codes, trim_left, trim}
use arladkr_practicaladkr.Prelude.Members.{member}
use arladkr_practicaladkr.Util.{hash_bytes}
use arladkr_practicaladkr.Wire.{put_be, write_bytes, write_uint32}
use arladkr_practicaladkr.Tree.{pair_up}
use arladkr_practicaladkr.Roster.{
  insert, sorted_copy, unique_after, unique, sorted_unique, equal_ints,
}
use arladkr_practicaladkr.Files.{
  FileSystem, same_path, find, read_immutable, after_race, link_immutable, put_immutable,
}
use arladkr_practicaladkr.Files.Keys.{
  safe_cache_component, hex, decimal_from, sid_domain, sid_base, store_key_parts,
}
use arladkr_practicaladkr.Files.WriteOnce.{quiet}
use arladkr_practicaladkr.Apdb.Lock.{Lock}
use arladkr_practicaladkr.Apdb.Store.{
  shard_domain, node_domain, store_domain, shard_hash, tree_hash, levels, branch, top, build_tree,
  depth_from, follow_checked, verify_store, write_siblings, store_bytes,
}
use arladkr_practicaladkr.Apdb.Code.{erasure_encode, pack, encode_sized}
use arladkr_practicaladkr.Apdb.StoredShare.{StoredShare}
use arladkr_practicaladkr.Apdb.Holder.{
  Signer, stored_domain, stored_statement, holder_path, position, Request, prepare, sign_stored,
  store_and_sign, read_store,
}
use arladkr_practicaladkr.Apdb.Holder.Signs.{
  Write, stores, after_writes, after_write, signs_one_store, signed_store_is_read,
}
use arladkr_practicaladkr.Prelude.Entries.{entry}
use arladkr_practicaladkr.Apdb.LockCollector.{
  LockCollector, check_stores, new_lock_collector, commit_share, recover_lock,
}
use arladkr_practicaladkr.Apdb.LockCollector.Backed.{Section, share_committed, after, after_all}
use arladkr_practicaladkr.Apdb.LockCollector.Recovers.{
  IsThresholdScheme, IsLockFor, enough_shares_make_lock,
}
use arladkr_practicaladkr.Tests.{toy_hash}
use arladkr_practicaladkr.Tests.ApdbTests.{instance_id, store_of, dispersed}

abbrev roster : List ℤ
roster = pos 4 ∷ pos 5 ∷ pos 6 ∷ []

abbrev signer : Signer
signer = record {
  has_apdb_role = true;
  member_order = roster;
  threshold = 2;
  can_sign = λ m. true;
  sign_share = λ m domain statement. some (7 ∷ []);
  verify_share = λ m domain statement share. beq share (7 ∷ []);
  recover = λ domain statement shares. some (1 ∷ []);
  verify_recovered = λ domain statement certificate. beq certificate (1 ∷ []);
}

signer-IsThresholdScheme : IsThresholdScheme signer
unfolding beq
signer-IsThresholdScheme = record {
  recovers =
      λ statement shares many different valid. (1 ∷ [], refl, omega arith, omega arith, refl);
}

abbrev request : Request
request = record {
  sid = codes "s1";
  epoch = 12;
  holder = pos 6;
  old_roster = roster;
  store = store_of 2;
}

abbrev stored : FileSystem
stored = (store_and_sign toy_hash signer 3 10 quiet request []).0

first_signed : (store_and_sign toy_hash signer 3 10 quiet request []).1 ≡ some (7 ∷ [])
unfolding store_and_sign prepare holder_path store_key_parts sid_base safe_cache_component trim
    trim_left hex decimal_from sid_domain position sorted_unique unique unique_after sorted_copy
    insert equal_ints put_immutable link_immutable read_immutable after_race find same_path
    sign_stored stored_statement stored_domain store_bytes store_domain write_siblings write_bytes
    write_uint32 verify_store follow_checked depth_from shard_hash tree_hash shard_domain
    node_domain hash_bytes put_be build_tree levels branch top pair_up beq
first_signed = refl

abbrev again : List Write
again = stores 3 10 quiet request ∷ []

second_signed :
    (store_and_sign toy_hash signer 3 10 quiet request
      (after_writes toy_hash signer again stored)).1
    ≡ some (7 ∷ [])
unfolding after_writes after_write store_and_sign prepare holder_path store_key_parts sid_base
    safe_cache_component trim trim_left hex decimal_from sid_domain position sorted_unique unique
    unique_after sorted_copy insert equal_ints put_immutable link_immutable read_immutable
    after_race find same_path sign_stored stored_statement stored_domain store_bytes store_domain
    write_siblings write_bytes write_uint32 verify_store follow_checked depth_from shard_hash
    tree_hash shard_domain node_domain hash_bytes put_be build_tree levels branch top pair_up beq
second_signed = refl

signs_one_store_example : store_of 2 ≡ store_of 2
signs_one_store_example =
    signs_one_store toy_hash signer 3 10 quiet quiet request request again [] (7 ∷ []) (7 ∷ [])
      (omega arith) (omega arith) (refl, refl, refl, refl) first_signed second_signed

signed_store_is_read_example :
    read_store toy_hash 3 10 false
      (codes "s1")
      12
      (pos 6)
      instance_id
      (store_of 2).root
      (after_writes toy_hash signer again stored)
    ≡ some (store_of 2)
signed_store_is_read_example =
    signed_store_is_read toy_hash signer 3 10 quiet request again [] (7 ∷ []) (omega arith)
      (omega arith) first_signed

abbrev empty_collector : LockCollector
empty_collector = record {
  encoded = dispersed;
  old_roster = roster;
  statement = hash_bytes toy_hash (stored_domain ∷ instance_id ∷ dispersed.root ∷ []);
  shares = [];
  share_wires = [];
}

collector_made : new_lock_collector toy_hash signer dispersed roster ≡ some empty_collector
unfolding new_lock_collector check_stores sorted_unique unique unique_after sorted_copy insert
    equal_ints stored_statement verify_store follow_checked depth_from shard_hash tree_hash
    shard_domain node_domain hash_bytes put_be build_tree levels branch top pair_up beq encode_sized
    erasure_encode pack
collector_made = refl

abbrev answer : StoredShare
answer = record { instance_digest = instance_id; root = dispersed.root; share = 7 ∷ [] }

abbrev answers : List Section
answers =
    share_committed (pos 6) answer (1 ∷ [])
    ∷ share_committed (pos 6) answer (2 ∷ [])
    ∷ share_committed (pos 4) answer (3 ∷ [])
    ∷ []

two_kept : length (after_all toy_hash signer answers empty_collector).shares ≡ 2
unfolding after_all after commit_share entry member beq encode_sized erasure_encode pack put_be
    build_tree top levels pair_up tree_hash hash_bytes node_domain
two_kept = refl

enough_shares_make_lock_example :
    (lock : Lock) × (recover_lock toy_hash signer
        (after_all toy_hash signer answers empty_collector)
      ≡ some lock)
    × IsLockFor toy_hash signer dispersed lock
enough_shares_make_lock_example =
    enough_shares_make_lock toy_hash signer dispersed roster empty_collector answers
      signer-IsThresholdScheme collector_made (omega (arith, two_kept))

abbrev made : Lock
made = record {
  instance_digest = instance_id;
  root = dispersed.root;
  certificate = 1 ∷ [];
  canonical_wire = [];
}
