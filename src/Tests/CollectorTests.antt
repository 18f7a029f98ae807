-- ===== src/Tests/CollectorTests.antt =====
-- A collector for the payload of ApdbTests: a store, the payload and another payload come in.
use arladkr_practicaladkr.Prelude.{◌≡◌, refl, true, none, some, List, [], ◌∷◌}
use arladkr_practicaladkr.Prelude.Int.{pos}
use arladkr_practicaladkr.Prelude.Bytes.{Bytes, beq}
use arladkr_practicaladkr.Util.{hash_bytes}
use arladkr_practicaladkr.Wire.{
  put_be, be_value, write_bytes, write_uint32, read_full, read_uint32, read_bytes,
}
use arladkr_practicaladkr.Wire.Fields.{read_domain, read_digest}
use arladkr_practicaladkr.Tree.{pair_up}
use arladkr_practicaladkr.Apdb.Store.{
  shard_domain, node_domain, store_domain, shard_hash, tree_hash, levels, branch, top, build_tree,
  depth_from, follow_checked, verify_store, write_siblings, store_bytes, read_siblings,
  decode_store,
}
use arladkr_practicaladkr.Apdb.Code.{erasure_encode, pack, encode_sized}
use arladkr_practicaladkr.Apdb.Code.Recovery.{Recovered}
use arladkr_practicaladkr.Apdb.Collector.{
  Collector, total_shards, member_index, lookup, add_decoded_store, add_store, PayloadResponse,
  commit_payload, recover_with_source,
}
use arladkr_practicaladkr.Apdb.Collector.Keeps.{
  Section, store_came, payload_committed, after, after_all, Keeps, after_all-Keeps,
  collector_returns_locked_payload,
}
use arladkr_practicaladkr.Tests.{toy_hash}
use arladkr_practicaladkr.Tests.ApdbTests.{repetition, instance_id, payload, lock, store_wire}

abbrev start : Collector
start = record {
  lock = lock;
  old_roster = pos 4 ∷ pos 5 ∷ pos 6 ∷ [];
  data_shards = 1;
  shard_bytes = 10;
  maximum_payload = 100;
  binding_check = λ p. true;
  stores = [];
  store_wires = [];
  payload = none;
  payload_hints = [];
}

abbrev response : Bytes → PayloadResponse
response p = record { instance_digest = instance_id; payload = p; hints = [] }

abbrev sections : List Section
sections =
    store_came (pos 6) store_wire
    ∷ payload_committed true (response payload)
    ∷ payload_committed true (response (1 ∷ []))
    ∷ []

returned :
    recover_with_source repetition toy_hash (after_all repetition toy_hash sections start)
    ≡ some (payload, true)
unfolding after after_all recover_with_source add_store add_decoded_store member_index lookup
    commit_payload decode_store read_domain read_digest read_siblings read_full read_uint32
    read_bytes be_value store_bytes store_domain write_siblings write_bytes write_uint32
    verify_store follow_checked depth_from shard_hash tree_hash shard_domain node_domain hash_bytes
    put_be build_tree levels branch top pair_up encode_sized erasure_encode pack beq
returned = refl

after_all-Keeps_example :
    Keeps repetition toy_hash start (after_all repetition toy_hash sections start)
after_all-Keeps_example = after_all-Keeps repetition toy_hash sections start

collector_returns_locked_payload_example :
    (let c = after_all repetition toy_hash sections start in
      Recovered repetition toy_hash c.lock c.data_shards
        (total_shards c)
        c.shard_bytes
        c.maximum_payload
        c.binding_check
        payload)
    × ((after_all repetition toy_hash sections start).lock ≡ start.lock)
collector_returns_locked_payload_example =
    collector_returns_locked_payload repetition toy_hash sections start payload true refl returned
