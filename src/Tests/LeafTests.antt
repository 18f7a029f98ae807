-- ===== src/Tests/LeafTests.antt =====
-- An epoch's context for two committees of four, and a partition of its receivers.
use arladkr_practicaladkr.Prelude.{◌≡◌, ◌↔◌, refl, some, [], ◌∷◌, replicate}
use arladkr_practicaladkr.Prelude.Int.{pos}
use arladkr_practicaladkr.Prelude.Bytes.{beq}
use arladkr_practicaladkr.Prelude.Text.{codes}
use arladkr_practicaladkr.Prelude.Members.{member}
use arladkr_practicaladkr.Util.{hash_bytes}
use arladkr_practicaladkr.Wire.{
  put_be, be_value, read_full, read_uint32, read_uint64, read_bytes, write_uint32, write_uint64,
  write_bytes, confirm,
}
use arladkr_practicaladkr.Wire.Fields.{read_domain, read_digest, read_id}
use arladkr_practicaladkr.Roster.{
  insert, sorted_copy, unique_after, unique, sorted_unique, equal_ints,
}
use arladkr_practicaladkr.Config.Params.{profile}
use arladkr_practicaladkr.Leaf.{
  context_domain, group_id, LeafContext, no_negative, validate_context, write_members, write_roster,
  write_int, context_bytes, context_digest, read_members, decode_roster, decode_context,
}
use arladkr_practicaladkr.Leaf.Partition.{
  partition_domain, Partition, check_indices, all_seen, check_partition, validate_partition,
  write_indices, write_index_vector, partition_bytes, read_indices, read_index_vector,
  decode_partition,
}
use arladkr_practicaladkr.Leaf.Partition.Covers.{IsPartition, check_partition_iff}
use arladkr_practicaladkr.Tests.{toy_hash, get}

abbrev context : LeafContext
context = record {
  sid = codes "s";
  epoch = 1;
  old_roster = pos 1 ∷ pos 2 ∷ pos 3 ∷ pos 4 ∷ [];
  new_roster = pos 5 ∷ pos 6 ∷ pos 7 ∷ pos 8 ∷ [];
  receiver_registry_digest = replicate 32 9;
  sharing_degree = pos 2;
  chunk_bits = 8;
  max_components = pos 2;
}

abbrev partition : Partition
partition = record {
  ack_receiver_indices = pos 1 ∷ pos 3 ∷ pos 4 ∷ [];
  fallback_receiver_indices = pos 2 ∷ [];
}

context_read : decode_context 1000000 255 (get (context_bytes 1000000 255 context)) ≡ some context
unfolding decode_context decode_roster read_members context_bytes validate_context no_negative
    write_members write_roster write_int context_domain group_id profile put_be be_value read_full
    read_uint32 read_uint64 read_bytes write_uint32 write_uint64 write_bytes confirm read_domain
    read_digest read_id beq equal_ints sorted_unique unique unique_after sorted_copy insert
context_read = refl

partition_read :
    decode_partition toy_hash 1000000 255
      (get (partition_bytes toy_hash 1000000 255 context partition))
      context
    ≡ some partition
unfolding decode_partition partition_bytes validate_partition check_partition check_indices all_seen
    write_indices write_index_vector read_indices read_index_vector partition_domain context_digest
    hash_bytes context_bytes validate_context no_negative write_members write_roster write_int
    context_domain group_id profile put_be be_value read_full read_uint32 read_uint64 read_bytes
    write_uint32 write_uint64 write_bytes confirm read_domain member beq equal_ints sorted_unique
    unique unique_after sorted_copy insert
partition_read = refl

check_partition_iff_example :
    (check_partition 4 1 (record {
      ack_receiver_indices = pos 1 ∷ pos 3 ∷ pos 4 ∷ [];
      fallback_receiver_indices = pos 2 ∷ [];
    })
      ≡ some tt)
    ↔ IsPartition 4 1 (pos 1 ∷ pos 3 ∷ pos 4 ∷ []) (pos 2 ∷ [])
check_partition_iff_example = check_partition_iff 4 1 (pos 1 ∷ pos 3 ∷ pos 4 ∷ []) (pos 2 ∷ [])
