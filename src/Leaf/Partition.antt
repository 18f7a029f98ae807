-- ===== src/Leaf/Partition.antt =====
-- core/cv_sapvss_partition_scalar.go: which receivers acknowledged a leaf and which fall back.
pub mod Covers
use Prim.Native.String.{String}
use arladkr_practicaladkr.Prelude.{
  ℕ, zero, suc, ◌+◌, Bool, true, false, not, ◌&&◌, ◌||◌, Option, none, some, List, [], ◌∷◌, ◌-◌,
  leb, ◌==◌, if◌then◌else◌, length, ◌>>=◌, ◌>>◌, guard,
}
use arladkr_practicaladkr.Prelude.Int.{ℤ, pos, pos_part, leb_ℤ}
use arladkr_practicaladkr.Prelude.Bytes.{Bytes, beq}
use arladkr_practicaladkr.Prelude.Text.{codes}
use arladkr_practicaladkr.Prelude.Members.{member}
use arladkr_practicaladkr.Wire.{write_uint32, write_bytes, read_uint32, read_bytes, confirm}
use arladkr_practicaladkr.Wire.Fields.{read_domain}
use arladkr_practicaladkr.Leaf.{LeafContext, validate_context, write_int, context_digest}

-- cvEvidencePartitionWireDomainScalar
unfoldable pub partition_domain : Bytes
partition_domain = codes "ARL-CV-sAPVSS/v2-scalar-group/evidence-partition"

-- `cvEvidencePartitionScalar`
pub record Partition : Type 0 where
  pub ack_receiver_indices : List ℤ
  pub fallback_receiver_indices : List ℤ

-- The inner loop of cvValidateEvidencePartitionScalar, with the indices seen.
unfoldable pub check_indices : ℕ → ℤ → List ℤ → List ℤ → Option (List ℤ)
check_indices total previous seen [] = some seen
check_indices total previous seen (index ∷ indices) =
    let rest = check_indices total index (index ∷ seen) indices in
    if leb_ℤ index previous || not (leb_ℤ index (pos total)) || member index seen
    then none
    else rest

-- Its last loop: the rounds left and the index.
unfoldable pub all_seen : ℕ → ℕ → List ℤ → Bool
all_seen zero index seen = true
all_seen (suc left) index seen =
    let rest = all_seen left (suc index) seen in member (pos index) seen && rest

-- The checks of a partition for a number of receivers and a bound on the faulty ones.
unfoldable pub check_partition : ℕ → ℕ → Partition → Option (Unit {0})
check_partition total new_faults p = do
  guard (leb (length p.fallback_receiver_indices) new_faults)
  guard (length p.ack_receiver_indices + length p.fallback_receiver_indices == total)
  seen ← check_indices total (pos 0) [] p.ack_receiver_indices
  all ← check_indices total (pos 0) seen p.fallback_receiver_indices
  guard (all_seen total 1 all)

-- `cvNewFaultBoundFromContextScalar`, for a valid context
abbrev pub new_fault_bound : LeafContext → ℕ
new_fault_bound c = length c.new_roster - pos_part c.sharing_degree - 1

-- `cvValidateEvidencePartitionScalar`
unfoldable pub validate_partition : ℕ → ℕ → LeafContext → Partition → Option (Unit {0})
validate_partition modulus bit_length c p = do
  validate_context modulus bit_length c
  check_partition (length c.new_roster) (new_fault_bound c) p

unfoldable pub write_indices : Bytes → List ℤ → Option Bytes
write_indices wire [] = some wire
write_indices wire (index ∷ indices) = do
  written ← write_int wire index
  write_indices written indices

-- `cvWriteIndexVectorScalar`
unfoldable pub write_index_vector : Bytes → List ℤ → Option Bytes
write_index_vector wire indices = do
  counted ← write_int wire (pos (length indices))
  write_indices counted indices

-- `cvEvidencePartitionScalarCanonicalBytes`
unfoldable pub partition_bytes : (Bytes → Bytes) → ℕ → ℕ → LeafContext → Partition → Option Bytes
partition_bytes sha256 modulus bit_length c p = do
  validate_partition modulus bit_length c p
  digest ← context_digest sha256 modulus bit_length c
  let w1 = (write_bytes [] partition_domain).0
  w2 ← write_index_vector (write_bytes w1 digest).0 p.ack_receiver_indices
  write_index_vector w2 p.fallback_receiver_indices

unfoldable pub read_indices : ℕ → Bytes → Option (List ℤ × Bytes)
read_indices zero r = some ([], r)
read_indices (suc count) r = do
  (index, r1) ← read_uint32 r
  (indices, r2) ← read_indices count r1
  some (pos index ∷ indices, r2)

-- `cvReadIndexVectorScalar`
unfoldable pub read_index_vector : ℕ → Bytes → Option (List ℤ × Bytes)
read_index_vector maximum r = do
  (count, r1) ← read_uint32 r
  guard (leb count maximum)
  read_indices count r1

-- `cvDecodeEvidencePartitionScalar`
unfoldable pub decode_partition : (Bytes → Bytes) → ℕ → ℕ → Bytes → LeafContext → Option Partition
decode_partition sha256 modulus bit_length wire c = do
  validate_context modulus bit_length c
  r1 ← read_domain partition_domain wire
  (digest, r2) ← read_bytes 32 r1
  expected ← context_digest sha256 modulus bit_length c
  guard (beq digest expected)
  (acks, r3) ← read_index_vector (length c.new_roster) r2
  (fallbacks, r4) ← read_index_vector (new_fault_bound c) r3
  guard (length r4 == 0)
  let p : Partition = record { ack_receiver_indices = acks; fallback_receiver_indices = fallbacks }
  confirm wire (partition_bytes sha256 modulus bit_length c p) p
