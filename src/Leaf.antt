-- ===== src/Leaf.antt =====
-- core/cv_sapvss_core_scalar.go: the context of an epoch's leaves with its wire and its digest.
pub mod Partition
use Prim.Native.String.{String}
use arladkr_practicaladkr.Prelude.{
  ℕ, zero, suc, ◌+◌, Bool, true, false, not, ◌&&◌, ◌||◌, Option, none, some, List, [], ◌∷◌, leb,
  ltb, ◌==◌, if◌then◌else◌, length, ◌>>=◌, ◌>>◌, guard,
}
use arladkr_practicaladkr.Prelude.Int.{ℤ, pos, pos_part, is_neg, leb_ℤ}
use arladkr_practicaladkr.Prelude.Bytes.{Bytes, beq}
use arladkr_practicaladkr.Prelude.Text.{codes}
use arladkr_practicaladkr.Util.{hash_bytes}
use arladkr_practicaladkr.Wire.{
  uint64, write_uint32, write_uint64, write_bytes, read_uint32, read_uint64, read_bytes, confirm,
}
use arladkr_practicaladkr.Wire.Fields.{read_domain, read_digest, read_id}
use arladkr_practicaladkr.Roster.{sorted_unique, equal_ints}
use arladkr_practicaladkr.Router.Envelope.{max_sid}
use arladkr_practicaladkr.Config.Params.{profile}

-- cvLeafContextWireDomainScalar
unfoldable pub context_domain : Bytes
context_domain = codes "ARL-CV-sAPVSS/v2-scalar-group/leaf-context"

-- cvLeafGroupID
unfoldable pub group_id : Bytes
group_id = codes "BLS12-381-G1/fr"

-- cvLeafContextScalar, with the two fields of its profile
pub record LeafContext : Type 0 where
  pub sid : Bytes
  pub epoch : ℕ
  pub old_roster : List ℤ
  pub new_roster : List ℤ
  pub receiver_registry_digest : Bytes
  pub sharing_degree : ℤ
  pub chunk_bits : ℕ
  pub max_components : ℤ

unfoldable pub no_negative : List ℤ → Bool
no_negative [] = true
no_negative (m ∷ roster) = not (is_neg m) && no_negative roster

-- `cvValidateLeafContextScalar`, for the modulus of the scalar field and its bit length
unfoldable pub validate_context : ℕ → ℕ → LeafContext → Option (Unit {0})
validate_context modulus bit_length c = do
  guard (
      not (length c.sid == 0)
      && leb (length c.sid) max_sid
      && not (c.epoch == 0)
      && length c.receiver_registry_digest == 32
      && not (length c.old_roster == 0)
      && not (length c.new_roster == 0)
      && equal_ints c.old_roster (sorted_unique c.old_roster)
      && equal_ints c.new_roster (sorted_unique c.new_roster)
      && not (is_neg c.sharing_degree)
      && not (leb_ℤ (pos (length c.new_roster)) c.sharing_degree))
  _ ← profile modulus bit_length c.chunk_bits (pos_part c.max_components)
  guard (no_negative c.old_roster && no_negative c.new_roster)

unfoldable pub write_members : Bytes → List ℤ → Bytes
write_members wire [] = wire
write_members wire (m ∷ roster) = write_members (write_uint64 wire (uint64 m)) roster

unfoldable pub write_roster : Bytes → List ℤ → Option Bytes
write_roster wire roster =
    let (counted, fits) = write_uint32 wire (pos (length roster)) in
    if fits then some (write_members counted roster) else none

unfoldable pub write_int : Bytes → ℤ → Option Bytes
write_int wire value =
    let (written, fits) = write_uint32 wire value in if fits then some written else none

-- `cvLeafContextScalarCanonicalBytes`
unfoldable pub context_bytes : ℕ → ℕ → LeafContext → Option Bytes
context_bytes modulus bit_length c = do
  validate_context modulus bit_length c
  let w1 = (write_bytes [] context_domain).0
  let w2 = (write_bytes w1 group_id).0
  let w3 = write_uint64 (write_bytes w2 c.sid).0 c.epoch
  w4 ← write_roster w3 c.old_roster
  w5 ← write_roster w4 c.new_roster
  w6 ← write_int (write_bytes w5 c.receiver_registry_digest).0 c.sharing_degree
  write_int (write_uint64 w6 c.chunk_bits) c.max_components

-- `cvLeafContextDigestScalar`
unfoldable pub context_digest : (Bytes → Bytes) → ℕ → ℕ → LeafContext → Option Bytes
context_digest sha256 modulus bit_length c = do
  wire ← context_bytes modulus bit_length c
  some (hash_bytes sha256 (context_domain ∷ wire ∷ []))

unfoldable pub read_members : ℕ → Bytes → Option (List ℤ × Bytes)
read_members zero r = some ([], r)
read_members (suc count) r = do
  (m, r1) ← read_id r
  (roster, r2) ← read_members count r1
  some (pos m ∷ roster, r2)

-- `cvDecodeRosterScalar`
unfoldable pub decode_roster : Bytes → Option (List ℤ × Bytes)
decode_roster r = do
  (count, r1) ← read_uint32 r
  guard (not (count == 0) && leb count 1048576)
  read_members count r1

-- `cvDecodeLeafContextScalar`
unfoldable pub decode_context : ℕ → ℕ → Bytes → Option LeafContext
decode_context modulus bit_length wire = do
  r1 ← read_domain context_domain wire
  r2 ← read_domain group_id r1
  (sid, r3) ← read_bytes max_sid r2
  (epoch, r4) ← read_uint64 r3
  (old_roster, r5) ← decode_roster r4
  (new_roster, r6) ← decode_roster r5
  (registry_digest, r7) ← read_digest r6
  (degree, r8) ← read_uint32 r7
  (chunk_bits, r9) ← read_uint64 r8
  (max_components, r10) ← read_uint32 r9
  guard (length r10 == 0)
  let c : LeafContext = record {
    sid = sid;
    epoch = epoch;
    old_roster = old_roster;
    new_roster = new_roster;
    receiver_registry_digest = registry_digest;
    sharing_degree = pos degree;
    chunk_bits = chunk_bits;
    max_components = pos max_components;
  }
  confirm wire (context_bytes modulus bit_length c) c
