-- ===== src/Apdb/Lock.antt =====
-- core/cv_sapvss_apdb.go: cvAPDBLockScalar, the compact certificate that a payload is stored.
pub mod RoundTrip
use Prim.Native.String.{String}
use arladkr_practicaladkr.Prelude.{
  ℕ, ◌≤◌, Bool, true, false, not, ◌||◌, Option, none, some, List, [], ◌∷◌, arith, ltb, ◌==◌,
  if◌then◌else◌, length, ◌>>=◌, ◌>>◌, guard,
}
use arladkr_practicaladkr.Prelude.Bytes.{Bytes}
use arladkr_practicaladkr.Prelude.Text.{codes}
use arladkr_practicaladkr.Util.{hash_bytes}
use arladkr_practicaladkr.Wire.{max_uint32, write_bytes, confirm}
use arladkr_practicaladkr.Wire.Fields.{read_domain, read_digest, read_last}

-- cvAPDBLockWireDomain
unfoldable pub lock_domain : Bytes
lock_domain = codes "ARL-CV-sAPVSS/v2-scalar-group/apdb-lock"

pub lock_domain-fits : length lock_domain ≤ 100
unfolding lock_domain
lock_domain-fits = omega arith

-- cvAPDBInstanceDomain
unfoldable pub instance_domain : Bytes
instance_domain = codes "ARL-CV-sAPVSS/v2-scalar-group/apdb-instance"

-- cvMaxComponentSignatureBytes
abbrev pub max_signature : ℕ
max_signature = 1048576

pub record Lock : Type 0 where
  pub instance_digest : Bytes
  pub root : Bytes
  pub certificate : Bytes
  pub canonical_wire : Bytes  -- the wire that the lock was decoded from, or empty

-- The loop of cvAPDBInstanceDigestScalar over its parts.
unfoldable pub write_parts : Bytes → List Bytes → Option Bytes
write_parts buffer [] = some buffer
write_parts buffer (part ∷ parts) =
    let (buffer', fits) = write_bytes buffer part in
    let rest = write_parts buffer' parts in if fits then rest else none

-- `cvAPDBInstanceDigestScalar`
unfoldable pub instance_digest : (Bytes → Bytes) → Bytes → List Bytes → Option Bytes
unfolding write_parts
instance_digest sha256 label parts = if length label == 0 then none else do
  wire ← write_parts (write_bytes [] label).0 parts
  some (hash_bytes sha256 (instance_domain ∷ wire ∷ []))

-- `cvAPDBLockScalarCanonicalBytes`
unfoldable pub lock_bytes : Option Lock → Option Bytes
lock_bytes none = none
lock_bytes (some lock) =
    if not (length lock.instance_digest == 32)
      || not (length lock.root == 32)
      || length lock.certificate == 0
      || ltb max_signature (length lock.certificate)
    then none
    else if not (length lock.canonical_wire == 0)
    then some lock.canonical_wire
    else let w1 = (write_bytes [] lock_domain).0 in
      let w2 = (write_bytes w1 lock.instance_digest).0 in
      let w3 = (write_bytes w2 lock.root).0 in some (write_bytes w3 lock.certificate).0

-- `cvDecodeAPDBLockScalar`. The bytes that were compared are kept in the lock.
unfoldable pub decode_lock : Bytes → Option Lock
decode_lock wire = do
  r1 ← read_domain lock_domain wire
  (digest, r2) ← read_digest r1
  (root, r3) ← read_digest r2
  certificate ← read_last max_signature r3
  let lock : Lock = record {
    instance_digest = digest;
    root = root;
    certificate = certificate;
    canonical_wire = [];
  }
  confirm wire (lock_bytes (some lock)) (record lock { canonical_wire = wire })
