-- ===== src/Pool/Ref.antt =====
-- core/cv_sapvss_pool.go: cvComponentRefScalar, a component header with the lock of its payload.
pub mod RoundTrip
use arladkr_practicaladkr.Prelude.{
  ℕ, ◌+◌, ◌≤◌, Bool, not, ◌&&◌, Option, none, some, [], true, false, arith, ◌==◌, if◌then◌else◌,
  length, ◌>>=◌, ◌>>◌, guard,
}
use arladkr_practicaladkr.Prelude.Bytes.{Bytes, beq}
use arladkr_practicaladkr.Prelude.Text.{codes}
use arladkr_practicaladkr.Wire.{max_uint32, write_bytes, read_bytes, confirm}
use arladkr_practicaladkr.Wire.Fields.{read_domain}
use arladkr_practicaladkr.Apdb.Lock.{Lock, max_signature, lock_bytes, decode_lock}
use arladkr_practicaladkr.Apdb.Holder.{Signer, verify_lock}
use arladkr_practicaladkr.Pool.Header.{Header, header_bytes, decode_header}

-- cvComponentRefScalarDomain
unfoldable pub ref_domain : Bytes
ref_domain = codes "ARL-CV-sAPVSS/v2-scalar-group/component-ref"

pub ref_domain-fits : length ref_domain ≤ 100
unfolding ref_domain
ref_domain-fits = omega arith

-- cvMaxNetworkPayloadBytes
abbrev pub max_payload : ℕ
max_payload = 68157440

pub record ComponentRef : Type 0 where
  pub header : Header
  pub lock : Lock

-- `cvComponentRefScalarCanonicalBytes`
unfoldable pub ref_bytes : (Bytes → Bytes) → ComponentRef → Option Bytes
ref_bytes sha256 ref = do
  header_wire ← header_bytes sha256 ref.header
  lock_wire ← lock_bytes (some ref.lock)
  guard (beq ref.header.instance ref.lock.instance_digest && beq ref.header.root ref.lock.root)
  let w1 = (write_bytes [] ref_domain).0
  let w2 = (write_bytes w1 header_wire).0
  some (write_bytes w2 lock_wire).0

-- `cvDecodeComponentRefScalar`
unfoldable pub decode_ref : (Bytes → Bytes) → Bytes → Option ComponentRef
decode_ref sha256 wire = do
  r1 ← read_domain ref_domain wire
  (header_wire, r2) ← read_bytes max_payload r1
  header ← decode_header sha256 header_wire
  (lock_wire, r3) ← read_bytes (max_signature + 256) r2
  guard (length r3 == 0)
  lock ← decode_lock lock_wire
  let ref : ComponentRef = record { header = header; lock = lock }
  confirm wire (ref_bytes sha256 ref) ref

-- `cvValidateComponentRefScalar`; a signer that is nil checks no signature.
unfoldable pub validate_component_ref : (Bytes → Bytes) → Option Signer → ComponentRef → Bool
validate_component_ref sha256 signer ref = elim (ref_bytes sha256 ref) [
  | none ↦ false
  | some wire ↦ elim signer [ none ↦ true | some present ↦ verify_lock sha256 present ref.lock ]
]
