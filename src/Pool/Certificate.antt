-- ===== src/Pool/Certificate.antt =====
-- core/cv_sapvss_pool.go: cvPoolCertificateScalar, the recovered signature on a pool, its wire
-- form and the statement that it signs.
pub mod RoundTrip
use arladkr_practicaladkr.Prelude.{
  ℕ, ◌≤◌, Bool, true, false, not, ◌&&◌, ◌||◌, Option, none, some, List, [], ◌∷◌, arith, ltb, ◌==◌,
  if◌then◌else◌, length, ◌>>=◌, ◌>>◌, guard,
}
use arladkr_practicaladkr.Prelude.Int.{ℤ, is_neg}
use arladkr_practicaladkr.Prelude.Bytes.{Bytes, beq}
use arladkr_practicaladkr.Prelude.Text.{codes}
use arladkr_practicaladkr.Util.{hash_bytes}
use arladkr_practicaladkr.Wire.{uint64, write_uint64, write_bytes, confirm}
use arladkr_practicaladkr.Wire.Fields.{read_domain, read_digest, read_last}
use arladkr_practicaladkr.Pool.Share.{max_signature}
use arladkr_practicaladkr.Pool.Offer.{Pool}

-- cvPoolCertScalarDomain
unfoldable pub certificate_domain : Bytes
certificate_domain = codes "ARL-CV-sAPVSS/v2-scalar-group/pool-cert"

pub certificate_domain-fits : length certificate_domain ≤ 100
unfolding certificate_domain
certificate_domain-fits = omega arith

pub record PoolCertificate : Type 0 where
  pub pool_digest : Bytes
  pub certificate : Bytes
  pub canonical_wire : Bytes  -- the wire that the certificate was decoded from, or empty

-- `cvPoolCertificateScalarCanonicalBytes`
unfoldable pub certificate_bytes : Option PoolCertificate → Option Bytes
certificate_bytes none = none
certificate_bytes (some c) =
    if not (length c.pool_digest == 32)
      || length c.certificate == 0
      || ltb max_signature (length c.certificate)
    then none
    else if not (length c.canonical_wire == 0)
    then some c.canonical_wire
    else let w1 = (write_bytes [] certificate_domain).0 in
      let w2 = (write_bytes w1 c.pool_digest).0 in some (write_bytes w2 c.certificate).0

-- `cvDecodePoolCertificateScalar`
unfoldable pub decode_certificate : Bytes → Option PoolCertificate
decode_certificate wire = do
  r1 ← read_domain certificate_domain wire
  (digest, r2) ← read_digest r1
  certificate ← read_last max_signature r2
  let c : PoolCertificate = record {
    pool_digest = digest;
    certificate = certificate;
    canonical_wire = [];
  }
  confirm wire (certificate_bytes (some c)) (record c { canonical_wire = wire })

-- `cvPoolCertificateStatementScalar`
unfoldable pub statement : (Bytes → Bytes) → Bytes → ℤ → Bytes → Option Bytes
statement sha256 context proposer digest =
    if not (length context == 32) || is_neg proposer || not (length digest == 32)
    then none
    else let w1 = (write_bytes [] context).0 in
      let w2 = write_uint64 w1 (uint64 proposer) in
      let w3 = (write_bytes w2 digest).0 in some (hash_bytes sha256 (certificate_domain ∷ w3 ∷ []))

-- `cvVerifyPoolCertificateScalar`. The control signer is a parameter: whether it has the role, and
-- its check of a recovered signature on a statement under a domain.
unfoldable pub verify_certificate :
    (Bytes → Bytes)
    → Bool
    → (Bytes → Bytes → Bytes → Bool)
    → Option Pool
    → Option PoolCertificate
    → Bool
verify_certificate sha256 has_role verify_recovered none c = false
verify_certificate sha256 has_role verify_recovered (some pool) none = false
verify_certificate sha256 has_role verify_recovered (some pool) (some c) =
    if not has_role || not (beq pool.digest c.pool_digest)
    then false
    else elim (statement sha256 pool.context_digest pool.proposer_id pool.digest) [
      | none ↦ false
      | some s ↦ verify_recovered certificate_domain s c.certificate
    ]
