-- ===== src/Pool/Share.antt =====
-- core/cv_sapvss_pool.go: cvPoolCertificateShareScalar, a member's signature share on a pool.
pub mod RoundTrip
use arladkr_practicaladkr.Prelude.{
  ℕ, ◌≤◌, Bool, not, ◌&&◌, ◌||◌, Option, none, some, List, [], arith, ltb, leb, ◌==◌, if◌then◌else◌,
  length, ◌>>=◌, ◌>>◌, guard,
}
use arladkr_practicaladkr.Prelude.Int.{ℤ, pos, is_neg}
use arladkr_practicaladkr.Prelude.Bytes.{Bytes, beq}
use arladkr_practicaladkr.Prelude.Text.{codes}
use arladkr_practicaladkr.Wire.{max_uint32, max_int, uint64, write_uint64, write_bytes, confirm}
use arladkr_practicaladkr.Wire.Fields.{read_domain, read_id, read_digest, read_last}

-- cvPoolCertShareScalarDomain
unfoldable pub share_domain : Bytes
share_domain = codes "ARL-CV-sAPVSS/v2-scalar-group/pool-cert-share-wire"

pub share_domain-fits : length share_domain ≤ 100
unfolding share_domain
share_domain-fits = omega arith

-- cvMaxComponentSignatureBytes
abbrev pub max_signature : ℕ
max_signature = 1048576

pub record PoolCertificateShare : Type 0 where
  pub proposer_id : ℤ
  pub pool_digest : Bytes
  pub signature : Bytes

-- A pointer is an `Option`, and an error is `none`.
unfoldable pub share_bytes : Option PoolCertificateShare → Option Bytes
share_bytes none = none
share_bytes (some share) =
    if is_neg share.proposer_id
      || not (length share.pool_digest == 32)
      || length share.signature == 0
      || ltb max_signature (length share.signature)
    then none
    else let w1 = (write_bytes [] share_domain).0 in
      let w2 = write_uint64 w1 (uint64 share.proposer_id) in
      let w3 = (write_bytes w2 share.pool_digest).0 in some (write_bytes w3 share.signature).0

unfoldable pub decode_share : Bytes → Option PoolCertificateShare
decode_share wire = do
  r1 ← read_domain share_domain wire
  (proposer, r2) ← read_id r1
  (digest, r3) ← read_digest r2
  signature ← read_last max_signature r3
  let share : PoolCertificateShare = record {
    proposer_id = pos proposer;
    pool_digest = digest;
    signature = signature;
  }
  confirm wire (share_bytes (some share)) share
