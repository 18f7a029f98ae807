-- ===== src/Apdb/StoredShare.antt =====
-- core/cv_sapvss_apdb_service_scalar.go: cvAPDBStoredShareScalar, a holder's answer to a store.
use arladkr_practicaladkr.Prelude.{
  not, ◌||◌, Option, none, some, [], ltb, ◌==◌, if◌then◌else◌, length, ◌>>=◌,
}
use arladkr_practicaladkr.Prelude.Bytes.{Bytes}
use arladkr_practicaladkr.Prelude.Text.{codes}
use arladkr_practicaladkr.Wire.{write_bytes, confirm}
use arladkr_practicaladkr.Wire.Fields.{read_domain, read_digest, read_last}
use arladkr_practicaladkr.Apdb.Lock.{max_signature}

-- cvAPDBStoredShareWireDomainScalar
unfoldable pub stored_share_domain : Bytes
stored_share_domain = codes "ARL-CV-sAPVSS/v2-scalar-group/apdb-stored-share"

pub record StoredShare : Type 0 where
  pub instance_digest : Bytes
  pub root : Bytes
  pub share : Bytes

-- `cvAPDBStoredShareScalarCanonicalBytes`
unfoldable pub stored_share_bytes : StoredShare → Option Bytes
stored_share_bytes response =
    if not (length response.instance_digest == 32)
      || not (length response.root == 32)
      || length response.share == 0
      || ltb max_signature (length response.share)
    then none
    else let w1 = (write_bytes [] stored_share_domain).0 in
      let w2 = (write_bytes w1 response.instance_digest).0 in
      let w3 = (write_bytes w2 response.root).0 in some (write_bytes w3 response.share).0

-- `cvDecodeAPDBStoredShareScalar`
unfoldable pub decode_stored_share : Bytes → Option StoredShare
decode_stored_share wire = do
  r1 ← read_domain stored_share_domain wire
  (instance_id, r2) ← read_digest r1
  (root, r3) ← read_digest r2
  share ← read_last max_signature r3
  let response : StoredShare = record { instance_digest = instance_id; root = root; share = share }
  confirm wire (stored_share_bytes response) response
