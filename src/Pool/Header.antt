-- ===== src/Pool/Header.antt =====
-- core/cv_sapvss_pool.go: cvComponentHeaderScalar, what identifies one dealer's component.
pub mod RoundTrip
use arladkr_practicaladkr.Prelude.{
  ℕ, ◌≤◌, Bool, not, ◌||◌, Option, none, some, [], ◌∷◌, arith, ◌==◌, if◌then◌else◌, length, ◌>>=◌,
  ◌>>◌, guard,
}
use arladkr_practicaladkr.Prelude.Int.{ℤ, pos, is_neg}
use arladkr_practicaladkr.Prelude.Bytes.{Bytes, beq}
use arladkr_practicaladkr.Prelude.Text.{codes}
use arladkr_practicaladkr.Wire.{max_uint32, uint64, write_uint64, write_bytes, confirm}
use arladkr_practicaladkr.Wire.Fields.{read_domain, read_id, read_digest}
use arladkr_practicaladkr.Apdb.Lock.{instance_digest}

-- cvComponentHeaderScalarDomain
unfoldable pub header_domain : Bytes
header_domain = codes "ARL-CV-sAPVSS/v2-scalar-group/component-header"

pub header_domain-fits : length header_domain ≤ 100
unfolding header_domain
header_domain-fits = omega arith

unfoldable pub component_label : Bytes
component_label = codes "COMP"

pub record Header : Type 0 where
  pub context_digest : Bytes
  pub dealer_id : ℤ
  pub payload_digest : Bytes
  pub instance : Bytes
  pub root : Bytes

-- `cvComponentInstanceDigestScalar`
unfoldable pub component_instance_digest : (Bytes → Bytes) → Bytes → ℤ → Option Bytes
unfolding component_label
component_instance_digest sha256 context dealer =
    if not (length context == 32) || is_neg dealer
    then none
    else instance_digest sha256 component_label (context ∷ write_uint64 [] (uint64 dealer) ∷ [])

-- The unconditional writes of cvComponentHeaderScalarCanonicalBytes.
unfoldable pub write_header : Header → Bytes
write_header header =
    let w1 = (write_bytes [] header_domain).0 in
    let w2 = (write_bytes w1 header.context_digest).0 in
    let w3 = write_uint64 w2 (uint64 header.dealer_id) in
    let w4 = (write_bytes w3 header.payload_digest).0 in
    let w5 = (write_bytes w4 header.instance).0 in (write_bytes w5 header.root).0

-- `cvComponentHeaderScalarCanonicalBytes`
unfoldable pub header_bytes : (Bytes → Bytes) → Header → Option Bytes
header_bytes sha256 header =
    if not (length header.context_digest == 32)
      || is_neg header.dealer_id
      || not (length header.payload_digest == 32)
      || not (length header.instance == 32)
      || not (length header.root == 32)
    then none
    else do
      want ← component_instance_digest sha256 header.context_digest header.dealer_id
      guard (beq want header.instance)
      some (write_header header)

-- `cvDecodeComponentHeaderScalar`
unfoldable pub decode_header : (Bytes → Bytes) → Bytes → Option Header
decode_header sha256 wire = do
  r1 ← read_domain header_domain wire
  (context, r2) ← read_digest r1
  (dealer, r3) ← read_id r2
  (payload, r4) ← read_digest r3
  (instance_id, r5) ← read_digest r4
  (root, r6) ← read_digest r5
  guard (length r6 == 0)
  let header : Header = record {
    context_digest = context;
    dealer_id = pos dealer;
    payload_digest = payload;
    instance = instance_id;
    root = root;
  }
  confirm wire (header_bytes sha256 header) header
