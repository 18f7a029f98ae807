-- ===== src/Pool/Offer.antt =====
-- core/cv_sapvss_pool.go: cvPoolScalar, the list of component references that a proposer offers.
-- `params.poolSize` is the argument `pool_size`, and SHA-256 the argument `sha256`.
pub mod Order
pub mod Binding
pub mod RoundTrip
use arladkr_practicaladkr.Prelude.{
  ℕ, zero, suc, ◌≤◌, Bool, true, not, ◌&&◌, ◌||◌, Option, none, some, List, [], ◌∷◌, arith, ◌==◌,
  if◌then◌else◌, length, ◌>>=◌, ◌>>◌, guard,
}
use arladkr_practicaladkr.Prelude.Int.{ℤ, pos, negsuc, is_neg, leb_ℤ}
use arladkr_practicaladkr.Prelude.Bytes.{Bytes, beq}
use arladkr_practicaladkr.Prelude.Text.{codes}
use arladkr_practicaladkr.Util.{hash_bytes}
use arladkr_practicaladkr.Wire.{
  uint64, write_uint32, write_uint64, write_bytes, read_uint32, read_bytes, confirm,
}
use arladkr_practicaladkr.Wire.Fields.{read_domain, read_digest, read_id}
use arladkr_practicaladkr.Pool.Ref.{ComponentRef, max_payload, ref_bytes, decode_ref}

-- cvPoolScalarDomain
unfoldable pub pool_domain : Bytes
pool_domain = codes "ARL-CV-sAPVSS/v2-scalar-group/pool"

pub pool_domain-fits : length pool_domain ≤ 100
unfolding pool_domain
pool_domain-fits = omega arith

-- cvPoolDigestScalarDomain
unfoldable pub digest_domain : Bytes
digest_domain = codes "ARL-CV-sAPVSS/v2-scalar-group/pool-digest"

pub record Pool : Type 0 where
  pub context_digest : Bytes
  pub proposer_id : ℤ
  pub components : List ComponentRef
  pub digest : Bytes

-- The loop over the components, in cvPoolScalarCanonicalBytes and in cvBuildPoolScalar.
unfoldable pub write_refs : (Bytes → Bytes) → Bytes → Bytes → ℤ → List ComponentRef → Option Bytes
write_refs sha256 context unsigned last_dealer [] = some unsigned
write_refs sha256 context unsigned last_dealer (ref ∷ refs) =
    if leb_ℤ ref.header.dealer_id last_dealer || not (beq ref.header.context_digest context)
    then none
    else do
      ref_wire ← ref_bytes sha256 ref
      write_refs sha256 context (write_bytes unsigned ref_wire).0 ref.header.dealer_id refs

-- The unsigned body, which both functions write.
unfoldable pub unsigned_bytes : (Bytes → Bytes) → Bytes → ℤ → List ComponentRef → Option Bytes
unsigned_bytes sha256 context proposer components = do
  let w1 = (write_bytes [] pool_domain).0
  let w2 = (write_bytes w1 context).0
  let w3 = write_uint64 w2 (uint64 proposer)
  let (w4, fits) = write_uint32 w3 (pos (length components))
  guard fits
  write_refs sha256 context w4 (negsuc 0) components

unfoldable pub pool_digest : (Bytes → Bytes) → Bytes → Bytes
pool_digest sha256 unsigned = hash_bytes sha256 (digest_domain ∷ unsigned ∷ [])

-- `cvPoolScalarCanonicalBytes`
unfoldable pub pool_bytes : (Bytes → Bytes) → ℕ → Option Pool → Option Bytes
pool_bytes sha256 pool_size none = none
pool_bytes sha256 pool_size (some pool) =
    if not (length pool.context_digest == 32)
      || is_neg pool.proposer_id
      || not (length pool.components == pool_size)
      || not (length pool.digest == 32)
    then none
    else do
      unsigned ← unsigned_bytes sha256 pool.context_digest pool.proposer_id pool.components
      guard (beq pool.digest (pool_digest sha256 unsigned))
      some (write_bytes (write_bytes [] unsigned).0 pool.digest).0

-- `cvBuildPoolScalar`
unfoldable pub build_pool : (Bytes → Bytes) → ℕ → Bytes → ℤ → List ComponentRef → Option Pool
build_pool sha256 pool_size context proposer components =
    if not (length context == 32) || not (length components == pool_size) then none else do
      unsigned ← unsigned_bytes sha256 context proposer components
      let pool : Pool = record {
        context_digest = context;
        proposer_id = proposer;
        components = components;
        digest = pool_digest sha256 unsigned;
      }
      canonical ← pool_bytes sha256 pool_size (some pool)
      some pool

-- The loop of cvDecodePoolScalar over the count of components.
unfoldable pub read_refs : (Bytes → Bytes) → ℕ → Bytes → Option (List ComponentRef × Bytes)
read_refs sha256 zero r = some ([], r)
read_refs sha256 (suc count) r = do
  (ref_wire, r') ← read_bytes max_payload r
  ref ← decode_ref sha256 ref_wire
  (refs, rest) ← read_refs sha256 count r'
  some (ref ∷ refs, rest)

-- `cvDecodePoolScalar`
unfoldable pub decode_pool : (Bytes → Bytes) → ℕ → Bytes → Option Pool
decode_pool sha256 pool_size wire = do
  (unsigned_wire, r1) ← read_bytes max_payload wire
  (digest, r2) ← read_digest r1
  guard (length r2 == 0)
  u1 ← read_domain pool_domain unsigned_wire
  (context, u2) ← read_digest u1
  (proposer, u3) ← read_id u2
  (count, u4) ← read_uint32 u3
  guard (count == pool_size)
  (components, u5) ← read_refs sha256 count u4
  guard (length u5 == 0)
  let pool : Pool = record {
    context_digest = context;
    proposer_id = pos proposer;
    components = components;
    digest = digest;
  }
  confirm wire (pool_bytes sha256 pool_size (some pool)) pool
