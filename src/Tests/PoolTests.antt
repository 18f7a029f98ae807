-- ===== src/Tests/PoolTests.antt =====
-- Concrete pools, headers, locks and certificates.
use arladkr_practicaladkr.Prelude.{
  ◌≤◌, ◌≡◌, ◌↔◌, ◌⊎◌, inl, refl, arith, some, List, [], ◌∷◌, length, replicate, All,
}
use arladkr_practicaladkr.Prelude.Int.{pos}
use arladkr_practicaladkr.Prelude.Bytes.{Bytes, beq}
use arladkr_practicaladkr.Util.{Collision, hash_bytes}
use arladkr_practicaladkr.Wire.{write_bytes, write_uint32, write_uint64, put_be}
use arladkr_practicaladkr.Apdb.Lock.{
  Lock, lock_domain, instance_digest, instance_domain, write_parts, lock_bytes,
}
use arladkr_practicaladkr.Pool.Share.{PoolCertificateShare}
use arladkr_practicaladkr.Pool.Header.RoundTrip.{header_bytes-decode_header}
use arladkr_practicaladkr.Pool.Header.{
  decode_header, Header, header_domain, component_label, component_instance_digest, write_header,
  header_bytes,
}
use arladkr_practicaladkr.Pool.Ref.{ComponentRef, ref_domain, ref_bytes}
use arladkr_practicaladkr.Pool.Offer.{
  Pool, pool_domain, digest_domain, pool_digest, write_refs, unsigned_bytes, pool_bytes,
  decode_pool,
}
use arladkr_practicaladkr.Pool.Offer.Order.{IsPool, pool_bytes-IsPool}
use arladkr_practicaladkr.Pool.Offer.RoundTrip.{sealed_pool, decode_pool-pool_bytes}
use arladkr_practicaladkr.Pool.Offer.Binding.{IsSendable, digest_binds_pool}
use arladkr_practicaladkr.Pool.Certificate.{PoolCertificate, certificate_bytes, decode_certificate}
use arladkr_practicaladkr.Pool.Certificate.RoundTrip.{decode_certificate_iff}
use arladkr_practicaladkr.Pool.Slot.{new_slot, observe_pool, mark_signed, observe_certificate}
use arladkr_practicaladkr.Pool.Slot.Runs.{
  Call, perform, offered, signing, certified, digest_of, accepted, signings, IsSlot,
  one_pool_one_signature,
}
use arladkr_practicaladkr.Tests.{toy_hash, get}

abbrev context : Bytes
context = replicate 32 1

abbrev root : Bytes
root = replicate 32 2

abbrev instance_of : Bytes
instance_of = get (component_instance_digest toy_hash context (pos 3))

abbrev header : Header
header = record {
  context_digest = context;
  dealer_id = pos 3;
  payload_digest = replicate 32 4;
  instance = instance_of;
  root = root;
}

abbrev lock : Lock
lock = record {
  instance_digest = instance_of;
  root = root;
  certificate = 9 ∷ [];
  canonical_wire = [];
}

abbrev header_wire : Bytes
header_wire = get (header_bytes toy_hash header)

abbrev lock_wire : Bytes
lock_wire = get (lock_bytes (some lock))

-- The wire is that of the header, and it decodes to the header.
header_encodes : header_bytes toy_hash header ≡ some header_wire
unfolding header_bytes write_header header_domain component_instance_digest component_label
    instance_digest instance_domain write_parts write_bytes write_uint32 write_uint64 put_be
    hash_bytes beq
header_encodes = refl

abbrev ref : ComponentRef
ref = record { header = header; lock = lock }

abbrev ref_wire : Bytes
ref_wire = get (ref_bytes toy_hash ref)

ref_encodes : ref_bytes toy_hash ref ≡ some ref_wire
unfolding ref_bytes ref_domain lock_bytes lock_domain header_bytes write_header header_domain
    component_instance_digest component_label instance_digest instance_domain write_parts
    write_bytes write_uint32 write_uint64 put_be hash_bytes beq
ref_encodes = refl

abbrev share : PoolCertificateShare
share = record { proposer_id = pos 2; pool_digest = root; signature = 7 ∷ [] }

abbrev unsigned : Bytes
unsigned = get (unsigned_bytes toy_hash context (pos 0) (ref ∷ []))

abbrev pool : Pool
pool = record {
  context_digest = context;
  proposer_id = pos 0;
  components = ref ∷ [];
  digest = pool_digest toy_hash unsigned;
}

abbrev pool_wire : Bytes
pool_wire = get (pool_bytes toy_hash 1 (some pool))

unsigned_encodes : unsigned_bytes toy_hash context (pos 0) (ref ∷ []) ≡ some unsigned
unfolding unsigned_bytes pool_domain write_refs ref_bytes ref_domain lock_bytes lock_domain
    header_bytes write_header header_domain component_instance_digest component_label
    instance_digest instance_domain write_parts write_bytes write_uint32 write_uint64 put_be
    hash_bytes beq
unsigned_encodes = refl

pool_encodes : pool_bytes toy_hash 1 (some pool) ≡ some pool_wire
unfolding pool_bytes pool_digest digest_domain unsigned_bytes pool_domain write_refs ref_bytes
    ref_domain lock_bytes lock_domain header_bytes write_header header_domain
    component_instance_digest component_label instance_digest instance_domain write_parts
    write_bytes write_uint32 write_uint64 put_be hash_bytes beq
pool_encodes = refl

length-unsigned : length unsigned ≤ 68157440
unfolding unsigned_bytes pool_domain write_refs ref_bytes ref_domain lock_bytes lock_domain
    header_bytes write_header header_domain component_instance_digest component_label
    instance_digest instance_domain write_parts write_bytes write_uint32 write_uint64 put_be
    hash_bytes beq
length-unsigned = omega arith

pool_bytes-IsPool_example : IsPool toy_hash 1 pool
pool_bytes-IsPool_example = pool_bytes-IsPool toy_hash 1 pool pool_wire pool_encodes

decode_pool-pool_bytes_example : decode_pool toy_hash 1 pool_wire ≡ some (sealed_pool pool)
decode_pool-pool_bytes_example =
    decode_pool-pool_bytes toy_hash 1 pool unsigned pool_wire (omega arith)
      ((omega arith, inl refl), tt) unsigned_encodes length-unsigned pool_encodes

pool_decodes : decode_pool toy_hash 1 pool_wire ≡ some (sealed_pool pool)
pool_decodes =
    decode_pool-pool_bytes toy_hash 1 pool unsigned pool_wire (omega arith)
      ((omega arith, inl refl), tt) unsigned_encodes length-unsigned pool_encodes

pool-IsSendable : IsSendable toy_hash pool
pool-IsSendable = record {
  proposer_int = omega arith;
  refs = ((omega arith, inl refl), tt);
  unsigned = unsigned;
  unsigned_encoded = unsigned_encodes;
  short = length-unsigned;
}

digest_binds_pool_example : (sealed_pool pool ≡ sealed_pool pool) ⊎ Collision toy_hash
digest_binds_pool_example =
    digest_binds_pool toy_hash 1 pool pool pool_wire pool_wire pool-IsSendable pool-IsSendable
      pool_encodes pool_encodes refl

abbrev certificate : PoolCertificate
certificate = record { pool_digest = root; certificate = 5 ∷ []; canonical_wire = [] }

abbrev certificate_wire : Bytes
certificate_wire = get (certificate_bytes (some certificate))

decode_certificate_iff_example :
    (decode_certificate certificate_wire
      ≡ some (record certificate { canonical_wire = certificate_wire }))
    ↔ ((certificate_wire ≡ certificate_wire)
        × (certificate_bytes (some certificate) ≡ some certificate_wire))
decode_certificate_iff_example =
    decode_certificate_iff (record certificate { canonical_wire = certificate_wire })
      certificate_wire

abbrev small_pool : Bytes → Pool
small_pool digest = record {
  context_digest = context;
  proposer_id = pos 0;
  components = [];
  digest = digest;
}

-- A second pool, a second signature and a certificate for another pool are refused.
abbrev calls : List Call
calls =
    offered (some (small_pool root))
    ∷ offered (some (small_pool context))
    ∷ signing root
    ∷ signing root
    ∷ certified (some (record certificate { pool_digest = context }))
    ∷ certified (some certificate)
    ∷ []

accepted-calls :
    (accepted new_slot calls).0
    ≡ offered (some (small_pool root)) ∷ signing root ∷ certified (some certificate) ∷ []
unfolding accepted perform observe_pool mark_signed observe_certificate beq
accepted-calls = refl

one_pool_one_signature_example :
    All (λ c. digest_of c ≡ (accepted new_slot calls).1.pool_digest) (accepted new_slot calls).0
    × (signings (accepted new_slot calls).0 ≤ 1)
    × IsSlot (accepted new_slot calls).1
one_pool_one_signature_example = one_pool_one_signature calls

header_bytes-decode_header_example :
    (header_bytes toy_hash header ≡ some header_wire)
    ↔ (decode_header toy_hash header_wire ≡ some header)
header_bytes-decode_header_example =
    header_bytes-decode_header toy_hash header header_wire (omega arith)
