-- ===== src/Pool/Offer/Order.antt =====
-- What the order test of a pool's components gives: the dealers are pairwise distinct, none is
-- negative, and every component belongs to the pool's context.
use arladkr_practicaladkr.Prelude.{
  ℕ, ◌≡◌, refl, Bool, true, false, not, Option, some, List, [], ◌∷◌, arith, length, All, ◌>>=◌,
  ◌>>◌, guard, guard->>, >>=-eq-some,
}
use arladkr_practicaladkr.Prelude.Int.{ℤ, pos, negsuc, is_neg, leb_ℤ, ◌<ℤ◌}
use arladkr_practicaladkr.Prelude.Bytes.{Bytes, beq, beq→eq}
use arladkr_practicaladkr.Prelude.Members.{Distinct}
use arladkr_practicaladkr.Prelude.Ascending.{Above, Above-weaken, not-member_of_Above}
use arladkr_practicaladkr.Wire.{write_bytes}
use arladkr_practicaladkr.Pool.Ref.{ComponentRef, ref_bytes}
use arladkr_practicaladkr.Pool.Offer.{Pool, write_refs, unsigned_bytes, pool_digest, pool_bytes}

abbrev pub dealers : List ComponentRef → List ℤ
dealers [] = []
dealers (ref ∷ refs) = ref.header.dealer_id ∷ dealers refs

-- One round of the loop that did not fail.
pub record Round (sha256 : Bytes → Bytes) (context unsigned : Bytes) (last : ℤ) (ref : ComponentRef)
    (refs : List ComponentRef) (out : Bytes) : Type 0 where
  pub ref_wire : Bytes
  pub later : leb_ℤ ref.header.dealer_id last ≡ false
  pub same_context : ref.header.context_digest ≡ context
  pub ref_encoded : ref_bytes sha256 ref ≡ some ref_wire
  pub rest :
      write_refs sha256 context (write_bytes unsigned ref_wire).0 ref.header.dealer_id refs
      ≡ some out

module _ (sha256 : Bytes → Bytes) (context : Bytes) where
  pub write_refs-round :
      (unsigned : Bytes) (last : ℤ) (ref : ComponentRef) (refs : List ComponentRef) (out : Bytes)
      → write_refs sha256 context unsigned last (ref ∷ refs) ≡ some out
      → Round sha256 context unsigned last ref refs out
  unfolding write_refs
  write_refs-round unsigned last ref refs out e =
      let chain = body-of e in
      let (ref_wire, encoded, rest) = >>=-eq-some (ref_bytes sha256 ref) _ chain in
      record {
        ref_wire = ref_wire;
        later = ground (arith, e);
        same_context = beq→eq ref.header.context_digest context (ground (arith, e));
        ref_encoded = encoded;
        rest = rest;
      }
    where
      body-of :
          write_refs sha256 context unsigned last (ref ∷ refs) ≡ some out
          → (ref_bytes sha256 ref >>= λ w.
              write_refs sha256 context (write_bytes unsigned w).0 ref.header.dealer_id refs)
            ≡ some out
      body-of h = ground arith

  write_refs-order :
      (unsigned : Bytes) (last : ℤ) (refs : List ComponentRef) (out : Bytes)
      → write_refs sha256 context unsigned last refs ≡ some out
      → Above last (dealers refs)
        × Distinct (dealers refs)
        × All (λ ref. ref.header.context_digest ≡ context) refs
  write_refs-order unsigned last [] out e = (tt, tt, tt)
  write_refs-order unsigned last (ref ∷ refs) out e =
      let round = write_refs-round unsigned last ref refs out e in
      let d = ref.header.dealer_id in
      let (above, distinct, contexts) =
        write_refs-order (write_bytes unsigned round.ref_wire).0 d refs out round.rest in
      let below : ◌<ℤ◌ last d = ground (arith, round.later) in
      (
        (below, Above-weaken last d (dealers refs) below above),
        (not-member_of_Above d (dealers refs) above, distinct),
        (round.same_context, contexts),
      )

  unsigned_bytes-refs :
      (proposer : ℤ) (refs : List ComponentRef) (out : Bytes)
      → unsigned_bytes sha256 context proposer refs ≡ some out
      → (buffer : Bytes) × (write_refs sha256 context buffer (negsuc 0) refs ≡ some out)
  unfolding unsigned_bytes
  unsigned_bytes-refs proposer refs out e =
      let (fits, rest) = guard->> _ (write_refs sha256 context _ (negsuc 0) refs) e in (_, rest)

abbrev pub is_nonneg : ℤ → Bool
is_nonneg d = not (is_neg d)

nonneg_of_Above : (ds : List ℤ) → Above (negsuc 0) ds → All (λ d. is_nonneg d ≡ true) ds
nonneg_of_Above [] h = tt
nonneg_of_Above (pos n ∷ ds) h = (refl, nonneg_of_Above ds h.1)
nonneg_of_Above (negsuc n ∷ ds) h = absurd (omega (arith, h.0))

-- What every encoded pool satisfies.
pub record IsPool (sha256 : Bytes → Bytes) (pool_size : ℕ) (pool : Pool) : Type 0 where
  pub proposer_nonneg : is_nonneg pool.proposer_id ≡ true
  pub size : length pool.components ≡ pool_size
  pub distinct : Distinct (dealers pool.components)
  pub nonneg : All (λ d. is_nonneg d ≡ true) (dealers pool.components)
  pub contexts : All (λ ref. ref.header.context_digest ≡ pool.context_digest) pool.components
  pub unsigned : Bytes
  pub unsigned_encoded :
      unsigned_bytes sha256 pool.context_digest pool.proposer_id pool.components ≡ some unsigned
  pub digest_bound : pool.digest ≡ pool_digest sha256 unsigned

-- A successful encoding, taken apart.
pub record Parts (sha256 : Bytes → Bytes) (pool_size : ℕ) (pool : Pool) (w : Bytes) : Type 0 where
  pub context_size : length pool.context_digest ≡ 32
  pub proposer_nonneg : is_nonneg pool.proposer_id ≡ true
  pub size : length pool.components ≡ pool_size
  pub digest_size : length pool.digest ≡ 32
  pub unsigned : Bytes
  pub unsigned_encoded :
      unsigned_bytes sha256 pool.context_digest pool.proposer_id pool.components ≡ some unsigned
  pub digest_bound : pool.digest ≡ pool_digest sha256 unsigned
  pub wire : (write_bytes (write_bytes [] unsigned).0 pool.digest).0 ≡ w

module _ (sha256 : Bytes → Bytes) (pool_size : ℕ) where
  signed : Pool → Option Bytes
  signed pool = do
    unsigned ← unsigned_bytes sha256 pool.context_digest pool.proposer_id pool.components
    guard (beq pool.digest (pool_digest sha256 unsigned))
    some (write_bytes (write_bytes [] unsigned).0 pool.digest).0

  pool_bytes-signed :
      (pool : Pool) (w : Bytes)
      → pool_bytes sha256 pool_size (some pool) ≡ some w
      → signed pool ≡ some w
  unfolding pool_bytes signed
  pool_bytes-signed pool w e = ground arith

  pub pool_bytes-Parts :
      (pool : Pool) (w : Bytes)
      → pool_bytes sha256 pool_size (some pool) ≡ some w
      → Parts sha256 pool_size pool w
  unfolding pool_bytes signed
  pool_bytes-Parts pool w e =
      let (unsigned, encoded, rest) = >>=-eq-some _ _ (pool_bytes-signed pool w e) in
      let (bound, done) = guard->> (beq pool.digest (pool_digest sha256 unsigned)) (some _) rest in
      record {
        context_size = ground arith;
        proposer_nonneg = ground arith;
        size = ground arith;
        digest_size = ground arith;
        unsigned = unsigned;
        unsigned_encoded = encoded;
        digest_bound = beq→eq pool.digest (pool_digest sha256 unsigned) bound;
        wire = cc done;
      }

  -- A pool that encodes has as many components as the parameters ask for, of pairwise distinct,
  -- non-negative dealers and all of the context of the pool; its proposer is not negative and its
  -- digest is that of its unsigned body.
  pub pool_bytes-IsPool :
      (pool : Pool) (w : Bytes)
      → pool_bytes sha256 pool_size (some pool) ≡ some w
      → IsPool sha256 pool_size pool
  pool_bytes-IsPool pool w e =
      let parts = pool_bytes-Parts pool w e in
      let (buffer, loop) =
        unsigned_bytes-refs sha256 pool.context_digest pool.proposer_id pool.components
          parts.unsigned parts.unsigned_encoded in
      let (above, distinct, contexts) =
        write_refs-order sha256 pool.context_digest buffer (negsuc 0) pool.components parts.unsigned
          loop in
      record {
        proposer_nonneg = parts.proposer_nonneg;
        size = parts.size;
        distinct = distinct;
        nonneg = nonneg_of_Above (dealers pool.components) above;
        contexts = contexts;
        unsigned = parts.unsigned;
        unsigned_encoded = parts.unsigned_encoded;
        digest_bound = parts.digest_bound;
      }
