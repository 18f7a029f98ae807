-- ===== src/Pool/Offer/Binding.antt =====
-- What a pool digest commits to: the same digest on two encoded pools gives the same pool, or two
-- inputs on which SHA-256 collides.
use mathlib.Core.List.{append-nil}
use arladkr_practicaladkr.Prelude.{
  ℕ, ◌≤◌, ◌≡◌, sym, ap, ◌∙◌, ◌⊎◌, inl, inr, some, [], ◌∷◌, ◌++◌, length, drop, drop-append, All,
}
use arladkr_practicaladkr.Prelude.Bytes.{Bytes}
use arladkr_practicaladkr.Util.{concat, Collision, hash_bytes-Collision}
use arladkr_practicaladkr.Wire.{IsInt}
use arladkr_practicaladkr.Pool.Ref.{max_payload}
use arladkr_practicaladkr.Pool.Offer.{Pool, digest_domain, unsigned_bytes, pool_digest, pool_bytes}
use arladkr_practicaladkr.Pool.Offer.Order.{pool_bytes-Parts}
use arladkr_practicaladkr.Pool.Offer.RoundTrip.{IsRef, sealed_pool, decode_pool-pool_bytes}

unsigned_of : Bytes → Bytes
unsigned_of hashed = drop (length digest_domain) hashed

unsigned_of_hashed : (u : Bytes) → unsigned_of (concat (digest_domain ∷ u ∷ [])) ≡ u
unfolding unsigned_of
unsigned_of_hashed u = drop-append digest_domain (u ++ []) ∙ append-nil u

pool_digest-binds :
    (sha256 : Bytes → Bytes) (u v : Bytes)
    → pool_digest sha256 u ≡ pool_digest sha256 v
    → (u ≡ v) ⊎ Collision sha256
unfolding pool_digest
pool_digest-binds sha256 u v e =
    elim (hash_bytes-Collision sha256 (digest_domain ∷ u ∷ []) (digest_domain ∷ v ∷ []) e) [
      | inl same ↦ inl (sym (unsigned_of_hashed u) ∙ ap unsigned_of same ∙ unsigned_of_hashed v)
      | inr collision ↦ inr collision
    ]

-- A pool that Go can hold and that fits a network payload.
pub record IsSendable (sha256 : Bytes → Bytes) (pool : Pool) : Type 0 where
  pub proposer_int : IsInt pool.proposer_id
  pub refs : All IsRef pool.components
  pub unsigned : Bytes
  pub unsigned_encoded :
      unsigned_bytes sha256 pool.context_digest pool.proposer_id pool.components ≡ some unsigned
  pub short : length unsigned ≤ max_payload

module _ (sha256 : Bytes → Bytes) (pool_size : ℕ) where
  -- Two sendable pools that encode and carry one digest are the same pool, but for the wires that
  -- their locks keep, unless SHA-256 has a collision, which is then given.
  pub digest_binds_pool :
      (p q : Pool) (wp wq : Bytes)
      → IsSendable sha256 p
      → IsSendable sha256 q
      → pool_bytes sha256 pool_size (some p) ≡ some wp
      → pool_bytes sha256 pool_size (some q) ≡ some wq
      → p.digest ≡ q.digest
      → (sealed_pool p ≡ sealed_pool q) ⊎ Collision sha256
  digest_binds_pool p q wp wq sp sq ep eq same =
      let pp = pool_bytes-Parts sha256 pool_size p wp ep in
      let pq = pool_bytes-Parts sha256 pool_size q wq eq in
      elim (pool_digest-binds sha256 pp.unsigned pq.unsigned
        (sym pp.digest_bound ∙ same ∙ pq.digest_bound)) [
          | inl e ↦
              let dp =
                decode_pool-pool_bytes sha256 pool_size p sp.unsigned wp sp.proposer_int sp.refs
                  sp.unsigned_encoded sp.short ep in
              let dq =
                decode_pool-pool_bytes sha256 pool_size q sq.unsigned wq sq.proposer_int sq.refs
                  sq.unsigned_encoded sq.short eq in
              inl (cc (e, same, pp.wire, pq.wire, dp, dq))
          | inr c ↦ inr c
        ]
