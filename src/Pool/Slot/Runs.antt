-- ===== src/Pool/Slot/Runs.antt =====
-- Sequences of calls on one pool slot: whatever order pools, signatures and certificates come in,
-- the slot accepts those of one digest, and one signature.
use arladkr_practicaladkr.Prelude.{
  ℕ, ◌+◌, ◌≤◌, ◌≡◌, refl, sym, ◌∙◌, inl, inr, true, false, Option, none, some, List, [], ◌∷◌, arith,
  if◌then◌else◌, length, Option-cases, All,
}
use arladkr_practicaladkr.Prelude.Bytes.{Bytes, beq→eq}
use arladkr_practicaladkr.Pool.Offer.{Pool}
use arladkr_practicaladkr.Pool.Certificate.{PoolCertificate}
use arladkr_practicaladkr.Pool.Slot.{
  SlotState, new_slot, observe_pool, mark_signed, observe_certificate,
}

-- A call of one of the three methods.
pub data Call : Type 0 where
  offered : Option Pool → Call
  signing : Bytes → Call
  certified : Option PoolCertificate → Call

unfoldable pub perform : Call → SlotState → Option SlotState
perform (offered pool) s = observe_pool pool s
perform (signing digest) s = mark_signed digest s
perform (certified c) s = observe_certificate c s

-- The digest that a call is about.
abbrev pub digest_of : Call → Bytes
digest_of (offered none) = []
digest_of (offered (some pool)) = pool.digest
digest_of (signing digest) = digest
digest_of (certified none) = []
digest_of (certified (some c)) = c.pool_digest

abbrev pub is_signing : Call → ℕ
is_signing (offered pool) = 0
is_signing (signing digest) = 1
is_signing (certified c) = 0

-- The calls of a sequence that succeed, and the state after it.
unfoldable pub accepted : SlotState → List Call → List Call × SlotState
accepted s [] = ([], s)
accepted s (c ∷ cs) = elim (perform c s) [
  | none ↦ accepted s cs
  | some s' ↦ let (ok, final) = accepted s' cs in (c ∷ ok, final)
]

abbrev pub signings : List Call → ℕ
signings [] = 0
signings (c ∷ cs) = is_signing c + signings cs

-- What the fields say about each other.
pub record IsSlot (s : SlotState) : Type 0 where
  pub seen_digest : s.pool_seen ≡ true → length s.pool_digest ≡ 32
  pub signed_seen : s.signed ≡ true → s.pool_seen ≡ true
  pub cert_seen_seen : s.cert_seen ≡ true → s.pool_seen ≡ true

-- What an accepted call leaves: the slot has seen the pool, the call is about its digest, a digest
-- already seen is kept, and a signature is the first.
record Accepted (c : Call) (s s' : SlotState) : Type 0 where
  seen : s'.pool_seen ≡ true
  about : digest_of c ≡ s'.pool_digest
  kept : s.pool_seen ≡ true → s'.pool_digest ≡ s.pool_digest
  first : is_signing c ≡ 1 → (s.signed ≡ false) × (s'.signed ≡ true)
  still_signed : s.signed ≡ true → s'.signed ≡ true

perform-Accepted : (c : Call) (s s' : SlotState) → perform c s ≡ some s' → Accepted c s s'
unfolding perform observe_pool mark_signed observe_certificate
perform-Accepted (offered none) s s' h = cc
perform-Accepted (offered (some pool)) s s' h = ground (arith, beq→eq s.pool_digest pool.digest)
perform-Accepted (signing digest) s s' h = ground (arith, beq→eq s.pool_digest digest)
perform-Accepted (certified none) s s' h = cc
perform-Accepted (certified (some c)) s s' h = ground (arith, beq→eq s.pool_digest c.pool_digest)

perform-IsSlot : (c : Call) (s s' : SlotState) → IsSlot s → perform c s ≡ some s' → IsSlot s'
unfolding perform observe_pool mark_signed observe_certificate
perform-IsSlot (offered none) s s' v h = cc
perform-IsSlot (offered (some pool)) s s' v h = ground (arith, v)
perform-IsSlot (signing digest) s s' v h = ground (arith, v)
perform-IsSlot (certified none) s s' v h = cc
perform-IsSlot (certified (some c)) s s' v h = ground (arith, v)

-- After any calls on a new slot: the fields agree with each other.
accepted-IsSlot : (s : SlotState) (cs : List Call) → IsSlot s → IsSlot (accepted s cs).1
unfolding accepted
accepted-IsSlot s [] v = v
accepted-IsSlot s (c ∷ cs) v = elim (Option-cases (perform c s)) [
  | inl refused ↦ rw (refused, accepted) (accepted-IsSlot s cs v)
  | inr (s', taken) ↦ rw (taken, accepted) (accepted-IsSlot s' cs (perform-IsSlot c s s' v taken))
]

accepted-kept :
    (s : SlotState) (cs : List Call)
    → s.pool_seen ≡ true
    → ((accepted s cs).1.pool_seen ≡ true) × ((accepted s cs).1.pool_digest ≡ s.pool_digest)
unfolding accepted
accepted-kept s [] seen = (seen, refl)
accepted-kept s (c ∷ cs) seen = elim (Option-cases (perform c s)) [
  | inl refused ↦ rw (refused, accepted) (accepted-kept s cs seen)
  | inr (s', taken) ↦
      let a = perform-Accepted c s s' taken in
      let (seen', kept) = accepted-kept s' cs a.seen in
      rw (taken, accepted) (seen', kept ∙ a.kept seen)
]

accepted-about :
    (s : SlotState) (cs : List Call)
    → All (λ c. digest_of c ≡ (accepted s cs).1.pool_digest) (accepted s cs).0
unfolding accepted
accepted-about s [] = tt
accepted-about s (c ∷ cs) = elim (Option-cases (perform c s)) [
  | inl refused ↦ rw (refused, accepted) (accepted-about s cs)
  | inr (s', taken) ↦
      let a = perform-Accepted c s s' taken in
      rw (taken, accepted) (a.about ∙ sym (accepted-kept s' cs a.seen).1, accepted-about s' cs)
]

-- How many signatures a state still allows.
abbrev allowed : SlotState → ℕ
allowed s = if s.signed then 0 else 1

perform-allowed :
    (c : Call) (s s' : SlotState) → perform c s ≡ some s' → is_signing c + allowed s' ≤ allowed s
perform-allowed c s s' taken = ground (arith, perform-Accepted c s s' taken)

accepted-allowed : (s : SlotState) (cs : List Call) → signings (accepted s cs).0 ≤ allowed s
unfolding accepted
accepted-allowed s [] = ground arith
accepted-allowed s (c ∷ cs) = elim (Option-cases (perform c s)) [
  | inl refused ↦ rw (refused, accepted) (accepted-allowed s cs)
  | inr (s', taken) ↦
      rw (taken, accepted) (omega (arith, perform-allowed c s s' taken, accepted-allowed s' cs))
]

new_slot-IsSlot : IsSlot new_slot
new_slot-IsSlot = record { seen_digest = λ h. cc; signed_seen = λ h. cc; cert_seen_seen = λ h. cc }

-- For any sequence of calls on a new slot: all calls that succeed carry the digest that the slot
-- ends with, at most one of them signs, and at the end a signature or a certificate implies that
-- a pool with a 32-byte digest was seen.
pub one_pool_one_signature :
    (cs : List Call)
    → All (λ c. digest_of c ≡ (accepted new_slot cs).1.pool_digest) (accepted new_slot cs).0
      × (signings (accepted new_slot cs).0 ≤ 1)
      × IsSlot (accepted new_slot cs).1
one_pool_one_signature cs = (
  accepted-about new_slot cs,
  accepted-allowed new_slot cs,
  accepted-IsSlot new_slot cs new_slot-IsSlot,
)
