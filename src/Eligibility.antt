-- ===== src/Eligibility.antt =====
-- core/cv_eligibility.go: the sample of proposers that a common coin selects, and how a node gathers
-- the coin's shares. Every share is kept under the digest of the session and epoch, so that the map of
-- maps is one map. The sort by digests is written as an insertion sort.
pub mod Order
pub mod Selection
pub mod Coin
pub mod Sizes
use Prim.Native.String.{String}
use arladkr_practicaladkr.Prelude.{
  ℕ, zero, suc, ◌+◌, Bool, true, false, not, ◌&&◌, ◌||◌, Option, none, some, List, [], ◌∷◌, ltb,
  leb, ◌==◌, if◌then◌else◌, length, take, ◌>>=◌, ◌>>◌, guard,
}
use arladkr_practicaladkr.Prelude.Int.{ℤ, eqb_ℤ}
use arladkr_practicaladkr.Prelude.Bytes.{Bytes, beq}
use arladkr_practicaladkr.Prelude.Text.{codes}
use arladkr_practicaladkr.Prelude.Members.{member}
use arladkr_practicaladkr.Prelude.Entries.{entry, keys, put}
use arladkr_practicaladkr.Util.{hash_bytes}
use arladkr_practicaladkr.Wire.{write_bytes, confirm}
use arladkr_practicaladkr.Wire.Fields.{read_domain, read_digest, read_last}
use arladkr_practicaladkr.Roster.{sorted_unique, encode_ints}
use arladkr_practicaladkr.Sampling.{Frac, frac_le, binomial}
use arladkr_practicaladkr.Apdb.Lock.{max_signature}
use arladkr_practicaladkr.Apdb.Holder.{Signer}

-- cvEligibilityCoinDomain
unfoldable pub coin_domain : Bytes
coin_domain = codes "ARL-CV-sAPVSS/eligibility-coin/v1"

-- The loop of cvEligibilitySampleSize: the rounds left and the sample.
unfoldable pub sample_from : ℕ → ℕ → Frac → ℕ → ℕ → Option ℕ
sample_from n f bound zero c = none
sample_from n f bound (suc left) c =
    let rest = sample_from n f bound left (suc c) in
    let failure : Frac = record { num = binomial f c; den = binomial n c } in
    if ltb f c || frac_le failure bound then some c else rest

-- `cvEligibilitySampleSize`
unfoldable pub sample_size : ℕ → ℕ → ℕ → ℕ → Option ℕ
sample_size n f max_numerator max_denominator = do
  guard (not (n == 0) && ltb f n && not (max_numerator == 0) && ltb max_numerator max_denominator)
  sample_from n f (record { num = max_numerator; den = max_denominator }) n 1

-- `string(a) < string(b)`
unfoldable pub digest_lt : Bytes → Bytes → Bool
digest_lt [] [] = false
digest_lt [] (y ∷ ys) = true
digest_lt (x ∷ xs) [] = false
digest_lt (x ∷ xs) (y ∷ ys) = ltb x y || (x == y && digest_lt xs ys)

unfoldable pub insert_key : ℤ × Bytes → List (ℤ × Bytes) → List (ℤ × Bytes)
insert_key k [] = k ∷ []
insert_key k (x ∷ xs) =
    let rest = insert_key k xs in if digest_lt (x.1) (k.1) then x ∷ rest else k ∷ x ∷ xs

-- `sort.Slice` by the digests
unfoldable pub sort_keys : List (ℤ × Bytes) → List (ℤ × Bytes)
sort_keys [] = []
sort_keys (k ∷ ks) = insert_key k (sort_keys ks)

module _ (sha256 : Bytes → Bytes) where
  unfoldable pub key_of : Bytes → ℤ → Bytes
  key_of coin id = hash_bytes sha256 (coin_domain ∷ coin ∷ encode_ints (id ∷ []) ∷ [])

  -- The loop of cvEligibilityProposerSet that hashes.
  unfoldable pub with_keys : Bytes → List ℤ → List (ℤ × Bytes)
  with_keys coin [] = []
  with_keys coin (id ∷ ids) = (id, key_of coin id) ∷ with_keys coin ids

  -- `cvEligibilityProposerSet`, for c and f that are not negative
  unfoldable pub proposer_set : List ℤ → ℕ → ℕ → Bytes → Option (List ℤ)
  proposer_set roster c f coin = do
    guard (not (length coin == 0) && not (c == 0) && leb c (length roster) && ltb f (length roster))
    let ordered = sorted_unique roster
    guard (length ordered == length roster && leb c (length ordered))
    some (keys (take c (sort_keys (with_keys coin ordered))))

  -- `cvEligibilityCoinInput`
  unfoldable pub coin_input : Bytes → ℤ → Bytes
  coin_input sid epoch = hash_bytes sha256 (coin_domain ∷ sid ∷ encode_ints (epoch ∷ []) ∷ [])

-- `cvEligibilityShareCanonicalBytes`
unfoldable pub coin_share_bytes : Bytes → Bytes → Option Bytes
coin_share_bytes digest signature =
    if not (length digest == 32) || length signature == 0 || ltb max_signature (length signature)
    then none
    else let w1 = (write_bytes [] coin_domain).0 in
      let w2 = (write_bytes w1 digest).0 in some (write_bytes w2 signature).0

-- `cvDecodeEligibilityShare`
unfoldable pub decode_coin_share : Bytes → Option (Bytes × Bytes)
decode_coin_share wire = do
  r1 ← read_domain coin_domain wire
  (digest, r2) ← read_digest r1
  signature ← read_last max_signature r2
  confirm wire (coin_share_bytes digest signature) (digest, signature)

-- The fields of cvComponentService that the coin uses.
pub record Service : Type 0 where
  pub sid : Bytes
  pub epoch : ℤ
  pub local_node : ℤ
  pub old_members : List ℤ
  pub eligibility_shares : List (ℤ × Bytes)

abbrev with_share : ℤ → Bytes → Service → Service
with_share m share s = record s { eligibility_shares = put m share s.eligibility_shares }

unfoldable pub peers_of : ℤ → List ℤ → List ℤ
peers_of local [] = []
peers_of local (target ∷ targets) =
    let rest = peers_of local targets in if eqb_ℤ target local then rest else target ∷ rest

module _ (sha256 : Bytes → Bytes) (signer : Signer) where
  abbrev pub input : Service → Bytes
  input s = coin_input sha256 s.sid s.epoch

  -- CollectEligibilityCoin up to the broadcast: the node's own share is kept, and sent to the others;
  -- how many of them it could be sent to is an argument.
  unfoldable pub start_coin : ℕ → Service → Service × Bool
  start_coin sent s = elim (signer.sign_share s.local_node coin_domain (input s)) [
    | none ↦ (s, false)
    | some share ↦ (
      with_share s.local_node share s,
      elim (coin_share_bytes (input s) share) [
        | none ↦ false
        | some wire ↦ not (ltb sent (length (peers_of s.local_node s.old_members)))
      ],
    )
  ]

  -- A round of the loop of CollectEligibilityCoin that finds enough shares; none while there are too
  -- few, or on an error.
  unfoldable pub recover_coin : Service → Option Bytes
  recover_coin s = do
    guard (leb signer.threshold (length s.eligibility_shares))
    coin ← signer.recover coin_domain (input s) s.eligibility_shares
    guard (signer.verify_recovered coin_domain (input s) coin)
    some coin

  -- handleEligibilityShare up to its first locked section: the signature of a share for this epoch.
  unfoldable pub open_share : ℤ → Bytes → Service → Option Bytes
  open_share from body s = do
    (digest, signature) ← decode_coin_share body
    guard (beq digest (input s))
    guard (member from s.old_members)
    some signature

  abbrev pub has_share : ℤ → Service → Bool
  has_share from s = elim (entry from s.eligibility_shares) [ none ↦ false | some share ↦ true ]

  -- Behind that section, in a state that may have changed since: the signature is checked and kept, if
  -- none came first.
  unfoldable pub keep_share : ℤ → Bytes → Service → Service
  keep_share from signature s =
      if signer.verify_share from coin_domain (input s) signature && not (has_share from s)
      then with_share from signature s
      else s

  -- `handleEligibilityShare`, with nothing in between
  unfoldable pub handle_eligibility_share : ℤ → Bytes → Service → Service
  handle_eligibility_share from body s = elim (open_share from body s) [
    | none ↦ s
    | some signature ↦ if has_share from s then s else keep_share from signature s
  ]
