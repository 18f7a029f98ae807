-- ===== src/Eligibility/Coin.antt =====
-- However shares of the coin come in: the ones kept are valid and of different members, and enough of
-- them give the coin.
use mathlib.Core.Path.{subst}
use arladkr_practicaladkr.Prelude.{
  ℕ, ◌≤◌, ◌≡◌, refl, sym, inl, inr, true, not, ◌&&◌, none, some, List, [], ◌∷◌, le→leb, length, All,
  Bool-cases, Option-cases, &&-left,
}
use arladkr_practicaladkr.Prelude.Int.{ℤ}
use arladkr_practicaladkr.Prelude.Bytes.{Bytes}
use arladkr_practicaladkr.Prelude.Members.{Distinct}
use arladkr_practicaladkr.Prelude.Entries.{keys, put-Distinct, put-All}
use arladkr_practicaladkr.Apdb.Holder.{Signer}
use arladkr_practicaladkr.Eligibility.{
  coin_domain, Service, with_share, input, start_coin, recover_coin, open_share, has_share,
  keep_share, handle_eligibility_share,
}

-- What the signature scheme promises: its own shares are valid, and from at least as many valid shares
-- of different members as the threshold it recovers a signature that verifies.
pub record IsCoinScheme (signer : Signer) : Type 0 where
  pub signs :
      (m : ℤ) (digest share : Bytes)
      → signer.sign_share m coin_domain digest ≡ some share
      → signer.verify_share m coin_domain digest share ≡ true
  pub recovers :
      (digest : Bytes) (shares : List (ℤ × Bytes))
      → signer.threshold ≤ length shares
      → Distinct (keys shares)
      → All (λ e. signer.verify_share e.0 coin_domain digest e.1 ≡ true) shares
      → (coin : Bytes) × (signer.recover coin_domain digest shares ≡ some coin)
        × (signer.verify_recovered coin_domain digest coin ≡ true)

-- What changes the shares: the node starts the coin, or the handler keeps a share that it has opened,
-- in whatever state the others have left.
pub data Step : Type 0 where
  started : ℕ → Step
  opened : ℤ → Bytes → Step

module _ (sha256 : Bytes → Bytes) (signer : Signer) where
  unfoldable pub after : Step → Service → Service
  after (started sent) s = (start_coin sha256 signer sent s).0
  after (opened from body) s = elim (open_share sha256 signer from body s) [
    | none ↦ s
    | some signature ↦ keep_share sha256 signer from signature s
  ]

  unfoldable pub after_all : List Step → Service → Service
  after_all [] s = s
  after_all (step ∷ steps) s = after_all steps (after step s)

  abbrev IsValid : Bytes → ℤ × Bytes → Type 0
  IsValid digest e = signer.verify_share e.0 coin_domain digest e.1 ≡ true

  pub record Kept (digest : Bytes) (s : Service) : Type 0 where
    pub digest_same : input sha256 signer s ≡ digest
    pub valid : All (IsValid digest) s.eligibility_shares
    pub distinct : Distinct (keys s.eligibility_shares)

  with_share-Kept :
      (digest : Bytes) (m : ℤ) (share : Bytes) (s : Service)
      → IsValid digest (m, share)
      → Kept digest s
      → Kept digest (with_share m share s)
  with_share-Kept digest m share s v k = record {
    digest_same = k.digest_same;
    valid = put-All (IsValid digest) m share s.eligibility_shares v k.valid;
    distinct = put-Distinct m share s.eligibility_shares k.distinct;
  }

  keep_share-Kept :
      (digest : Bytes) (from : ℤ) (signature : Bytes) (s : Service)
      → Kept digest s
      → Kept digest (keep_share sha256 signer from signature s)
  unfolding keep_share
  keep_share-Kept digest from signature s k =
      let valid = signer.verify_share from coin_domain (input sha256 signer s) signature in
      elim (Bool-cases (valid && not (has_share sha256 signer from s))) [
        | inl fresh ↦ rw fresh (
            with_share-Kept digest from signature s
              (subst (λ d. signer.verify_share from coin_domain d signature ≡ true) k.digest_same
                (&&-left valid _ fresh))
              k)
        | inr refused ↦ rw refused k
      ]

  after-Kept :
      (digest : Bytes) (step : Step) (s : Service)
      → IsCoinScheme signer
      → Kept digest s
      → Kept digest (after step s)
  unfolding after start_coin
  after-Kept digest (started sent) s scheme k =
      elim (Option-cases (signer.sign_share s.local_node coin_domain (input sha256 signer s))) [
        | inl refused ↦ rw (refused, start_coin, after) k
        | inr (share, signed) ↦
            rw (signed, start_coin, after)
              (with_share-Kept digest s.local_node share s
                (subst (λ d. signer.verify_share s.local_node coin_domain d share ≡ true)
                  k.digest_same (scheme.signs s.local_node (input sha256 signer s) share signed))
                k)
      ]
  after-Kept digest (opened from body) s scheme k =
      elim (Option-cases (open_share sha256 signer from body s)) [
        | inl refused ↦ rw (refused, after) k
        | inr (signature, there) ↦ rw (there, after) (keep_share-Kept digest from signature s k)
      ]

  after_all-Kept :
      (digest : Bytes) (steps : List Step) (s : Service)
      → IsCoinScheme signer
      → Kept digest s
      → Kept digest (after_all steps s)
  unfolding after_all
  after_all-Kept digest [] s scheme k = k
  after_all-Kept digest (step ∷ steps) s scheme k =
      after_all-Kept digest steps (after step s) scheme (after-Kept digest step s scheme k)

  no_second :
      (from : ℤ) (signature : Bytes) (s : Service)
      → has_share sha256 signer from s ≡ true
      → keep_share sha256 signer from signature s ≡ s
  unfolding keep_share
  no_second from signature s known =
      elim (Bool-cases (signer.verify_share from coin_domain (input sha256 signer s) signature)) [
        | inl valid ↦ rw (valid, known) refl
        | inr invalid ↦ rw invalid refl
      ]

  -- The handler with nothing in between is its step.
  handle_eligibility_share-opened :
      (from : ℤ) (body : Bytes) (s : Service)
      → handle_eligibility_share sha256 signer from body s ≡ after (opened from body) s
  unfolding handle_eligibility_share after
  handle_eligibility_share-opened from body s =
      elim (Option-cases (open_share sha256 signer from body s)) [
        | inl refused ↦ rw (refused, handle_eligibility_share, after)
        | inr (signature, there) ↦
            rw (there, handle_eligibility_share, after)
              (elim (Bool-cases (has_share sha256 signer from s)) [
                | inl known ↦ rw known (sym (no_second from signature s known))
                | inr new ↦ rw new refl
              ])
      ]

  -- When the scheme makes valid shares and recovers from as many valid shares of different
  -- members as the threshold: for a service without shares and after any order of starts and
  -- handled shares, once as many shares as the threshold are kept, the next round of
  -- CollectEligibilityCoin returns a coin that verifies.
  pub enough_shares_make_coin :
      (steps : List Step) (s : Service)
      → IsCoinScheme signer
      → s.eligibility_shares ≡ []
      → signer.threshold ≤ length (after_all steps s).eligibility_shares
      → (coin : Bytes) × (recover_coin sha256 signer (after_all steps s) ≡ some coin)
        × (signer.verify_recovered coin_domain (input sha256 signer s) coin ≡ true)
  unfolding recover_coin
  enough_shares_make_coin steps s scheme empty many =
      let digest = input sha256 signer s in
      let t = after_all steps s in
      let k =
        after_all-Kept digest steps s scheme
          (record { digest_same = refl; valid = rw empty tt; distinct = rw empty tt }) in
      let (coin, recovered, verified) =
        scheme.recovers digest t.eligibility_shares many k.distinct k.valid in
      (
        coin,
        rw (
          le→leb signer.threshold (length t.eligibility_shares) many,
          k.digest_same,
          recovered,
          verified,
        ),
        verified,
      )
