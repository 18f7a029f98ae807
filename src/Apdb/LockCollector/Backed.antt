-- ===== src/Apdb/LockCollector/Backed.antt =====
-- Whatever order shares come in and however workers interleave: the shares kept verify and are of
-- different holders, and enough of them make a lock.
use mathlib.Core.Path.{subst}
use arladkr_practicaladkr.Prelude.{
  ◌≤◌, ◌≡◌, refl, ap, ◌∙◌, inl, inr, Bool, true, false, not, ◌&&◌, none, some, List, [], ◌∷◌, arith,
  ◌==◌, if◌then◌else◌, length, All, Bool-cases, Option-cases, guard->>, some-inj, &&-right,
}
use arladkr_practicaladkr.Prelude.Int.{ℤ}
use arladkr_practicaladkr.Prelude.Bytes.{Bytes, beq}
use arladkr_practicaladkr.Prelude.Members.{member, Distinct}
use arladkr_practicaladkr.Prelude.Entries.{entry, keys, entry-none}
use arladkr_practicaladkr.Apdb.StoredShare.{StoredShare}
use arladkr_practicaladkr.Apdb.Holder.{Signer, stored_domain}
use arladkr_practicaladkr.Apdb.LockCollector.{LockCollector, enough, commit_share, from_holder}

-- A section of a worker: one that has checked that the sender is a holder commits its share.
pub data Section : Type 0 where
  share_committed : ℤ → StoredShare → Bytes → Section

module _ (sha256 : Bytes → Bytes) (signer : Signer) where
  unfoldable pub after : Section → LockCollector → LockCollector
  after (share_committed from response wire) c =
      if from_holder from wire c
      then elim (commit_share sha256 signer from response wire c) [
        | none ↦ c
        | some (c', done) ↦ c'
      ]
      else c

  unfoldable pub after_all : List Section → LockCollector → LockCollector
  after_all [] c = c
  after_all (s ∷ sections) c = after_all sections (after s c)

  -- A share that is kept for a holder is one for the statement.
  abbrev pub IsShare : LockCollector → ℤ × Bytes → Type 0
  IsShare c e =
      (member e.0 c.old_roster ≡ true)
      × (signer.verify_share e.0 stored_domain c.statement e.1 ≡ true)

  pub record IsBacked (c : LockCollector) : Type 0 where
    pub verified : All (IsShare c) c.shares
    pub distinct : Distinct (keys c.shares)
    pub same_keys : keys c.share_wires ≡ keys c.shares

  -- What no section changes.
  pub record Fixed (c c' : LockCollector) : Type 0 where
    pub encoded : c'.encoded ≡ c.encoded
    pub roster : c'.old_roster ≡ c.old_roster
    pub statement : c'.statement ≡ c.statement
    pub more : length c.shares ≤ length c'.shares

  Fixed-refl : (c : LockCollector) → Fixed c c
  Fixed-refl c = record { encoded = refl; roster = refl; statement = refl; more = omega arith }

  commit_share-IsBacked :
      (from : ℤ) (response : StoredShare) (wire : Bytes) (c c' : LockCollector) (done : Bool)
      → from_holder from wire c ≡ true
      → commit_share sha256 signer from response wire c ≡ some (c', done)
      → IsBacked c
      → IsBacked c' × Fixed c c'
  unfolding commit_share
  commit_share-IsBacked from response wire c c' done holder h b =
      let (checked, h1) =
        guard->>
          (beq response.instance_digest c.encoded.instance_digest
            && beq response.root c.encoded.root
            && signer.verify_share from stored_domain c.statement response.share)
          _ h in
      let fresh : LockCollector = record c {
        shares = (from, response.share) ∷ c.shares;
        share_wires = (from, wire) ∷ c.share_wires;
      } in
      let taken : IsShare c (from, response.share) = (
        &&-right (not (length wire == 0)) _ holder,
        &&-right
            (beq response.instance_digest c.encoded.instance_digest
              && beq response.root c.encoded.root)
            _ checked,
      ) in
      elim (Option-cases (entry from c.share_wires)) [
        | inl free ↦
            let same =
              ap (λ (r : LockCollector × Bool). r.0)
                (some-inj (fresh, enough sha256 signer fresh) (c', done) (rw free at h1)) in
            let new : member from (keys c.shares) ≡ false =
              rw (← b.same_keys) (entry-none from c.share_wires free) in
            subst (λ x. IsBacked x × Fixed c x) same
              (
                record {
                  verified = (taken, b.verified);
                  distinct = (new, b.distinct);
                  same_keys = ap (λ l. from ∷ l) b.same_keys;
                },
                record { encoded = refl; roster = refl; statement = refl; more = omega arith },
              )
        | inr (previous, old) ↦ elim (Bool-cases (beq previous wire)) [
          | inl equal ↦
              let same =
                ap (λ (r : LockCollector × Bool). r.0)
                  (some-inj (c, enough sha256 signer c) (c', done) (rw (old, equal) at h1)) in
              subst (λ x. IsBacked x × Fixed c x) same (b, Fixed-refl c)
          | inr conflict ↦ cc (rw (old, conflict) at h1)
        ]
      ]

  after-IsBacked :
      (s : Section) (c : LockCollector) → IsBacked c → IsBacked (after s c) × Fixed c (after s c)
  unfolding after
  after-IsBacked (share_committed from response wire) c b =
      elim (Bool-cases (from_holder from wire c)) [
        | inr stranger ↦ rw (stranger, after) (b, Fixed-refl c)
        | inl holder ↦ elim (Option-cases (commit_share sha256 signer from response wire c)) [
          | inl refused ↦ rw (holder, refused, after) (b, Fixed-refl c)
          | inr ((c', done), taken) ↦
              rw (holder, taken, after)
                (commit_share-IsBacked from response wire c c' done holder taken b)
        ]
      ]

  pub after_all-IsBacked :
      (sections : List Section) (c : LockCollector)
      → IsBacked c
      → IsBacked (after_all sections c) × Fixed c (after_all sections c)
  unfolding after_all
  after_all-IsBacked [] c b = (b, Fixed-refl c)
  after_all-IsBacked (s ∷ sections) c b =
      let (b1, f1) = after-IsBacked s c b in
      let (b2, f2) = after_all-IsBacked sections (after s c) b1 in
      (
        b2,
        record {
          encoded = f2.encoded ∙ f1.encoded;
          roster = f2.roster ∙ f1.roster;
          statement = f2.statement ∙ f1.statement;
          more = omega (arith, f1.more, f2.more);
        },
      )
