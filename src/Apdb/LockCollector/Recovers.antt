-- ===== src/Apdb/LockCollector/Recovers.antt =====
-- RecoverLock: the shares that it hands to the signature scheme, and the lock that it returns.
use mathlib.Core.Path.{subst}
use arladkr_practicaladkr.Prelude.{
  ℕ, zero, suc, ◌-◌, ◌≤◌, ◌≡◌, refl, sym, ap, ◌∙◌, inl, inr, true, false, not, ◌&&◌, none, some,
  List, [], ◌∷◌, arith, leb, le→leb, ◌==◌, if◌then◌else◌, length, All, Bool-cases, Option-cases,
  guard->>, >>=-eq-some, some-inj, &&-left, &&-right,
}
use arladkr_practicaladkr.Prelude.Int.{ℤ, eqb_ℤ, eqb_ℤ_iff}
use arladkr_practicaladkr.Prelude.Bytes.{Bytes}
use arladkr_practicaladkr.Prelude.Members.{member, Distinct, Within, length-le_of_Within}
use arladkr_practicaladkr.Prelude.Ascending.{Ascending-Distinct}
use arladkr_practicaladkr.Prelude.Entries.{entry, keys, length-keys, entry-All, key-entry}
use arladkr_practicaladkr.Roster.{sorted_unique, equal_ints}
use arladkr_practicaladkr.Roster.Sorted.{roster_test_iff}
use arladkr_practicaladkr.Apdb.Lock.{Lock, max_signature}
use arladkr_practicaladkr.Apdb.Code.{Encoded}
use arladkr_practicaladkr.Apdb.Holder.{Signer, stored_domain, stored_statement, verify_lock}
use arladkr_practicaladkr.Apdb.LockCollector.{
  LockCollector, check_stores, new_lock_collector, select, new_lock, recover_lock,
}
use arladkr_practicaladkr.Apdb.LockCollector.Backed.{
  Section, after_all, IsShare, IsBacked, after_all-IsBacked,
}

module _ {κ} (P : ℤ × Bytes → Type κ) where
  select-All :
      (left : ℕ) (roster : List ℤ) (shares : List (ℤ × Bytes))
      → All P shares
      → All P (select left roster shares)
  unfolding select
  select-All left [] shares h = tt
  select-All left (m ∷ roster) shares h = elim (Option-cases (entry m shares)) [
    | inl absent ↦ rw (absent, select) (select-All left roster shares h)
    | inr (share, there) ↦
        rw (there, select)
          (
            entry-All P m share shares h there,
            elim (Bool-cases (left - 1 == 0)) [
              | inl last ↦ rw last tt
              | inr on ↦ rw on (select-All (left - 1) roster shares h)
            ],
          )
  ]

member-select :
    (a : ℤ) (left : ℕ) (roster : List ℤ) (shares : List (ℤ × Bytes))
    → member a roster ≡ false
    → member a (keys (select left roster shares)) ≡ false
unfolding member select
member-select a left [] shares h = refl
member-select a left (m ∷ roster) shares h = elim (Bool-cases (eqb_ℤ m a)) [
  | inl same ↦ cc (rw same at h)
  | inr other ↦
      let rest = member-select a (left - 1) roster shares (rw other at h) in
      elim (Option-cases (entry m shares)) [
        | inl absent ↦ rw (absent, select) (member-select a left roster shares (rw other at h))
        | inr (share, there) ↦ elim (Bool-cases (left - 1 == 0)) [
          | inl last ↦ rw (there, select, last, other, member)
          | inr on ↦ rw (there, select, on, other, member) rest
        ]
      ]
]

select-Distinct :
    (left : ℕ) (roster : List ℤ) (shares : List (ℤ × Bytes))
    → Distinct roster
    → Distinct (keys (select left roster shares))
unfolding select
select-Distinct left [] shares d = tt
select-Distinct left (m ∷ roster) shares d = elim (Option-cases (entry m shares)) [
  | inl absent ↦ rw (absent, select) (select-Distinct left roster shares d.1)
  | inr (share, there) ↦ elim (Bool-cases (left - 1 == 0)) [
    | inl last ↦ rw (there, select, last) (unfold member in refl, tt)
    | inr on ↦
        rw (there, select, on)
          (
            member-select m (left - 1) roster shares d.0,
            select-Distinct (left - 1) roster shares d.1,
          )
  ]
]

-- The members of the roster with a share.
present : List ℤ → List (ℤ × Bytes) → List ℤ
present [] shares = []
present (m ∷ roster) shares = elim (entry m shares) [
  | none ↦ present roster shares
  | some share ↦ m ∷ present roster shares
]

length-one_more :
    (j : ℕ) (roster : List ℤ) (shares : List (ℤ × Bytes))
    → ((i : ℕ)
        → suc i ≤ length (present roster shares)
        → length (select (suc i) roster shares) ≡ suc i)
    → suc j ≤ suc (length (present roster shares))
    → suc (
        length (
          if◌then◌else◌ {A = List (ℤ × Bytes)}
            (suc j - 1 == 0)
            []
            (select (suc j - 1) roster shares)))
      ≡ suc j
length-one_more zero roster shares ih w = refl
length-one_more (suc i) roster shares ih w =
    let less : suc (suc i) - 1 ≡ suc i = omega arith in
    rw less (ground (arith, ih i (omega (arith, w))))

length-select :
    (k : ℕ) (roster : List ℤ) (shares : List (ℤ × Bytes))
    → suc k ≤ length (present roster shares)
    → length (select (suc k) roster shares) ≡ suc k
unfolding select present
length-select k [] shares h = absurd (omega (arith, h))
length-select k (m ∷ roster) shares h = elim (Option-cases (entry m shares)) [
  | inl absent ↦ rw (absent, select) (length-select k roster shares (rw (absent, present) at h))
  | inr (share, there) ↦
      let wanted : suc k ≤ suc (length (present roster shares)) = rw (there, present) at h in
      rw (there, select)
        (length-one_more k roster shares (λ i. length-select i roster shares) wanted)
]

member-present :
    (m : ℤ) (v : Bytes) (roster : List ℤ) (shares : List (ℤ × Bytes))
    → member m roster ≡ true
    → entry m shares ≡ some v
    → member m (present roster shares) ≡ true
unfolding member present
member-present m v [] shares h e = cc h
member-present m v (n ∷ roster) shares h e = elim (Bool-cases (eqb_ℤ n m)) [
  | inl same ↦
      let key : n ≡ m = (eqb_ℤ_iff n m).0 same in
      let there : entry n shares ≡ some v = rw key e in rw (there, present, same, member)
  | inr other ↦
      let rest = member-present m v roster shares (rw other at h) e in
      elim (Option-cases (entry n shares)) [
        | inl absent ↦ rw (absent, present) rest
        | inr (share, there) ↦ rw (there, present, other, member) rest
      ]
]

Within-of_members :
    (xs ys : List ℤ) → ((a : ℤ) → member a xs ≡ true → member a ys ≡ true) → Within ys xs
unfolding member
Within-of_members [] ys h = tt
Within-of_members (x ∷ xs) ys h =
    (h x (ground (arith, eqb_ℤ_iff x x)), Within-of_members xs ys (λ a m. h a (ground (arith, m))))

stated-sizes :
    (sha256 : Bytes → Bytes) (instance_id root statement : Bytes)
    → stored_statement sha256 instance_id root ≡ some statement
    → (length instance_id ≡ 32) × (length root ≡ 32)
unfolding stored_statement
stated-sizes sha256 instance_id root statement h = (ground arith, ground arith)

made_lock : Encoded → Bytes → Lock
made_lock encoded certificate = record {
  instance_digest = encoded.instance_digest;
  root = encoded.root;
  certificate = certificate;
  canonical_wire = [];
}

-- What the signature scheme promises: from as many shares as the threshold, of different members and
-- each one valid, it recovers a signature that verifies and that a wire can carry.
pub record IsThresholdScheme (signer : Signer) : Type 0 where
  pub recovers :
      (statement : Bytes) (shares : List (ℤ × Bytes))
      → length shares ≡ signer.threshold
      → Distinct (keys shares)
      → All (λ e. signer.verify_share e.0 stored_domain statement e.1 ≡ true) shares
      → (certificate : Bytes) × (signer.recover stored_domain statement shares ≡ some certificate)
        × (1 ≤ length certificate)
        × (length certificate ≤ max_signature)
        × (signer.verify_recovered stored_domain statement certificate ≡ true)

module _ (sha256 : Bytes → Bytes) (signer : Signer) where
  -- What the constructor has checked.
  record Started (encoded : Encoded) (old_roster : List ℤ) (c : LockCollector) : Type 0 where
    same_encoded : c.encoded ≡ encoded
    same_roster : c.old_roster ≡ old_roster
    roster_distinct : Distinct c.old_roster
    stated : stored_statement sha256 c.encoded.instance_digest c.encoded.root ≡ some c.statement
    has_role : signer.has_apdb_role ≡ true
    wanted : 1 ≤ signer.threshold
    backed : IsBacked sha256 signer c

  new_lock_collector-Started :
      (encoded : Encoded) (old_roster : List ℤ) (c : LockCollector)
      → new_lock_collector sha256 signer encoded old_roster ≡ some c
      → Started encoded old_roster c
  unfolding new_lock_collector
  new_lock_collector-Started encoded old_roster c h =
      let sizes =
        length encoded.instance_digest == 32
        && length encoded.root == 32
        && length encoded.stores == length old_roster
        && encoded.total_shards == length old_roster
        && not (encoded.data_shards == 0)
        && leb encoded.data_shards encoded.total_shards
        && not (encoded.shard_bytes == 0) in
      let ordered = sizes && equal_ints old_roster (sorted_unique old_roster) in
      let role = ordered && signer.has_apdb_role in
      let members = role && equal_ints signer.member_order old_roster in
      let some_wanted = members && not (signer.threshold == 0) in
      let (checked, h1) = guard->> (some_wanted && leb signer.threshold (length old_roster)) _ h in
      let (stored, h2) =
        guard->> (check_stores sha256 signer encoded 0 old_roster encoded.stores) _ h1 in
      let (statement, stated, h3) =
        >>=-eq-some (stored_statement sha256 encoded.instance_digest encoded.root) _ h2 in
      let c1 = &&-left some_wanted _ checked in
      let c2 = &&-left role _ (&&-left members _ c1) in
      subst (Started encoded old_roster) (some-inj _ c h3) (record {
        same_encoded = refl;
        same_roster = refl;
        roster_distinct = Ascending-Distinct old_roster (
            (roster_test_iff old_roster).0 (
              &&-right sizes (equal_ints old_roster (sorted_unique old_roster))
                (&&-left ordered signer.has_apdb_role c2)));
        stated = stated;
        has_role = &&-right ordered signer.has_apdb_role c2;
        wanted = at_least_one signer.threshold (&&-right members (not (signer.threshold == 0)) c1);
        backed = record { verified = tt; distinct = tt; same_keys = refl };
      })
    where
      at_least_one : (n : ℕ) → not (n == 0) ≡ true → 1 ≤ n
      at_least_one n e = ground arith

  -- What RecoverLock hands to the scheme: as many shares as the threshold, of different holders, each
  -- one valid for the statement.
  pub record Selected (c : LockCollector) (shares : List (ℤ × Bytes)) : Type 0 where
    pub enough_shares : length shares ≡ signer.threshold
    pub different : Distinct (keys shares)
    pub valid : All (IsShare sha256 signer c) shares

  select-Selected :
      (encoded : Encoded) (old_roster : List ℤ) (c : LockCollector)
      → Started encoded old_roster c
      → signer.threshold ≤ length c.shares
      → Selected c (select signer.threshold c.old_roster c.shares)
  select-Selected encoded old_roster c s many =
      let all_present : Within (present c.old_roster c.shares) (keys c.shares) =
        Within-of_members (keys c.shares) (present c.old_roster c.shares) (λ a m.
          let (v, there) = key-entry a c.shares m in
          member-present a v c.old_roster c.shares
            (entry-All (IsShare sha256 signer c) a v c.shares s.backed.verified there).0 there) in
      let count =
        length-le_of_Within (keys c.shares) (present c.old_roster c.shares) s.backed.distinct
          all_present in
      let (k, e) = positive signer.threshold s.wanted in
      record {
        enough_shares = rw e (
            length-select k c.old_roster c.shares
              (omega (arith, e, many, count, length-keys c.shares)));
        different = select-Distinct signer.threshold c.old_roster c.shares s.roster_distinct;
        valid =
            select-All (IsShare sha256 signer c) signer.threshold c.old_roster c.shares
              s.backed.verified;
      }
    where
      positive : (n : ℕ) → 1 ≤ n → (k : ℕ) × (n ≡ suc k)
      positive zero h = absurd (omega (arith, h))
      positive (suc k) h = (k, refl)

  Started-after :
      (encoded : Encoded) (old_roster : List ℤ) (start : LockCollector) (sections : List Section)
      → Started encoded old_roster start
      → Started encoded old_roster (after_all sha256 signer sections start)
  Started-after encoded old_roster start sections s =
      let (backed, fixed) = after_all-IsBacked sha256 signer sections start s.backed in
      record {
        same_encoded = fixed.encoded ∙ s.same_encoded;
        same_roster = fixed.roster ∙ s.same_roster;
        roster_distinct = subst Distinct (sym fixed.roster) s.roster_distinct;
        stated = rw (fixed.encoded, fixed.statement) s.stated;
        has_role = s.has_role;
        wanted = s.wanted;
        backed = backed;
      }

  -- A lock that verifies, for the digest and the root that were dispersed.
  pub record IsLockFor (encoded : Encoded) (lock : Lock) : Type 0 where
    pub same_instance : lock.instance_digest ≡ encoded.instance_digest
    pub same_root : lock.root ≡ encoded.root
    pub verifies : verify_lock sha256 signer lock ≡ true

  lock_made :
      (encoded : Encoded) (certificate statement : Bytes)
      → stored_statement sha256 encoded.instance_digest encoded.root ≡ some statement
      → signer.has_apdb_role ≡ true
      → 1 ≤ length certificate
      → length certificate ≤ max_signature
      → signer.verify_recovered stored_domain statement certificate ≡ true
      → (new_lock encoded certificate ≡ some (made_lock encoded certificate))
        × (verify_lock sha256 signer (made_lock encoded certificate) ≡ true)
  unfolding new_lock verify_lock made_lock
  lock_made encoded certificate statement stated role some_byte fits valid =
      let sizes = stated-sizes sha256 encoded.instance_digest encoded.root statement stated in
      (ground (arith, sizes), rw (stated, role) (ground (arith, sizes, valid)))

  -- When the scheme recovers a signature from as many valid shares of different members as the
  -- threshold: for a new collector and after any order of sections, once as many shares as the
  -- threshold are kept, RecoverLock returns a lock that verifies, for the dispersed digest and
  -- root.
  pub enough_shares_make_lock :
      (encoded : Encoded) (old_roster : List ℤ) (start : LockCollector) (sections : List Section)
      → IsThresholdScheme signer
      → new_lock_collector sha256 signer encoded old_roster ≡ some start
      → signer.threshold ≤ length (after_all sha256 signer sections start).shares
      → (lock : Lock) × (recover_lock sha256 signer (after_all sha256 signer sections start)
          ≡ some lock)
        × IsLockFor encoded lock
  unfolding recover_lock
  enough_shares_make_lock encoded old_roster start sections scheme made many =
      let c = after_all sha256 signer sections start in
      let s =
        Started-after encoded old_roster start sections
          (new_lock_collector-Started encoded old_roster start made) in
      let chosen = select signer.threshold c.old_roster c.shares in
      let selected = select-Selected encoded old_roster c s many in
      let (certificate, recovered, some_byte, fits, valid) =
        scheme.recovers c.statement chosen selected.enough_shares selected.different
          (valid_only chosen selected.valid) in
      let (built, verified) =
        lock_made c.encoded certificate c.statement s.stated s.has_role some_byte fits valid in
      (
        made_lock c.encoded certificate,
        rw (le→leb signer.threshold (length c.shares) many, recovered, built, verified),
        record {
          same_instance = unfold made_lock in ap Encoded.instance_digest s.same_encoded;
          same_root = unfold made_lock in ap Encoded.root s.same_encoded;
          verifies = verified;
        },
      )
    where
      valid_only :
          (shares : List (ℤ × Bytes))
          → All (IsShare sha256 signer (after_all sha256 signer sections start)) shares
          → All
              (λ (e : ℤ × Bytes).
                signer.verify_share e.0 stored_domain
                  (after_all sha256 signer sections start).statement
                  e.1
                ≡ true)
              shares
      valid_only [] h = tt
      valid_only (e ∷ shares) h = (h.0.1, valid_only shares h.1)
