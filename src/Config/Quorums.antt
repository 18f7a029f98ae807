-- ===== src/Config/Quorums.antt =====
-- The thresholds of an epoch are quorums, for committees of a size that no memory holds.
use mathlib.Core.Path.{subst}
use arladkr_practicaladkr.Prelude.{
  ℕ, ◌+◌, ◌-◌, ◌*◌, ◌/◌, ◌≤◌, ◌<◌, ◌≡◌, refl, inl, inr, true, not, ◌&&◌, ◌||◌, some, List, arith,
  leb, ltb, leb→le, ◌==◌, ==_iff, length, Bool-cases, guard-true, guard->>, >>=-eq-some, some-inj,
  &&-left, &&-right,
}
use arladkr_practicaladkr.Prelude.Int.{ℤ, pos, pos_part, eqb_ℤ, eqb_ℤ_iff, leb_ℤ, is_neg}
use arladkr_practicaladkr.Roster.{sorted_unique}
use arladkr_practicaladkr.Sampling.{proposer_bound, validator_bounds}
use arladkr_practicaladkr.Sampling.Budget.{resolve_target}
use arladkr_practicaladkr.Wire.Wrapped.{wrapped, wrapped_le}
use arladkr_practicaladkr.Config.{Config, Environment}
use arladkr_practicaladkr.Config.Defaults.{or_value, normalize_config}
use arladkr_practicaladkr.Config.Checks.{check_committees, validate_config}
use arladkr_practicaladkr.Config.Params.{Params, profile, thresholds, in_committee, derive_params}

-- A committee whose length fits in 48 bits.
abbrev pub max_members : ℕ
max_members = 281474976710656

-- What the thresholds of old and new committees of n and m members are to each other.
pub record HasQuorums (n m : ℕ) (p : Params) : Type 0 where
  pub few_old_faults : 3 * p.old_faults + 1 ≤ n
  pub few_new_faults : 3 * p.new_faults + 1 ≤ m
  pub lock_reached : p.apdb_lock_threshold + p.old_faults ≤ n
  pub lock_recovers : p.recovery_threshold + p.old_faults ≤ p.apdb_lock_threshold
  pub decisions_intersect : n + p.old_faults + 1 ≤ 2 * p.decision_threshold
  pub decision_reached : p.decision_threshold + p.old_faults ≤ n
  pub components_fit : p.component_count ≤ p.pool_size
  pub honest_component : p.old_faults < p.component_count
  pub validators_majority : p.validator_sample_size < 2 * p.validator_threshold
  pub validators_reached : p.validator_threshold + p.old_faults ≤ n
  pub shares_hidden : p.new_faults ≤ p.new_share_degree
  pub shares_intersect : m + p.new_faults + 1 ≤ 2 * p.new_share_threshold
  pub shares_reached : p.new_share_threshold + p.new_faults ≤ m
  pub share_degree : p.new_share_threshold ≡ p.new_share_degree + 1

thresholds-HasQuorums :
    (modulus bits n m f f_new proposer validator : ℕ) (p : Params)
    → 3 * f + 1 ≤ n
    → 3 * f_new + 1 ≤ m
    → thresholds modulus bits n m f f_new proposer validator ≡ some p
    → HasQuorums n m p
unfolding thresholds
thresholds-HasQuorums modulus bits n m f f_new proposer validator p old new h =
    let (reached, h1) = guard->> (leb (validator / 2 + 1) (n - f)) _ h in
    let (locks, h2) = guard->> (leb_ℤ (wrapped (2 * f + 1)) (pos n)) _ h1 in
    let (fits, h3) = guard->> (leb (f + 1) (n - f) && leb (n - f) n) _ h2 in
    let (shares, h4) = guard->> (ltb f_new m) _ h3 in
    let (bounds, profiled, h5) = >>=-eq-some (profile modulus bits 8 (f + 1)) _ h4 in
    let (proposes, e, h6) = >>=-eq-some (proposer_bound n f proposer) _ h5 in
    let (validates, e', h7) =
      >>=-eq-some (validator_bounds n f validator (validator / 2 + 1)) _ h6 in
    let enough : validator / 2 + 1 ≤ n - f = leb→le _ _ reached in
    subst (HasQuorums n m) (some-inj _ p h7) (record {
      few_old_faults = old;
      few_new_faults = new;
      lock_reached = omega (arith, old);
      lock_recovers = omega arith;
      decisions_intersect = omega (arith, old);
      decision_reached = omega (arith, old);
      components_fit = omega (arith, old);
      honest_component = omega arith;
      validators_majority = omega arith;
      validators_reached = omega (arith, old, enough);
      shares_hidden = omega (arith, new);
      shares_intersect = omega (arith, new);
      shares_reached = omega (arith, new);
      share_degree = omega (arith, new);
    })

-- What ValidateConfig has found of the committees.
-- A bound for one committee, read with the faults and the length that the code goes on with.
bound_for :
    (f faults : ℤ) (count : ℕ) (committee : List ℤ)
    → eqb_ℤ f faults ≡ true
    → (count == length committee) ≡ true
    → leb_ℤ (wrapped (3 * pos_part f + 1)) (pos count) ≡ true
    → leb_ℤ (wrapped (3 * pos_part faults + 1)) (pos (length committee)) ≡ true
bound_for f faults count committee same unique few =
    rw ((eqb_ℤ_iff f faults).0 same, (==_iff count (length committee)).0 unique) at few

record Committees (c : Config) : Type 0 where
  old_bound : leb_ℤ (wrapped (3 * pos_part c.old_faults + 1)) (pos (length c.old_committee)) ≡ true
  new_bound : leb_ℤ (wrapped (3 * pos_part c.new_faults + 1)) (pos (length c.new_committee)) ≡ true

check_committees-Committees :
    (c : Config) (u : Unit {0}) → check_committees c ≡ some u → Committees c
unfolding check_committees
check_committees-Committees c u h =
    let old_count = length (sorted_unique c.old_committee) in
    let new_count = length (sorted_unique c.new_committee) in
    let (nonempty, h1) = guard->> (not (old_count == 0) && not (new_count == 0)) _ h in
    let (unique, h2) =
      guard->> (old_count == length c.old_committee && new_count == length c.new_committee) _ h1 in
    let (old_pos, h3) = guard->> (not (is_neg c.f_old || is_neg c.old_faults)) _ h2 in
    let (new_pos, h4) = guard->> (not (is_neg c.f_new || is_neg c.new_faults)) _ h3 in
    let (same, h5) = guard->> (eqb_ℤ c.f_old c.old_faults && eqb_ℤ c.f_new c.new_faults) _ h4 in
    let (old_few, h6) =
      guard->> (leb_ℤ (wrapped (3 * pos_part c.f_old + 1)) (pos old_count)) _ h5 in
    let new_few = guard-true (leb_ℤ (wrapped (3 * pos_part c.f_new + 1)) (pos new_count)) u h6 in
    let old_same = &&-left (eqb_ℤ c.f_old c.old_faults) _ same in
    let new_same = &&-right (eqb_ℤ c.f_old c.old_faults) _ same in
    let old_unique = &&-left (old_count == length c.old_committee) _ unique in
    let new_unique = &&-right (old_count == length c.old_committee) _ unique in
    record {
      old_bound =
          bound_for c.f_old c.old_faults old_count c.old_committee old_same old_unique old_few;
      new_bound =
          bound_for c.f_new c.new_faults new_count c.new_committee new_same new_unique new_few;
    }

or_value_twice : (a b : ℤ) → or_value (or_value a b) (or_value b (or_value a b)) ≡ or_value a b
or_value_twice a b = elim (Bool-cases (eqb_ℤ a (pos 0))) [
  | inl missing ↦ rw missing (elim (Bool-cases (eqb_ℤ b (pos 0))) [
    | inl both ↦ rw both refl
    | inr default ↦ rw default refl
  ])
  | inr given ↦ rw (given, given) refl
]

-- A second normalization keeps the faults and the committees.
record Stable (c d : Config) : Type 0 where
  old_faults : d.old_faults ≡ c.old_faults
  new_faults : d.new_faults ≡ c.new_faults
  old_committee : d.old_committee ≡ c.old_committee
  new_committee : d.new_committee ≡ c.new_committee

normalize_config-Stable :
    (env : Environment) (c : Config)
    → Stable (normalize_config env c) (normalize_config env (normalize_config env c))
unfolding normalize_config
normalize_config-Stable env c = record {
  old_faults = or_value_twice c.old_faults c.f_old;
  new_faults = or_value_twice c.new_faults c.f_new;
  old_committee = refl;
  new_committee = refl;
}

validate_config-Committees :
    (env : Environment) (c : Config) (u : Unit {0})
    → validate_config env c ≡ some u
    → Committees (normalize_config env c)
unfolding validate_config
validate_config-Committees env c u h =
    let d = normalize_config env c in
    let (named, h1) = guard->> (not (length d.sid == 0)) _ h in
    let (v, checked, h2) = >>=-eq-some (check_committees d) _ h1 in
    check_committees-Committees d v checked

-- The same facts about what was normalized once.
Committees-Stable : (c d : Config) → Stable c d → Committees d → Committees c
Committees-Stable c d s k = record {
  old_bound = rw (s.old_faults, s.old_committee) at k.old_bound;
  new_bound = rw (s.new_faults, s.new_committee) at k.new_bound;
}

-- cvDeriveScalarParams refuses as many faults as members, whatever 3f+1 wrapped to.
thresholds-old :
    (modulus bits n m f f_new proposer validator : ℕ) (p : Params)
    → thresholds modulus bits n m f f_new proposer validator ≡ some p
    → (f < n) × (f_new < m)
unfolding thresholds
thresholds-old modulus bits n m f f_new proposer validator p h =
    let (reached, h1) = guard->> (leb (validator / 2 + 1) (n - f)) _ h in
    let (locks, h2) = guard->> (leb_ℤ (wrapped (2 * f + 1)) (pos n)) _ h1 in
    let (fits, h3) = guard->> (leb (f + 1) (n - f) && leb (n - f) n) _ h2 in
    let (shares, h4) = guard->> (ltb f_new m) _ h3 in
    (ground (arith, leb→le _ _ reached), ground (arith, shares))

normalized-HasQuorums :
    (env : Environment) (modulus bits : ℕ) (given : Config) (p : Params)
    → length (normalize_config env given).old_committee ≤ max_members
    → length (normalize_config env given).new_committee ≤ max_members
    → derive_params env modulus bits given ≡ some p
    → HasQuorums
        (length (normalize_config env given).old_committee)
        (length (normalize_config env given).new_committee)
        p
unfolding derive_params
normalized-HasQuorums env modulus bits given p old_small new_small h =
    let c = normalize_config env given in
    let n = length c.old_committee in
    let m = length c.new_committee in
    let f = pos_part c.old_faults in
    let f_new = pos_part c.new_faults in
    let proposer = pos_part c.proposer_sample_size in
    let validator = pos_part c.validator_sample_size in
    let (u, valid, h1) = >>=-eq-some (validate_config env c) _ h in
    let (samples, h2) = guard->> (in_committee c.proposer_sample_size n) _ h1 in
    let (validates, h3) = guard->> (in_committee c.validator_sample_size n) _ h2 in
    let (sampling, resolved, h4) =
      >>=-eq-some (resolve_target n f c.sampling_failure_target proposer validator) _ h3 in
    let (same, h5) =
      guard->> (sampling.proposer_sample == proposer && sampling.validator_sample == validator) _
        h4 in
    let (old_lt, new_lt) = thresholds-old modulus bits n m f f_new proposer validator p h5 in
    let k =
      Committees-Stable c (normalize_config env c) (normalize_config-Stable env given)
        (validate_config-Committees env c u valid) in
    thresholds-HasQuorums modulus bits n m f f_new proposer validator p
      (wrapped_le f n (omega (arith, old_lt, old_small)) k.old_bound)
      (wrapped_le f_new m (omega (arith, new_lt, new_small)) k.new_bound) h5

-- For committees of at most 2^48 members: when the parameters of an epoch are derived, less than
-- a third of either committee is faulty; two decision quorums of the old committee, and two share
-- quorums of the new one, have an honest member in common; a validator threshold is a majority of
-- its sample; a lock has enough honest signers to recover from; as many members as can be faulty
-- are fewer than the components and do not exceed the degree of the shares; and the honest
-- members alone reach every threshold.
pub derive_params-HasQuorums :
    (env : Environment) (modulus bits : ℕ) (given : Config) (p : Params)
    → length given.old_committee ≤ max_members
    → length given.new_committee ≤ max_members
    → derive_params env modulus bits given ≡ some p
    → HasQuorums (length given.old_committee) (length given.new_committee) p
unfolding normalize_config
derive_params-HasQuorums = normalized-HasQuorums
