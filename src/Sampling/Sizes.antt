-- ===== src/Sampling/Sizes.antt =====
-- The sample sizes that the search finds are the least ones that meet the target.
use mathlib.Core.Path.{subst}
use arladkr_practicaladkr.Prelude.{
  ℕ, zero, suc, ◌+◌, ◌*◌, ◌/◌, ◌≤◌, ◌<◌, ◌≡◌, refl, sym, ap, ◌∙◌, inl, inr, true, false, not, ◌&&◌,
  Option, some, arith, leb, ltb, ◌==◌, Bool-cases, ◌>>◌, guard, guard->>, >>=-eq-some, some-inj,
  &&-left, &&-right, ==_iff,
}
use arladkr_practicaladkr.Prelude.Int.{pos, leb_ℤ}
use arladkr_practicaladkr.Wire.Wrapped.{max_third, wrapped, wrapped_le}
use arladkr_practicaladkr.Sampling.{
  Frac, frac_le, frac_add, half, proposer_bound, validator_bounds, combined_bound, first_sample,
  sample_sizes, choose_sizes, within_budget, Report, resolve_sampling,
}

-- A sample that meets the target, while no smaller one does.
pub record IsLeast (bound : ℕ → Option Frac) (target : Frac) (from sample : ℕ) : Type 0 where
  pub some_members : from ≤ sample
  pub failure : Frac
  pub computed : bound sample ≡ some failure
  pub meets : frac_le failure target ≡ true
  pub no_less :
      (smaller : ℕ) (b : Frac)
      → from ≤ smaller
      → smaller < sample
      → bound smaller ≡ some b
      → frac_le b target ≡ false

first_sample-IsLeast :
    (bound : ℕ → Option Frac) (target : Frac) (left from sample : ℕ)
    → first_sample bound target left from ≡ some sample
    → 1 ≤ sample
    → IsLeast bound target from sample
unfolding first_sample
first_sample-IsLeast bound target zero from sample h found =
    absurd (omega (arith, found, some-inj 0 sample h))
first_sample-IsLeast bound target (suc left) from sample h found =
    let (b, computed, h1) = >>=-eq-some (bound from) _ h in
    elim (Bool-cases (frac_le b target)) [
      | inl meets ↦
          let here : from ≡ sample = some-inj from sample (rw meets at h1) in
          subst (IsLeast bound target from) here (record {
            some_members = omega arith;
            failure = b;
            computed = computed;
            meets = meets;
            no_less = λ smaller c ge lt e. absurd (omega (arith, ge, lt));
          })
      | inr too_likely ↦
          let later =
            first_sample-IsLeast bound target left (suc from) sample (rw too_likely at h1) found in
          record {
            some_members = omega (arith, later.some_members);
            failure = later.failure;
            computed = later.computed;
            meets = later.meets;
            no_less = λ smaller c ge lt e. elim (Bool-cases (from == smaller)) [
              | inl first ↦
                  let same : from ≡ smaller = (==_iff from smaller).0 first in
                  let value : b ≡ c = some-inj b c (sym computed ∙ ap bound same ∙ e) in
                  rw (← value) too_likely
              | inr other ↦ later.no_less smaller c (ground (arith, ge, other)) lt e
            ];
          }
    ]

-- The sizes for a budget, and what the report says of them.
pub record Secure (n f : ℕ) (budget : Frac) (report : Report) : Type 0 where
  pub few_faults : 3 * f + 1 ≤ n
  pub proposer_least : IsLeast (proposer_bound n f) (half budget) 1 report.proposer_sample
  pub validator_least : IsLeast (combined_bound n f) (half budget) 1 report.validator_sample
  pub majority : report.validator_threshold ≡ report.validator_sample / 2 + 1
  pub proposer_computed : proposer_bound n f report.proposer_sample ≡ some report.proposer
  pub validator_computed :
      validator_bounds n f report.validator_sample report.validator_threshold
      ≡ some report.validator
  pub within : frac_le (frac_add report.proposer report.validator.combined) budget ≡ true

record Found (n f : ℕ) (target : Frac) (sizes : ℕ × ℕ) : Type 0 where
  proposer : IsLeast (proposer_bound n f) target 1 sizes.0
  validator : IsLeast (combined_bound n f) target 1 sizes.1

sample_sizes-Found :
    (n f : ℕ) (target : Frac) (sizes : ℕ × ℕ)
    → sample_sizes n f target ≡ some sizes
    → Found n f target sizes
unfolding sample_sizes
sample_sizes-Found n f target sizes h =
    let (checked, h1) =
      guard->> (not (n == 0) && ltb f n && not (target.num == 0) && ltb target.num target.den) _
        h in
    let (p, proposes, h2) = >>=-eq-some (first_sample (proposer_bound n f) target n 1) _ h1 in
    let (v, validates, h3) = >>=-eq-some (first_sample (combined_bound n f) target n 1) _ h2 in
    let (found, h4) = guard->> (not (p == 0) && not (v == 0)) _ h3 in
    subst (Found n f target) (some-inj (p, v) sizes h4) (record {
      proposer =
          first_sample-IsLeast (proposer_bound n f) target n 1 p proposes
            (nonzero p (&&-left (not (p == 0)) _ found));
      validator =
          first_sample-IsLeast (combined_bound n f) target n 1 v validates
            (nonzero v (&&-right (not (p == 0)) _ found));
    })
  where
    nonzero : (k : ℕ) → not (k == 0) ≡ true → 1 ≤ k
    nonzero k e = ground arith

-- For a failure budget and a committee size whose 3n+1 is an int: when sampling is resolved, n >= 3f+1, both sample sizes are the least ones whose
-- failure bound is at most half the budget, the threshold is a majority of the validator sample, and the
-- two bounds together are within the budget.
pub resolve_sampling-Secure :
    (n f : ℕ) (budget : Frac) (smoke_proposer smoke_validator : ℕ) (report : Report)
    → n ≤ max_third
    → resolve_sampling n f (some budget) smoke_proposer smoke_validator ≡ some report
    → Secure n f budget report
unfolding resolve_sampling choose_sizes within_budget
resolve_sampling-Secure n f budget smoke_proposer smoke_validator report small h =
    let (valid, h1) = guard->> (not (n == 0) && ltb f n) _ h in
    let ((p, v), sizes, h2) =
      >>=-eq-some (guard (leb_ℤ (wrapped (3 * f + 1)) (pos n)) >> sample_sizes n f (half budget)) _
        h1 in
    let (few, sized) = guard->> (leb_ℤ (wrapped (3 * f + 1)) (pos n)) _ sizes in
    let found = sample_sizes-Found n f (half budget) (p, v) sized in
    let (inside, h3) = guard->> (not (p == 0) && leb p n && not (v == 0) && leb v n) _ h2 in
    let (proposer, proposes, h4) = >>=-eq-some (proposer_bound n f p) _ h3 in
    let (validator, validates, h5) = >>=-eq-some (validator_bounds n f v (v / 2 + 1)) _ h4 in
    let (within, h6) =
      guard->>
        (frac_le proposer (half budget)
          && frac_le validator.combined (half budget)
          && frac_le (frac_add proposer validator.combined) budget)
        _ h5 in
    subst (Secure n f budget) (some-inj _ report h6) (record {
      few_faults = wrapped_le f n (below_third (&&-right (not (n == 0)) (ltb f n) valid)) few;
      proposer_least = found.proposer;
      validator_least = found.validator;
      majority = refl;
      proposer_computed = proposes;
      validator_computed = validates;
      within =
          &&-right (frac_le proposer (half budget) && frac_le validator.combined (half budget)) _
            within;
    })
  where
    below_third : ltb f n ≡ true → f ≤ max_third
    below_third e = ground arith
