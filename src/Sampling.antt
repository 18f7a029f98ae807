-- ===== src/Sampling.antt =====
-- core/cv_eligibility.go: binomial; core/cv_sapvss_scalar_params.go and
-- core/cv_sapvss_sampling_scalar.go: the failure bounds of sampled committees and the sample sizes
-- that meet a target. A `big.Rat` is a numerator and a denominator, compared by cross multiplication.
pub mod Choose
pub mod Vandermonde
pub mod Bounds
pub mod Sizes
pub mod Budget
pub mod Targets
use arladkr_practicaladkr.Prelude.{
  ℕ, zero, suc, ◌+◌, ◌-◌, ◌*◌, ◌/◌, Bool, true, not, ◌&&◌, ◌||◌, Option, none, some, leb, ltb, ◌==◌,
  if◌then◌else◌, ◌>>=◌, ◌>>◌, guard,
}
use arladkr_practicaladkr.Wire.Wrapped.{wrapped}
use arladkr_practicaladkr.Prelude.Int.{ℤ, pos, pos_part, is_neg, leb_ℤ}

-- The loop of binomial: the rounds left, the counter, n - k and the product so far.
unfoldable pub multiply_up : ℕ → ℕ → ℕ → ℕ → ℕ
multiply_up zero i base r = r
multiply_up (suc left) i base r = multiply_up left (suc i) base (r * (base + i) / i)

-- `binomial`, for arguments that are not negative
unfoldable pub binomial : ℕ → ℕ → ℕ
binomial n k =
    if ltb n k
    then 0
    else let k' = if ltb (n - k) k then n - k else k in multiply_up k' 1 (n - k') 1

pub record Frac : Type 0 where
  pub num : ℕ
  pub den : ℕ

-- `a.Cmp(b) <= 0`
abbrev pub frac_le : Frac → Frac → Bool
frac_le a b = leb (a.num * b.den) (b.num * a.den)

abbrev pub frac_add : Frac → Frac → Frac
frac_add a b = record { num = a.num * b.den + b.num * a.den; den = a.den * b.den }

-- `n <= 0 || f < 0 || f >= n || sampleSize <= 0 || sampleSize > n`
abbrev pub good_sample : ℕ → ℕ → ℕ → Bool
good_sample n f sample = not (n == 0) && ltb f n && not (sample == 0) && leb sample n

-- `cvScalarProposerFailureBound`
unfoldable pub proposer_bound : ℕ → ℕ → ℕ → Option Frac
proposer_bound n f sample = do
  guard (good_sample n f sample)
  some (record { num = binomial f sample; den = binomial n sample })

-- The loop of cvScalarHypergeometricFaultTail: the rounds left and the number of faulty members.
unfoldable pub tail_from : ℕ → ℕ → ℕ → ℕ → ℕ → ℕ
tail_from zero faulty n f sample = 0
tail_from (suc left) faulty n f sample =
    binomial f faulty * binomial (n - f) (sample - faulty) + tail_from left (suc faulty) n f sample

-- `cvScalarHypergeometricFaultTail`
unfoldable pub fault_tail : ℕ → ℕ → ℕ → ℕ → Option Frac
fault_tail n f sample minimum = do
  guard (good_sample n f sample && not (minimum == 0) && leb minimum sample)
  let upper = if ltb sample f then sample else f
  some
      (record { num = tail_from (upper + 1 - minimum) minimum n f sample; den = binomial n sample })

pub record ValidatorBounds : Type 0 where
  pub soundness : Frac
  pub liveness : Frac
  pub combined : Frac

-- `cvScalarValidatorFailureBounds`
unfoldable pub validator_bounds : ℕ → ℕ → ℕ → ℕ → Option ValidatorBounds
validator_bounds n f sample threshold = do
  guard (good_sample n f sample && not (threshold == 0) && leb threshold sample)
  soundness ← fault_tail n f sample threshold
  let liveness_threshold = sample - threshold + 1
  liveness ← fault_tail n f sample liveness_threshold
  combined ←
      fault_tail n f sample
        (if ltb liveness_threshold threshold then liveness_threshold else threshold)
  some (record { soundness = soundness; liveness = liveness; combined = combined })

-- The two bounds that the loops compare with the target.
unfoldable pub combined_bound : ℕ → ℕ → ℕ → Option Frac
combined_bound n f sample = do
  bounds ← validator_bounds n f sample (sample / 2 + 1)
  some bounds.combined

-- A loop of cvScalarExactFinitePopulationSampleSizes: the rounds left and the sample; 0 when no sample
-- meets the target.
unfoldable pub first_sample : (ℕ → Option Frac) → Frac → ℕ → ℕ → Option ℕ
first_sample bound target zero sample = some 0
first_sample bound target (suc left) sample =
    let rest = first_sample bound target left (suc sample) in
    bound sample >>= λ b. if frac_le b target then some sample else rest

-- `cvScalarExactFinitePopulationSampleSizes`
unfoldable pub sample_sizes : ℕ → ℕ → Frac → Option (ℕ × ℕ)
sample_sizes n f target = do
  guard (not (n == 0) && ltb f n && not (target.num == 0) && ltb target.num target.den)
  proposer ← first_sample (proposer_bound n f) target n 1
  validator ← first_sample (combined_bound n f) target n 1
  guard (not (proposer == 0) && not (validator == 0))
  some (proposer, validator)

-- `CVScalarSamplingReport`, but for its texts
pub record Report : Type 0 where
  pub proposer_sample : ℕ
  pub validator_sample : ℕ
  pub validator_threshold : ℕ
  pub proposer : Frac
  pub validator : ValidatorBounds
  pub per_epoch : Frac

-- `new(big.Rat).Quo(totalBudget, 2)`
abbrev pub half : Frac → Frac
half budget = record { num = budget.num; den = budget.den * 2 }

-- The sizes of ResolveCVScalarSampling: given for the smoke profile, computed for a budget. 3f+1 is
-- computed in an int.
unfoldable pub choose_sizes : ℕ → ℕ → Option Frac → ℕ → ℕ → Option (ℕ × ℕ)
choose_sizes n f none smoke_proposer smoke_validator = some (smoke_proposer, smoke_validator)
choose_sizes n f (some budget) smoke_proposer smoke_validator = do
  guard (leb_ℤ (wrapped (3 * f + 1)) (pos n))
  sample_sizes n f (half budget)

-- The two tests against the budget at its end.
unfoldable pub within_budget : Option Frac → Frac → Frac → Bool
within_budget none proposer combined = true
within_budget (some budget) proposer combined =
    frac_le proposer (half budget)
    && frac_le combined (half budget)
    && frac_le (frac_add proposer combined) budget

-- `ResolveCVScalarSampling` for the budget that the target's text stands for, none for the smoke profile
unfoldable pub resolve_sampling : ℕ → ℕ → Option Frac → ℕ → ℕ → Option Report
resolve_sampling n f budget smoke_proposer smoke_validator = do
  guard (not (n == 0) && ltb f n)
  (proposer_sample, validator_sample) ← choose_sizes n f budget smoke_proposer smoke_validator
  guard (
      not (proposer_sample == 0)
      && leb proposer_sample n
      && not (validator_sample == 0)
      && leb validator_sample n)
  proposer ← proposer_bound n f proposer_sample
  validator ← validator_bounds n f validator_sample (validator_sample / 2 + 1)
  guard (within_budget budget proposer validator.combined)
  some (record {
    proposer_sample = proposer_sample;
    validator_sample = validator_sample;
    validator_threshold = validator_sample / 2 + 1;
    proposer = proposer;
    validator = validator;
    per_epoch = frac_add proposer validator.combined;
  })

-- `CVScalarSamplingUnionBound`, with the report's bound as a fraction
unfoldable pub union_bound : Frac → ℤ → Option Frac
union_bound per_epoch epochs = do
  guard (not (is_neg epochs))
  let bound : Frac = record { num = per_epoch.num * pos_part epochs; den = per_epoch.den }
  some (if ltb bound.den bound.num then record { num = 1; den = 1 } else bound)
