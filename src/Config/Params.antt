-- ===== src/Config/Params.antt =====
-- core/cv_sapvss_scalar_params.go: cvDeriveScalarParams, the thresholds of an epoch, and cvProfile of
-- core/cv_sapvss.go. The scalar field's modulus and its bit length are arguments. ValidateConfig has
-- refused the thresholds below zero before the rest reads them.
use arladkr_practicaladkr.Prelude.{
  ℕ, ◌+◌, ◌-◌, ◌*◌, ◌/◌, ◌^◌, Bool, not, ◌&&◌, Option, some, leb, ltb, ◌==◌, length, ◌>>=◌, ◌>>◌,
  guard,
}
use arladkr_practicaladkr.Prelude.Int.{ℤ, pos, pos_part, leb_ℤ}
use arladkr_practicaladkr.Wire.{two64}
use arladkr_practicaladkr.Sampling.{Frac, ValidatorBounds, proposer_bound, validator_bounds}
use arladkr_practicaladkr.Sampling.Budget.{resolve_target}
use arladkr_practicaladkr.Wire.Wrapped.{wrapped}
use arladkr_practicaladkr.Config.{Config, Environment}
use arladkr_practicaladkr.Config.Defaults.{normalize_config}
use arladkr_practicaladkr.Config.Checks.{validate_config}

-- `cvProfile`: the base, the bound of a digit's sum and the number of chunks
unfoldable pub profile : ℕ → ℕ → ℕ → ℕ → Option (ℕ × ℕ × ℕ)
profile modulus bit_length chunk_bits max_components = do
  guard (not (chunk_bits == 0) && leb chunk_bits 20 && not (max_components == 0))
  let base = 2 ^ chunk_bits
  let max_digit = base - 1
  guard (leb max_components ((two64 - 1) / max_digit))
  let bound = max_components * max_digit
  guard (ltb bound modulus)
  guard (leb bound 4294967296)
  some (base, bound, (bit_length + chunk_bits - 1) / chunk_bits)

-- `cvScalarParams`, with the validators' three bounds in one field
pub record Params : Type 0 where
  pub old_faults : ℕ
  pub new_faults : ℕ
  pub component_count : ℕ
  pub pool_size : ℕ
  pub apdb_lock_threshold : ℕ
  pub decision_threshold : ℕ
  pub recovery_threshold : ℕ
  pub new_share_degree : ℕ
  pub new_share_threshold : ℕ
  pub proposer_sample_size : ℕ
  pub validator_sample_size : ℕ
  pub validator_threshold : ℕ
  pub proposer_failure_bound : Frac
  pub validator_failure_bounds : ValidatorBounds

-- `x <= 0 || x > n`, refused
abbrev pub in_committee : ℤ → ℕ → Bool
in_committee x n = not (leb_ℤ x (pos 0)) && leb_ℤ x (pos n)

-- cvDeriveScalarParams behind the sampling: old and new committee, their faults and the samples.
unfoldable pub thresholds : ℕ → ℕ → ℕ → ℕ → ℕ → ℕ → ℕ → ℕ → Option Params
thresholds modulus bit_length old_count new_count f f_new proposer validator = do
  let component_count = f + 1
  let pool_size = old_count - f
  let validator_threshold = validator / 2 + 1
  guard (leb validator_threshold pool_size)
  guard (leb_ℤ (wrapped (2 * f + 1)) (pos old_count))
  guard (leb component_count pool_size && leb pool_size old_count)
  guard (ltb f_new new_count)
  _ ← profile modulus bit_length 8 component_count
  proposer_failure ← proposer_bound old_count f proposer
  validator_failure ← validator_bounds old_count f validator validator_threshold
  some (record {
    old_faults = f;
    new_faults = f_new;
    component_count = component_count;
    pool_size = pool_size;
    apdb_lock_threshold = 2 * f + 1;
    decision_threshold = pool_size;
    recovery_threshold = component_count;
    new_share_degree = new_count - f_new - 1;
    new_share_threshold = new_count - f_new;
    proposer_sample_size = proposer;
    validator_sample_size = validator;
    validator_threshold = validator_threshold;
    proposer_failure_bound = proposer_failure;
    validator_failure_bounds = validator_failure;
  })

-- `cvDeriveScalarParams`
unfoldable pub derive_params : Environment → ℕ → ℕ → Config → Option Params
derive_params env modulus bit_length given = do
  let c = normalize_config env given
  let old_count = length c.old_committee
  validate_config env c
  guard (in_committee c.proposer_sample_size old_count)
  guard (in_committee c.validator_sample_size old_count)
  let f = pos_part c.old_faults
  let proposer = pos_part c.proposer_sample_size
  let validator = pos_part c.validator_sample_size
  sampling ← resolve_target old_count f c.sampling_failure_target proposer validator
  guard (sampling.proposer_sample == proposer && sampling.validator_sample == validator)
  thresholds modulus bit_length old_count (length c.new_committee) f (pos_part c.new_faults)
      proposer validator
