-- ===== src/Tests/SamplingTests.antt =====
-- A committee of four with one faulty member, sampled for a failure budget of a fifth.
use arladkr_practicaladkr.Prelude.{◌+◌, ◌*◌, arith, true, ◌≡◌, refl, some}
use arladkr_practicaladkr.Prelude.Int.{pos, leb_ℤ}
use arladkr_practicaladkr.Wire.Wrapped.{wrapped}
use arladkr_practicaladkr.Prelude.Bytes.{beq}
use arladkr_practicaladkr.Prelude.Text.{codes, trim_left, trim, to_lower, digits_from, digits, atoi}
use arladkr_practicaladkr.Sampling.{
  multiply_up, binomial, Frac, proposer_bound, tail_from, fault_tail, ValidatorBounds,
  validator_bounds, combined_bound, first_sample, sample_sizes, choose_sizes, within_budget, Report,
  resolve_sampling,
}
use arladkr_practicaladkr.Sampling.Bounds.{Covers, validator_bounds-Covers}
use arladkr_practicaladkr.Sampling.Sizes.{Secure}
use arladkr_practicaladkr.Sampling.Budget.{
  split_exponent, coefficient, exponent, decimal_target, parse_target, resolve_budget,
  target_budget, resolve_target,
}
use arladkr_practicaladkr.Sampling.Targets.{IsProper, resolve_target-Secure}

four_choose_two : binomial 4 2 ≡ 6
unfolding binomial multiply_up
four_choose_two = refl

abbrev two_of_four : ValidatorBounds
two_of_four = record {
  soundness = record { num = 0; den = 6 };
  liveness = record { num = 3; den = 6 };
  combined = record { num = 3; den = 6 };
}

two_of_four_computed : validator_bounds 4 1 2 2 ≡ some two_of_four
unfolding validator_bounds fault_tail tail_from binomial multiply_up
two_of_four_computed = refl

validator_bounds-Covers_example : Covers two_of_four
validator_bounds-Covers_example = validator_bounds-Covers 4 1 2 2 two_of_four two_of_four_computed

abbrev fifth : Frac
fifth = record { num = 2; den = 10 }

budget_read : target_budget (codes " 2E-1 ") ≡ some (some fifth)
unfolding target_budget resolve_budget parse_target split_exponent decimal_target coefficient
    exponent trim trim_left to_lower digits digits_from atoi beq
budget_read = refl

-- 3f+1 wraps to a negative int, and the test for a third of the committee passes.
overflow_passes : leb_ℤ (wrapped (3 * 3074457345618258700 + 1)) (pos 9223372036854775000) ≡ true
overflow_passes = refl

abbrev report : Report
report = record {
  proposer_sample = 2;
  validator_sample = 3;
  validator_threshold = 2;
  proposer = record { num = 0; den = 6 };
  validator = record {
    soundness = record { num = 0; den = 4 };
    liveness = record { num = 0; den = 4 };
    combined = record { num = 0; den = 4 };
  };
  per_epoch = record { num = 0; den = 24 };
}

report_computed : resolve_target 4 1 (codes " 2E-1 ") 0 0 ≡ some report
unfolding resolve_target resolve_sampling choose_sizes within_budget sample_sizes first_sample
    combined_bound proposer_bound validator_bounds fault_tail tail_from binomial multiply_up
report_computed = rw budget_read refl

resolve_target-Secure_example : IsProper fifth × Secure 4 1 fifth report
resolve_target-Secure_example =
    resolve_target-Secure 4 1 (codes " 2E-1 ") fifth 0 0 report (omega arith) budget_read
      report_computed
