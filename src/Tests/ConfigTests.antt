-- ===== src/Tests/ConfigTests.antt =====
-- An epoch with two committees of four, of which one member each may be faulty.
use arladkr_practicaladkr.Prelude.{ℕ, ◌≡◌, refl, arith, false, some, List, [], ◌∷◌}
use arladkr_practicaladkr.Prelude.Int.{ℤ, pos}
use arladkr_practicaladkr.Prelude.Bytes.{beq}
use arladkr_practicaladkr.Prelude.Members.{member}
use arladkr_practicaladkr.Prelude.Text.{
  codes, trim_left, trim, to_lower, split_from, digits_from, digits, atoi,
}
use arladkr_practicaladkr.Roster.{
  insert, sorted_copy, unique_after, unique, sorted_unique, filter_from, filter_node_ids,
}
use arladkr_practicaladkr.Sampling.{
  multiply_up, binomial, proposer_bound, tail_from, fault_tail, validator_bounds, combined_bound,
  first_sample, sample_sizes, choose_sizes, within_budget, resolve_sampling,
}
use arladkr_practicaladkr.Sampling.Budget.{
  split_exponent, coefficient, exponent, decimal_target, parse_target, resolve_budget,
  target_budget, resolve_target,
}
use arladkr_practicaladkr.Config.{Config, Environment}
use arladkr_practicaladkr.Config.Defaults.{
  parse_ids, parse_local_node_ids, default_local_nodes, normalize_config,
}
use arladkr_practicaladkr.Config.Checks.{
  fallback_backend, check_mode, strict_network_config, check_committees, validate_config,
}
use arladkr_practicaladkr.Config.Params.{Params, profile, thresholds, derive_params}
use arladkr_practicaladkr.Config.Quorums.{HasQuorums, derive_params-HasQuorums}

abbrev environment : Environment
environment = record {
  local_node_ids = [];
  artifact_cache_dir = [];
  disperse_mode = [];
  node_addrs = [];
  absolute = λ path. some path;
}

abbrev four : List ℤ
four = pos 1 ∷ pos 2 ∷ pos 3 ∷ pos 4 ∷ []

abbrev config : Config
config = record {
  sid = codes "session";
  epoch = pos 0;
  previous_epoch_state_digest = [];
  old_committee = four;
  new_committee = four;
  f_old = pos 1;
  f_new = pos 1;
  old_faults = pos 0;
  new_faults = pos 0;
  proposer_sample_size = pos 2;
  validator_sample_size = pos 3;
  sampling_failure_target = codes "2e-1";
  kappa = pos 0;
  wait_spbc_timeout = pos 0;
  route_send_timeout = pos 0;
  send_retry_max = pos 0;
  send_retry_backoff = pos 0;
  agreement_transport = [];
  agreement_bind_host = [];
  local_node_ids = pos 1 ∷ [];
  apvss_mode = [];
  full_proof_profile = [];
  fallback_profile = [];
  allow_experimental = false;
  benchmark_fallback_count = pos 0;
  benchmark_wait_all_acks = false;
  artifact_cache_dir = [];
  ablation_mode = [];
  strict_network = false;
  public_key_dir = [];
  local_secret_dir = [];
  local_receiver_ids = [];
}

-- The order of the BLS12-381 scalar field.
abbrev modulus : ℕ
modulus = 52435875175126190479447740508185965837690552500527637822603658699938581184513

abbrev params : Params
params = record {
  old_faults = 1;
  new_faults = 1;
  component_count = 2;
  pool_size = 3;
  apdb_lock_threshold = 3;
  decision_threshold = 3;
  recovery_threshold = 2;
  new_share_degree = 2;
  new_share_threshold = 3;
  proposer_sample_size = 2;
  validator_sample_size = 3;
  validator_threshold = 2;
  proposer_failure_bound = record { num = 0; den = 6 };
  validator_failure_bounds = record {
    soundness = record { num = 0; den = 4 };
    liveness = record { num = 0; den = 4 };
    combined = record { num = 0; den = 4 };
  };
}

params_derived : derive_params environment modulus 255 config ≡ some params
unfolding derive_params thresholds profile validate_config check_committees check_mode
    fallback_backend strict_network_config normalize_config default_local_nodes parse_local_node_ids
    parse_ids filter_node_ids filter_from member sorted_unique unique unique_after sorted_copy
    insert resolve_target target_budget resolve_budget parse_target split_exponent decimal_target
    coefficient exponent trim trim_left to_lower split_from digits digits_from atoi resolve_sampling
    choose_sizes within_budget sample_sizes first_sample combined_bound proposer_bound
    validator_bounds fault_tail tail_from binomial multiply_up beq
params_derived = refl

derive_params-HasQuorums_example : HasQuorums 4 4 params
derive_params-HasQuorums_example =
    derive_params-HasQuorums environment modulus 255 config params (omega arith) (omega arith)
      params_derived

-- 3f+1 wraps around to 0, and a committee of four passes for one with that many faulty members.
abbrev overflowing : Config
overflowing = record config { f_old = pos 6148914691236517205 }

overflow_accepted : validate_config environment overflowing ≡ some tt
unfolding validate_config check_committees check_mode fallback_backend strict_network_config
    normalize_config default_local_nodes parse_local_node_ids parse_ids filter_node_ids filter_from
    member sorted_unique unique unique_after sorted_copy insert trim trim_left to_lower split_from
    digits digits_from atoi beq
overflow_accepted = refl
