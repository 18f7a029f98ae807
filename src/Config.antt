-- ===== src/Config.antt =====
-- core/config.go and core/cv_sapvss_scalar_params.go: the configuration of an epoch, its defaults and
-- checks, and the thresholds that follow from it. The environment of the process is an argument.
pub mod Defaults
pub mod Checks
pub mod Params
pub mod Quorums
use Prim.Native.String.{String}
use arladkr_practicaladkr.Prelude.{
  ℕ, zero, suc, ◌+◌, ◌-◌, ◌%◌, Bool, Option, List, leb, if◌then◌else◌,
}
use arladkr_practicaladkr.Prelude.Int.{ℤ, pos, negsuc}
use arladkr_practicaladkr.Prelude.Bytes.{Bytes}
use arladkr_practicaladkr.Prelude.Text.{codes}
use arladkr_practicaladkr.Wire.Wrapped.{wrapped}

-- The fields of `Config` that its functions read, in the order of the struct. Durations count
-- nanoseconds.
pub record Config : Type 0 where
  pub sid : Bytes
  pub epoch : ℤ
  pub previous_epoch_state_digest : Bytes
  pub old_committee : List ℤ
  pub new_committee : List ℤ
  pub f_old : ℤ
  pub f_new : ℤ
  pub old_faults : ℤ
  pub new_faults : ℤ
  pub proposer_sample_size : ℤ
  pub validator_sample_size : ℤ
  pub sampling_failure_target : Bytes
  pub kappa : ℤ
  pub wait_spbc_timeout : ℤ
  pub route_send_timeout : ℤ
  pub send_retry_max : ℤ
  pub send_retry_backoff : ℤ
  pub agreement_transport : Bytes
  pub agreement_bind_host : Bytes
  pub local_node_ids : List ℤ
  pub apvss_mode : Bytes
  pub full_proof_profile : Bytes
  pub fallback_profile : Bytes
  pub allow_experimental : Bool
  pub benchmark_fallback_count : ℤ
  pub benchmark_wait_all_acks : Bool
  pub artifact_cache_dir : Bytes
  pub ablation_mode : Bytes
  pub strict_network : Bool
  pub public_key_dir : Bytes
  pub local_secret_dir : Bytes
  pub local_receiver_ids : List ℤ

-- The environment variables RLADKR_LOCAL_NODE_IDS, RLADKR_ARTIFACT_CACHE_DIR, RLADKR_DISPERSE_MODE and
-- RLADKR_NODE_ADDRS, and `filepath.Abs`.
pub record Environment : Type 0 where
  pub local_node_ids : Bytes
  pub artifact_cache_dir : Bytes
  pub disperse_mode : Bytes
  pub node_addrs : Bytes
  pub absolute : Bytes → Option Bytes

-- `x + 1`
abbrev pub add_one : ℤ → ℤ
add_one (pos n) = wrapped (n + 1)
add_one (negsuc zero) = pos 0
add_one (negsuc (suc n)) = negsuc n

abbrev pub full_public_ve : Bytes
full_public_ve = codes "full-public-ve"

abbrev pub ack_fallback : Bytes
ack_fallback = codes "ack-fallback"

abbrev pub exact : Bytes
exact = codes "exact"

abbrev pub compact_batch : Bytes
compact_batch = codes "compact-batch"

abbrev pub field_congruent : Bytes
field_congruent = codes "field-congruent"

abbrev pub exact_lane : Bytes
exact_lane = codes "exact-lane"

abbrev pub feldman_batch : Bytes
feldman_batch = codes "feldman-batch-v1"
