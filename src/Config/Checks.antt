-- ===== src/Config/Checks.antt =====
-- core/config.go: ValidateConfig, and the checks of an epoch's configuration. An error is none.
use arladkr_practicaladkr.Prelude.{
  ◌+◌, ◌*◌, Bool, false, not, ◌&&◌, ◌||◌, Option, none, some, ltb, ◌==◌, if◌then◌else◌, length,
  ◌>>◌, guard,
}
use arladkr_practicaladkr.Prelude.Int.{pos, pos_part, eqb_ℤ, leb_ℤ, ltb_ℤ, is_neg}
use arladkr_practicaladkr.Prelude.Bytes.{Bytes, beq}
use arladkr_practicaladkr.Prelude.Text.{codes, folded, trim, is_space}
use arladkr_practicaladkr.Roster.{sorted_unique, filter_node_ids}
use arladkr_practicaladkr.Wire.Wrapped.{wrapped}
use arladkr_practicaladkr.Config.{
  Config, Environment, add_one, full_public_ve, ack_fallback, exact, compact_batch, field_congruent,
  exact_lane, feldman_batch,
}
use arladkr_practicaladkr.Config.Defaults.{normalize_config}

-- `apvssRequireFallbackBackend`
unfoldable pub fallback_backend : Bytes → Bool
fallback_backend profile =
    beq profile exact_lane || beq profile compact_batch || beq profile feldman_batch

-- The `switch` of ValidateConfig over the mode.
unfoldable pub check_mode : Config → Bool
check_mode c =
    if beq c.apvss_mode full_public_ve
    then (beq c.full_proof_profile exact
        || beq c.full_proof_profile compact_batch
        || beq c.full_proof_profile field_congruent)
      && not c.benchmark_wait_all_acks
      && eqb_ℤ c.benchmark_fallback_count (pos 0)
    else beq c.apvss_mode ack_fallback && fallback_backend c.fallback_profile

-- `validateStrictNetworkConfig`
unfoldable pub strict_network_config : Environment → Config → Bool
strict_network_config env c =
    let transport = folded c.agreement_transport in
    let mode = folded env.disperse_mode in
    (beq transport (codes "tcp-distributed") || beq transport (codes "tcp"))
    && not (
        beq mode (codes "local")
        || beq mode (codes "cache")
        || beq mode (codes "file-cache")
        || beq mode (codes "off"))
    && not (length (trim is_space env.node_addrs) == 0)
    && ltb (length (sorted_unique c.local_node_ids)) (length (sorted_unique c.old_committee))

-- The committees and fault thresholds of ValidateConfig. 3f+1 is computed in an int.
unfoldable pub check_committees : Config → Option (Unit {0})
check_committees c = do
  let old_count = length (sorted_unique c.old_committee)
  let new_count = length (sorted_unique c.new_committee)
  guard (not (old_count == 0) && not (new_count == 0))
  guard (old_count == length c.old_committee && new_count == length c.new_committee)
  guard (not (is_neg c.f_old || is_neg c.old_faults))
  guard (not (is_neg c.f_new || is_neg c.new_faults))
  guard (eqb_ℤ c.f_old c.old_faults && eqb_ℤ c.f_new c.new_faults)
  guard (leb_ℤ (wrapped (3 * pos_part c.f_old + 1)) (pos old_count))
  guard (leb_ℤ (wrapped (3 * pos_part c.f_new + 1)) (pos new_count))

-- `ValidateConfig`
unfoldable pub validate_config : Environment → Config → Option (Unit {0})
validate_config env given = do
  let c = normalize_config env given
  guard (not (length c.sid == 0))
  check_committees c
  guard (eqb_ℤ c.kappa (add_one c.f_old))
  guard (not (leb_ℤ c.send_retry_max (pos 0)))
  guard (check_mode c)
  guard (not (is_neg c.benchmark_fallback_count || ltb_ℤ c.f_new c.benchmark_fallback_count))
  guard (length c.ablation_mode == 0 || beq c.ablation_mode (codes "none"))
  guard (not c.strict_network || strict_network_config env c)

-- `validateAPVSSProductionAdmission`, with apvssRequireProductionFallbackBackend
unfoldable pub production_admission : Environment → Config → Bool
production_admission env given =
    let c = normalize_config env given in
    c.allow_experimental
    || (not (beq c.apvss_mode full_public_ve)
        && not (beq c.apvss_mode ack_fallback && not (beq c.fallback_profile feldman_batch)))

-- `cvRequireSeparateKeyDirs`
unfoldable pub separate_key_dirs : Environment → Bytes → Bytes → Bool
separate_key_dirs env public_dir secret_dir = elim (env.absolute public_dir) [
  | none ↦ false
  | some public_abs ↦ elim (env.absolute secret_dir) [
    | none ↦ false
    | some secret_abs ↦ not (beq public_abs secret_abs)
  ]
]

-- `validateCVEpochConfig`
unfoldable pub validate_epoch_config : Environment → Config → Option (Unit {0})
validate_epoch_config env given = do
  let c = normalize_config env given
  guard (length c.previous_epoch_state_digest == 0 || length c.previous_epoch_state_digest == 32)
  guard (length (sorted_unique c.local_node_ids) == 1)
  guard (not (length (trim is_space c.public_key_dir) == 0))
  guard (not (length (trim is_space c.local_secret_dir) == 0))
  guard (separate_key_dirs env c.public_key_dir c.local_secret_dir)
  guard (length c.local_receiver_ids == 1)
  guard (length (filter_node_ids c.local_receiver_ids c.new_committee) == 1)
  guard (not (length (trim is_space c.artifact_cache_dir) == 0))
  guard (production_admission env c)
  let forced = not (leb_ℤ c.benchmark_fallback_count (pos 0))
  guard (not forced || c.allow_experimental)
  guard (not c.benchmark_wait_all_acks || c.allow_experimental)
  guard (not (c.benchmark_wait_all_acks && forced))
  guard (
      not (
        beq c.apvss_mode full_public_ve
        && (c.benchmark_wait_all_acks || not (eqb_ℤ c.benchmark_fallback_count (pos 0)))))
