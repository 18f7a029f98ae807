-- ===== src/Config/Defaults.antt =====
-- core/config.go: NormalizeConfig and what it calls.
use arladkr_practicaladkr.Prelude.{none, some, List, [], ◌∷◌, ◌==◌, if◌then◌else◌, length}
use arladkr_practicaladkr.Prelude.Int.{ℤ, pos, eqb_ℤ, leb_ℤ}
use arladkr_practicaladkr.Prelude.Bytes.{Bytes}
use arladkr_practicaladkr.Prelude.Text.{codes, folded, trim, is_space, split, atoi}
use arladkr_practicaladkr.Roster.{sorted_unique, filter_node_ids}
use arladkr_practicaladkr.Config.{Config, Environment, add_one, ack_fallback, exact, feldman_batch}

-- The loop of parseLocalNodeIDsEnv over the parts; what is no number is passed over.
unfoldable pub parse_ids : List Bytes → List ℤ
parse_ids [] = []
parse_ids (part ∷ parts) =
    let rest = parse_ids parts in
    elim (atoi (trim is_space part)) [ none ↦ rest | some id ↦ id ∷ rest ]

-- `parseLocalNodeIDsEnv`
unfoldable pub parse_local_node_ids : Environment → List ℤ → List ℤ
parse_local_node_ids env universe =
    let raw = trim is_space env.local_node_ids in
    if length raw == 0 then [] else filter_node_ids (parse_ids (split 44 raw)) universe

abbrev pub or_value : ℤ → ℤ → ℤ
or_value x default = if eqb_ℤ x (pos 0) then default else x

abbrev pub or_positive : ℤ → ℤ → ℤ
or_positive x default = if leb_ℤ x (pos 0) then default else x

abbrev pub or_text : Bytes → Bytes → Bytes
or_text x default = if length x == 0 then default else x

-- The local nodes of a configuration, from its field, the environment or the committee.
unfoldable pub default_local_nodes : Environment → Config → List ℤ
default_local_nodes env c =
    let given =
      if length c.local_node_ids == 0
      then parse_local_node_ids env c.old_committee
      else c.local_node_ids in
    let kept = filter_node_ids given c.old_committee in
    if length kept == 0 then sorted_unique c.old_committee else kept

-- `NormalizeConfig`
unfoldable pub normalize_config : Environment → Config → Config
normalize_config env c =
    let old_faults = or_value c.old_faults c.f_old in
    let new_faults = or_value c.new_faults c.f_new in
    record c {
      epoch = or_positive c.epoch (pos 1);
      old_faults = old_faults;
      new_faults = new_faults;
      f_old = or_value c.f_old old_faults;
      f_new = or_value c.f_new new_faults;
      kappa = or_value c.kappa (add_one old_faults);
      sampling_failure_target = folded (
          if length (trim is_space c.sampling_failure_target) == 0
          then codes "smoke"
          else c.sampling_failure_target);
      wait_spbc_timeout = or_positive c.wait_spbc_timeout (pos 2000000000);
      route_send_timeout = or_positive c.route_send_timeout (pos 300000000);
      send_retry_max = or_positive c.send_retry_max (pos 10);
      send_retry_backoff = or_positive c.send_retry_backoff (pos 100000000);
      agreement_transport = folded (or_text c.agreement_transport (codes "tcp-distributed"));
      agreement_bind_host = or_text c.agreement_bind_host (codes "0.0.0.0");
      local_node_ids = default_local_nodes env c;
      apvss_mode = folded (or_text c.apvss_mode ack_fallback);
      full_proof_profile = folded (or_text c.full_proof_profile exact);
      fallback_profile = folded (or_text c.fallback_profile feldman_batch);
      artifact_cache_dir = or_text c.artifact_cache_dir env.artifact_cache_dir;
      ablation_mode = folded (or_text c.ablation_mode (codes "none"));
    }
