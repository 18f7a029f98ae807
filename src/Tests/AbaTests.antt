-- ===== src/Tests/AbaTests.antt =====
-- Concrete rounds of the binary agreement, in a group of four nodes with one faulty.
use arladkr_practicaladkr.Prelude.{
  ℕ, ◌≤◌, ◌≡◌, refl, arith, Bool, true, false, some, List, [], ◌∷◌, length,
}
use arladkr_practicaladkr.Prelude.Int.{ℤ, pos, negsuc}
use arladkr_practicaladkr.Prelude.Bytes.{beq}
use arladkr_practicaladkr.Prelude.Members.{member, add, common}
use arladkr_practicaladkr.Mvba.Aba.{
  Phase, est_phase, conf_phase, ReceivedMessage, Config, put, Round, new_round, votes,
  nothing_keyed, normalize, values_key, send_est, accept_est, accept_conf, accept,
}
use arladkr_practicaladkr.Mvba.Aba.Stages.{send_conf, decide_values, finish}
use arladkr_practicaladkr.Mvba.Aba.History.{
  Reachable, started, received, bin_value_is_supported, opposite_decisions_share_voters,
}
use arladkr_practicaladkr.Mvba.Aba.Conf.{accept_all, early_conf_votes_are_lost}
use arladkr_practicaladkr.Mvba.Aba.Endings.{conclude, matching, returns_on_two_matches}

abbrev node : ℕ → Config
node id = record { n = 4; f = 1; id = pos id; sid = []; iter = pos 0 }

abbrev message : Phase → ℕ → ℤ → List ℤ → ReceivedMessage
message phase from value values = record {
  from = pos from;
  body = some (record {
    sid = [];
    iter = pos 0;
    round = pos 0;
    phase = phase;
    value = value;
    values = values;
  });
}

-- EST and CONF votes for a value from three nodes each.
abbrev votes_for : ℕ → ℕ → ℕ → ℕ → List ReceivedMessage
votes_for v a b c =
    message est_phase a (pos v) []
    ∷ message est_phase b (pos v) []
    ∷ message est_phase c (pos v) []
    ∷ message conf_phase a (pos 0) (pos v ∷ [])
    ∷ message conf_phase b (pos 0) (pos v ∷ [])
    ∷ message conf_phase c (pos 0) (pos v ∷ [])
    ∷ []

accept_all-Reachable :
    (cfg : Config) (aba_round : ℤ) (msgs : List ReceivedMessage) (r : Round)
    → Reachable cfg aba_round r
    → Reachable cfg aba_round (accept_all cfg aba_round msgs r)
unfolding accept_all
accept_all-Reachable cfg aba_round [] r h = h
accept_all-Reachable cfg aba_round (msg ∷ msgs) r h =
    accept_all-Reachable cfg aba_round msgs (accept cfg aba_round msg r).0 (received msg r h)

abbrev first_round : Config → Bool → List ReceivedMessage → Round
first_round cfg v msgs = accept_all cfg (pos 0) msgs (send_est cfg (pos 0) v new_round).0

first_round-Reachable :
    (cfg : Config) (v : Bool) (msgs : List ReceivedMessage)
    → Reachable cfg (pos 0) (first_round cfg v msgs)
first_round-Reachable cfg v msgs = accept_all-Reachable cfg (pos 0) msgs _ (started v)

abbrev round_of_0 : Round
round_of_0 = first_round (node 0) true (votes_for 1 1 2 3)

abbrev round_of_1 : Round
round_of_1 = first_round (node 1) false (votes_for 0 0 2 3)

one_in_bin : (votes true round_of_0).in_bin ≡ true
unfolding accept_all accept accept_est accept_conf send_est normalize values_key beq member add
one_in_bin = refl

bin_value_is_supported_example :
    2 ≤ length (common (votes true round_of_0).est (pos 0 ∷ pos 1 ∷ pos 2 ∷ []))
unfolding member
bin_value_is_supported_example =
    bin_value_is_supported (node 0) (pos 0) round_of_0 true (pos 0 ∷ pos 1 ∷ pos 2 ∷ []) refl
      (first_round-Reachable (node 0) true (votes_for 1 1 2 3)) one_in_bin
      (refl, (refl, (refl, tt))) (refl, (refl, (refl, tt))) (omega arith)

decides_one_at_0 : decide_values (node 0) round_of_0 ≡ pos 1 ∷ []
unfolding decide_values accept_all accept accept_est accept_conf send_est normalize values_key beq
    member add
decides_one_at_0 = refl

decides_zero_at_1 : decide_values (node 1) round_of_1 ≡ pos 0 ∷ []
unfolding decide_values accept_all accept accept_est accept_conf send_est normalize values_key beq
    member add
decides_zero_at_1 = refl

opposite_decisions_share_voters_example :
    2 ≤ length (common round_of_0.conf.at_one round_of_1.conf.at_zero)
opposite_decisions_share_voters_example =
    opposite_decisions_share_voters (node 0) (node 1) (pos 0) round_of_0 round_of_1 refl refl
      (omega arith) refl refl (first_round-Reachable (node 0) true (votes_for 1 1 2 3))
      (first_round-Reachable (node 1) false (votes_for 0 0 2 3)) decides_one_at_0 decides_zero_at_1

-- Node 1's CONF vote for 1 comes before node 0 votes, node 2's after; node 3 is silent. Three
-- nodes, as many as n-f, have voted for 1.
abbrev early_round : Round
early_round =
    (accept (node 0) (pos 0) (message conf_phase 1 (pos 0) (pos 1 ∷ [])) (
      first_round (node 0) true
        (message est_phase 1 (pos 1) [] ∷ message est_phase 2 (pos 1) [] ∷ []))).0

abbrev late : List ReceivedMessage
late = message conf_phase 2 (pos 0) (pos 1 ∷ []) ∷ []

early_round-conf : early_round.conf ≡ put (values_key (pos 1 ∷ [])) (pos 1 ∷ []) nothing_keyed
unfolding accept_all accept accept_est accept_conf send_est normalize values_key beq member add
early_round-conf = refl

early_conf_votes_are_lost_example :
    decide_values
      (node 0)
      (accept_all (node 0) (pos 0) late (send_conf (node 0) (pos 0) (pos 1 ∷ []) early_round).0)
    ≡ []
unfolding member
early_conf_votes_are_lost_example =
    early_conf_votes_are_lost (node 0) (pos 0) (pos 1 ∷ []) (pos 1 ∷ []) (pos 0 ∷ pos 2 ∷ [])
      early_round late early_round-conf refl (refl, tt) (omega arith)

abbrev three_rounds : List (List ℤ × ℤ)
three_rounds = (pos 1 ∷ [], pos 1) ∷ (pos 0 ∷ pos 1 ∷ [], pos 0) ∷ (pos 1 ∷ [], pos 3) ∷ []

three_rounds_return : conclude (negsuc 0) three_rounds ≡ some (pos 1)
unfolding conclude finish
three_rounds_return = refl

returns_on_two_matches_example : 2 ≤ matching (pos 1) three_rounds
returns_on_two_matches_example = returns_on_two_matches three_rounds (pos 1) three_rounds_return
