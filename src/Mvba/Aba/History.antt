-- ===== src/Mvba/Aba/History.antt =====
-- The rounds that a run of runABA can come to, and what their votes rest on.
use arladkr_practicaladkr.Prelude.{
  ◌+◌, ◌*◌, ◌≤◌, ◌≡◌, Bool, true, false, List, [], ◌∷◌, arith, length,
}
use arladkr_practicaladkr.Prelude.Int.{ℤ, pos}
use arladkr_practicaladkr.Prelude.Members.{Distinct, InRange, in_range, common, quorum_intersection}
use arladkr_practicaladkr.Mvba.Aba.{
  ReceivedMessage, Config, only_zero, only_one, Round, new_round, votes, send_est, accept,
}
use arladkr_practicaladkr.Mvba.Aba.Stages.{
  quorum, bin_empty, send_aux, choose_values, send_conf, decide_values,
}
use arladkr_practicaladkr.Mvba.Aba.Support.{
  IsRound, new_round-IsRound, votes-IsVotes, send_est-IsRound, accept-IsRound, send_aux-IsRound,
  send_conf-IsRound,
}

-- The statements that change the variables of a round, in the order that the loop allows.
pub data Reachable (cfg : Config) (aba_round : ℤ) : Round → Type 0 where
  started : (v : Bool) → Reachable cfg aba_round (send_est cfg aba_round v new_round).0
  received :
      (msg : ReceivedMessage) (r : Round)
      → Reachable cfg aba_round r
      → Reachable cfg aba_round (accept cfg aba_round msg r).0
  voted :
      (r : Round)
      → bin_empty r ≡ false
      → Reachable cfg aba_round r
      → Reachable cfg aba_round (send_aux cfg aba_round r).0
  confirmed :
      (r : Round) (v : ℤ) (vs : List ℤ)
      → choose_values cfg r ≡ v ∷ vs
      → Reachable cfg aba_round r
      → Reachable cfg aba_round (send_conf cfg aba_round (v ∷ vs) r).0

Reachable-IsRound :
    (cfg : Config) (aba_round : ℤ) (r : Round)
    → in_range cfg.n cfg.id ≡ true
    → Reachable cfg aba_round r
    → IsRound cfg r
Reachable-IsRound cfg aba_round _ own (started v) =
    send_est-IsRound cfg own aba_round v new_round (new_round-IsRound cfg)
Reachable-IsRound cfg aba_round _ own (received msg r h) =
    accept-IsRound cfg own aba_round msg r (Reachable-IsRound cfg aba_round r own h)
Reachable-IsRound cfg aba_round _ own (voted r full h) =
    send_aux-IsRound cfg own aba_round r (Reachable-IsRound cfg aba_round r own h)
Reachable-IsRound cfg aba_round _ own (confirmed r v vs chosen h) =
    send_conf-IsRound cfg own aba_round (v ∷ vs) r (Reachable-IsRound cfg aba_round r own h)

-- In every reachable round of a node of the group: if a value is in bin, then for every set of at
-- least n-f nodes of the group, at least f+1 of them are counted with an EST vote for the value.
pub bin_value_is_supported :
    (cfg : Config) (aba_round : ℤ) (r : Round) (v : Bool) (live : List ℤ)
    → in_range cfg.n cfg.id ≡ true
    → Reachable cfg aba_round r
    → (votes v r).in_bin ≡ true
    → Distinct live
    → InRange cfg.n live
    → cfg.n ≤ length live + cfg.f
    → cfg.f + 1 ≤ length (common (votes v r).est live)
bin_value_is_supported cfg aba_round r v live own h in_bin distinct known large =
    let hv = votes-IsVotes cfg v r (Reachable-IsRound cfg aba_round r own h) in
    omega (
      arith,
      hv.bin_support in_bin,
      quorum_intersection cfg.n (votes v r).est live hv.est_nodes.0 distinct hv.est_nodes.1 known,
    )

decides_one :
    (cfg : Config) (r : Round)
    → decide_values cfg r ≡ pos 1 ∷ []
    → quorum cfg ≤ length r.conf.at_one
unfolding decide_values
decides_one cfg r h = ground arith

decides_zero :
    (cfg : Config) (r : Round)
    → decide_values cfg r ≡ pos 0 ∷ []
    → quorum cfg ≤ length r.conf.at_zero
unfolding decide_values
decides_zero cfg r h = ground arith

-- If two nodes of a group with n >= 3f+1 come, in reachable states of one round, to the opposite
-- single values 1 and 0, then at least f+1 nodes are counted with a CONF vote for 1 at the first
-- and with one for 0 at the second.
pub opposite_decisions_share_voters :
    (a b : Config) (aba_round : ℤ) (ra rb : Round)
    → a.n ≡ b.n
    → a.f ≡ b.f
    → 3 * a.f + 1 ≤ a.n
    → in_range a.n a.id ≡ true
    → in_range b.n b.id ≡ true
    → Reachable a aba_round ra
    → Reachable b aba_round rb
    → decide_values a ra ≡ pos 1 ∷ []
    → decide_values b rb ≡ pos 0 ∷ []
    → a.f + 1 ≤ length (common ra.conf.at_one rb.conf.at_zero)
opposite_decisions_share_voters a b aba_round ra rb same_n same_f resilient own_a own_b ha hb one
      zero =
    let na = (Reachable-IsRound a aba_round ra own_a ha).conf_nodes only_one in
    let nb = (Reachable-IsRound b aba_round rb own_b hb).conf_nodes only_zero in
    omega (
      arith,
      decides_one a ra one,
      decides_zero b rb zero,
      quorum_intersection a.n ra.conf.at_one rb.conf.at_zero na.0 nb.0 na.1 (rw same_n nb.1),
    )
