-- ===== src/Mvba/Aba/Support.antt =====
-- The sets of a round hold distinct nodes, a value gets into bin on 2f+1 EST votes, and a node sends
-- each value once.
use arladkr_practicaladkr.Prelude.{
  ℕ, ◌+◌, ◌*◌, ◌≤◌, ◌≡◌, refl, inl, inr, Bool, true, false, not, ◌||◌, List, [], ◌∷◌, arith, leb,
  length, Bool-cases, Option-cases,
}
use arladkr_practicaladkr.Prelude.Int.{ℤ, eqb_ℤ}
use arladkr_practicaladkr.Prelude.Bytes.{beq}
use arladkr_practicaladkr.Prelude.Members.{
  member, add, Distinct, in_range, InRange, add-Distinct, add-All, length-le-add,
}
use arladkr_practicaladkr.Mvba.Aba.{
  Phase, est_phase, aux_phase, conf_phase, other_phase, PhaseMsg, ReceivedMessage, Config, Votes,
  Key, only_zero, only_one, both, no_key, Keyed, at, put, Round, is_nil, new_round, bit, votes,
  set_votes, values_key, normalize, send_est, mark_bin, accept_est, accept_aux, accept_conf,
  accept_phase, accept,
}
use arladkr_practicaladkr.Mvba.Aba.Stages.{send_aux, send_conf}

-- A Go set of nodes: no repetition, and 0 <= id < n.
abbrev pub IsNodes : ℕ → List ℤ → Type 0
IsNodes n xs = Distinct xs × InRange n xs

pub add-IsNodes :
    (n : ℕ) (a : ℤ) (xs : List ℤ) → in_range n a ≡ true → IsNodes n xs → IsNodes n (add a xs)
add-IsNodes n a xs h v = (add-Distinct a xs v.0, add-All (λ x. in_range n x ≡ true) a xs h v.1)

pub record IsVotes (cfg : Config) (s : Votes) : Type 0 where
  pub est_nodes : IsNodes cfg.n s.est
  pub aux_nodes : IsNodes cfg.n s.aux
  pub bin_support : s.in_bin ≡ true → 2 * cfg.f + 1 ≤ length s.est

pub record IsRound (cfg : Config) (r : Round) : Type 0 where
  pub zeros_votes : IsVotes cfg r.zeros
  pub ones_votes : IsVotes cfg r.ones
  pub conf_nodes : (k : Key) → IsNodes cfg.n (at k r.conf)

pub new_round-IsRound : (cfg : Config) → IsRound cfg new_round
new_round-IsRound cfg = record {
  zeros_votes = record { est_nodes = (tt, tt); aux_nodes = (tt, tt); bin_support = λ h. cc };
  ones_votes = record { est_nodes = (tt, tt); aux_nodes = (tt, tt); bin_support = λ h. cc };
  conf_nodes = λ k. elim k as (λ k. IsNodes cfg.n (at k new_round.conf)) [
    | only_zero ↦ (tt, tt)
    | only_one ↦ (tt, tt)
    | both ↦ (tt, tt)
    | no_key ↦ (tt, tt)
  ];
}

pub votes-IsVotes : (cfg : Config) (v : Bool) (r : Round) → IsRound cfg r → IsVotes cfg (votes v r)
votes-IsVotes cfg false r h = h.zeros_votes
votes-IsVotes cfg true r h = h.ones_votes

set_votes-IsRound :
    (cfg : Config) (v : Bool) (s : Votes) (r : Round)
    → IsVotes cfg s
    → IsRound cfg r
    → IsRound cfg (set_votes v s r)
set_votes-IsRound cfg false s r hs h = record {
  zeros_votes = hs;
  ones_votes = h.ones_votes;
  conf_nodes = h.conf_nodes;
}
set_votes-IsRound cfg true s r hs h = record {
  zeros_votes = h.zeros_votes;
  ones_votes = hs;
  conf_nodes = h.conf_nodes;
}

pub put-IsNodes :
    (n : ℕ) (k j : Key) (xs : List ℤ) (m : Keyed)
    → IsNodes n xs
    → ((i : Key) → IsNodes n (at i m))
    → IsNodes n (at j (put k xs m))
put-IsNodes n only_zero j xs m hx h = elim j as (λ j. IsNodes n (at j (put only_zero xs m))) [
  | only_zero ↦ hx
  | only_one ↦ h only_one
  | both ↦ h both
  | no_key ↦ h no_key
]
put-IsNodes n only_one j xs m hx h = elim j as (λ j. IsNodes n (at j (put only_one xs m))) [
  | only_zero ↦ h only_zero
  | only_one ↦ hx
  | both ↦ h both
  | no_key ↦ h no_key
]
put-IsNodes n both j xs m hx h = elim j as (λ j. IsNodes n (at j (put both xs m))) [
  | only_zero ↦ h only_zero
  | only_one ↦ h only_one
  | both ↦ hx
  | no_key ↦ h no_key
]
put-IsNodes n no_key j xs m hx h = elim j as (λ j. IsNodes n (at j (put no_key xs m))) [
  | only_zero ↦ h only_zero
  | only_one ↦ h only_one
  | both ↦ h both
  | no_key ↦ hx
]

put_conf-IsRound :
    (cfg : Config) (k : Key) (xs : List ℤ) (vals : Keyed) (r : Round)
    → IsNodes cfg.n xs
    → IsRound cfg r
    → IsRound cfg (record r { conf = put k xs r.conf; conf_values = vals })
put_conf-IsRound cfg k xs vals r hx h = record {
  zeros_votes = h.zeros_votes;
  ones_votes = h.ones_votes;
  conf_nodes = λ j. put-IsNodes cfg.n k j xs r.conf hx h.conf_nodes;
}

-- An EST set that grew still supports what it supported.
est-IsVotes :
    (cfg : Config) (a : ℤ) (sent : Bool) (s : Votes)
    → in_range cfg.n a ≡ true
    → IsVotes cfg s
    → IsVotes cfg (record s { est_sent = sent; est = add a s.est })
est-IsVotes cfg a sent s h v = record {
  est_nodes = add-IsNodes cfg.n a s.est h v.est_nodes;
  aux_nodes = v.aux_nodes;
  bin_support = λ b. omega (arith, v.bin_support b, length-le-add a s.est);
}

module _ (cfg : Config) (own : in_range cfg.n cfg.id ≡ true) (aba_round : ℤ) where
  pub send_est-IsRound :
      (v : Bool) (r : Round) → IsRound cfg r → IsRound cfg (send_est cfg aba_round v r).0
  unfolding send_est
  send_est-IsRound v r h = elim (Bool-cases (votes v r).est_sent) [
    | inl sent ↦ rw (sent, send_est) h
    | inr unsent ↦
        rw (unsent, send_est)
          (set_votes-IsRound cfg v _ r
            (est-IsVotes cfg cfg.id true (votes v r) own (votes-IsVotes cfg v r h)) h)
  ]

mark_bin-IsRound :
    (cfg : Config) (v : Bool) (r : Round) → IsRound cfg r → IsRound cfg (mark_bin cfg v r)
mark_bin-IsRound cfg v r h = elim (Bool-cases (leb (2 * cfg.f + 1) (length (votes v r).est))) [
  | inl enough ↦
      let hv = votes-IsVotes cfg v r h in
      rw (enough, mark_bin)
        (set_votes-IsRound cfg v _ r
          (record {
            est_nodes = hv.est_nodes;
            aux_nodes = hv.aux_nodes;
            bin_support = λ b. ground arith;
          })
          h)
  | inr few ↦ rw (few, mark_bin) h
]

module _ (cfg : Config) (own : in_range cfg.n cfg.id ≡ true) (aba_round : ℤ) where
  accept_est-IsRound :
      (from : ℤ) (v : Bool) (r : Round)
      → in_range cfg.n from ≡ true
      → IsRound cfg r
      → IsRound cfg (accept_est cfg aba_round from v r).0
  unfolding accept_est
  accept_est-IsRound from v r known h = elim (Bool-cases (member from (votes v r).est)) [
    | inl seen ↦ rw (seen, accept_est) h
    | inr new ↦
        let side = votes v r in
        let r1 : Round = set_votes v (record side { est = add from side.est }) r in
        let h1 =
          set_votes-IsRound cfg v _ r
            (est-IsVotes cfg from side.est_sent side known (votes-IsVotes cfg v r h)) h in
        elim (Bool-cases (leb (cfg.f + 1) (length (votes v r1).est))) [
          | inl enough ↦
              rw (new, enough, accept_est)
                (mark_bin-IsRound cfg v _ (send_est-IsRound cfg own aba_round v r1 h1))
          | inr few ↦ rw (new, few, accept_est) (mark_bin-IsRound cfg v r1 h1)
        ]
  ]

accept_aux-IsRound :
    (cfg : Config) (from : ℤ) (v : Bool) (r : Round)
    → in_range cfg.n from ≡ true
    → IsRound cfg r
    → IsRound cfg (accept_aux from v r)
unfolding accept_aux
accept_aux-IsRound cfg from v r known h =
    let hv = votes-IsVotes cfg v r h in
    set_votes-IsRound cfg v _ r
      (record {
        est_nodes = hv.est_nodes;
        aux_nodes = add-IsNodes cfg.n from (votes v r).aux known hv.aux_nodes;
        bin_support = hv.bin_support;
      })
      h

accept_conf-IsRound :
    (cfg : Config) (from : ℤ) (received : List ℤ) (r : Round)
    → in_range cfg.n from ≡ true
    → IsRound cfg r
    → IsRound cfg (accept_conf from received r)
unfolding accept_conf
accept_conf-IsRound cfg from received r known h = elim (Bool-cases (is_nil (normalize received))) [
  | inl nothing ↦ rw (nothing, accept_conf) h
  | inr some_value ↦
      let key = values_key (normalize received) in
      rw (some_value, accept_conf)
        (put_conf-IsRound cfg key (add from (at key r.conf)) _ r
          (add-IsNodes cfg.n from (at key r.conf) known (h.conf_nodes key)) h)
]

module _ (cfg : Config) (own : in_range cfg.n cfg.id ≡ true) (aba_round : ℤ) where
  accept_phase-IsRound :
      (from : ℤ) (phase : Phase) (body : PhaseMsg) (r : Round)
      → body.phase ≡ phase
      → in_range cfg.n from ≡ true
      → IsRound cfg r
      → IsRound cfg (accept_phase cfg aba_round from body r).0
  accept_phase-IsRound from est_phase body r e known h = elim (Option-cases (bit body.value)) [
    | inl bad ↦ rw (e, bad, accept_phase) h
    | inr (v, good) ↦
        rw (e, good, accept_phase) (accept_est-IsRound cfg own aba_round from v r known h)
  ]
  accept_phase-IsRound from aux_phase body r e known h = elim (Option-cases (bit body.value)) [
    | inl bad ↦ rw (e, bad, accept_phase) h
    | inr (v, good) ↦ rw (e, good, accept_phase) (accept_aux-IsRound cfg from v r known h)
  ]
  accept_phase-IsRound from conf_phase body r e known h =
      rw (e, accept_phase) (accept_conf-IsRound cfg from body.values r known h)
  accept_phase-IsRound from (other_phase name) body r e known h = rw (e, accept_phase) h

  -- Whether `accept` drops the message before it looks at the phase.
  abbrev foreign : ReceivedMessage → PhaseMsg → Bool
  foreign msg body =
      not (beq body.sid cfg.sid)
      || not (eqb_ℤ body.iter cfg.iter)
      || not (eqb_ℤ body.round aba_round)
      || not (in_range cfg.n msg.from)

  pub accept-IsRound :
      (msg : ReceivedMessage) (r : Round)
      → IsRound cfg r
      → IsRound cfg (accept cfg aba_round msg r).0
  unfolding accept
  accept-IsRound msg r h = elim (Option-cases msg.body) [
    | inl untyped ↦ rw (untyped, accept) h
    | inr (body, typed) ↦ elim (Bool-cases (foreign msg body)) [
      | inl dropped ↦ rw (typed, dropped, accept) h
      | inr taken ↦
          rw (typed, taken, accept)
            (accept_phase-IsRound msg.from body.phase body r refl (ground arith) h)
    ]
  ]

  pub send_aux-IsRound : (r : Round) → IsRound cfg r → IsRound cfg (send_aux cfg aba_round r).0
  unfolding send_aux
  send_aux-IsRound r h = accept_aux-IsRound cfg cfg.id (not r.zeros.in_bin) r own h

  pub send_conf-IsRound :
      (values : List ℤ) (r : Round)
      → IsRound cfg r
      → IsRound cfg (send_conf cfg aba_round values r).0
  unfolding send_conf member
  send_conf-IsRound values r h =
      put_conf-IsRound cfg (values_key values) (cfg.id ∷ []) _ r ((refl, tt), (own, tt)) h
