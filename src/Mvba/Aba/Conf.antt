-- ===== src/Mvba/Aba/Conf.antt =====
-- The third wait of a round after the node's own CONF vote: what becomes of votes that came earlier.
use arladkr_practicaladkr.Prelude.{
  ◌≤◌, ◌<◌, ◌≡◌, refl, ◌⊎◌, inl, inr, Bool, true, false, not, ◌||◌, List, [], ◌∷◌, arith, length,
  Bool-cases, Option-cases, All,
}
use arladkr_practicaladkr.Prelude.Int.{ℤ, eqb_ℤ}
use arladkr_practicaladkr.Prelude.Bytes.{beq}
use arladkr_practicaladkr.Prelude.Members.{
  Distinct, Within, in_range, member, add, add-Distinct, add-All, length-le_of_Within,
}
use arladkr_practicaladkr.Mvba.Aba.{
  only_zero, only_one, both, no_key, Phase, est_phase, aux_phase, conf_phase, other_phase, PhaseMsg,
  ReceivedMessage, Config, Keyed, Key, at, put, Round, bit, send_est, accept_est, accept_aux,
  accept_conf, accept_phase, accept, nothing_keyed, normalize, values_key, is_nil,
}
use arladkr_practicaladkr.Mvba.Aba.Stages.{
  quorum, add_all, values_subset, add_compatible, compatible, decide_values, send_conf,
}

-- What a message does to the CONF votes: nothing, or it adds its sender under one key.
abbrev Counted : ℤ → Keyed → Keyed → Type 0
Counted from before after =
    (after ≡ before) ⊎ ((k : Key) × (after ≡ put k (add from (at k before)) before))

accept_est-conf :
    (cfg : Config) (aba_round from : ℤ) (v : Bool) (r : Round)
    → (accept_est cfg aba_round from v r).0.conf ≡ r.conf
unfolding accept_est send_est
accept_est-conf cfg aba_round from false r = ground arith
accept_est-conf cfg aba_round from true r = ground arith

accept_aux-conf : (from : ℤ) (v : Bool) (r : Round) → (accept_aux from v r).conf ≡ r.conf
unfolding accept_aux
accept_aux-conf from false r = refl
accept_aux-conf from true r = refl

accept_conf-Counted :
    (from : ℤ) (received : List ℤ) (r : Round)
    → Counted from r.conf (accept_conf from received r).conf
unfolding accept_conf
accept_conf-Counted from received r = elim (Bool-cases (is_nil (normalize received))) [
  | inl nothing ↦ inl (rw (nothing, accept_conf) refl)
  | inr some_value ↦ inr (values_key (normalize received), rw (some_value, accept_conf) refl)
]

accept_phase-Counted :
    (cfg : Config) (aba_round from : ℤ) (phase : Phase) (body : PhaseMsg) (r : Round)
    → body.phase ≡ phase
    → Counted from r.conf (accept_phase cfg aba_round from body r).0.conf
accept_phase-Counted cfg aba_round from est_phase body r e = elim (Option-cases (bit body.value)) [
  | inl bad ↦ inl (rw (e, bad, accept_phase) refl)
  | inr (v, good) ↦ inl (rw (e, good, accept_phase) (accept_est-conf cfg aba_round from v r))
]
accept_phase-Counted cfg aba_round from aux_phase body r e = elim (Option-cases (bit body.value)) [
  | inl bad ↦ inl (rw (e, bad, accept_phase) refl)
  | inr (v, good) ↦ inl (rw (e, good, accept_phase) (accept_aux-conf from v r))
]
accept_phase-Counted cfg aba_round from conf_phase body r e =
    rw (e, accept_phase) (accept_conf-Counted from body.values r)
accept_phase-Counted cfg aba_round from (other_phase name) body r e =
    inl (rw (e, accept_phase) refl)

accept-Counted :
    (cfg : Config) (aba_round : ℤ) (msg : ReceivedMessage) (r : Round)
    → Counted msg.from r.conf (accept cfg aba_round msg r).0.conf
unfolding accept
accept-Counted cfg aba_round msg r = elim (Option-cases msg.body) [
  | inl untyped ↦ inl (rw (untyped, accept) refl)
  | inr (body, typed) ↦
      let foreign : Bool =
        not (beq body.sid cfg.sid)
        || not (eqb_ℤ body.iter cfg.iter)
        || not (eqb_ℤ body.round aba_round)
        || not (in_range cfg.n msg.from) in
      elim (Bool-cases foreign) [
        | inl dropped ↦ inl (rw (typed, dropped, accept) refl)
        | inr taken ↦
            rw (typed, taken, accept)
              (accept_phase-Counted cfg aba_round msg.from body.phase body r refl)
      ]
]

-- CONF votes that are sets within a list of nodes.
record IsWithin (nodes : List ℤ) (m : Keyed) : Type 0 where
  sets : (k : Key) → Distinct (at k m) × Within nodes (at k m)

put-IsWithin :
    (nodes xs : List ℤ) (k : Key) (m : Keyed)
    → Distinct xs
    → Within nodes xs
    → IsWithin nodes m
    → IsWithin nodes (put k xs m)
put-IsWithin nodes xs only_zero m d w h = record {
  sets = λ j.
      elim j
        as (λ j. Distinct (at j (put only_zero xs m)) × Within nodes (at j (put only_zero xs m))) [
          | only_zero ↦ (d, w)
          | only_one ↦ h.sets only_one
          | both ↦ h.sets both
          | no_key ↦ h.sets no_key
        ];
}
put-IsWithin nodes xs only_one m d w h = record {
  sets = λ j.
      elim j
        as (λ j. Distinct (at j (put only_one xs m)) × Within nodes (at j (put only_one xs m))) [
          | only_zero ↦ h.sets only_zero
          | only_one ↦ (d, w)
          | both ↦ h.sets both
          | no_key ↦ h.sets no_key
        ];
}
put-IsWithin nodes xs both m d w h = record {
  sets = λ j.
      elim j as (λ j. Distinct (at j (put both xs m)) × Within nodes (at j (put both xs m))) [
        | only_zero ↦ h.sets only_zero
        | only_one ↦ h.sets only_one
        | both ↦ (d, w)
        | no_key ↦ h.sets no_key
      ];
}
put-IsWithin nodes xs no_key m d w h = record {
  sets = λ j.
      elim j as (λ j. Distinct (at j (put no_key xs m)) × Within nodes (at j (put no_key xs m))) [
        | only_zero ↦ h.sets only_zero
        | only_one ↦ h.sets only_one
        | both ↦ h.sets both
        | no_key ↦ (d, w)
      ];
}

accept-IsWithin :
    (cfg : Config) (aba_round : ℤ) (nodes : List ℤ) (msg : ReceivedMessage) (r : Round)
    → member msg.from nodes ≡ true
    → IsWithin nodes r.conf
    → IsWithin nodes (accept cfg aba_round msg r).0.conf
accept-IsWithin cfg aba_round nodes msg r known h = elim (accept-Counted cfg aba_round msg r) [
  | inl same ↦ rw same h
  | inr (k, added) ↦ rw added (
      put-IsWithin nodes (add msg.from (at k r.conf)) k r.conf
        (add-Distinct msg.from (at k r.conf) (h.sets k).0)
        (add-All (λ x. member x nodes ≡ true) msg.from (at k r.conf) known (h.sets k).1) h)
]

-- The third wait: `accept` on one message after another.
unfoldable pub accept_all : Config → ℤ → List ReceivedMessage → Round → Round
accept_all cfg aba_round [] r = r
accept_all cfg aba_round (msg ∷ msgs) r =
    accept_all cfg aba_round msgs (accept cfg aba_round msg r).0

accept_all-IsWithin :
    (cfg : Config) (aba_round : ℤ) (nodes : List ℤ) (msgs : List ReceivedMessage) (r : Round)
    → All (λ msg. member msg.from nodes ≡ true) msgs
    → IsWithin nodes r.conf
    → IsWithin nodes (accept_all cfg aba_round msgs r).conf
unfolding accept_all
accept_all-IsWithin cfg aba_round nodes [] r known h = h
accept_all-IsWithin cfg aba_round nodes (msg ∷ msgs) r known h =
    accept_all-IsWithin cfg aba_round nodes msgs (accept cfg aba_round msg r).0 known.1
      (accept-IsWithin cfg aba_round nodes msg r known.0 h)

add_all-Distinct : (xs seen : List ℤ) → Distinct seen → Distinct (add_all xs seen)
unfolding add_all
add_all-Distinct [] seen d = d
add_all-Distinct (x ∷ xs) seen d = add_all-Distinct xs (add x seen) (add-Distinct x seen d)

add_all-Within :
    (nodes xs seen : List ℤ) → Within nodes xs → Within nodes seen → Within nodes (add_all xs seen)
unfolding add_all
add_all-Within nodes [] seen hx h = h
add_all-Within nodes (x ∷ xs) seen hx h =
    add_all-Within nodes xs (add x seen) hx.1 (add-All (λ y. member y nodes ≡ true) x seen hx.0 h)

add_compatible-Within :
    (nodes seen : List ℤ) (k : Key) (r : Round)
    → IsWithin nodes r.conf
    → Distinct seen × Within nodes seen
    → Distinct (add_compatible k r seen) × Within nodes (add_compatible k r seen)
add_compatible-Within nodes seen k r h s =
    elim (Bool-cases (values_subset (at k r.conf_values) r)) [
      | inl subset ↦
          rw (subset, add_compatible)
            (
              add_all-Distinct (at k r.conf) seen s.0,
              add_all-Within nodes (at k r.conf) seen (h.sets k).1 s.1,
            )
      | inr not_subset ↦ rw (not_subset, add_compatible) s
    ]

length-compatible :
    (nodes : List ℤ) (r : Round) → IsWithin nodes r.conf → length (compatible r) ≤ length nodes
unfolding compatible
length-compatible nodes r h =
    let c0 = add_compatible-Within nodes [] only_zero r h (tt, tt) in
    let c1 = add_compatible-Within nodes _ only_one r h c0 in
    let c2 = add_compatible-Within nodes _ both r h c1 in
    let c3 = add_compatible-Within nodes _ no_key r h c2 in length-le_of_Within _ nodes c3.0 c3.1

decide_values-few :
    (cfg : Config) (nodes : List ℤ) (r : Round)
    → IsWithin nodes r.conf
    → length nodes < quorum cfg
    → decide_values cfg r ≡ []
unfolding decide_values
decide_values-few cfg nodes r h few =
    let s0 = h.sets only_zero in
    let s1 = h.sets only_one in
    ground (
      arith,
      length-le_of_Within r.conf.at_zero nodes s0.0 s0.1,
      length-le_of_Within r.conf.at_one nodes s1.0 s1.1,
      length-compatible nodes r h,
    )

put-put : (k : Key) (xs ys : List ℤ) (m : Keyed) → put k xs (put k ys m) ≡ put k xs m
put-put only_zero xs ys m = refl
put-put only_one xs ys m = refl
put-put both xs ys m = refl
put-put no_key xs ys m = refl

nothing-IsWithin : (nodes : List ℤ) → IsWithin nodes nothing_keyed
nothing-IsWithin nodes = record {
  sets = λ k. elim k as (λ k. Distinct (at k nothing_keyed) × Within nodes (at k nothing_keyed)) [
    | only_zero ↦ (tt, tt)
    | only_one ↦ (tt, tt)
    | both ↦ (tt, tt)
    | no_key ↦ (tt, tt)
  ];
}

send_conf-IsWithin :
    (cfg : Config) (aba_round : ℤ) (nodes values early : List ℤ) (r : Round)
    → r.conf ≡ put (values_key values) early nothing_keyed
    → member cfg.id nodes ≡ true
    → IsWithin nodes (send_conf cfg aba_round values r).0.conf
unfolding send_conf member
send_conf-IsWithin cfg aba_round nodes values early r e own =
    rw (e, put-put (values_key values) (cfg.id ∷ []) early nothing_keyed)
      (put-IsWithin nodes (cfg.id ∷ []) (values_key values) nothing_keyed (refl, tt) (own, tt)
        (nothing-IsWithin nodes))

-- When the CONF votes that came before the node's own all carry the node's own values, they no
-- longer count after it: if the node and the senders of all later messages lie within fewer than
-- n-f nodes, the third wait finds nothing after these messages, whoever had voted before.
pub early_conf_votes_are_lost :
    (cfg : Config) (aba_round : ℤ) (values early nodes : List ℤ) (r : Round)
    (msgs : List ReceivedMessage)
    → r.conf ≡ put (values_key values) early nothing_keyed
    → member cfg.id nodes ≡ true
    → All (λ msg. member msg.from nodes ≡ true) msgs
    → length nodes < quorum cfg
    → decide_values cfg (accept_all cfg aba_round msgs (send_conf cfg aba_round values r).0) ≡ []
early_conf_votes_are_lost cfg aba_round values early nodes r msgs e own known few =
    decide_values-few cfg nodes _
      (accept_all-IsWithin cfg aba_round nodes msgs _ known
        (send_conf-IsWithin cfg aba_round nodes values early r e own))
      few
