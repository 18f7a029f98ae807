-- ===== src/Mvba/Aba.antt =====
-- experiments/dumbomvba-go/core/aba_equivalent.go: one round of runABA, the binary agreement after
-- Mostéfaoui, Moumen and Raynal. The closures `sendEST` and `accept` take the round's variables as a
-- state and return it with the messages that they broadcast.
pub mod Stages
pub mod Support
pub mod History
pub mod Conf
pub mod Endings
use arladkr_practicaladkr.Prelude.{
  ℕ, zero, suc, ◌+◌, ◌-◌, ◌*◌, ◌≤◌, Bool, true, false, not, ◌&&◌, ◌||◌, Option, none, some, List,
  [], ◌∷◌, ◌++◌, leb, ◌==◌, if◌then◌else◌, length,
}
use arladkr_practicaladkr.Prelude.Int.{ℤ, pos, negsuc, eqb_ℤ, is_neg, ltb_ℤ, leb_ℤ}
use arladkr_practicaladkr.Prelude.Bytes.{Bytes, beq}
use arladkr_practicaladkr.Prelude.Members.{member, add, in_range}

-- The strings EST, AUX and CONF, and every other string.
pub data Phase : Type 0 where
  est_phase : Phase
  aux_phase : Phase
  conf_phase : Phase
  other_phase : Bytes → Phase

pub record PhaseMsg : Type 0 where
  pub sid : Bytes
  pub iter : ℤ
  pub round : ℤ
  pub phase : Phase
  pub value : ℤ
  pub values : List ℤ

-- `body` is none when the type assertion on the message's body fails.
pub record ReceivedMessage : Type 0 where
  pub from : ℤ
  pub body : Option PhaseMsg

-- The parameters of a call, which do not change while it runs.
pub record Config : Type 0 where
  pub n : ℕ
  pub f : ℕ
  pub id : ℤ
  pub sid : Bytes
  pub iter : ℤ

-- The entries `est[v]`, `estSent[v]`, `v in bin` and `aux[v]` of one value.
pub record Votes : Type 0 where
  pub est : List ℤ
  pub est_sent : Bool
  pub in_bin : Bool
  pub aux : List ℤ

-- `abaValuesKey`'s strings "0", "1" and "01", and the empty string.
pub data Key : Type 0 where
  only_zero : Key
  only_one : Key
  both : Key
  no_key : Key

-- A map from keys as the record of its entries; an absent entry is the empty list.
pub record Keyed : Type 0 where
  pub at_zero : List ℤ
  pub at_one : List ℤ
  pub at_both : List ℤ
  pub at_none : List ℤ

abbrev pub at : Key → Keyed → List ℤ
at only_zero m = m.at_zero
at only_one m = m.at_one
at both m = m.at_both
at no_key m = m.at_none

abbrev pub put : Key → List ℤ → Keyed → Keyed
put only_zero xs m = record m { at_zero = xs }
put only_one xs m = record m { at_one = xs }
put both xs m = record m { at_both = xs }
put no_key xs m = record m { at_none = xs }

-- The variables of one pass of the round loop.
pub record Round : Type 0 where
  pub zeros : Votes
  pub ones : Votes
  pub conf : Keyed
  pub conf_values : Keyed

abbrev no_votes : Votes
no_votes = record { est = []; est_sent = false; in_bin = false; aux = [] }

abbrev pub nothing_keyed : Keyed
nothing_keyed = record { at_zero = []; at_one = []; at_both = []; at_none = [] }

abbrev pub new_round : Round
new_round = record {
  zeros = no_votes;
  ones = no_votes;
  conf = nothing_keyed;
  conf_values = nothing_keyed;
}

-- An index into the arrays of two: `v == 0` or `v == 1`.
abbrev pub bit : ℤ → Option Bool
bit (pos zero) = some false
bit (pos (suc zero)) = some true
bit (pos (suc (suc k))) = none
bit (negsuc k) = none

abbrev pub of_bit : Bool → ℤ
of_bit false = pos 0
of_bit true = pos 1

abbrev pub votes : Bool → Round → Votes
votes false r = r.zeros
votes true r = r.ones

abbrev pub set_votes : Bool → Votes → Round → Round
set_votes false v r = record r { zeros = v }
set_votes true v r = record r { ones = v }

-- `normalizeABAValues`: the loop over the values, then the result in order.
abbrev collect : Bool → Bool → List ℤ → Option (Bool × Bool)
collect seen0 seen1 [] = some (seen0, seen1)
collect seen0 seen1 (v ∷ vs) =
    let with0 = collect true seen1 vs in
    let with1 = collect seen0 true vs in
    elim (bit v) [
      | none ↦ none
      | some false ↦ if seen0 then none else with0
      | some true ↦ if seen1 then none else with1
    ]

abbrev ordered : Bool → Bool → List ℤ
ordered seen0 seen1 = (if seen0 then pos 0 ∷ [] else []) ++ (if seen1 then pos 1 ∷ [] else [])

unfoldable pub normalize : List ℤ → List ℤ
normalize values = elim (collect false false values) [
  | none ↦ []
  | some (seen0, seen1) ↦ ordered seen0 seen1
]

-- `abaSingleValueKey`
abbrev pub single_key : ℤ → Key
single_key v = if eqb_ℤ v (pos 0) then only_zero else only_one

abbrev key_of_normal : List ℤ → Key
key_of_normal [] = no_key
key_of_normal (v ∷ []) = single_key v
key_of_normal (v ∷ w ∷ []) = both
key_of_normal (v ∷ w ∷ x ∷ vs) = no_key

-- `abaValuesKey` of a slice
unfoldable pub values_key : List ℤ → Key
values_key values = key_of_normal (normalize values)

-- `sendEST`
unfoldable pub send_est : Config → ℤ → Bool → Round → Round × List PhaseMsg
send_est cfg aba_round v r =
    let side = votes v r in
    if side.est_sent then (r, []) else (
      set_votes v (record side { est_sent = true; est = add cfg.id side.est }) r,
      (record {
        sid = cfg.sid;
        iter = cfg.iter;
        round = aba_round;
        phase = est_phase;
        value = of_bit v;
        values = [];
      })
          ∷ [],
    )

-- `if len(est[v]) >= 2*f+1 { bin[v] = struct{}{} }`
abbrev pub mark_bin : Config → Bool → Round → Round
mark_bin cfg v r =
    let side = votes v r in
    if leb (2 * cfg.f + 1) (length side.est)
    then set_votes v (record side { in_bin = true }) r
    else r

-- The EST case of `accept`.
unfoldable pub accept_est : Config → ℤ → ℤ → Bool → Round → Round × List PhaseMsg
accept_est cfg aba_round from v r =
    let side = votes v r in
    if member from side.est
    then (r, [])
    else let r1 = set_votes v (record side { est = add from side.est }) r in
      let (r2, sent) =
        if leb (cfg.f + 1) (length (votes v r1).est)
        then send_est cfg aba_round v r1
        else (r1, []) in
      (mark_bin cfg v r2, sent)

-- The AUX case of `accept`.
unfoldable pub accept_aux : ℤ → Bool → Round → Round
accept_aux from v r =
    let side = votes v r in set_votes v (record side { aux = add from side.aux }) r

abbrev pub is_nil : List ℤ → Bool
is_nil [] = true
is_nil (x ∷ xs) = false

-- The CONF case of `accept`.
unfoldable pub accept_conf : ℤ → List ℤ → Round → Round
accept_conf from received r =
    let values = normalize received in
    let key = values_key values in
    if is_nil values
    then r
    else let fresh = is_nil (at key r.conf) in
      record r {
        conf = put key (add from (at key r.conf)) r.conf;
        conf_values = if fresh then put key values r.conf_values else r.conf_values;
      }

-- The switch of `accept` over the phase.
abbrev pub accept_phase : Config → ℤ → ℤ → PhaseMsg → Round → Round × List PhaseMsg
accept_phase cfg aba_round from body r = elim body.phase [
  | est_phase ↦ elim (bit body.value) [
    | none ↦ (r, [])
    | some v ↦ accept_est cfg aba_round from v r
  ]
  | aux_phase ↦ elim (bit body.value) [ none ↦ (r, []) | some v ↦ (accept_aux from v r, []) ]
  | conf_phase ↦ (accept_conf from body.values r, [])
  | other_phase name ↦ (r, [])
]

-- `accept`
unfoldable pub accept : Config → ℤ → ReceivedMessage → Round → Round × List PhaseMsg
accept cfg aba_round msg r = elim msg.body [
  | none ↦ (r, [])
  | some body ↦
      if not (beq body.sid cfg.sid)
        || not (eqb_ℤ body.iter cfg.iter)
        || not (eqb_ℤ body.round aba_round)
        || not (in_range cfg.n msg.from)
      then (r, [])
      else accept_phase cfg aba_round msg.from body r
]
