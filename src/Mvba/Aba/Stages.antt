-- ===== src/Mvba/Aba/Stages.antt =====
-- experiments/dumbomvba-go/core/aba_equivalent.go: what runABA does between its three waits, and
-- what each wait waits for.
use arladkr_practicaladkr.Prelude.{
  ℕ, ◌+◌, ◌-◌, ◌%◌, Bool, true, false, not, ◌&&◌, ◌||◌, none, some, List, [], ◌∷◌, ◌++◌, leb,
  if◌then◌else◌, length,
}
use arladkr_practicaladkr.Prelude.Int.{ℤ, pos, negsuc, eqb_ℤ}
use arladkr_practicaladkr.Prelude.Members.{add}
use arladkr_practicaladkr.Mvba.Aba.{
  aux_phase, conf_phase, PhaseMsg, Config, Key, only_zero, only_one, both, no_key, at, put, Round,
  bit, of_bit, votes, values_key, accept_aux,
}

abbrev pub quorum : Config → ℕ
quorum cfg = cfg.n - cfg.f

-- `len(bin) == 0` ends the first wait when it is false.
abbrev pub bin_empty : Round → Bool
bin_empty r = not (r.zeros.in_bin || r.ones.in_bin)

-- The node's AUX vote: 0 if it is in bin, else 1.
unfoldable pub send_aux : Config → ℤ → Round → Round × List PhaseMsg
send_aux cfg aba_round r =
    let v = not r.zeros.in_bin in
    (
      accept_aux cfg.id v r,
      (record {
        sid = cfg.sid;
        iter = cfg.iter;
        round = aba_round;
        phase = aux_phase;
        value = of_bit v;
        values = [];
      })
          ∷ [],
    )

-- A loop that adds every member of one set to another.
unfoldable pub add_all : List ℤ → List ℤ → List ℤ
add_all [] seen = seen
add_all (x ∷ xs) seen = add_all xs (add x seen)

-- The values of `bin`, in order.
abbrev pub bin_values : Round → List ℤ
bin_values r =
    (if r.zeros.in_bin then pos 0 ∷ [] else []) ++ (if r.ones.in_bin then pos 1 ∷ [] else [])

-- The senders of AUX votes for the values of `bin`.
abbrev pub aux_seen : Round → List ℤ
aux_seen r =
    let s0 = if r.zeros.in_bin then add_all r.zeros.aux [] else [] in
    if r.ones.in_bin then add_all r.ones.aux s0 else s0

-- The values that the second wait finds; it goes on waiting while they are empty.
unfoldable pub choose_values : Config → Round → List ℤ
choose_values cfg r =
    if r.ones.in_bin && leb (quorum cfg) (length r.ones.aux)
    then pos 1 ∷ []
    else if r.zeros.in_bin && leb (quorum cfg) (length r.zeros.aux)
    then pos 0 ∷ []
    else if leb (quorum cfg) (length (aux_seen r))
    then bin_values r
    else []

-- The node's own CONF vote. The set of the key is replaced, as the source does.
unfoldable pub send_conf : Config → ℤ → List ℤ → Round → Round × List PhaseMsg
send_conf cfg aba_round values r =
    let key = values_key values in
    (
      record r { conf = put key (cfg.id ∷ []) r.conf; conf_values = put key values r.conf_values },
      (record {
        sid = cfg.sid;
        iter = cfg.iter;
        round = aba_round;
        phase = conf_phase;
        value = pos 0;
        values = values;
      })
          ∷ [],
    )

abbrev in_bin_value : Round → ℤ → Bool
in_bin_value r v = elim (bit v) [ none ↦ false | some b ↦ (votes b r).in_bin ]

abbrev all_in_bin : Round → List ℤ → Bool
all_in_bin r [] = true
all_in_bin r (v ∷ vs) = in_bin_value r v && all_in_bin r vs

-- `abaValuesSubset(values, bin)`
unfoldable pub values_subset : List ℤ → Round → Bool
values_subset [] r = false
values_subset (v ∷ vs) r = all_in_bin r (v ∷ vs)

abbrev pub add_compatible : Key → Round → List ℤ → List ℤ
add_compatible key r seen =
    if values_subset (at key r.conf_values) r then add_all (at key r.conf) seen else seen

-- The senders of CONF votes whose values are all in `bin`.
unfoldable pub compatible : Round → List ℤ
compatible r =
    add_compatible no_key r
      (add_compatible both r (add_compatible only_one r (add_compatible only_zero r [])))

-- The values that the third wait finds; it goes on waiting while they are empty.
unfoldable pub decide_values : Config → Round → List ℤ
decide_values cfg r =
    if r.ones.in_bin && leb (quorum cfg) (length r.conf.at_one)
    then pos 1 ∷ []
    else if r.zeros.in_bin && leb (quorum cfg) (length r.conf.at_zero)
    then pos 0 ∷ []
    else if leb (quorum cfg) (length (compatible r))
    then pos 0 ∷ pos 1 ∷ []
    else []

-- How a round ends: the call returns, or the next round starts with an estimate and a decision.
pub data Ending : Type 0 where
  returns : ℤ → Ending
  continues : ℤ → ℤ → Ending

-- `coinValue &= 1`
abbrev pub coin_bit : ℤ → ℤ
coin_bit (pos k) = pos (k % 2)
coin_bit (negsuc k) = pos ((k + 1) % 2)

-- The end of the round: the decision before it, the values decided and the coin.
unfoldable pub finish : ℤ → List ℤ → ℤ → Ending
finish decision (v ∷ []) coin =
    if eqb_ℤ v (coin_bit coin)
    then if eqb_ℤ decision v then returns v else continues v v
    else continues v decision
finish decision [] coin = continues (coin_bit coin) decision
finish decision (v ∷ w ∷ vs) coin = continues (coin_bit coin) decision
