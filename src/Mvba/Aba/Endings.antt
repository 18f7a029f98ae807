-- ===== src/Mvba/Aba/Endings.antt =====
-- The end of runABA's rounds, one after another: when the call returns.
use arladkr_practicaladkr.Prelude.{
  ℕ, ◌+◌, ◌≤◌, ◌≡◌, refl, ◌∙◌, ap, ◌⊎◌, inl, inr, ◌&&◌, Option, none, some, List, [], ◌∷◌, arith,
  if◌then◌else◌,
}
use arladkr_practicaladkr.Prelude.Int.{ℤ, pos, negsuc, eqb_ℤ, eqb_ℤ_iff}
use arladkr_practicaladkr.Mvba.Aba.Stages.{Ending, returns, continues, coin_bit, finish}

-- The rounds of a call, each with the values decided in it and its coin, from a decision: what the
-- call returns, or none while it goes on.
unfoldable pub conclude : ℤ → List (List ℤ × ℤ) → Option ℤ
conclude decision [] = none
conclude decision ((decided, coin) ∷ rounds) = elim (finish decision decided coin) [
  | returns v ↦ some v
  | continues estimate decision' ↦ conclude decision' rounds
]

-- A round matches a value when it decided that value alone and the coin shows it.
unfoldable pub matches : ℤ → List ℤ × ℤ → ℕ
matches v ([], coin) = 0
matches v (w ∷ [], coin) = if eqb_ℤ w v && eqb_ℤ (coin_bit coin) v then 1 else 0
matches v (w ∷ x ∷ ws, coin) = 0

abbrev pub matching : ℤ → List (List ℤ × ℤ) → ℕ
matching v [] = 0
matching v (round ∷ rounds) = matches v round + matching v rounds

-- One more match is due when the decision is not yet the value.
abbrev due : ℤ → ℤ → ℕ
due decision v = if eqb_ℤ decision v then 1 else 2

-- What a round leads to, by its decided values.
finish-returns :
    (decision : ℤ) (decided : List ℤ) (coin v : ℤ)
    → finish decision decided coin ≡ returns v
    → due decision v ≤ matches v (decided, coin)
unfolding finish matches
finish-returns decision [] coin v h = cc
finish-returns decision (w ∷ []) coin v h = ground (
  arith,
  eqb_ℤ_iff w v,
  eqb_ℤ_iff w (coin_bit coin),
  eqb_ℤ_iff (coin_bit coin) v,
  eqb_ℤ_iff decision v,
  eqb_ℤ_iff decision w,
)
finish-returns decision (w ∷ x ∷ ws) coin v h = cc

finish-continues :
    (decision : ℤ) (decided : List ℤ) (coin v estimate decision' : ℤ)
    → finish decision decided coin ≡ continues estimate decision'
    → due decision v ≤ matches v (decided, coin) + due decision' v
unfolding finish matches
finish-continues decision [] coin v estimate decision' h = ground (arith)
finish-continues decision (w ∷ []) coin v estimate decision' h =
    ground (arith, eqb_ℤ_iff w v, eqb_ℤ_iff w (coin_bit coin), eqb_ℤ_iff (coin_bit coin) v)
finish-continues decision (w ∷ x ∷ ws) coin v estimate decision' h = ground (arith)

Ending-cases :
    (e : Ending)
    → ((v : ℤ) × (e ≡ returns v)) ⊎ ((estimate : ℤ) × (d : ℤ) × (e ≡ continues estimate d))
Ending-cases (returns v) = inl (v, refl)
Ending-cases (continues estimate d) = inr (estimate, d, refl)

conclude-due :
    (decision v : ℤ) (rounds : List (List ℤ × ℤ))
    → conclude decision rounds ≡ some v
    → due decision v ≤ matching v rounds
unfolding conclude
conclude-due decision v [] h = cc h
conclude-due decision v ((decided, coin) ∷ rounds) h =
    elim (Ending-cases (finish decision decided coin)) [
      | inl (w, e) ↦
          let same : w ≡ v = cc (rw (e, conclude) at h) in
          let now : due decision v ≤ matches v (decided, coin) =
            finish-returns decision decided coin v (e ∙ ap returns same) in
          omega (arith, now)
      | inr (estimate, d, e) ↦ omega (
        arith,
        finish-continues decision decided coin v estimate d e,
        conclude-due d v rounds (rw (e, conclude) at h),
      )
    ]

matches-negsuc : (k : ℕ) (decided : List ℤ) (coin : ℤ) → matches (negsuc k) (decided, coin) ≡ 0
unfolding matches
matches-negsuc k [] coin = refl
matches-negsuc k (w ∷ []) (pos c) = ground arith
matches-negsuc k (w ∷ []) (negsuc c) = ground arith
matches-negsuc k (w ∷ x ∷ ws) coin = refl

matching-negsuc : (k : ℕ) (rounds : List (List ℤ × ℤ)) → matching (negsuc k) rounds ≡ 0
matching-negsuc k [] = refl
matching-negsuc k ((decided, coin) ∷ rounds) =
    omega (arith, matches-negsuc k decided coin, matching-negsuc k rounds)

-- The call starts with the decision -1; if it returns a value after some rounds, then in at least
-- two of these rounds that value alone was decided and the coin showed it.
pub returns_on_two_matches :
    (rounds : List (List ℤ × ℤ)) (v : ℤ)
    → conclude (negsuc 0) rounds ≡ some v
    → 2 ≤ matching v rounds
returns_on_two_matches rounds (pos v) h = ground (arith, conclude-due (negsuc 0) (pos v) rounds h)
returns_on_two_matches rounds (negsuc k) h =
    ground (arith, conclude-due (negsuc 0) (negsuc k) rounds h, matching-negsuc k rounds)
