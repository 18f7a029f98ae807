-- ===== src/Sampling/Targets.antt =====
-- Budgets are probabilities between zero and one, and a target that is no smoke target is met.
use mathlib.Core.Path.{subst}
use arladkr_practicaladkr.Prelude.{
  ℕ, zero, suc, ◌^◌, ◌≤◌, ◌<◌, ◌≡◌, inl, inr, true, not, none, some, List, [], ◌∷◌, arith, ltb,
  ◌==◌, if◌then◌else◌, Bool-cases, guard->>, >>=-eq-some, some-inj, take, drop, length,
}
use arladkr_practicaladkr.Prelude.Int.{ℤ, pos, pos_part, leb_ℤ}
use arladkr_practicaladkr.Prelude.Bytes.{Bytes, beq}
use arladkr_practicaladkr.Prelude.Text.{codes, folded, digits, atoi}
use arladkr_practicaladkr.Wire.Wrapped.{max_third}
use arladkr_practicaladkr.Sampling.{Frac, Report}
use arladkr_practicaladkr.Sampling.Budget.{
  split_exponent, coefficient, exponent, decimal_target, parse_target, resolve_budget,
  target_budget, resolve_target,
}
use arladkr_practicaladkr.Sampling.Sizes.{Secure, resolve_sampling-Secure}

abbrev pub IsProper : Frac → Type 0
IsProper b = (1 ≤ b.num) × (b.num < b.den)

coefficient-pos : (text : Bytes) (n : ℕ) → coefficient text ≡ some n → 1 ≤ n
unfolding coefficient
coefficient-pos [] n h = cc
coefficient-pos (c ∷ text) n h =
    let (value, e, h1) = >>=-eq-some (if c == 43 then digits text else digits (c ∷ text)) _ h in
    let (positive, h2) = guard->> (not (value == 0)) _ h1 in
    let same = some-inj value n h2 in ground (arith, same, positive)

exponent-pos : (text : Bytes) (n : ℕ) → exponent text ≡ some n → 1 ≤ n
unfolding exponent
exponent-pos text n h =
    let (value, e, h1) = >>=-eq-some (atoi text) _ h in
    let (positive, h2) = guard->> (not (leb_ℤ value (pos 0))) _ h1 in
    above value n positive (some-inj (pos_part value) n h2)
  where
    above : (v : ℤ) (n : ℕ) → not (leb_ℤ v (pos 0)) ≡ true → pos_part v ≡ n → 1 ≤ n
    above (pos k) n e same = ground arith
    above (ℤ.negsuc k) n e same = absurd (ground arith)

decimal_target-IsProper :
    (parts : List Bytes) (b : Frac) → decimal_target parts ≡ some b → IsProper b
unfolding decimal_target
decimal_target-IsProper [] b h = cc
decimal_target-IsProper (one ∷ []) b h = cc
decimal_target-IsProper (left ∷ right ∷ []) b h =
    let (num, counts, h1) = >>=-eq-some (coefficient left) _ h in
    let (places, e, h2) = >>=-eq-some (exponent right) _ h1 in
    let (below, h3) = guard->> (ltb num (10 ^ places)) _ h2 in
    subst IsProper (some-inj _ b h3) (coefficient-pos left num counts, ground (arith, below))
decimal_target-IsProper (x ∷ y ∷ z ∷ more) b h = cc

two_pow : (n : ℕ) → 1 ≤ 2 ^ n
two_pow zero = omega arith
two_pow (suc n) = omega (arith, two_pow n)

parse_target-IsProper : (text : Bytes) (b : Frac) → parse_target text ≡ some b → IsProper b
unfolding parse_target
parse_target-IsProper text b h =
    let value = folded text in
    elim (Bool-cases (beq (take 3 value) (codes "2^-"))) [
      | inl power ↦
          let (n, e, h1) = >>=-eq-some (exponent (drop 3 value)) _ (rw power at h) in
          subst IsProper (some-inj _ b h1) (omega arith, above_one n (exponent-pos _ n e))
      | inr decimal ↦ decimal_target-IsProper (split_exponent [] value) b (rw decimal at h)
    ]
  where
    above_one : (n : ℕ) → 1 ≤ n → 1 < 2 ^ n
    above_one zero h = absurd (omega (arith, h))
    above_one (suc n) h = omega (arith, two_pow n)

resolve_budget-IsProper : (text : Bytes) (b : Frac) → resolve_budget text ≡ some b → IsProper b
unfolding resolve_budget
resolve_budget-IsProper text b h =
    let value = folded text in
    elim (Bool-cases (beq value (codes "original"))) [
      | inl original ↦ subst IsProper (some-inj _ b (rw original at h)) (omega arith, omega arith)
      | inr other ↦ elim (Bool-cases (beq value (codes "high-assurance"))) [
        | inl high ↦
            subst IsProper (some-inj _ b (rw (other, high) at h)) (omega arith, omega arith)
        | inr custom ↦ parse_target-IsProper value b (rw (other, custom) at h)
      ]
    ]

target_budget-IsProper :
    (target : Bytes) (b : Frac) → target_budget target ≡ some (some b) → IsProper b
unfolding target_budget
target_budget-IsProper target b h =
    let normalized = folded target in
    elim (Bool-cases (length normalized == 0)) [
      | inl empty ↦ smoke b (some-inj none (some b) (rw empty at h))
      | inr text ↦ elim (Bool-cases (beq normalized (codes "smoke"))) [
        | inl named ↦ smoke b (some-inj none (some b) (rw (text, named) at h))
        | inr other ↦
            let (budget, e, h1) =
              >>=-eq-some (resolve_budget normalized) _ (rw (text, other) at h) in
            let same = some-inj budget b (some-inj (some budget) (some b) h1) in
            subst IsProper same (resolve_budget-IsProper normalized budget e)
      ]
    ]
  where
    smoke : (b : Frac) → none ≡ some b → IsProper b
    smoke b e = cc

-- For a target that stands for a failure budget, and a committee size whose 3n+1 is an int: the
-- budget is above 0 and below 1, and when sampling is resolved for it, n >= 3f+1, both sample
-- sizes are the least ones whose failure bound is at most half the budget, the threshold is a
-- majority of the validator sample, and the two bounds together are within the budget.
pub resolve_target-Secure :
    (n f : ℕ) (target : Bytes) (budget : Frac) (smoke_proposer smoke_validator : ℕ)
    (report : Report)
    → n ≤ max_third
    → target_budget target ≡ some (some budget)
    → resolve_target n f target smoke_proposer smoke_validator ≡ some report
    → IsProper budget × Secure n f budget report
unfolding resolve_target
resolve_target-Secure n f target budget smoke_proposer smoke_validator report small stands h = (
  target_budget-IsProper target budget stands,
  resolve_sampling-Secure n f budget smoke_proposer smoke_validator report small (rw stands at h),
)
