-- ===== src/Sampling/Budget.antt =====
-- core/cv_sapvss_sampling_scalar.go: the failure budget that a configured text stands for. Texts are
-- ASCII; the profile's name and the text for reports are left out.
use arladkr_practicaladkr.Prelude.{
  ℕ, ◌*◌, ◌^◌, not, ◌&&◌, Option, none, some, List, [], ◌∷◌, ◌++◌, ltb, ◌==◌, if◌then◌else◌, length,
  drop, take, ◌>>=◌, ◌>>◌, guard,
}
use arladkr_practicaladkr.Prelude.Int.{pos, pos_part, leb_ℤ}
use arladkr_practicaladkr.Prelude.Bytes.{Bytes, beq}
use arladkr_practicaladkr.Prelude.Text.{codes, folded, digits, atoi}
use arladkr_practicaladkr.Sampling.{Frac, Report, resolve_sampling}

-- `strings.Split(value, "e-")`: the part that is open, and the parts behind it.
unfoldable pub split_exponent : Bytes → Bytes → List Bytes
split_exponent part [] = part ∷ []
split_exponent part (c ∷ []) = (part ++ c ∷ []) ∷ []
split_exponent part (c ∷ d ∷ text) =
    let closed = part ∷ split_exponent [] text in
    let longer = split_exponent (part ++ c ∷ []) (d ∷ text) in
    if c == 101 && d == 45 then closed else longer

-- A positive number for `(*big.Int).SetString` in base ten, with its optional sign
unfoldable pub coefficient : Bytes → Option ℕ
coefficient [] = none
coefficient (c ∷ text) = do
  value ← if c == 43 then digits text else digits (c ∷ text)
  guard (not (value == 0))
  some value

-- `strconv.Atoi`, above zero
unfoldable pub exponent : Bytes → Option ℕ
exponent text = do value ← atoi text; guard (not (leb_ℤ value (pos 0))); some (pos_part value)

unfoldable pub decimal_target : List Bytes → Option Frac
decimal_target (left ∷ right ∷ []) = do
  num ← coefficient left
  places ← exponent right
  guard (ltb num (10 ^ places))
  some (record { num = num; den = 10 ^ places })
decimal_target [] = none
decimal_target (one ∷ []) = none
decimal_target (a ∷ b ∷ c ∷ more) = none

-- `cvParseFailureTargetScalar`
unfoldable pub parse_target : Bytes → Option Frac
parse_target given =
    let value = folded given in
    if beq (take 3 value) (codes "2^-")
    then (exponent (drop 3 value) >>= λ e. some (record { num = 1; den = 2 ^ e }))
    else decimal_target (split_exponent [] value)

-- `cvResolveFailureBudgetScalar`
unfoldable pub resolve_budget : Bytes → Option Frac
resolve_budget given =
    let value = folded given in
    if beq value (codes "original")
    then some (record { num = 1; den = 10000000000 })
    else if beq value (codes "high-assurance")
    then some (record { num = 1; den = 2 ^ 64 * 525600 })
    else parse_target value

-- The budget of ResolveCVScalarSampling, none for the smoke profile.
unfoldable pub target_budget : Bytes → Option (Option Frac)
target_budget target =
    let normalized = folded target in
    if length normalized == 0
    then some none
    else if beq normalized (codes "smoke")
    then some none
    else resolve_budget normalized >>= λ budget. some (some budget)

-- `ResolveCVScalarSampling`
unfoldable pub resolve_target : ℕ → ℕ → Bytes → ℕ → ℕ → Option Report
resolve_target n f target smoke_proposer smoke_validator = do
  budget ← target_budget target
  resolve_sampling n f budget smoke_proposer smoke_validator
