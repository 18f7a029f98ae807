-- ===== src/Sampling/Bounds.antt =====
-- The failure bounds of a validator sample are probabilities, and the combined one covers the others.
use mathlib.Core.Path.{subst}
use arladkr_practicaladkr.Prelude.{
  ℕ, zero, suc, ◌+◌, ◌-◌, ◌*◌, ◌≤◌, ◌<◌, ◌≡◌, sym, ap, ◌∙◌, ◌⊎◌, inl, inr, true, not, ◌&&◌, some,
  arith, leb, ltb, le→leb, leb→le, ◌==◌, if◌then◌else◌, Bool-cases, guard->>, >>=-eq-some, some-inj,
  &&-left, &&-right,
}
use arladkr_practicaladkr.Sampling.{
  Frac, frac_le, good_sample, tail_from, fault_tail, ValidatorBounds, validator_bounds,
}
use arladkr_practicaladkr.Sampling.Choose.{choose, choose_zero, binomial-choose}
use arladkr_practicaladkr.Sampling.Vandermonde.{conv, conv_mono, tail_from-conv, conv-le}

choose_pos : (n k : ℕ) → k ≤ n → 1 ≤ choose n k
unfolding choose
choose_pos n zero h = omega (arith, choose_zero n)
choose_pos zero (suc k) h = absurd (omega (arith, h))
choose_pos (suc n) (suc k) h = omega (arith, choose_pos n k (omega (arith, h)))

-- What the tail of a sample with at least j faulty members is.
record Tail (n f sample j : ℕ) (tail : Frac) : Type 0 where
  rest : ℕ
  size : sample ≡ j + rest
  num : tail.num ≡ conv f (n - f) j rest
  den : tail.den ≡ choose n sample

left_le : (f j r : ℕ) → (if◌then◌else◌ {A = ℕ} (ltb (j + r) f) (j + r) f) + 1 - j ≤ suc r
left_le f j r = ground arith

left_stops :
    (f j r : ℕ)
    → ((if◌then◌else◌ {A = ℕ} (ltb (j + r) f) (j + r) f) + 1 - j ≡ suc r)
      ⊎ (f < j + ((if◌then◌else◌ {A = ℕ} (ltb (j + r) f) (j + r) f) + 1 - j))
left_stops f j r = elim (Bool-cases (ltb (j + r) f)) [
  | inl small ↦ rw small (inl (omega arith))
  | inr big ↦ rw big (inr (omega arith))
]

fault_tail-Tail :
    (n f sample j : ℕ) (tail : Frac) → fault_tail n f sample j ≡ some tail → Tail n f sample j tail
unfolding fault_tail
fault_tail-Tail n f sample j tail h =
    let (checked, h1) = guard->> (good_sample n f sample && not (j == 0) && leb j sample) _ h in
    let le : j ≤ sample =
      leb→le j sample (&&-right (good_sample n f sample && not (j == 0)) _ checked) in
    let r = sample - j in
    let size : sample ≡ j + r = omega (arith, le) in
    let made = some-inj _ tail h1 in
    record {
      rest = r;
      size = size;
      num =
          sym (ap Frac.num made)
          ∙ subst (λ s. tail_from ((if ltb s f then s else f) + 1 - j) j n f s ≡ conv f (n - f) j r)
              (sym size)
              (tail_from-conv n f j r ((if ltb (j + r) f then j + r else f) + 1 - j) (left_le f j r)
                (left_stops f j r));
      den = sym (ap Frac.den made) ∙ binomial-choose n sample;
    }

-- A tail of the same sample that asks for fewer faulty members is no smaller.
Tail-le :
    (n f sample j k : ℕ) (a b : Frac)
    → Tail n f sample j a
    → Tail n f sample k b
    → k ≤ j
    → frac_le a b ≡ true
Tail-le n f sample j k a b s t le =
    let d = j - k in
    let at_j : k + d ≡ j = omega (arith, le) in
    let more : s.rest + d ≡ t.rest = omega (arith, s.size, t.size, le) in
    let nums : a.num ≤ b.num =
      rw (s.num, t.num) (rw (at_j, more) at (conv_mono f (n - f) k s.rest d)) in
    let dens : a.den ≡ b.den = s.den ∙ sym t.den in
    le→leb (a.num * b.den) (b.num * a.den) (grind (arith, nums, dens))

Tail-le_one : (n f sample j : ℕ) (a : Frac) → f ≤ n → Tail n f sample j a → a.num ≤ a.den
Tail-le_one n f sample j a le t =
    let whole : f + (n - f) ≡ n = omega (arith, le) in
    rw (t.num, t.den, t.size) (rw whole at (conv-le f (n - f) j t.rest))

good_sample-facts :
    (n f sample : ℕ) → good_sample n f sample ≡ true → (f < n) × (1 ≤ sample) × (sample ≤ n)
good_sample-facts n f sample h = (ground arith, ground arith, ground arith)

-- A probability with a positive denominator.
abbrev pub IsProbability : Frac → Type 0
IsProbability p = (1 ≤ p.den) × (p.num ≤ p.den)

Tail-IsProbability :
    (n f sample j : ℕ) (a : Frac) → f ≤ n → sample ≤ n → Tail n f sample j a → IsProbability a
Tail-IsProbability n f sample j a le fits t =
    (omega (arith, choose_pos n sample fits, t.den), Tail-le_one n f sample j a le t)

-- The facts about one result.
pub record Covers (b : ValidatorBounds) : Type 0 where
  pub probability : IsProbability b.combined
  pub soundness_covered : frac_le b.soundness b.combined ≡ true
  pub liveness_covered : frac_le b.liveness b.combined ≡ true

-- When the bounds of a validator sample are computed: the combined one is a probability, and
-- neither the soundness bound nor the liveness bound is above it.
pub validator_bounds-Covers :
    (n f sample threshold : ℕ) (b : ValidatorBounds)
    → validator_bounds n f sample threshold ≡ some b
    → Covers b
unfolding validator_bounds
validator_bounds-Covers n f sample threshold b h =
    let (checked, h1) =
      guard->> (good_sample n f sample && not (threshold == 0) && leb threshold sample) _ h in
    let good : good_sample n f sample ≡ true =
      &&-left (good_sample n f sample) _
        (&&-left (good_sample n f sample && not (threshold == 0)) _ checked) in
    let (below, some_members, fits) = good_sample-facts n f sample good in
    let live = sample - threshold + 1 in
    let least = if ltb live threshold then live else threshold in
    let (soundness, sound, h2) = >>=-eq-some (fault_tail n f sample threshold) _ h1 in
    let (liveness, lives, h3) = >>=-eq-some (fault_tail n f sample live) _ h2 in
    let (combined, combines, h4) = >>=-eq-some (fault_tail n f sample least) _ h3 in
    let s = fault_tail-Tail n f sample threshold soundness sound in
    let l = fault_tail-Tail n f sample live liveness lives in
    let c = fault_tail-Tail n f sample least combined combines in
    let le = least_of live threshold in
    subst Covers (some-inj _ b h4) (record {
      probability = Tail-IsProbability n f sample least combined (omega (arith, below)) fits c;
      soundness_covered = Tail-le n f sample threshold least soundness combined s c le.1;
      liveness_covered = Tail-le n f sample live least liveness combined l c le.0;
    })
  where
    least_of :
        (a b : ℕ)
        → ((if◌then◌else◌ {A = ℕ} (ltb a b) a b) ≤ a) × ((if◌then◌else◌ {A = ℕ} (ltb a b) a b) ≤ b)
    least_of a b = (ground arith, ground arith)
