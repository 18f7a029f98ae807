-- ===== src/Eligibility/Sizes.antt =====
-- cvEligibilitySampleSize always finds the least sample within the bound.
use arladkr_practicaladkr.Prelude.{
  ℕ, zero, suc, ◌+◌, ◌≤◌, ◌<◌, ◌≡◌, refl, inl, inr, Bool, true, false, not, ◌&&◌, ◌||◌, some, arith,
  ltb, ◌==◌, Bool-cases,
}
use arladkr_practicaladkr.Sampling.{Frac, frac_le, binomial}
use arladkr_practicaladkr.Eligibility.{sample_from, sample_size}

-- The probability that a sample has only faulty members.
abbrev pub only_faulty : ℕ → ℕ → ℕ → Frac
only_faulty n f c = record { num = binomial f c; den = binomial n c }

-- A result of the search from a first sample on.
pub record Least (n f : ℕ) (bound : Frac) (from c : ℕ) : Type 0 where
  pub at_least : from ≤ c
  pub at_most : c ≤ f + 1
  pub meets : frac_le (only_faulty n f c) bound ≡ true
  pub no_less :
      (smaller : ℕ) → from ≤ smaller → smaller < c → frac_le (only_faulty n f smaller) bound ≡ false

-- A sample larger than the number of faulty members has an honest one.
honest_member : (n f : ℕ) (bound : Frac) (c : ℕ) → f < c → frac_le (only_faulty n f c) bound ≡ true
unfolding binomial
honest_member n f bound c h =
    let no_sample : ltb f c ≡ true = ground (arith, h) in rw no_sample (ground arith)

stops :
    (n f : ℕ) (bound : Frac) (c : ℕ)
    → (ltb f c || frac_le (only_faulty n f c) bound) ≡ true
    → frac_le (only_faulty n f c) bound ≡ true
stops n f bound c h = elim (Bool-cases (ltb f c)) [
  | inl honest ↦ honest_member n f bound c (ground (arith, honest))
  | inr small ↦ rw small at h
]

sample_from-Least :
    (n f : ℕ) (bound : Frac) (left c : ℕ)
    → c ≤ f + 1
    → f + 1 < c + left
    → (k : ℕ) × (sample_from n f bound left c ≡ some k) × Least n f bound c k
unfolding sample_from
sample_from-Least n f bound zero c le enough = absurd (omega (arith, le, enough))
sample_from-Least n f bound (suc left) c le enough =
    elim (Bool-cases (ltb f c || frac_le (only_faulty n f c) bound)) [
      | inl found ↦ (
        c,
        rw found,
        record {
          at_least = omega arith;
          at_most = le;
          meets = stops n f bound c found;
          no_less = λ smaller ge lt. absurd (omega (arith, ge, lt));
        },
      )
      | inr on ↦
          let (small, unlikely) = both_false (ltb f c) _ on in
          let (k, e, least) =
            sample_from-Least n f bound left (suc c) (ground (arith, small))
              (omega (arith, enough)) in
          (
            k,
            rw on e,
            record {
              at_least = omega (arith, least.at_least);
              at_most = least.at_most;
              meets = least.meets;
              no_less = λ smaller ge lt. elim (Bool-cases (c == smaller)) [
                | inl same ↦ let s : c ≡ smaller = ground (arith, same) in rw (← s) unlikely
                | inr other ↦ least.no_less smaller (ground (arith, other, ge)) lt
              ];
            },
          )
    ]
  where
    both_false : (a b : Bool) → (a || b) ≡ false → (a ≡ false) × (b ≡ false)
    both_false true b h = cc
    both_false false b h = (refl, h)

-- For f < n and a bound above 0 and below 1: the search of cvEligibilitySampleSize ends with a
-- size, at least 1 and at most f+1, whose probability of having only faulty members is within the
-- bound, while that of every smaller size is not.
pub sample_size-Least :
    (n f p q : ℕ)
    → f < n
    → 1 ≤ p
    → p < q
    → (c : ℕ) × (sample_size n f p q ≡ some c) × Least n f (record { num = p; den = q }) 1 c
unfolding sample_size
sample_size-Least n f p q few positive below =
    let (c, e, least) =
      sample_from-Least n f (record { num = p; den = q }) n 1 (omega arith) (omega (arith, few)) in
    let valid : (not (n == 0) && ltb f n && not (p == 0) && ltb p q) ≡ true = ground arith in
    (c, rw valid e, least)
