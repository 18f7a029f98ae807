-- ===== src/Sampling/Vandermonde.antt =====
-- The members of a sample split into faulty and honest ones: Vandermonde's identity, and the tail that
-- the code sums as a part of it.
use arladkr_practicaladkr.Prelude.{
  ℕ, zero, suc, ◌+◌, ◌-◌, ◌*◌, ◌≤◌, ◌<◌, ◌≡◌, refl, sym, ap, ◌⊎◌, inl, inr, arith,
}
use arladkr_practicaladkr.Sampling.{tail_from}
use arladkr_practicaladkr.Sampling.Choose.{choose, choose_zero, choose-of_lt, binomial-choose}

-- The samples with at least j faulty members of f, when r more members are sampled: the sum of
-- C(f, j + i) C(m, r - i).
unfoldable pub conv : ℕ → ℕ → ℕ → ℕ → ℕ
conv f m j zero = choose f j * choose m 0
conv f m j (suc r) = choose f j * choose m (suc r) + conv f m (suc j) r

conv_pascal : (f m j r : ℕ) → conv (suc f) m (suc j) r ≡ conv f m j r + conv f m (suc j) r
unfolding conv choose
conv_pascal f m j zero = grind arith
conv_pascal f m j (suc r) = grind (arith, conv_pascal f m (suc j) r)

conv_none : (f m j r : ℕ) → f < j → conv f m j r ≡ 0
unfolding conv
conv_none f m j zero h = rw (choose-of_lt f j h) (omega arith)
conv_none f m j (suc r) h =
    rw (choose-of_lt f j h) (omega (arith, conv_none f m (suc j) r (omega (arith, h))))

pascal : (n k : ℕ) → choose (suc n) (suc k) ≡ choose n k + choose n (suc k)
unfolding choose
pascal n k = refl

conv_total : (f m s : ℕ) → conv f m 0 s ≡ choose (f + m) s
unfolding conv
conv_total f m zero = rw (choose_zero f, choose_zero m, choose_zero (f + m)) (omega arith)
conv_total zero m (suc s) =
    let same : 0 + m ≡ m = omega arith in
    rw (choose_zero 0, same) (omega (arith, conv_none 0 m 1 s (omega arith)))
conv_total (suc f) m (suc s) =
    let count : suc f + m ≡ suc (f + m) = omega arith in
    let here = conv_total f m (suc s) in
    let below = conv_total f m s in
    let split = conv_pascal f m 0 s in
    let first : choose f 0 * choose m (suc s) ≡ choose m (suc s) =
      rw (choose_zero f) (omega arith) in
    rw (count, choose_zero (suc f)) (omega (arith, first, here, below, split, pascal (f + m) s))

-- Fewer faulty members asked for, more samples.
pub conv_mono : (f m j r d : ℕ) → conv f m (j + d) r ≤ conv f m j (r + d)
unfolding conv
conv_mono f m j r zero =
    let a : j + 0 ≡ j = omega arith in let b : r + 0 ≡ r = omega arith in rw (a, b) (omega arith)
conv_mono f m j r (suc d) =
    let a : j + suc d ≡ suc j + d = omega arith in
    let b : r + suc d ≡ suc (r + d) = omega arith in
    rw (a, b) (omega (arith, conv_mono f m (suc j) r d))

-- The loop stops early only where the terms vanish.
pub tail_from-conv :
    (n f j r left : ℕ)
    → left ≤ suc r
    → (left ≡ suc r) ⊎ (f < j + left)
    → tail_from left j n f (j + r) ≡ conv f (n - f) j r
unfolding tail_from conv
tail_from-conv n f j r zero short (inl full) = absurd (omega (arith, full))
tail_from-conv n f j r zero short (inr past) = sym (conv_none f (n - f) j r (omega (arith, past)))
tail_from-conv n f j zero (suc left) short stops =
    let last : left ≡ 0 = omega (arith, short) in
    let rest : j + 0 - j ≡ 0 = omega arith in
    rw (last, rest, binomial-choose f j, binomial-choose (n - f) 0) (omega arith)
tail_from-conv n f j (suc r) (suc left) short stops =
    let size : j + suc r - j ≡ suc r = omega arith in
    let next : j + suc r ≡ suc j + r = omega arith in
    rw (size, binomial-choose f j, binomial-choose (n - f) (suc r), next)
      (ap (λ t. choose f j * choose (n - f) (suc r) + t)
        (tail_from-conv n f (suc j) r left (omega (arith, short)) (later stops)))
  where
    later : (suc left ≡ suc (suc r)) ⊎ (f < j + suc left) → (left ≡ suc r) ⊎ (f < suc j + left)
    later (inl full) = inl (omega (arith, full))
    later (inr past) = inr (omega (arith, past))

-- At most all samples.
pub conv-le : (f m j r : ℕ) → conv f m j r ≤ choose (f + m) (j + r)
conv-le f m j r =
    let start : 0 + j ≡ j = omega arith in
    let size : r + j ≡ j + r = omega arith in
    rw (start, size, conv_total f m (j + r)) at (conv_mono f m 0 r j)
