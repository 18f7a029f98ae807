-- ===== src/Sampling/Choose.antt =====
-- binomial against its reference, Pascal's triangle: every division of its loop is exact.
use arladkr_practicaladkr.Prelude.{
  ℕ, zero, suc, ◌+◌, ◌-◌, ◌*◌, ◌/◌, ◌≤◌, ◌<◌, ◌≡◌, refl, sym, ap, ◌∙◌, inl, inr, false, arith, ltb,
  ltb→lt, Bool-cases,
}
use arladkr_practicaladkr.Sampling.{multiply_up, binomial}

unfoldable pub choose : ℕ → ℕ → ℕ
choose n zero = 1
choose zero (suc k) = 0
choose (suc n) (suc k) = choose n k + choose n (suc k)

pub choose_zero : (n : ℕ) → choose n 0 ≡ 1
unfolding choose
choose_zero zero = refl
choose_zero (suc n) = refl

-- The choices of one, with a distinguished element: (p + 1) C(p, i) = (i + 1) C(p + 1, i + 1).
absorb : (p i : ℕ) → suc p * choose p i ≡ suc i * choose (suc p) (suc i)
unfolding choose
absorb zero zero = omega arith
absorb zero (suc i) = omega arith
absorb (suc p) zero = omega (arith, absorb p zero)
absorb (suc p) (suc j) = grind (arith, absorb p j, absorb p (suc j))

pub choose-of_lt : (n k : ℕ) → n < k → choose n k ≡ 0
unfolding choose
choose-of_lt n zero h = absurd (omega (arith, h))
choose-of_lt zero (suc k) h = refl
choose-of_lt (suc n) (suc k) h =
    omega (arith, choose-of_lt n k (omega (arith, h)), choose-of_lt n (suc k) (omega (arith, h)))

choose_self : (n : ℕ) → choose n n ≡ 1
unfolding choose
choose_self zero = refl
choose_self (suc n) = omega (arith, choose_self n, choose-of_lt n (suc n) (omega arith))

choose_symm : (n a b : ℕ) → n ≡ a + b → choose n a ≡ choose n b
unfolding choose
choose_symm n zero b e = let same : n ≡ b = omega (arith, e) in rw (← same) (sym (choose_self n))
choose_symm n (suc a) zero e =
    let same : n ≡ suc a = omega (arith, e) in rw (← same) (choose_self n)
choose_symm zero (suc a) (suc b) e = absurd (omega (arith, e))
choose_symm (suc n) (suc a) (suc b) e =
    omega (
      arith,
      choose_symm n a (suc b) (omega (arith, e)),
      choose_symm n (suc a) b (omega (arith, e)),
    )

exact_div : (x i : ℕ) → x * suc i / suc i ≡ x
exact_div x i = grind arith

-- A round keeps the product a binomial coefficient.
round : (base i : ℕ) → choose (base + i) i * (base + suc i) / suc i ≡ choose (base + suc i) (suc i)
unfolding choose
round base i =
    let count : base + suc i ≡ suc (base + i) = omega arith in
    let e : choose (base + i) i * suc (base + i) ≡ choose (suc (base + i)) (suc i) * suc i =
      grind (arith, absorb (base + i) i) in
    rw (count, e) (exact_div (choose (suc (base + i)) (suc i)) i)

multiply_up-choose :
    (left i base : ℕ)
    → multiply_up left (suc i) base (choose (base + i) i) ≡ choose (base + (i + left)) (i + left)
unfolding multiply_up
multiply_up-choose zero i base = let e : i ≡ i + 0 = omega arith in ap (λ k. choose (base + k) k) e
multiply_up-choose (suc left) i base =
    rw (round base i)
      (multiply_up-choose left (suc i) base ∙ ap (λ k. choose (base + k) k) (omega arith))

-- The loop of binomial computes the entry of Pascal's triangle: the number of k-element subsets of n.
pub binomial-choose : (n k : ℕ) → binomial n k ≡ choose n k
unfolding binomial
binomial-choose n k = elim (Bool-cases (ltb n k)) [
  | inl none_left ↦ rw none_left (sym (choose-of_lt n k (ltb→lt n k none_left)))
  | inr fits ↦
      let le : k ≤ n = not_ltb n k fits in
      elim (Bool-cases (ltb (n - k) k)) [
        | inl other_side ↦
            rw (fits, other_side)
              (from_one (n - (n - k)) (n - k)
                ∙ ap (λ m. choose m (n - k)) (omega (arith, le))
                ∙ choose_symm n (n - k) k (omega (arith, le)))
        | inr this_side ↦
            rw (fits, this_side) (from_one (n - k) k ∙ ap (λ m. choose m k) (omega (arith, le)))
      ]
]
  where
    not_ltb : (a b : ℕ) → ltb a b ≡ false → b ≤ a
    not_ltb a b h = ground arith

    from_one : (base left : ℕ) → multiply_up left 1 base 1 ≡ choose (base + left) left
    from_one base left =
        ap (λ r. multiply_up left 1 base r) (sym (choose_zero (base + 0)))
        ∙ multiply_up-choose left 0 base
        ∙ ap (λ m. choose (base + m) m) (omega arith)
