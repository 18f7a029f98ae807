-- ===== src/Wire/Wrapped.antt =====
-- Go's int arithmetic of core/: a sum or product of ints that are not negative wraps to 64 bits, and the
-- test for a third of a committee that is written with it.
use arladkr_practicaladkr.Prelude.{
  ℕ, ◌+◌, ◌-◌, ◌*◌, ◌%◌, ◌≤◌, ◌≡◌, refl, true, arith, leb, le→leb, if◌then◌else◌,
}
use arladkr_practicaladkr.Prelude.Int.{ℤ, pos, negsuc, leb_ℤ}
use arladkr_practicaladkr.Wire.{two64, max_int}

-- A sum or product of ints that are not negative, wrapped to 64 bits.
abbrev pub wrapped : ℕ → ℤ
wrapped n = let r = n % two64 in if leb r max_int then pos r else negsuc (two64 - 1 - r)

-- The largest f whose 3f+1 is an int.
abbrev pub max_third : ℕ
max_third = 3074457345618258602

wrapped_small : (n : ℕ) → n ≤ max_int → wrapped n ≡ pos n
wrapped_small n h =
    let same : n % two64 ≡ n = omega (arith, h) in
    let fits : leb n max_int ≡ true = le→leb n max_int h in rw (same, fits) refl

-- Without a wrap, the test is the one that is meant.
pub wrapped_le :
    (f n : ℕ) → f ≤ max_third → leb_ℤ (wrapped (3 * f + 1)) (pos n) ≡ true → 3 * f + 1 ≤ n
wrapped_le f n small h =
    let value = wrapped_small (3 * f + 1) (omega (arith, small)) in
    let low : leb (3 * f + 1 + 0) (n + 0) ≡ true = rw value at h in ground arith
