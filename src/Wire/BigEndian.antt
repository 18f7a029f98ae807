-- ===== src/Wire/BigEndian.antt =====
-- Big-endian integers: width, range and the round trip with the value.
use native.Mathlib.Nat.{pow-suc}
use arladkr_practicaladkr.Prelude.{
  ℕ, zero, suc, ◌+◌, ◌*◌, ◌/◌, ◌%◌, ◌^◌, ◌<◌, ◌≡◌, refl, [], ◌∷◌, ◌++◌, arith, length,
  length-append, All-append,
}
use arladkr_practicaladkr.Prelude.Bytes.{Bytes, IsBytes}
use arladkr_practicaladkr.Wire.{put_be, be_value}

pub length-put_be : (k v : ℕ) → length (put_be k v) ≡ k
unfolding put_be
length-put_be zero v = refl
length-put_be (suc k) v =
    omega (arith, length-append (put_be k (v / 256)) (v % 256 ∷ []), length-put_be k (v / 256))

pub put_be-IsBytes : (k v : ℕ) → IsBytes (put_be k v)
unfolding put_be
put_be-IsBytes zero v = tt
put_be-IsBytes (suc k) v =
    All-append (λ b. b < 256) (put_be k (v / 256)) (v % 256 ∷ []) (put_be-IsBytes k (v / 256))
      (omega arith, tt)

pub be_value-append :
    (acc : ℕ) (xs : Bytes) (b : ℕ) → be_value acc (xs ++ b ∷ []) ≡ be_value acc xs * 256 + b
unfolding be_value
be_value-append acc [] b = refl
be_value-append acc (x ∷ xs) b = be_value-append (acc * 256 + x) xs b

-- A value that fits the width is read back.
pub be_value-put_be : (k v : ℕ) → v < 256 ^ k → be_value 0 (put_be k v) ≡ v
unfolding put_be
be_value-put_be zero v h = unfold be_value in omega arith
be_value-put_be (suc k) v h = omega (
  arith,
  be_value-append 0 (put_be k (v / 256)) (v % 256),
  be_value-put_be k (v / 256) (omega (arith, pow-suc 256 k)),
)
