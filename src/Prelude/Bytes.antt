-- ===== src/Prelude/Bytes.antt =====
-- Byte slices as lists of numbers: `bytes.Equal`, and big-endian integers of a fixed width.
use Prim.Native.Nat.{ℕ, ◌<◌}
use mathlib.Core.Path.{◌≡◌, refl}
use mathlib.Core.Bool.{Bool, true, false, ◌&&◌}
use mathlib.Core.List.{List, [], ◌∷◌}
use native.Mathlib.Omega.{arith}
use arladkr_practicaladkr.Prelude.Tests.{◌==◌}
use arladkr_practicaladkr.Prelude.Lists.{All}

abbrev pub Bytes : Type 0
Bytes = List ℕ

abbrev pub IsBytes : Bytes → Type 0
IsBytes = All (λ b. b < 256)

-- `bytes.Equal`
unfoldable pub beq : Bytes → Bytes → Bool
beq [] [] = true
beq (x ∷ xs) (y ∷ ys) = x == y && beq xs ys
beq [] (y ∷ ys) = false
beq (x ∷ xs) [] = false

pub beq→eq : (a b : Bytes) → beq a b ≡ true → a ≡ b
unfolding beq
beq→eq [] [] h = refl
beq→eq (x ∷ xs) (y ∷ ys) h = ground (arith, beq→eq xs ys)
beq→eq [] (y ∷ ys) h = cc
beq→eq (x ∷ xs) [] h = cc

pub beq_refl : (a : Bytes) → beq a a ≡ true
unfolding beq
beq_refl [] = refl
beq_refl (x ∷ xs) = ground (arith, beq_refl xs)
