-- ===== src/Prelude/Text.antt =====
-- Go strings as bytes, and what the code uses of the packages strings and strconv. All texts are ASCII.
use Prim.Native.Nat.{ℕ, ◌+◌, ◌-◌, ◌*◌}
use Prim.Native.Char.{code}
use Prim.Native.String.{String}
use mathlib.Core.Bool.{Bool, ◌&&◌, ◌||◌}
use mathlib.Core.Option.{Option, none, some}
use mathlib.Core.List.{List, [], ◌∷◌, ◌++◌, map, reverse}
use arladkr_practicaladkr.Prelude.Tests.{leb, ◌==◌, if◌then◌else◌}
use arladkr_practicaladkr.Prelude.Int.{ℤ, pos, negsuc}
use arladkr_practicaladkr.Prelude.Bytes.{Bytes}

abbrev pub codes : String → Bytes
codes String.[] = []
codes (String.◌∷◌ c s) = code c ∷ codes s

-- `strings.TrimSpace` and `strings.Trim` by a test on characters
unfoldable pub trim_left : (ℕ → Bool) → Bytes → Bytes
trim_left cut [] = []
trim_left cut (c ∷ text) = let rest = trim_left cut text in if cut c then rest else c ∷ text

unfoldable pub trim : (ℕ → Bool) → Bytes → Bytes
trim cut text = reverse (trim_left cut (reverse (trim_left cut text)))

abbrev pub is_space : ℕ → Bool
is_space c = c == 32 || (leb 9 c && leb c 13)

-- `strings.ToLower`
abbrev pub lower_character : ℕ → ℕ
lower_character c = if leb 65 c && leb c 90 then c + 32 else c

unfoldable pub to_lower : Bytes → Bytes
to_lower text = map lower_character text

-- `strings.ToLower(strings.TrimSpace(…))`
abbrev pub folded : Bytes → Bytes
folded text = to_lower (trim is_space text)

-- `strings.Split` at a character: the part that is open, and the parts behind it.
unfoldable pub split_from : ℕ → Bytes → Bytes → List Bytes
split_from separator part [] = part ∷ []
split_from separator part (c ∷ text) =
    let closed = part ∷ split_from separator [] text in
    let longer = split_from separator (part ++ c ∷ []) text in
    if c == separator then closed else longer

abbrev pub split : ℕ → Bytes → List Bytes
split separator text = split_from separator [] text

-- Decimal digits, at least one.
unfoldable pub digits_from : ℕ → Bytes → Option ℕ
digits_from acc [] = some acc
digits_from acc (c ∷ text) =
    let rest = digits_from (acc * 10 + (c - 48)) text in if leb 48 c && leb c 57 then rest else none

unfoldable pub digits : Bytes → Option ℕ
digits [] = none
digits (c ∷ text) = digits_from 0 (c ∷ text)

abbrev negative : ℕ → Option ℤ
negative n =
    if n == 0
    then some (pos 0)
    else if leb n 9223372036854775808
    then some (negsuc (n - 1))
    else none

abbrev positive : ℕ → Option ℤ
positive n = if leb n 9223372036854775807 then some (pos n) else none

abbrev bind_digits : Option ℕ → (ℕ → Option ℤ) → Option ℤ
bind_digits none f = none
bind_digits (some n) f = f n

-- `strconv.Atoi`: an optional sign and digits, in the range of an int
unfoldable pub atoi : Bytes → Option ℤ
atoi [] = none
atoi (c ∷ text) =
    if c == 45
    then bind_digits (digits text) negative
    else if c == 43
    then bind_digits (digits text) positive
    else bind_digits (digits (c ∷ text)) positive
