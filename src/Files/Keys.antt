-- ===== src/Files/Keys.antt =====
-- core/util.go: safeCacheComponent; core/cv_sapvss_store.go: cvStoreKeyParts. Session identifiers
-- are ASCII text.
use arladkr_practicaladkr.Prelude.{
  ℕ, zero, suc, ◌+◌, ◌/◌, ◌%◌, Bool, not, ◌&&◌, ◌||◌, Option, none, some, [], ◌∷◌, ◌++◌, map, leb,
  ltb, ◌==◌, if◌then◌else◌, length, take,
}
use arladkr_practicaladkr.Prelude.Int.{ℤ, is_neg}
use arladkr_practicaladkr.Prelude.Bytes.{Bytes}
use arladkr_practicaladkr.Prelude.Text.{codes, trim, is_space}
use arladkr_practicaladkr.Util.{hash_bytes}

-- `r >= 'a' && r <= 'z' || …` of safeCacheComponent
abbrev pub is_safe : ℕ → Bool
is_safe c =
    (leb b'a' c && leb c b'z')
    || (leb b'A' c && leb c b'Z')
    || (leb b'0' c && leb c b'9')
    || c == b'-'
    || c == b'_'
    || c == b'.'

abbrev pub safe_character : ℕ → ℕ
safe_character c = if is_safe c then c else b'_'

-- `safeCacheComponent`
unfoldable pub safe_cache_component : Bytes → Bytes
safe_cache_component value =
    let trimmed = trim is_space value in
    if length trimmed == 0 then codes "default" else map safe_character trimmed

-- `hex.EncodeToString`
abbrev pub hex_digit : ℕ → ℕ
hex_digit n = if ltb n 10 then 48 + n else 87 + n

unfoldable pub hex : Bytes → Bytes
hex [] = []
hex (b ∷ bs) = hex_digit (b / 16) ∷ hex_digit (b % 16) ∷ hex bs

-- `%d` of a number that is not negative; n + 1 rounds are enough for n.
unfoldable pub decimal_from : ℕ → ℕ → Bytes
decimal_from zero n = []
decimal_from (suc fuel) n =
    let high = decimal_from fuel (n / 10) in
    if ltb n 10 then (48 + n) ∷ [] else high ++ (48 + n % 10) ∷ []

abbrev pub decimal : ℕ → Bytes
decimal n = decimal_from (suc n) n

unfoldable pub sid_domain : Bytes
sid_domain = codes "ARL-CV-sAPVSS/store-sid"

abbrev pub is_edge : ℕ → Bool
is_edge c = c == b'.' || c == b'_' || c == b'-'

-- The readable front of the component of a session.
unfoldable pub sid_base : Bytes → Bytes
sid_base sid =
    let base = trim is_edge (safe_cache_component sid) in
    let named = if length base == 0 then codes "sid" else base in
    if ltb 64 (length named) then take 64 named else named

-- `cvStoreKeyParts`
unfoldable pub store_key_parts : (Bytes → Bytes) → Bytes → ℤ → ℤ → Bytes → Option (Bytes × Bytes)
store_key_parts sha256 sid epoch holder digest =
    if length (trim is_space sid) == 0 || is_neg epoch || is_neg holder || not (length digest == 32)
    then none
    else some (sid_base sid ++ (b'-' ∷ hex (hash_bytes sha256 (sid_domain ∷ sid ∷ []))), hex digest)
