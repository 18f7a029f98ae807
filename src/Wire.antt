-- ===== src/Wire.antt =====
-- core/cv_sapvss.go (cvWriteUint32, cvWriteUint64, cvWriteBytes) and core/cv_sapvss_m4.go
-- (cvWireReader): the canonical framing of every CV-sAPVSS message. A buffer is the bytes written
-- so far; a reader is the bytes that are left. A writer that fails leaves the buffer alone.
pub mod BigEndian
pub mod Frames
pub mod Fields
pub mod Inverse
pub mod Wrapped
use arladkr_practicaladkr.Prelude.{
  ℕ, zero, suc, ◌+◌, ◌-◌, ◌*◌, ◌/◌, ◌%◌, ◌≤◌, Bool, true, false, ◌||◌, Option, none, some, List, [],
  ◌∷◌, ◌++◌, ltb, if◌then◌else◌, length, take, drop, ◌>>=◌, ◌>>◌, guard, guard->>, ◌≡◌,
}
use arladkr_practicaladkr.Prelude.Int.{ℤ, pos, negsuc, pos_part, is_neg}
use arladkr_practicaladkr.Prelude.Bytes.{Bytes, beq, beq→eq, beq_refl}

-- `binary.BigEndian.PutUint32` and `PutUint64`: the k low bytes of the value, high byte first
unfoldable pub put_be : ℕ → ℕ → Bytes
put_be zero v = []
put_be (suc k) v = put_be k (v / 256) ++ v % 256 ∷ []

-- `binary.BigEndian.Uint32` and `Uint64`
unfoldable pub be_value : ℕ → Bytes → ℕ
be_value acc [] = acc
be_value acc (b ∷ bs) = be_value (acc * 256 + b) bs

abbrev pub max_uint32 : ℕ
max_uint32 = 4294967295

abbrev pub two64 : ℕ
two64 = 18446744073709551616

-- `^uint(0)>>1`
abbrev pub max_int : ℕ
max_int = 9223372036854775807

-- The conversion `uint64(x)` of an `int`.
abbrev pub uint64 : ℤ → ℕ
uint64 (pos n) = n % 18446744073709551616
uint64 (negsuc n) = 18446744073709551615 - n % 18446744073709551616

unfoldable pub write_uint32 : Bytes → ℤ → Bytes × Bool
write_uint32 buffer value =
    if is_neg value || ltb max_uint32 (pos_part value)
    then (buffer, false)
    else (buffer ++ put_be 4 (pos_part value), true)

unfoldable pub write_uint64 : Bytes → ℕ → Bytes
write_uint64 buffer value = buffer ++ put_be 8 value

unfoldable pub write_bytes : Bytes → Bytes → Bytes × Bool
write_bytes buffer value =
    let (headed, fits) = write_uint32 buffer (pos (length value)) in
    if fits then (headed ++ value, true) else (headed, false)

-- `io.ReadFull` of n bytes
unfoldable pub read_full : ℕ → Bytes → Option (Bytes × Bytes)
read_full n r = if ltb (length r) n then none else some (take n r, drop n r)

unfoldable pub read_uint32 : Bytes → Option (ℕ × Bytes)
read_uint32 r = do (encoded, rest) ← read_full 4 r; some (be_value 0 encoded, rest)

unfoldable pub read_uint64 : Bytes → Option (ℕ × Bytes)
read_uint64 r = do (encoded, rest) ← read_full 8 r; some (be_value 0 encoded, rest)

unfoldable pub read_bytes : ℕ → Bytes → Option (Bytes × Bytes)
read_bytes maximum r = do
  (count, rest) ← read_uint32 r
  if ltb maximum count || ltb (length rest) count then none else read_full count rest

-- The values of a 64-bit `int`.
abbrev pub IsInt : ℤ → Type 0
IsInt (pos n) = n ≤ max_int
IsInt (negsuc n) = n ≤ max_int

-- `if err != nil || !bytes.Equal(canonical, wire) { return nil, … }`, the end of every decoder
unfoldable pub confirm {ℓ} : {A : Type ℓ} → Bytes → Option Bytes → A → Option A
confirm wire encoded value = do canonical ← encoded; guard (beq canonical wire); some value

pub confirm_sound {ℓ} :
    {A : Type ℓ} (wire : Bytes) (encoded : Option Bytes) (value : A) {result : A}
    → confirm wire encoded value ≡ some result
    → (value ≡ result) × (encoded ≡ some wire)
unfolding confirm
confirm_sound wire none value h = (cc, cc)
confirm_sound wire (some canonical) value h =
    let (same, e) = guard->> (beq canonical wire) (some value) h in
    (cc e, cc (beq→eq canonical wire same))

pub confirm_same {ℓ} :
    {A : Type ℓ} (wire : Bytes) (value : A) → confirm wire (some wire) value ≡ some value
unfolding confirm
confirm_same wire value = rw (beq_refl wire)
