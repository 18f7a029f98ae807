-- ===== src/Mvba/Packing/Bounds.antt =====
-- The round trip of a packed value, and the lengths that unpackValue lets through.
use arladkr_practicaladkr.Prelude.{
  ℕ, ◌+◌, ◌≤◌, ◌<◌, ◌≡◌, refl, sym, ◌∙◌, ap, ◌↔◌, ◌++◌, arith, ltb, length, length-append,
  length-take, take, drop, take-append, drop-append, suc, zero, Bool-cases, inl, inr, ltb→lt, ◌*◌,
  ◌^◌, [], ◌∷◌,
}
use native.Mathlib.Nat.{pow-succ', mul-le-mul_right, mul_assoc}
use arladkr_practicaladkr.Prelude.Bytes.{Bytes, IsBytes}
use arladkr_practicaladkr.Wire.{put_be, be_value, max_int}
use arladkr_practicaladkr.Wire.BigEndian.{length-put_be, be_value-put_be}
use arladkr_practicaladkr.Mvba.Packing.{pack_value, refused, crashed, unpacked, unpack_value}

take-append-length : (v : Bytes) → take (length v) v ≡ v
take-append-length [] = refl
take-append-length (x ∷ v) = ap (λ l. x ∷ l) (take-append-length v)

-- What the bytes of a number can say.
be_value-bound : (acc : ℕ) (b : Bytes) → IsBytes b → be_value acc b + 1 ≤ (acc + 1) * 256 ^ length b
unfolding be_value
be_value-bound acc [] h = omega arith
be_value-bound acc (x ∷ b) h =
    let wide : (acc * 256 + x + 1) * 256 ^ length b ≤ ((acc + 1) * 256) * 256 ^ length b =
      mul-le-mul_right (256 ^ length b) (omega (arith, h.0)) in
    let same : ((acc + 1) * 256) * 256 ^ length b ≡ (acc + 1) * 256 ^ suc (length b) =
      mul_assoc (acc + 1) 256 (256 ^ length b)
      ∙ ap (λ m. (acc + 1) * m) (sym (pow-succ' 256 (length b))) in
    omega (arith, be_value-bound (acc * 256 + x) b h.1, wide, same)

module _ (v : Bytes) where
  head_of_pack : take 8 (pack_value v) ≡ put_be 8 (length v)
  unfolding pack_value
  head_of_pack =
      ap (λ n. take n (put_be 8 (length v) ++ v)) (sym (length-put_be 8 (length v)))
      ∙ take-append (put_be 8 (length v)) v

  body_of_pack : drop 8 (pack_value v) ≡ v
  unfolding pack_value
  body_of_pack =
      ap (λ n. drop n (put_be 8 (length v) ++ v)) (sym (length-put_be 8 (length v)))
      ∙ drop-append (put_be 8 (length v)) v

  length-pack_value : length (pack_value v) ≡ 8 + length v
  unfolding pack_value
  length-pack_value =
      omega (arith, length-append (put_be 8 (length v)) v, length-put_be 8 (length v))

  take_all : take (length v) v ≡ v
  take_all = take-append-length v

  -- A packed value whose packed length is a Go int unpacks to itself.
  pub unpack_value-pack_value : 8 + length v ≤ max_int → unpack_value (pack_value v) ≡ unpacked v
  unfolding unpack_value
  unpack_value-pack_value short =
      let value : be_value 0 (take 8 (pack_value v)) ≡ length v =
        ap (be_value 0) head_of_pack ∙ be_value-put_be 8 (length v) (omega (arith, short)) in
      rw (value, body_of_pack, take_all) (ground (arith, length-pack_value, short))

take-IsBytes : (n : ℕ) (v : Bytes) → IsBytes v → IsBytes (take n v)
take-IsBytes zero v h = tt
take-IsBytes (suc n) [] h = tt
take-IsBytes (suc n) (x ∷ v) h = (h.0, take-IsBytes n v h.1)

head-lt : (v : Bytes) → IsBytes v → 8 ≤ length v → be_value 0 (take 8 v) < 18446744073709551616
head-lt v h long =
    let size : length (take 8 v) ≡ 8 = omega (arith, length-take 8 v, long) in
    let bound : be_value 0 (take 8 v) + 1 ≤ (0 + 1) * 256 ^ 8 =
      rw size at (be_value-bound 0 (take 8 v) (take-IsBytes 8 v h)) in
    omega (arith, bound)

crashes_of_head :
    (v : Bytes)
    → length v ≤ max_int
    → be_value 0 (take 8 v) < 18446744073709551616
    → (unpack_value v ≡ crashed) ↔ ((8 ≤ length v) × (9223372036854775800 ≤ be_value 0 (take 8 v)))
unfolding unpack_value
crashes_of_head v held small = ground arith

short-refused : (v : Bytes) → length v < 8 → unpack_value v ≡ refused
unfolding unpack_value
short-refused v h = ground arith

-- For a slice of bytes that Go can hold: unpackValue panics exactly when the slice has its eight
-- length bytes and they say 2^63 - 8 or more.
pub unpack_value-crashed :
    (v : Bytes)
    → IsBytes v
    → length v ≤ max_int
    → (unpack_value v ≡ crashed) ↔ ((8 ≤ length v) × (9223372036854775800 ≤ be_value 0 (take 8 v)))
unpack_value-crashed v bytes held = elim (Bool-cases (ltb (length v) 8)) [
  | inl short ↦ (
    λ e. cc (e, short-refused v (ltb→lt (length v) 8 short)),
    λ h. absurd (ground (arith, short, h.0)),
  )
  | inr long ↦ crashes_of_head v held (head-lt v bytes (ground (arith, long)))
]
