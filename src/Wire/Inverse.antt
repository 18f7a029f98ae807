-- ===== src/Wire/Inverse.antt =====
-- What a successful read says of the bytes it read: they are what the matching writer writes. The
-- bytes of a wire are below 256.
use mathlib.Core.List.{append_assoc}
use arladkr_practicaladkr.Prelude.{
  ℕ, zero, suc, ◌+◌, ◌*◌, ◌/◌, ◌%◌, ◌≤◌, ◌≡◌, refl, sym, ap, ◌∙◌, some, [], ◌∷◌, ◌++◌, arith, ◌==◌,
  length, take-append-drop, length-take, guard->>, >>=-eq-some,
}
use arladkr_practicaladkr.Prelude.Bytes.{Bytes, IsBytes, beq, beq→eq}
use arladkr_practicaladkr.Wire.{put_be, be_value, max_uint32, read_full, read_uint32, read_bytes}
use arladkr_practicaladkr.Wire.BigEndian.{be_value-append}
use arladkr_practicaladkr.Wire.Frames.{frame}
use arladkr_practicaladkr.Wire.Fields.{read_domain, read_digest}

pub IsBytes-append : (xs ys : Bytes) → IsBytes (xs ++ ys) → IsBytes xs × IsBytes ys
IsBytes-append [] ys h = (tt, h)
IsBytes-append (x ∷ xs) ys h = let (hx, hy) = IsBytes-append xs ys h.1 in ((h.0, hx), hy)

-- The last byte of a list that is not empty.
split_last :
    (k : ℕ) (b : Bytes)
    → length b ≡ suc k
    → (front : Bytes) × (last : ℕ) × (b ≡ front ++ last ∷ []) × (length front ≡ k)
split_last k [] e = absurd (omega (arith, e))
split_last zero (x ∷ []) e = ([], x, refl, refl)
split_last zero (x ∷ y ∷ b) e = absurd (omega (arith, e))
split_last (suc k) (x ∷ b) e =
    let (front, last, same, size) = split_last k b (omega (arith, e)) in
    (x ∷ front, last, ap (λ l. x ∷ l) same, omega (arith, size))

pub put_be-be_value : (k : ℕ) (b : Bytes) → length b ≡ k → IsBytes b → put_be k (be_value 0 b) ≡ b
unfolding put_be
put_be-be_value zero [] e h = refl
put_be-be_value zero (x ∷ b) e h = absurd (omega (arith, e))
put_be-be_value (suc k) b e h =
    let (front, last, same, size) = split_last k b e in
    let small = IsBytes-append front (last ∷ []) (rw same at h) in
    let value : be_value 0 b ≡ be_value 0 front * 256 + last =
      rw same (be_value-append 0 front last) in
    let high : be_value 0 b / 256 ≡ be_value 0 front = omega (arith, value, small.1.0) in
    let low : be_value 0 b % 256 ≡ last = omega (arith, value, small.1.0) in
    rw (high, low, put_be-be_value k front size small.0) (sym same)

pub be_value-le : (b : Bytes) → length b ≡ 4 → IsBytes b → be_value 0 b ≤ max_uint32
unfolding be_value
be_value-le [] e h = omega arith
be_value-le (a ∷ []) e h = absurd (omega (arith, e))
be_value-le (a ∷ b ∷ []) e h = absurd (omega (arith, e))
be_value-le (a ∷ b ∷ c ∷ []) e h = absurd (omega (arith, e))
be_value-le (a ∷ b ∷ c ∷ d ∷ []) e h = omega (arith, h.0, h.1.0, h.1.1.0, h.1.1.1.0)
be_value-le (a ∷ b ∷ c ∷ d ∷ x ∷ xs) e h = absurd (omega (arith, e))

record Full (n : ℕ) (r v rest : Bytes) : Type 0 where
  size : length v ≡ n
  bytes : r ≡ v ++ rest

read_full-Full :
    (n : ℕ) (r : Bytes) (v rest : Bytes) → read_full n r ≡ some (v, rest) → Full n r v rest
unfolding read_full
read_full-Full n r v rest e = record {
  size = ground (arith, e, length-take n r);
  bytes = ground (arith, e, take-append-drop n r);
}

-- A 32-bit integer that was read.
pub record Read32 (r : Bytes) (v : ℕ) (rest : Bytes) : Type 0 where
  pub wire : r ≡ put_be 4 v ++ rest
  pub fits : v ≤ max_uint32
  pub rest_bytes : IsBytes rest

pub read_uint32-Read32 :
    (r : Bytes) (v : ℕ) (rest : Bytes)
    → IsBytes r
    → read_uint32 r ≡ some (v, rest)
    → Read32 r v rest
unfolding read_uint32
read_uint32-Read32 r v rest small e =
    let (pair, full, done) = >>=-eq-some (read_full 4 r) _ e in
    let f = read_full-Full 4 r pair.0 pair.1 full in
    let parts = IsBytes-append pair.0 pair.1 (rw f.bytes at small) in
    let same_value : be_value 0 pair.0 ≡ v = cc done in
    let same_rest : pair.1 ≡ rest = cc done in
    record {
      wire = rw (← same_value, ← same_rest, put_be-be_value 4 pair.0 f.size parts.0) f.bytes;
      fits = rw (← same_value) (be_value-le pair.0 f.size parts.0);
      rest_bytes = rw (← same_rest) (parts.1);
    }

-- A length-prefixed field that was read.
pub record ReadBytes (maximum : ℕ) (r v rest : Bytes) : Type 0 where
  pub wire : r ≡ frame v ++ rest
  pub short : length v ≤ maximum
  pub fits : length v ≤ max_uint32
  pub rest_bytes : IsBytes rest

pub read_bytes-ReadBytes :
    (maximum : ℕ) (r v rest : Bytes)
    → IsBytes r
    → read_bytes maximum r ≡ some (v, rest)
    → ReadBytes maximum r v rest
unfolding read_bytes frame
read_bytes-ReadBytes maximum r v rest small e =
    let (pair, counted, done) = >>=-eq-some (read_uint32 r) _ e in
    let c = read_uint32-Read32 r pair.0 pair.1 small counted in
    let full : read_full pair.0 pair.1 ≡ some (v, rest) = ground (arith, done) in
    let short : pair.0 ≤ maximum = ground (arith, done) in
    let f = read_full-Full pair.0 pair.1 v rest full in
    record {
      wire =
          c.wire
          ∙ rw f.size (
              ap (λ l. put_be 4 pair.0 ++ l) f.bytes ∙ sym (append_assoc (put_be 4 pair.0) v rest));
      short = omega (arith, short, f.size);
      fits = omega (arith, c.fits, f.size);
      rest_bytes = (IsBytes-append v rest (rw f.bytes at c.rest_bytes)).1;
    }

pub read_domain-ReadBytes :
    (domain r rest : Bytes)
    → IsBytes r
    → read_domain domain r ≡ some rest
    → (r ≡ frame domain ++ rest) × IsBytes rest
unfolding read_domain
read_domain-ReadBytes domain r rest small e =
    let (pair, read, done) = >>=-eq-some (read_bytes (length domain) r) _ e in
    let b = read_bytes-ReadBytes (length domain) r pair.0 pair.1 small read in
    let (same, last) = guard->> (beq pair.0 domain) (some pair.1) done in
    let value : pair.0 ≡ domain = beq→eq pair.0 domain same in
    let left : pair.1 ≡ rest = cc last in (rw (← value, ← left) b.wire, rw (← left) (b.rest_bytes))

pub record ReadDigest (r v rest : Bytes) : Type 0 where
  pub wire : r ≡ frame v ++ rest
  pub size : length v ≡ 32
  pub rest_bytes : IsBytes rest

pub read_digest-ReadDigest :
    (r v rest : Bytes) → IsBytes r → read_digest r ≡ some (v, rest) → ReadDigest r v rest
unfolding read_digest
read_digest-ReadDigest r v rest small e =
    let (pair, read, done) = >>=-eq-some (read_bytes 32 r) _ e in
    let b = read_bytes-ReadBytes 32 r pair.0 pair.1 small read in
    let (sized, last) = guard->> (length pair.0 == 32) (some pair) done in
    let value : pair.0 ≡ v = cc last in
    let left : pair.1 ≡ rest = cc last in
    record {
      wire = rw (← value, ← left) b.wire;
      size = rw (← value) (ground arith);
      rest_bytes = rw (← left) (b.rest_bytes);
    }
