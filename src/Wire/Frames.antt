-- ===== src/Wire/Frames.antt =====
-- The round trip of one field: what a writer appends, the matching read takes off again.
use mathlib.Core.List.{append_assoc}
use arladkr_practicaladkr.Prelude.{
  ℕ, ◌+◌, ◌≤◌, ◌<◌, ◌≡◌, refl, ap, Bool, true, some, ◌++◌, arith, length, length-append,
  take-append, drop-append,
}
use arladkr_practicaladkr.Prelude.Int.{pos}
use arladkr_practicaladkr.Prelude.Bytes.{Bytes}
use arladkr_practicaladkr.Wire.{
  put_be, max_uint32, two64, write_uint32, write_bytes, read_full, read_uint32, read_uint64,
  read_bytes,
}
use arladkr_practicaladkr.Wire.BigEndian.{length-put_be, be_value-put_be}

-- A length prefix and the bytes.
unfoldable pub frame : Bytes → Bytes
frame v = put_be 4 (length v) ++ v

pub read_full-append :
    (v rest : Bytes) (n : ℕ) → length v ≡ n → read_full n (v ++ rest) ≡ some (v, rest)
unfolding read_full
read_full-append v rest n e =
    rw (← e) (ground (arith, length-append v rest, take-append v rest, drop-append v rest))

pub read_uint32-put_be :
    (v : ℕ) (rest : Bytes) → v ≤ max_uint32 → read_uint32 (put_be 4 v ++ rest) ≡ some (v, rest)
unfolding read_uint32
read_uint32-put_be v rest h =
    rw (read_full-append (put_be 4 v) rest 4 (length-put_be 4 v))
      (rw (be_value-put_be 4 v (omega arith)))

pub read_uint64-put_be :
    (v : ℕ) (rest : Bytes) → v < two64 → read_uint64 (put_be 8 v ++ rest) ≡ some (v, rest)
unfolding read_uint64
read_uint64-put_be v rest h =
    rw (read_full-append (put_be 8 v) rest 8 (length-put_be 8 v))
      (rw (be_value-put_be 8 v (omega arith)))

pub write_uint32-put_be :
    (buffer : Bytes) (v : ℕ)
    → v ≤ max_uint32
    → write_uint32 buffer (pos v) ≡ (buffer ++ put_be 4 v, true)
unfolding write_uint32
write_uint32-put_be buffer v h = ground arith

pub write_bytes-frame :
    (buffer v : Bytes) → length v ≤ max_uint32 → write_bytes buffer v ≡ (buffer ++ frame v, true)
unfolding write_bytes frame
write_bytes-frame buffer v h = rw (write_uint32-put_be buffer (length v) h) (rw append_assoc)

pub read_bytes-frame :
    (maximum : ℕ) (v rest : Bytes)
    → length v ≤ maximum
    → length v ≤ max_uint32
    → read_bytes maximum (frame v ++ rest) ≡ some (v, rest)
unfolding read_bytes frame
read_bytes-frame maximum v rest h fits = rw append_assoc (
    rw (read_uint32-put_be (length v) (v ++ rest) fits)
      (ground (arith, length-append v rest, read_full-append v rest (length v) refl)))

-- The writer whose error the code drops, as an equation that rewrites.
pub write_bytes-append :
    (buffer v : Bytes) → length v ≤ max_uint32 → (write_bytes buffer v).0 ≡ buffer ++ frame v
write_bytes-append buffer v h = ap (λ (w : Bytes × Bool). w.0) (write_bytes-frame buffer v h)

pub length-frame : (v : Bytes) → length (frame v) ≡ 4 + length v
unfolding frame
length-frame v = omega (arith, length-append (put_be 4 (length v)) v, length-put_be 4 (length v))
