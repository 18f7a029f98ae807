-- ===== src/Wire/Fields.antt =====
-- The reads that every decoder of core/ makes: a domain string, a 32-byte digest, an identifier
-- that fits an `int`, and a last field behind which nothing is left.
use arladkr_practicaladkr.Prelude.{
  ℕ, ◌≤◌, ◌≡◌, not, ◌&&◌, Option, some, [], ◌++◌, arith, leb, ◌==◌, length, ◌>>=◌, ◌>>◌, guard,
}
use arladkr_practicaladkr.Prelude.Bytes.{Bytes, beq, beq_refl}
use arladkr_practicaladkr.Wire.{put_be, max_uint32, max_int, read_uint64, read_bytes}
use arladkr_practicaladkr.Wire.Frames.{frame, read_bytes-frame, read_uint64-put_be}

-- `domain, err := r.bytes(len(d)); if err != nil || !bytes.Equal(domain, []byte(d))`
unfoldable pub read_domain : Bytes → Bytes → Option Bytes
read_domain expected r = do
  (domain, rest) ← read_bytes (length expected) r
  guard (beq domain expected)
  some rest

-- `digest, err := r.bytes(32); if err != nil || len(digest) != 32`
unfoldable pub read_digest : Bytes → Option (Bytes × Bytes)
read_digest r = do
  (digest, rest) ← read_bytes 32 r
  guard (length digest == 32)
  some (digest, rest)

-- `id, err := r.uint64(); if err != nil || id > uint64(^uint(0)>>1)`
unfoldable pub read_id : Bytes → Option (ℕ × Bytes)
read_id r = do (id, rest) ← read_uint64 r; guard (leb id max_int); some (id, rest)

-- `v, err := r.bytes(max); if err != nil || len(v) == 0 || r.reader.Len() != 0`
unfoldable pub read_last : ℕ → Bytes → Option Bytes
read_last maximum r = do
  (v, rest) ← read_bytes maximum r
  guard (not (length v == 0) && length rest == 0)
  some v

pub read_domain-frame :
    (domain rest : Bytes)
    → length domain ≤ max_uint32
    → read_domain domain (frame domain ++ rest) ≡ some rest
unfolding read_domain
read_domain-frame domain rest h =
    rw (read_bytes-frame (length domain) domain rest (omega arith) h, beq_refl domain)

pub read_digest-frame :
    (digest rest : Bytes)
    → length digest ≡ 32
    → read_digest (frame digest ++ rest) ≡ some (digest, rest)
unfolding read_digest
read_digest-frame digest rest h =
    rw (read_bytes-frame 32 digest rest (omega arith) (omega arith)) (ground arith)

pub read_id-put_be :
    (id : ℕ) (rest : Bytes) → id ≤ max_int → read_id (put_be 8 id ++ rest) ≡ some (id, rest)
unfolding read_id
read_id-put_be id rest h = rw (read_uint64-put_be id rest (omega arith)) (ground arith)

pub read_last-frame :
    (maximum : ℕ) (v : Bytes)
    → 1 ≤ length v
    → length v ≤ maximum
    → maximum ≤ max_uint32
    → read_last maximum (frame v ++ []) ≡ some v
unfolding read_last
read_last-frame maximum v some_byte fits small =
    rw (read_bytes-frame maximum v [] fits (omega arith)) (ground arith)

pub read_id-le : (r : Bytes) (read : ℕ × Bytes) → read_id r ≡ some read → read.0 ≤ max_int
unfolding read_id
read_id-le r read h = ground arith
