-- ===== src/Pool/Header/RoundTrip.antt =====
-- Encoding and decoding of a component header are inverse to one another.
use mathlib.Core.List.{append_assoc, append-nil}
use arladkr_practicaladkr.Prelude.{
  ℕ, ◌≤◌, ◌≡◌, ◌↔◌, ◌↔◌, some, [], ◌++◌, arith, length, length-append,
}
use arladkr_practicaladkr.Prelude.Int.{pos, pos_part}
use arladkr_practicaladkr.Prelude.Bytes.{Bytes}
use arladkr_practicaladkr.Wire.{
  put_be, max_int, IsInt, uint64, write_uint64, confirm_sound, confirm_same,
}
use arladkr_practicaladkr.Wire.Frames.{frame, write_bytes-append, length-frame}
use arladkr_practicaladkr.Wire.BigEndian.{length-put_be}
use arladkr_practicaladkr.Wire.Fields.{
  read_domain-frame, read_id-put_be, read_digest-frame, read_id-le,
}
use arladkr_practicaladkr.Pool.Header.{
  Header, header_domain, header_domain-fits, write_header, header_bytes, decode_header,
}

pub record IsSized (h : Header) (dealer : ℕ) : Type 0 where
  pub dealer_nonneg : h.dealer_id ≡ pos dealer
  pub dealer_fits : dealer ≤ max_int
  pub context_size : length h.context_digest ≡ 32
  pub payload_size : length h.payload_digest ≡ 32
  pub instance_size : length h.instance ≡ 32
  pub root_size : length h.root ≡ 32

pub layout : Header → ℕ → Bytes
layout h dealer =
    frame header_domain
    ++ (frame h.context_digest
        ++ (put_be 8 dealer
            ++ (frame h.payload_digest ++ (frame h.instance ++ (frame h.root ++ [])))))

module _ (h : Header) (dealer : ℕ) (v : IsSized h dealer) where
  written : write_header h ≡ layout h dealer
  unfolding layout write_header write_uint64
  written =
      let e : uint64 h.dealer_id ≡ dealer = ground (arith, v) in
      rw
        (
          e,
          write_bytes-append [] header_domain (omega (arith, header_domain-fits)),
          write_bytes-append _ h.context_digest (omega (arith, v)),
          write_bytes-append _ h.payload_digest (omega (arith, v)),
          write_bytes-append _ h.instance (omega (arith, v)),
          write_bytes-append _ h.root (omega (arith, v)),
          write_header,
          write_uint64,
        )
        (simp (append_assoc, append-nil))

length-layout : (h : Header) (dealer : ℕ) → IsSized h dealer → length (layout h dealer) ≤ 512
unfolding layout
length-layout h dealer v =
    simp (length-append, length-frame, length-put_be) (omega (arith, v, header_domain-fits))

module _ (sha256 : Bytes → Bytes) where
  decode-layout :
      (h : Header) (dealer : ℕ)
      → IsSized h dealer
      → header_bytes sha256 h ≡ some (layout h dealer)
      → decode_header sha256 (layout h dealer) ≡ some h
  unfolding decode_header layout
  decode-layout h dealer v e =
      rw
        (
          read_domain-frame header_domain _ (omega (arith, header_domain-fits)),
          read_digest-frame h.context_digest _ v.context_size,
          read_id-put_be dealer _ v.dealer_fits,
          read_digest-frame h.payload_digest _ v.payload_size,
          read_digest-frame h.instance _ v.instance_size,
          read_digest-frame h.root _ v.root_size,
          ← v.dealer_nonneg,
          e,
        )
        (confirm_same (layout h dealer) h)

  pub header_bytes-inv :
      (h : Header) (w : Bytes)
      → IsInt h.dealer_id
      → header_bytes sha256 h ≡ some w
      → (dealer : ℕ) × IsSized h dealer × (layout h dealer ≡ w)
  unfolding header_bytes
  header_bytes-inv h w int e =
      let sized : IsSized h (pos_part h.dealer_id) = ground arith in
      (pos_part h.dealer_id, sized, ground (arith, written h (pos_part h.dealer_id) sized))

  pub decode_header_of_bytes :
      (h : Header) (w : Bytes)
      → IsInt h.dealer_id
      → header_bytes sha256 h ≡ some w
      → decode_header sha256 w ≡ some h
  decode_header_of_bytes h w int e =
      let (dealer, v, same) = header_bytes-inv h w int e in
      rw (← same) (decode-layout h dealer v (cc (e, same)))

  pub decode_header_sound :
      (h : Header) (w : Bytes) → decode_header sha256 w ≡ some h → header_bytes sha256 h ≡ some w
  unfolding decode_header
  decode_header_sound h w e = grind (arith, confirm_sound)

  -- A decoded dealer is a non-negative Go `int`.
  pub decode_header-IsInt :
      (h : Header) (w : Bytes) → decode_header sha256 w ≡ some h → IsInt h.dealer_id
  unfolding decode_header
  decode_header-IsInt h w e = grind (arith, confirm_sound, read_id-le)

  pub length-header_bytes :
      (h : Header) (w : Bytes) → IsInt h.dealer_id → header_bytes sha256 h ≡ some w → length w ≤ 512
  length-header_bytes h w int e =
      let (dealer, v, same) = header_bytes-inv h w int e in rw (← same) (length-layout h dealer v)

  -- A header whose dealer is a Go int encodes to exactly the wires that decode to it.
  pub header_bytes-decode_header :
      (h : Header) (w : Bytes)
      → IsInt h.dealer_id
      → (header_bytes sha256 h ≡ some w) ↔ (decode_header sha256 w ≡ some h)
  header_bytes-decode_header h w int = (decode_header_of_bytes h w int, decode_header_sound h w)
