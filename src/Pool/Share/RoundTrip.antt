-- ===== src/Pool/Share/RoundTrip.antt =====
-- Encoding and decoding of a pool certificate share are inverse to one another.
use mathlib.Core.List.{append_assoc, append-nil}
use arladkr_practicaladkr.Prelude.{ℕ, ◌%◌, ◌≤◌, ◌≡◌, some, [], ◌++◌, arith, length, ◌↔◌}
use arladkr_practicaladkr.Prelude.Int.{ℤ, pos, negsuc}
use arladkr_practicaladkr.Prelude.Bytes.{Bytes}
use arladkr_practicaladkr.Wire.{
  put_be, max_int, IsInt, uint64, write_uint64, write_bytes, confirm_sound, confirm_same,
}
use arladkr_practicaladkr.Wire.Frames.{frame, write_bytes-append}
use arladkr_practicaladkr.Wire.Fields.{
  read_domain-frame, read_id-put_be, read_digest-frame, read_last-frame,
}
use arladkr_practicaladkr.Pool.Share.{
  PoolCertificateShare, share_domain, share_domain-fits, max_signature, share_bytes, decode_share,
}

-- What a share must satisfy to be encoded: `ProposerID` fits a Go `int` and is not negative.
pub record IsShare (proposer : ℕ) (digest signature : Bytes) : Type 0 where
  pub proposer_fits : proposer ≤ max_int
  pub digest_size : length digest ≡ 32
  pub signature_some : 1 ≤ length signature
  pub signature_fits : length signature ≤ max_signature

abbrev share_of : ℕ → Bytes → Bytes → PoolCertificateShare
share_of proposer digest signature = record {
  proposer_id = pos proposer;
  pool_digest = digest;
  signature = signature;
}

-- The bytes of a share, bracketed the way a reader takes them.
layout : ℕ → Bytes → Bytes → Bytes
layout proposer digest signature =
    frame share_domain ++ (put_be 8 proposer ++ (frame digest ++ (frame signature ++ [])))

module _ (proposer : ℕ) (digest signature : Bytes) (v : IsShare proposer digest signature) where
  written :
      (write_bytes
        (write_bytes ((write_bytes [] share_domain).0 ++ put_be 8 (uint64 (pos proposer))) digest).0
        signature).0
      ≡ layout proposer digest signature
  unfolding layout
  written = rw (write_bytes-append [] share_domain (omega (arith, share_domain-fits))) (
      rw (write_bytes-append _ digest (omega (arith, v))) (
        rw (write_bytes-append _ signature (omega (arith, v))) (
          let e : proposer % 18446744073709551616 ≡ proposer = omega (arith, v) in
          rw e (simp (append_assoc, append-nil)))))

  share_bytes-layout :
      share_bytes (some (share_of proposer digest signature))
      ≡ some (layout proposer digest signature)
  unfolding share_bytes write_uint64
  share_bytes-layout = ground (arith, v, written)

  decode-layout :
      decode_share (layout proposer digest signature) ≡ some (share_of proposer digest signature)
  unfolding decode_share layout
  decode-layout =
      rw
        (
          read_domain-frame share_domain _ (omega (arith, share_domain-fits)),
          read_id-put_be proposer _ v.proposer_fits,
          read_digest-frame digest _ v.digest_size,
          read_last-frame max_signature signature v.signature_some v.signature_fits (omega arith),
        )
        (ground (
          arith,
          share_bytes-layout,
          confirm_same (layout proposer digest signature) (share_of proposer digest signature),
        ))

encode-decode :
    (proposer : ℤ) (digest signature w : Bytes)
    → IsInt proposer
    → share_bytes
        (some (record { proposer_id = proposer; pool_digest = digest; signature = signature }))
      ≡ some w
    → decode_share w
      ≡ some (record { proposer_id = proposer; pool_digest = digest; signature = signature })
encode-decode (negsuc p) digest signature w int h = unfold share_bytes in cc
encode-decode (pos p) digest signature w int h =
    let v : IsShare p digest signature = unfold share_bytes in ground (arith, h) in
    let e : layout p digest signature ≡ w = cc (h, share_bytes-layout p digest signature v) in
    rw (← e) (decode-layout p digest signature v)

decode-encode :
    (s : PoolCertificateShare) (w : Bytes) → decode_share w ≡ some s → share_bytes (some s) ≡ some w
unfolding decode_share
decode-encode s w h = grind (arith, confirm_sound)

-- A certificate share whose proposer is a Go int encodes to exactly the wires that decode to it.
share_bytes-decode_share :
    (s : PoolCertificateShare) (w : Bytes)
    → IsInt s.proposer_id
    → (share_bytes (some s) ≡ some w) ↔ (decode_share w ≡ some s)
share_bytes-decode_share s w int =
    (encode-decode s.proposer_id s.pool_digest s.signature w int, decode-encode s w)
