-- ===== src/Pool/Certificate/RoundTrip.antt =====
-- Encoding and decoding of a pool certificate, with the wire that a decoded certificate carries,
-- and what a signed statement commits to.
use mathlib.Core.List.{append_assoc, append-nil}
use arladkr_practicaladkr.Prelude.{◌≤◌, ◌≡◌, ◌↔◌, some, [], ◌++◌, arith, length}
use arladkr_practicaladkr.Prelude.Bytes.{Bytes}
use arladkr_practicaladkr.Wire.{write_bytes, confirm_sound, confirm_same}
use arladkr_practicaladkr.Wire.Frames.{frame, write_bytes-append}
use arladkr_practicaladkr.Wire.Fields.{read_domain-frame, read_digest-frame, read_last-frame}
use arladkr_practicaladkr.Pool.Share.{max_signature}
use arladkr_practicaladkr.Pool.Certificate.{
  PoolCertificate, certificate_domain, certificate_domain-fits, certificate_bytes,
  decode_certificate,
}

record IsCertificate (c : PoolCertificate) : Type 0 where
  digest_size : length c.pool_digest ≡ 32
  certificate_some : 1 ≤ length c.certificate
  certificate_fits : length c.certificate ≤ max_signature

layout : PoolCertificate → Bytes
layout c = frame certificate_domain ++ (frame c.pool_digest ++ (frame c.certificate ++ []))

abbrev fresh : PoolCertificate → PoolCertificate
fresh c = record c { canonical_wire = [] }

module _ (c : PoolCertificate) (v : IsCertificate c) where
  written :
      (write_bytes
        (write_bytes (write_bytes [] certificate_domain).0 c.pool_digest).0
        c.certificate).0
      ≡ layout c
  unfolding layout
  written =
      rw
        (
          write_bytes-append [] certificate_domain (omega (arith, certificate_domain-fits)),
          write_bytes-append _ c.pool_digest (omega (arith, v)),
          write_bytes-append _ c.certificate (omega (arith, v)),
        )
        (simp (append_assoc, append-nil))

  fresh-layout : certificate_bytes (some (fresh c)) ≡ some (layout c)
  unfolding certificate_bytes
  fresh-layout = ground (arith, v, written)

  decode-layout : decode_certificate (layout c) ≡ some (record c { canonical_wire = layout c })
  unfolding decode_certificate layout
  decode-layout =
      rw
        (
          read_domain-frame certificate_domain _ (omega (arith, certificate_domain-fits)),
          read_digest-frame c.pool_digest _ v.digest_size,
          read_last-frame max_signature c.certificate v.certificate_some v.certificate_fits
              (omega arith),
          fresh-layout,
        )
        (confirm_same (layout c) (record c { canonical_wire = layout c }))

certificate_bytes-IsCertificate :
    (c : PoolCertificate) (w : Bytes) → certificate_bytes (some c) ≡ some w → IsCertificate c
unfolding certificate_bytes
certificate_bytes-IsCertificate c w h = ground arith

encode-decode :
    (c : PoolCertificate) (w : Bytes)
    → certificate_bytes (some (record c { canonical_wire = [] })) ≡ some w
    → decode_certificate w ≡ some (record c { canonical_wire = w })
encode-decode c w h =
    let f : IsCertificate (fresh c) = certificate_bytes-IsCertificate (fresh c) w h in
    let e : layout (fresh c) ≡ w = cc (h, fresh-layout (fresh c) f) in
    rw (← e) (decode-layout (fresh c) f)

decode-encode :
    (c : PoolCertificate) (w : Bytes)
    → decode_certificate w ≡ some c
    → (c.canonical_wire ≡ w)
      × (certificate_bytes (some (record c { canonical_wire = [] })) ≡ some w)
unfolding decode_certificate
decode-encode c w h = grind (arith, confirm_sound)

-- A wire decodes to a pool certificate exactly when the certificate keeps that wire and its
-- fields, written again without the kept wire, give it.
pub decode_certificate_iff :
    (c : PoolCertificate) (w : Bytes)
    → (decode_certificate w ≡ some c) ↔ (
        (c.canonical_wire ≡ w)
        × (certificate_bytes (some (record c { canonical_wire = [] })) ≡ some w))
decode_certificate_iff c w = (decode-encode c w, λ h. cc (encode-decode c w h.1, h.0))
