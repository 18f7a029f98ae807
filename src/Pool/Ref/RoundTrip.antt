-- ===== src/Pool/Ref/RoundTrip.antt =====
-- Encoding and decoding of a component reference. Decoding fills the lock's kept wire, so a
-- reference comes back with that field set.
use mathlib.Core.List.{append_assoc, append-nil}
use arladkr_practicaladkr.Prelude.{
  ◌+◌, ◌≤◌, ◌≡◌, true, ◌&&◌, some, [], ◌++◌, arith, length, length-append, >>=-eq-some,
}
use arladkr_practicaladkr.Prelude.Bytes.{Bytes, beq}
use arladkr_practicaladkr.Wire.{IsInt, write_bytes, confirm_sound, confirm_same}
use arladkr_practicaladkr.Wire.Frames.{frame, write_bytes-append, read_bytes-frame, length-frame}
use arladkr_practicaladkr.Wire.Fields.{read_domain-frame}
use arladkr_practicaladkr.Apdb.Lock.{max_signature, lock_bytes}
use arladkr_practicaladkr.Apdb.Lock.RoundTrip as LockTrip
use arladkr_practicaladkr.Apdb.Lock.RoundTrip.{
  IsLock, IsCached, lock_bytes-IsLock, lock_bytes-layout, length-layout, decode_lock_of_bytes,
  decode_lock-cached, lock_bytes_sealed,
}
use arladkr_practicaladkr.Pool.Header.{header_bytes}
use arladkr_practicaladkr.Pool.Header.RoundTrip.{
  decode_header_of_bytes, decode_header-IsInt, length-header_bytes,
}
use arladkr_practicaladkr.Pool.Ref.{
  ComponentRef, ref_domain, ref_domain-fits, max_payload, ref_bytes, decode_ref,
}

-- The reference as a decoder returns it: the lock keeps its own bytes.
abbrev pub sealed : ComponentRef → ComponentRef
sealed ref = record ref { lock = record ref.lock { canonical_wire = LockTrip.layout ref.lock } }

layout : Bytes → Bytes → Bytes
layout header_wire lock_wire = frame ref_domain ++ (frame header_wire ++ (frame lock_wire ++ []))

written :
    (header_wire lock_wire : Bytes)
    → length header_wire ≤ max_payload
    → length lock_wire ≤ max_signature + 256
    → (write_bytes (write_bytes (write_bytes [] ref_domain).0 header_wire).0 lock_wire).0
      ≡ layout header_wire lock_wire
unfolding layout
written header_wire lock_wire h l =
    rw
      (
        write_bytes-append [] ref_domain (omega (arith, ref_domain-fits)),
        write_bytes-append _ header_wire (omega arith),
        write_bytes-append _ lock_wire (omega arith),
      )
      (simp (append_assoc, append-nil))

-- What a successful encoding went through.
record Encoded (sha256 : Bytes → Bytes) (ref : ComponentRef) (w : Bytes) : Type 0 where
  header_wire : Bytes
  header_encoded : header_bytes sha256 ref.header ≡ some header_wire
  header_short : length header_wire ≤ 512
  is_lock : IsLock ref.lock
  lock_short : length (LockTrip.layout ref.lock) ≤ max_signature + 256
  bound :
      (beq ref.header.instance ref.lock.instance_digest && beq ref.header.root ref.lock.root) ≡ true
  wire : layout header_wire (LockTrip.layout ref.lock) ≡ w

module _ (sha256 : Bytes → Bytes) where
  encoded :
      (ref : ComponentRef) (w : Bytes)
      → IsInt ref.header.dealer_id
      → IsCached ref.lock
      → ref_bytes sha256 ref ≡ some w
      → Encoded sha256 ref w
  unfolding ref_bytes
  encoded ref w int cached e =
      let (header_wire, he, rest) = >>=-eq-some (header_bytes sha256 ref.header) _ e in
      let (lock_wire, le, rest') = >>=-eq-some (lock_bytes (some ref.lock)) _ rest in
      let v : IsLock ref.lock = lock_bytes-IsLock ref.lock lock_wire le in
      let short = length-header_bytes sha256 ref.header header_wire int he in
      let full = length-layout ref.lock v in
      let le' = lock_bytes-layout ref.lock v cached in
      record {
        header_wire = header_wire;
        header_encoded = he;
        header_short = short;
        is_lock = v;
        lock_short = full;
        bound = ground (arith, e, he, le');
        wire = ground (
          arith,
          e,
          he,
          le',
          written header_wire (LockTrip.layout ref.lock) (omega (arith, short)) full,
        );
      }

  pub length-ref_bytes :
      (ref : ComponentRef) (w : Bytes)
      → IsInt ref.header.dealer_id
      → IsCached ref.lock
      → ref_bytes sha256 ref ≡ some w
      → length w ≤ max_signature + 1024
  length-ref_bytes ref w int cached e =
      let en = encoded ref w int cached e in
      rw (← en.wire)
        (unfold layout in simp (length-append, length-frame) (omega (arith, en, ref_domain-fits)))

  ref_bytes-sealed :
      (ref : ComponentRef) (w : Bytes) (en : Encoded sha256 ref w)
      → ref_bytes sha256 (sealed ref) ≡ some (layout en.header_wire (LockTrip.layout ref.lock))
  unfolding ref_bytes
  ref_bytes-sealed ref w en = ground (
    arith,
    en,
    lock_bytes_sealed ref.lock en.is_lock,
    written en.header_wire (LockTrip.layout ref.lock) (omega (arith, en)) en.lock_short,
  )

  decode-layout :
      (ref : ComponentRef) (w : Bytes) (en : Encoded sha256 ref w)
      → IsInt ref.header.dealer_id
      → decode_ref sha256 (layout en.header_wire (LockTrip.layout ref.lock)) ≡ some (sealed ref)
  unfolding decode_ref layout
  decode-layout ref w en int =
      rw
        (
          read_domain-frame ref_domain _ (omega (arith, ref_domain-fits)),
          read_bytes-frame max_payload en.header_wire _ (omega (arith, en)) (omega (arith, en)),
          decode_header_of_bytes sha256 ref.header en.header_wire int en.header_encoded,
          read_bytes-frame (max_signature + 256) (LockTrip.layout ref.lock) [] en.lock_short
              (omega (arith, en)),
          LockTrip.decode-layout ref.lock en.is_lock,
          ref_bytes-sealed ref w en,
        )
        (confirm_same (layout en.header_wire (LockTrip.layout ref.lock)) (sealed ref))

  -- A component reference whose dealer is a Go int, whose lock keeps no wire or its own, and that
  -- encodes, decodes from its encoding, with the wire of the lock kept in it.
  pub decode_ref_of_bytes :
      (ref : ComponentRef) (w : Bytes)
      → IsInt ref.header.dealer_id
      → IsCached ref.lock
      → ref_bytes sha256 ref ≡ some w
      → decode_ref sha256 w ≡ some (sealed ref)
  decode_ref_of_bytes ref w int cached e =
      let en = encoded ref w int cached e in rw (← en.wire) (decode-layout ref w en int)

  pub decode_ref_sound :
      (ref : ComponentRef) (w : Bytes)
      → decode_ref sha256 w ≡ some ref
      → (ref_bytes sha256 ref ≡ some w)
        × (ref.lock.canonical_wire ≡ LockTrip.layout ref.lock)
        × IsInt ref.header.dealer_id
  unfolding decode_ref
  decode_ref_sound ref w h = (
    grind (arith, confirm_sound),
    grind (arith, confirm_sound, decode_lock-cached),
    grind (arith, confirm_sound, decode_header-IsInt sha256),
  )

  pub ref_bytes-sealed_ref :
      (ref : ComponentRef) (w : Bytes)
      → IsInt ref.header.dealer_id
      → IsCached ref.lock
      → ref_bytes sha256 ref ≡ some w
      → ref_bytes sha256 (sealed ref) ≡ some w
  ref_bytes-sealed_ref ref w int cached e =
      let en = encoded ref w int cached e in cc (ref_bytes-sealed ref w en, en.wire)
