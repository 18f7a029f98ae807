-- ===== src/Apdb/Lock/RoundTrip.antt =====
-- Encoding and decoding of an APDB lock, with the wire that a decoded lock carries.
use mathlib.Core.List.{append_assoc, append-nil}
use arladkr_practicaladkr.Prelude.{
  ◌+◌, ◌≤◌, ◌≡◌, ◌↔◌, refl, sym, ◌∙◌, ◌⊎◌, inl, inr, some, [], ◌++◌, arith, length, length-append,
}
use arladkr_practicaladkr.Prelude.Bytes.{Bytes}
use arladkr_practicaladkr.Wire.{write_bytes, confirm_sound, confirm_same}
use arladkr_practicaladkr.Wire.Frames.{frame, write_bytes-append, length-frame}
use arladkr_practicaladkr.Wire.Fields.{read_domain-frame, read_digest-frame, read_last-frame}
use arladkr_practicaladkr.Apdb.Lock.{
  Lock, lock_domain, lock_domain-fits, max_signature, lock_bytes, decode_lock,
}

pub record IsLock (l : Lock) : Type 0 where
  pub digest_size : length l.instance_digest ≡ 32
  pub root_size : length l.root ≡ 32
  pub certificate_some : 1 ≤ length l.certificate
  pub certificate_fits : length l.certificate ≤ max_signature

-- The bytes of a lock, bracketed the way a reader takes them.
pub layout : Lock → Bytes
layout l =
    frame lock_domain ++ (frame l.instance_digest ++ (frame l.root ++ (frame l.certificate ++ [])))

-- The wire kept in a lock is empty or the lock's own bytes.
abbrev pub IsCached : Lock → Type 0
IsCached l = (l.canonical_wire ≡ []) ⊎ (l.canonical_wire ≡ layout l)

module _ (l : Lock) (v : IsLock l) where
  written :
      (write_bytes
        (write_bytes (write_bytes (write_bytes [] lock_domain).0 l.instance_digest).0 l.root).0
        l.certificate).0
      ≡ layout l
  unfolding layout
  written =
      rw
        (
          write_bytes-append [] lock_domain (omega (arith, lock_domain-fits)),
          write_bytes-append _ l.instance_digest (omega (arith, v)),
          write_bytes-append _ l.root (omega (arith, v)),
          write_bytes-append _ l.certificate (omega (arith, v)),
        )
        (simp (append_assoc, append-nil))

  pub lock_bytes-layout : IsCached l → lock_bytes (some l) ≡ some (layout l)
  unfolding lock_bytes
  lock_bytes-layout cached = ground (arith, v, written)

abbrev fresh : Lock → Lock
fresh l = record l { canonical_wire = [] }

fresh-IsLock : (l : Lock) → IsLock l → IsLock (fresh l)
fresh-IsLock l v = record {
  digest_size = v.digest_size;
  root_size = v.root_size;
  certificate_some = v.certificate_some;
  certificate_fits = v.certificate_fits;
}

pub decode-layout :
    (l : Lock) → IsLock l → decode_lock (layout l) ≡ some (record l { canonical_wire = layout l })
unfolding decode_lock layout
decode-layout l v =
    rw
      (
        read_domain-frame lock_domain _ (omega (arith, lock_domain-fits)),
        read_digest-frame l.instance_digest _ v.digest_size,
        read_digest-frame l.root _ v.root_size,
        read_last-frame max_signature l.certificate v.certificate_some v.certificate_fits
            (omega arith),
        lock_bytes-layout (fresh l) (fresh-IsLock l v) (inl refl),
      )
      (confirm_same (layout l) (record l { canonical_wire = layout l }))

-- A lock that keeps its own bytes encodes to them.
pub lock_bytes_sealed :
    (l : Lock)
    → IsLock l
    → lock_bytes (some (record l { canonical_wire = layout l })) ≡ some (layout l)
unfolding layout
lock_bytes_sealed l v =
    lock_bytes-layout (record l { canonical_wire = layout l })
      (record {
        digest_size = v.digest_size;
        root_size = v.root_size;
        certificate_some = v.certificate_some;
        certificate_fits = v.certificate_fits;
      })
      (inr refl)

pub lock_bytes-IsLock : (l : Lock) (w : Bytes) → lock_bytes (some l) ≡ some w → IsLock l
unfolding lock_bytes
lock_bytes-IsLock l w h = ground arith

pub decode_lock_of_bytes :
    (l : Lock) (w : Bytes)
    → IsCached l
    → lock_bytes (some l) ≡ some w
    → decode_lock w ≡ some (record l { canonical_wire = w })
decode_lock_of_bytes l w cached h =
    let v : IsLock l = lock_bytes-IsLock l w h in
    let e : layout l ≡ w = cc (h, lock_bytes-layout l v cached) in rw (← e) (decode-layout l v)

decode_lock-fresh :
    (l : Lock) (w : Bytes)
    → decode_lock w ≡ some l
    → (lock_bytes (some (fresh l)) ≡ some w) × (l.canonical_wire ≡ w)
unfolding decode_lock
decode_lock-fresh l w h = grind (arith, confirm_sound)

fresh-IsLock_back : (l : Lock) → IsLock (fresh l) → IsLock l
fresh-IsLock_back l v = record {
  digest_size = v.digest_size;
  root_size = v.root_size;
  certificate_some = v.certificate_some;
  certificate_fits = v.certificate_fits;
}

-- A decoded lock carries its wire, and encodes to it.
pub decode_lock_sound :
    (l : Lock) (w : Bytes)
    → decode_lock w ≡ some l
    → (lock_bytes (some l) ≡ some w) × (l.canonical_wire ≡ w) × (layout l ≡ w)
unfolding layout
decode_lock_sound l w h =
    let (encoded, cached) = decode_lock-fresh l w h in
    let v : IsLock (fresh l) = lock_bytes-IsLock (fresh l) w encoded in
    let e : layout l ≡ w = cc (encoded, lock_bytes-layout (fresh l) v (inl refl)) in
    let again : lock_bytes (some l) ≡ some (layout l) =
      lock_bytes-layout l (fresh-IsLock_back l v) (inr (cc (cached, e))) in
    (cc (again, e), cached, e)

pub length-layout : (l : Lock) → IsLock l → length (layout l) ≤ max_signature + 256
unfolding layout
length-layout l v = simp (length-append, length-frame) (omega (arith, v, lock_domain-fits))

pub decode_lock-cached :
    (l : Lock) (w : Bytes) → decode_lock w ≡ some l → l.canonical_wire ≡ layout l
decode_lock-cached l w h =
    let (encoded, cached, same) = decode_lock_sound l w h in cached ∙ sym same

-- A wire decodes to a lock exactly when the lock keeps that wire and its fields, written again
-- without the kept wire, give it.
decode_lock_iff :
    (l : Lock) (w : Bytes)
    → (decode_lock w ≡ some l)
      ↔ ((l.canonical_wire ≡ w) × (lock_bytes (some (record l { canonical_wire = [] })) ≡ some w))
decode_lock_iff l w = (
  λ h. let (encoded, cached) = decode_lock-fresh l w h in (cached, encoded),
  λ h. cc (decode_lock_of_bytes (fresh l) w (inl refl) h.1, h.0),
)
