-- ===== src/Router/Envelope/RoundTrip.antt =====
-- An envelope decodes, under the session and the epoch, to what was put in it, and to nothing else.
use arladkr_practicaladkr.Prelude.{
  ℕ, suc, ◌+◌, ◌≤◌, ◌<◌, ◌^◌, ◌≡◌, ◌↔◌, refl, sym, ap, ◌∙◌, Bool, false, true, ◌||◌, ◌&&◌, leb,
  leb→le, &&-left, &&-right, guard->>, not, some, [], ◌∷◌, ◌++◌, arith, ltb, ◌==◌, length, get_or,
  take, drop, length-append, take-append, drop-append, take-append-drop, length-take, length-drop,
  if-none-eq-some, some-inj, ==_iff,
}
use arladkr_practicaladkr.Prelude.Int.{ℤ, pos, negsuc}
use arladkr_practicaladkr.Prelude.Bytes.{Bytes, IsBytes, beq, beq→eq, beq_refl}
use arladkr_practicaladkr.Wire.{put_be, be_value, uint64}
use arladkr_practicaladkr.Wire.BigEndian.{length-put_be, be_value-put_be}
use arladkr_practicaladkr.Wire.Inverse.{put_be-be_value, IsBytes-append}
use arladkr_practicaladkr.Pool.Ref.{max_payload}
use arladkr_practicaladkr.Router.Envelope.{
  max_sid, fixed_bytes, bad_context, encode_envelope, decode_envelope,
}

take-exact : (k : ℕ) (v rest : Bytes) → length v ≡ k → take k (v ++ rest) ≡ v
take-exact k v rest e = rw (← e) (take-append v rest)

drop-exact : (k : ℕ) (v rest : Bytes) → length v ≡ k → drop k (v ++ rest) ≡ rest
drop-exact k v rest e = rw (← e) (drop-append v rest)

-- The bytes of an envelope behind the version.
abbrev pub body : Bytes → ℤ → Bytes → Bytes
body sid epoch payload =
    put_be 4 (length sid)
    ++ (sid ++ (put_be 8 (uint64 epoch) ++ (put_be 4 (length payload) ++ payload)))

-- What an encoder accepts.
pub record IsSendable (sid : Bytes) (epoch : ℤ) (payload : Bytes) : Type 0 where
  pub context : bad_context sid epoch ≡ false
  pub fits : length payload ≤ max_payload

pub encode_envelope_iff :
    (sid : Bytes) (epoch : ℤ) (payload wire : Bytes)
    → (encode_envelope sid epoch payload ≡ some wire)
      ↔ (IsSendable sid epoch payload × (wire ≡ 1 ∷ body sid epoch payload))
unfolding encode_envelope
encode_envelope_iff sid epoch payload wire = (
  λ h.
      let (ok, e) =
        if-none-eq-some (bad_context sid epoch || ltb max_payload (length payload)) _ h in
      (
        record {
          context = first-false (bad_context sid epoch) _ ok;
          fits = not-ltb (length payload) max_payload (second-false (bad_context sid epoch) _ ok);
        },
        sym (some-inj _ wire e),
      ),
  λ h. rw (h.0.context, le-not-ltb (length payload) max_payload h.0.fits) (ap some (sym h.1)),
)
  where
    first-false : (a b : Bool) → (a || b) ≡ false → a ≡ false
    first-false a b h = ground arith

    second-false : (a b : Bool) → (a || b) ≡ false → b ≡ false
    second-false a b h = ground arith

    not-ltb : (a b : ℕ) → ltb b a ≡ false → a ≤ b
    not-ltb a b h = ground arith

    le-not-ltb : (a b : ℕ) → a ≤ b → ltb b a ≡ false
    le-not-ltb a b h = ground arith

length-body :
    (sid : Bytes) (epoch : ℤ) (payload : Bytes)
    → length (body sid epoch payload) ≡ 16 + length sid + length payload
length-body sid epoch payload = simp (length-append, length-put_be) (omega arith)

uint64-lt : (epoch : ℤ) → uint64 epoch < 256 ^ 8
uint64-lt (pos n) = omega arith
uint64-lt (negsuc n) = omega arith

decode-body :
    (sid : Bytes) (epoch : ℤ) (payload : Bytes)
    → IsSendable sid epoch payload
    → decode_envelope (1 ∷ body sid epoch payload) sid epoch ≡ some payload
unfolding decode_envelope
decode-body sid epoch payload s =
    let size = length-body sid epoch payload in
    let l3 = put_be 4 (length payload) in
    let sid_fits : length sid ≤ max_sid = sid-le (s.context) in
    let framed : (not (bad_context sid epoch)
          && leb (fixed_bytes + length sid) (suc (length (body sid epoch payload)))
          && leb (suc (length (body sid epoch payload))) (fixed_bytes + length sid + max_payload)
          && ◌==◌ 1 1)
        ≡ true =
      rw (s.context) (ground (arith, size, s.fits)) in
    rw
      (
        framed,
        take-exact 4 (put_be 4 (length sid)) (sid ++ (put_be 8 (uint64 epoch) ++ (l3 ++ payload)))
            (length-put_be 4 (length sid)),
        drop-exact 4 (put_be 4 (length sid)) (sid ++ (put_be 8 (uint64 epoch) ++ (l3 ++ payload)))
            (length-put_be 4 (length sid)),
        be_value-put_be 4 (length sid) (omega (arith, sid_fits)),
        take-append sid (put_be 8 (uint64 epoch) ++ (l3 ++ payload)),
        drop-append sid (put_be 8 (uint64 epoch) ++ (l3 ++ payload)),
        beq_refl sid,
        length-append sid (put_be 8 (uint64 epoch) ++ (l3 ++ payload)),
        length-append (put_be 8 (uint64 epoch)) (l3 ++ payload),
        length-append l3 payload,
        length-put_be 8 (uint64 epoch),
        length-put_be 4 (length payload),
        take-exact 8 (put_be 8 (uint64 epoch)) (l3 ++ payload) (length-put_be 8 (uint64 epoch)),
        drop-exact 8 (put_be 8 (uint64 epoch)) (l3 ++ payload) (length-put_be 8 (uint64 epoch)),
        be_value-put_be 8 (uint64 epoch) (uint64-lt epoch),
        take-exact 4 l3 payload (length-put_be 4 (length payload)),
        drop-exact 4 l3 payload (length-put_be 4 (length payload)),
        be_value-put_be 4 (length payload) (omega (arith, s.fits)),
      )
      (ground (arith, s.fits))
  where
    sid-le : bad_context sid epoch ≡ false → length sid ≤ max_sid
    sid-le h = ground arith

-- A field of known width in front of the rest.
split_front :
    (k n : ℕ) (r : Bytes)
    → IsBytes r
    → k ≤ length r
    → be_value 0 (take k r) ≡ n
    → (r ≡ put_be k n ++ drop k r) × IsBytes (drop k r)
split_front k n r small enough e =
    let parts = IsBytes-append (take k r) (drop k r) (rw (take-append-drop k r) small) in
    let size : length (take k r) ≡ k = omega (arith, length-take k r) in
    (sym (rw (← e, put_be-be_value k (take k r) size parts.0) (take-append-drop k r)), parts.1)

version_split : (r : Bytes) → 1 ≤ length r → get_or r 0 0 ≡ 1 → r ≡ 1 ∷ drop 1 r
version_split [] h e = absurd (omega (arith, h))
version_split (x ∷ r) h e = ap (λ b. b ∷ r) e

not-true : (b : Bool) → not b ≡ true → b ≡ false
not-true true h = cc
not-true false h = refl

decode_envelope-body :
    (wire sid : Bytes) (epoch : ℤ) (payload : Bytes)
    → IsBytes wire
    → decode_envelope wire sid epoch ≡ some payload
    → IsSendable sid epoch payload × (wire ≡ 1 ∷ body sid epoch payload)
unfolding decode_envelope
decode_envelope-body wire sid epoch payload small h =
    let r1 = drop 1 wire in
    let r2 = drop 4 r1 in
    let sid_length = be_value 0 (take 4 r1) in
    let r3 = drop sid_length r2 in
    let r4 = drop 8 r3 in
    let r5 = drop 4 r4 in
    let (t1, h1) =
      guard->>
        (not (bad_context sid epoch)
          && leb (fixed_bytes + length sid) (length wire)
          && leb (length wire) (fixed_bytes + length sid + max_payload)
          && get_or wire 0 0 == 1)
        _ h in
    let (t2, h2) =
      guard->>
        (sid_length == length sid && leb sid_length (length r2) && beq (take sid_length r2) sid) _
        h1 in
    let (t3, h3) = guard->> (leb 12 (length r3) && be_value 0 (take 8 r3) == uint64 epoch) _ h2 in
    let (t4, h4) =
      guard->> (leb (be_value 0 (take 4 r4)) max_payload && be_value 0 (take 4 r4) == length r5) _
        h3 in
    let same : r5 ≡ payload = some-inj r5 payload h4 in
    let context : bad_context sid epoch ≡ false =
      not-true (bad_context sid epoch)
        (&&-left (not (bad_context sid epoch)) _ (&&-left _ _ (&&-left _ _ t1))) in
    let long : 17 + length sid ≤ length wire =
      leb→le _ _ (&&-right (not (bad_context sid epoch)) _ (&&-left _ _ (&&-left _ _ t1))) in
    let version : get_or wire 0 0 ≡ 1 = (==_iff (get_or wire 0 0) 1).0 (&&-right _ _ t1) in
    let w1 : wire ≡ 1 ∷ r1 = version_split wire (omega (arith, long)) version in
    let small1 : IsBytes r1 = (rw w1 at small).1 in
    let counted : sid_length ≡ length sid = (==_iff _ _).0 (&&-left _ _ (&&-left _ _ t2)) in
    let (w2, small2) =
      split_front 4 (length sid) r1 small1 (omega (arith, long, length-drop 1 wire)) counted in
    let sid_same : take sid_length r2 ≡ sid = beq→eq _ sid (&&-right _ _ t2) in
    let w3 : r2 ≡ sid ++ r3 = sym (rw (← sid_same) (take-append-drop sid_length r2)) in
    let small3 : IsBytes r3 = (IsBytes-append sid r3 (rw w3 at small2)).1 in
    let epoch_same : be_value 0 (take 8 r3) ≡ uint64 epoch = (==_iff _ _).0 (&&-right _ _ t3) in
    let left : 12 ≤ length r3 = leb→le _ _ (&&-left _ _ t3) in
    let (w4, small4) = split_front 8 (uint64 epoch) r3 small3 (omega (arith, left)) epoch_same in
    let payload_counted : be_value 0 (take 4 r4) ≡ length r5 = (==_iff _ _).0 (&&-right _ _ t4) in
    let (w5, small5) =
      split_front 4 (length r5) r4 small4 (omega (arith, left, length-drop 8 r3)) payload_counted in
    let fits : length r5 ≤ max_payload =
      rw payload_counted at (leb→le (be_value 0 (take 4 r4)) max_payload (&&-left _ _ t4)) in
    (
      record { context = context; fits = rw (← same) fits },
      rw (← same) (
          w1
          ∙ ap (λ t. 1 ∷ t)
              (w2
                ∙ ap (λ t. put_be 4 (length sid) ++ t)
                    (w3 ∙ ap (λ t. sid ++ t) (w4 ∙ ap (λ t. put_be 8 (uint64 epoch) ++ t) w5)))),
    )

-- For a wire of bytes: it decodes, under a session and an epoch, to a payload exactly when the
-- payload, put in an envelope for them, gives the wire.
pub decode_envelope_iff :
    (wire sid : Bytes) (epoch : ℤ) (payload : Bytes)
    → IsBytes wire
    → (decode_envelope wire sid epoch ≡ some payload)
      ↔ (encode_envelope sid epoch payload ≡ some wire)
decode_envelope_iff wire sid epoch payload small = (
  λ h.
      (encode_envelope_iff sid epoch payload wire).1
        (decode_envelope-body wire sid epoch payload small h),
  λ h.
      let (sendable, same) = (encode_envelope_iff sid epoch payload wire).0 h in
      rw same (decode-body sid epoch payload sendable),
)
