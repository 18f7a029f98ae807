-- ===== src/Router/Envelope.antt =====
-- core/cv_sapvss_router.go: cvEncodeNetworkEnvelope and cvDecodeNetworkEnvelope. A slice
-- `wire[offset:]` is the bytes that are left.
pub mod RoundTrip
use arladkr_practicaladkr.Prelude.{
  ℕ, ◌+◌, Bool, not, ◌||◌, ◌&&◌, leb, ◌>>=◌, ◌>>◌, guard, Option, none, some, [], ◌∷◌, ◌++◌, ltb,
  ◌==◌, if◌then◌else◌, length, get_or, take, drop,
}
use arladkr_practicaladkr.Prelude.Int.{ℤ, is_neg}
use arladkr_practicaladkr.Prelude.Bytes.{Bytes, beq}
use arladkr_practicaladkr.Wire.{put_be, be_value, uint64}
use arladkr_practicaladkr.Pool.Ref.{max_payload}

-- cvMaxNetworkEnvelopeSIDBytes
abbrev pub max_sid : ℕ
max_sid = 1048576

-- cvNetworkEnvelopeFixedBytes
abbrev pub fixed_bytes : ℕ
fixed_bytes = 17

-- `sid == "" || len(sid) > cvMaxNetworkEnvelopeSIDBytes || epoch < 0`
abbrev pub bad_context : Bytes → ℤ → Bool
bad_context sid epoch = length sid == 0 || ltb max_sid (length sid) || is_neg epoch

-- `cvEncodeNetworkEnvelope`
unfoldable pub encode_envelope : Bytes → ℤ → Bytes → Option Bytes
encode_envelope sid epoch payload =
    if bad_context sid epoch || ltb max_payload (length payload)
    then none
    else some (
        1
        ∷ (put_be 4 (length sid)
            ++ (sid ++ (put_be 8 (uint64 epoch) ++ (put_be 4 (length payload) ++ payload)))))

-- `cvDecodeNetworkEnvelope`
unfoldable pub decode_envelope : Bytes → Bytes → ℤ → Option Bytes
decode_envelope wire sid epoch = do
  guard (
      not (bad_context sid epoch)
      && leb (fixed_bytes + length sid) (length wire)
      && leb (length wire) (fixed_bytes + length sid + max_payload)
      && get_or wire 0 0 == 1)
  let r1 = drop 1 wire
  let sid_length = be_value 0 (take 4 r1)
  let r2 = drop 4 r1
  guard (sid_length == length sid && leb sid_length (length r2) && beq (take sid_length r2) sid)
  let r3 = drop sid_length r2
  guard (leb 12 (length r3) && be_value 0 (take 8 r3) == uint64 epoch)
  let r4 = drop 8 r3
  let payload_length = be_value 0 (take 4 r4)
  let r5 = drop 4 r4
  guard (leb payload_length max_payload && payload_length == length r5)
  some r5
