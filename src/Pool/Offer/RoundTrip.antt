-- ===== src/Pool/Offer/RoundTrip.antt =====
-- Encoding and decoding of a pool.
use mathlib.Core.List.{append_assoc, append-nil}
use arladkr_practicaladkr.Prelude.{
  ℕ, ◌≤◌, ◌≡◌, refl, sym, ◌∙◌, true, some, List, [], ◌∷◌, ◌++◌, map, arith, length, length-map, All,
  guard->>,
}
use arladkr_practicaladkr.Prelude.Int.{ℤ, pos, negsuc}
use arladkr_practicaladkr.Prelude.Bytes.{Bytes, beq, beq_refl}
use arladkr_practicaladkr.Wire.{
  put_be, max_uint32, max_int, IsInt, uint64, write_uint32, write_uint64, write_bytes, confirm_same,
}
use arladkr_practicaladkr.Wire.Frames.{
  frame, write_bytes-append, write_uint32-put_be, read_bytes-frame, read_uint32-put_be,
}
use arladkr_practicaladkr.Wire.Fields.{read_domain-frame, read_digest-frame, read_id-put_be}
use arladkr_practicaladkr.Apdb.Lock.RoundTrip.{IsCached}
use arladkr_practicaladkr.Pool.Ref.{ComponentRef, max_payload}
use arladkr_practicaladkr.Pool.Ref.RoundTrip.{
  sealed, length-ref_bytes, ref_bytes-sealed_ref, decode_ref_of_bytes,
}
use arladkr_practicaladkr.Pool.Offer.{
  Pool, pool_domain, pool_domain-fits, write_refs, unsigned_bytes, pool_digest, pool_bytes,
  read_refs, decode_pool,
}
use arladkr_practicaladkr.Pool.Offer.Order.{Parts, write_refs-round, pool_bytes-Parts}

-- A reference that Go can hold: its dealer is an `int`, and a wire that its lock keeps is its own.
abbrev pub IsRef : ComponentRef → Type 0
IsRef ref = IsInt ref.header.dealer_id × IsCached ref.lock

-- What the loop writes for the components, and what reading it gives.
record Body (sha256 : Bytes → Bytes) (context : Bytes) (last : ℤ) (refs : List ComponentRef)
    (unsigned out : Bytes) : Type 0 where
  body : Bytes
  written : unsigned ++ body ≡ out
  reads :
      (rest : Bytes) → read_refs sha256 (length refs) (body ++ rest) ≡ some (map sealed refs, rest)
  writes :
      (buffer : Bytes)
      → write_refs sha256 context buffer last (map sealed refs) ≡ some (buffer ++ body)

module _ (sha256 : Bytes → Bytes) (context : Bytes) where
  write_refs-Body :
      (unsigned : Bytes) (last : ℤ) (refs : List ComponentRef) (out : Bytes)
      → All IsRef refs
      → write_refs sha256 context unsigned last refs ≡ some out
      → Body sha256 context last refs unsigned out
  unfolding write_refs read_refs
  write_refs-Body unsigned last [] out ok e = record {
    body = [];
    written = rw append-nil (cc e);
    reads = λ rest. refl;
    writes = λ buffer. rw append-nil;
  }
  write_refs-Body unsigned last (ref ∷ refs) out ok e =
      let round = write_refs-round sha256 context unsigned last ref refs out e in
      let w = round.ref_wire in
      let short = length-ref_bytes sha256 ref w ok.0.0 ok.0.1 round.ref_encoded in
      let same : beq ref.header.context_digest context ≡ true =
        rw round.same_context (beq_refl context) in
      let tail =
        write_refs-Body (write_bytes unsigned w).0 ref.header.dealer_id refs out ok.1 round.rest in
      record {
        body = frame w ++ tail.body;
        written =
            rw (← append_assoc)
              (rw (write_bytes-append unsigned w (omega (arith, short))) at tail.written);
        reads = λ rest. rw (
          append_assoc,
          read_bytes-frame max_payload w _ (omega (arith, short)) (omega (arith, short)),
          decode_ref_of_bytes sha256 ref w ok.0.0 ok.0.1 round.ref_encoded,
          tail.reads rest,
        );
        writes = λ buffer. ground (
          arith,
          round,
          same,
          ref_bytes-sealed_ref sha256 ref w ok.0.0 ok.0.1 round.ref_encoded,
          write_bytes-append buffer w (omega (arith, short)),
          tail.writes (buffer ++ frame w),
          append_assoc buffer (frame w) tail.body,
        );
      }

-- The pool as a decoder returns it: each lock keeps its own bytes.
abbrev pub sealed_pool : Pool → Pool
sealed_pool pool = record pool { components = map sealed pool.components }

prefix : Bytes → ℕ → ℕ → Bytes → Bytes
prefix context proposer count body =
    frame pool_domain ++ (frame context ++ (put_be 8 proposer ++ (put_be 4 count ++ body)))

module _ (context : Bytes) (proposer count : ℕ) where
  prefix_written :
      length context ≡ 32
      → proposer ≤ max_int
      → count ≤ max_uint32
      → (write_uint32
          (write_uint64
            (write_bytes (write_bytes [] pool_domain).0 context).0
            (uint64 (pos proposer)))
          (pos count))
        ≡ (prefix context proposer count [], true)
  unfolding prefix write_uint64
  prefix_written h p c =
      let e : uint64 (pos proposer) ≡ proposer = omega arith in
      rw
        (
          write_bytes-append [] pool_domain (omega (arith, pool_domain-fits)),
          write_bytes-append _ context (omega arith),
          e,
          write_uint32-put_be _ count c,
        )
        (simp (append_assoc, append-nil))

  prefix-append :
      (body : Bytes) → prefix context proposer count [] ++ body ≡ prefix context proposer count body
  unfolding prefix
  prefix-append body = simp (append_assoc, append-nil)

record Unsigned (sha256 : Bytes → Bytes) (context : Bytes) (proposer : ℕ)
    (components : List ComponentRef) (unsigned : Bytes) : Type 0 where
  body : Bytes
  count_fits : length components ≤ max_uint32
  unsigned_eq : prefix context proposer (length components) body ≡ unsigned
  reads :
      (rest : Bytes)
      → read_refs sha256 (length components) (body ++ rest) ≡ some (map sealed components, rest)
  sealed_encoded :
      unsigned_bytes sha256 context (pos proposer) (map sealed components) ≡ some unsigned

module _ (sha256 : Bytes → Bytes) (context : Bytes) (proposer : ℕ) (components : List ComponentRef)
    (unsigned : Bytes) where
  unsigned_inv :
      length context ≡ 32
      → proposer ≤ max_int
      → All IsRef components
      → unsigned_bytes sha256 context (pos proposer) components ≡ some unsigned
      → Unsigned sha256 context proposer components unsigned
  unfolding unsigned_bytes
  unsigned_inv h p ok e =
      let (fits, loop) = guard->> _ (write_refs sha256 context _ (negsuc 0) components) e in
      let c : length components ≤ max_uint32 = unfold write_uint32 in ground (arith, fits) in
      let head = prefix_written context proposer (length components) h p c in
      let loop' : write_refs sha256 context (prefix context proposer (length components) [])
            (negsuc 0) components
          ≡ some unsigned =
        rw head at loop in
      let tail = write_refs-Body sha256 context _ (negsuc 0) components unsigned ok loop' in
      record {
        body = tail.body;
        count_fits = c;
        unsigned_eq =
            sym (prefix-append context proposer (length components) tail.body) ∙ tail.written;
        reads = tail.reads;
        sealed_encoded =
            rw (length-map components sealed, head)
              (cc (tail.writes (prefix context proposer (length components) []), tail.written));
      }

abbrev pool_of : Bytes → ℕ → List ComponentRef → Bytes → Pool
pool_of context proposer components digest = record {
  context_digest = context;
  proposer_id = pos proposer;
  components = components;
  digest = digest;
}

module _ (sha256 : Bytes → Bytes) (pool_size : ℕ) (context : Bytes) (proposer : ℕ)
    (components : List ComponentRef) (digest w : Bytes) (p : proposer ≤ max_int)
    (ok : All IsRef components)
    (parts : Parts sha256 pool_size (pool_of context proposer components digest) w)
    (short : length parts.unsigned ≤ max_payload) where
  un : Unsigned sha256 context proposer components parts.unsigned
  un =
      unsigned_inv sha256 context proposer components parts.unsigned parts.context_size p ok
        parts.unsigned_encoded

  abbrev sealed_of : Pool
  sealed_of = pool_of context proposer (map sealed components) digest

  wire_eq : frame parts.unsigned ++ (frame digest ++ []) ≡ w
  wire_eq = simp append-nil (
      cc (
        parts.wire,
        write_bytes-append [] parts.unsigned (omega (arith, short)),
        write_bytes-append (frame parts.unsigned) digest (omega (arith, parts)),
      ))

  pool_bytes_sealed : pool_bytes sha256 pool_size (some sealed_of) ≡ some w
  unfolding pool_bytes
  pool_bytes_sealed =
      let bound : beq digest (pool_digest sha256 parts.unsigned) ≡ true =
        rw parts.digest_bound (beq_refl (pool_digest sha256 parts.unsigned)) in
      ground (arith, parts, length-map components sealed, un.sealed_encoded, bound)

  reads_all : read_refs sha256 (length components) un.body ≡ some (map sealed components, [])
  reads_all = rw append-nil at (un.reads [])

  wire_prefix :
      frame (prefix context proposer (length components) un.body) ++ (frame digest ++ []) ≡ w
  wire_prefix = rw un.unsigned_eq wire_eq

  decode_wire : decode_pool sha256 pool_size w ≡ some sealed_of
  unfolding decode_pool prefix
  decode_wire = rw (← wire_eq) (
      rw
        (
          read_bytes-frame max_payload parts.unsigned _ short (omega (arith, short)),
          read_digest-frame digest [] parts.digest_size,
          ← un.unsigned_eq,
          read_domain-frame pool_domain _ (omega (arith, pool_domain-fits)),
          read_digest-frame context _ parts.context_size,
          read_id-put_be proposer _ p,
          read_uint32-put_be (length components) _ un.count_fits,
        )
        (ground
          (arith, parts.size, reads_all, wire_prefix, pool_bytes_sealed, confirm_same w sealed_of)))

module _ (sha256 : Bytes → Bytes) (pool_size : ℕ) where
  decode_fields :
      (context : Bytes) (proposer : ℤ) (components : List ComponentRef) (digest unsigned w : Bytes)
      → IsInt proposer
      → All IsRef components
      → unsigned_bytes sha256 context proposer components ≡ some unsigned
      → length unsigned ≤ max_payload
      → Parts sha256 pool_size
          (record {
            context_digest = context;
            proposer_id = proposer;
            components = components;
            digest = digest;
          })
          w
      → decode_pool sha256 pool_size w
        ≡ some (record {
          context_digest = context;
          proposer_id = proposer;
          components = map sealed components;
          digest = digest;
        })
  decode_fields context (negsuc n) components digest unsigned w int ok ue short parts =
      cc parts.proposer_nonneg
  decode_fields context (pos proposer) components digest unsigned w int ok ue short parts =
      let same : parts.unsigned ≡ unsigned = cc (ue, parts.unsigned_encoded) in
      decode_wire sha256 pool_size context proposer components digest w int ok parts (rw same short)

  -- A pool that Go can hold, that encodes and whose unsigned body fits a network payload decodes
  -- from its encoding, and comes back as it was, but for the wire that each decoded lock keeps.
  pub decode_pool-pool_bytes :
      (pool : Pool) (unsigned w : Bytes)
      → IsInt pool.proposer_id
      → All IsRef pool.components
      → unsigned_bytes sha256 pool.context_digest pool.proposer_id pool.components ≡ some unsigned
      → length unsigned ≤ max_payload
      → pool_bytes sha256 pool_size (some pool) ≡ some w
      → decode_pool sha256 pool_size w ≡ some (sealed_pool pool)
  decode_pool-pool_bytes pool unsigned w int ok ue short e =
      decode_fields pool.context_digest pool.proposer_id pool.components pool.digest unsigned w int
        ok ue short (pool_bytes-Parts sha256 pool_size pool w e)
