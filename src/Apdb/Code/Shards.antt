-- ===== src/Apdb/Code/Shards.antt =====
-- Packing, chunks and the erasure coder: what is encoded comes back.
use mathlib.Core.Path.{subst}
use mathlib.Core.List.{append-nil}
use native.Mathlib.Nat.{suc-mul, mul-add-div, div-eq_of_lt}
use arladkr_practicaladkr.Prelude.{
  ℕ, zero, suc, ◌+◌, ◌-◌, ◌*◌, ◌/◌, ◌≤◌, ◌<◌, ◌≡◌, refl, sym, ◌∙◌, ap, true, false, Option, none,
  some, List, [], ◌∷◌, ◌++◌, map, arith, ◌==◌, ==_iff, some-inj, Bool-cases, inl, inr, ◌≢◌, length,
  length-append, length-replicate, length-take, length-drop, take, drop, replicate, take-append,
  drop-append, take-append-drop, All,
}
use arladkr_practicaladkr.Prelude.Bytes.{Bytes}
use arladkr_practicaladkr.Wire.{put_be, be_value, max_int}
use arladkr_practicaladkr.Wire.BigEndian.{length-put_be, be_value-put_be}
use arladkr_practicaladkr.Apdb.Code.{
  ReedSolomon, chunks, erasure_encode, join_shards, erasure_decode, pack, unpack,
}

take-append_of : (n : ℕ) (xs ys : Bytes) → length xs ≡ n → take n (xs ++ ys) ≡ xs
take-append_of n xs ys e = rw (← e) (take-append xs ys)

drop-append_of : (n : ℕ) (xs ys : Bytes) → length xs ≡ n → drop n (xs ++ ys) ≡ ys
drop-append_of n xs ys e = rw (← e) (drop-append xs ys)

module _ (payload : Bytes) (data_shards shard_bytes : ℕ) where
  pub length-pack :
      8 + length payload ≤ data_shards * shard_bytes
      → length (pack payload data_shards shard_bytes) ≡ data_shards * shard_bytes
  unfolding pack
  length-pack fits = omega (
    arith,
    length-append (put_be 8 (length payload))
        (payload ++ replicate {A = ℕ} (data_shards * shard_bytes - (8 + length payload)) 0),
    length-append payload (replicate {A = ℕ} (data_shards * shard_bytes - (8 + length payload)) 0),
    length-replicate {A = ℕ} (data_shards * shard_bytes - (8 + length payload)) 0,
    length-put_be 8 (length payload),
  )

  pub unpack-pack :
      (maximum : ℕ)
      → 8 + length payload ≤ data_shards * shard_bytes
      → 1 ≤ length payload
      → length payload ≤ maximum
      → maximum ≤ max_int
      → unpack (pack payload data_shards shard_bytes) maximum ≡ some payload
  unfolding unpack
  unpack-pack maximum fits some_byte bounded small =
      let total = length-pack fits in
      let filled =
        payload ++ replicate {A = ℕ} (data_shards * shard_bytes - (8 + length payload)) 0 in
      let head : take 8 (pack payload data_shards shard_bytes) ≡ put_be 8 (length payload) =
        unfold pack in
        take-append_of 8 (put_be 8 (length payload)) filled (length-put_be 8 (length payload)) in
      let body : drop 8 (pack payload data_shards shard_bytes) ≡ filled =
        unfold pack in
        drop-append_of 8 (put_be 8 (length payload)) filled (length-put_be 8 (length payload)) in
      let size : be_value 0 (put_be 8 (length payload)) ≡ length payload =
        be_value-put_be 8 (length payload) (omega arith) in
      let value : take (length payload) filled ≡ payload = take-append payload _ in
      rw (head, size, body, value) (ground (arith, total))

-- The chunks of a payload that fills them.
module _ (size : ℕ) where
  join_shards-chunks :
      (n : ℕ) (payload : Bytes)
      → length payload ≡ n * size
      → join_shards (map some (chunks size n payload)) ≡ some payload
  join_shards-chunks zero [] e = refl
  join_shards-chunks zero (x ∷ payload) e = absurd (omega (arith, e))
  join_shards-chunks (suc n) payload e =
      let more : length payload ≡ size + n * size = omega (arith, e, suc-mul n size) in
      let full : size - length payload ≡ 0 = omega (arith, more) in
      let rest : length (drop size payload) ≡ n * size =
        omega (arith, more, length-drop size payload) in
      rw (full, append-nil (take size payload), join_shards-chunks n (drop size payload) rest)
        (ap some (take-append-drop size payload))

  pub length-chunks : (n : ℕ) (payload : Bytes) → length (chunks size n payload) ≡ n
  length-chunks zero payload = refl
  length-chunks (suc n) payload = ap suc (length-chunks n (drop size payload))

-- The shards of a codeword, some of them missing.
unfoldable pub Agrees : List (Option Bytes) → List Bytes → Type 0
Agrees [] [] = Unit {0}
Agrees (none ∷ received) (shard ∷ shards) = Agrees received shards
Agrees (some v ∷ received) (shard ∷ shards) = (v ≡ shard) × Agrees received shards
Agrees [] (shard ∷ shards) = ⊥
Agrees (r ∷ received) [] = ⊥

abbrev pub present : List (Option Bytes) → ℕ
present [] = 0
present (none ∷ received) = present received
present (some v ∷ received) = suc (present received)

-- Up to this many shards the library works in the field with 2^8 elements; above it, it works in one
-- with 2^16 elements and pads every shard to a multiple of 64 bytes.
abbrev pub max_gf8_shards : ℕ
max_gf8_shards = 256

-- What the code relies on in Reed-Solomon, for few enough shards: those of a payload that fills its data
-- shards have their size, and it comes back from as many shards as there are data shards.
pub record IsReedSolomon (rs : ReedSolomon) : Type 0 where
  pub sizes :
      (data_shards total_shards size : ℕ) (payload : Bytes) (shards : List Bytes)
      → 1 ≤ data_shards
      → data_shards < total_shards
      → total_shards ≤ max_gf8_shards
      → 1 ≤ size
      → length payload ≡ data_shards * size
      → rs.encode data_shards total_shards payload ≡ some shards
      → All (λ s. length s ≡ size) shards
  pub decodes :
      (data_shards total_shards size : ℕ) (payload : Bytes) (shards : List Bytes)
      (received : List (Option Bytes))
      → 1 ≤ data_shards
      → data_shards < total_shards
      → total_shards ≤ max_gf8_shards
      → 1 ≤ size
      → length payload ≡ data_shards * size
      → rs.encode data_shards total_shards payload ≡ some shards
      → Agrees received shards
      → data_shards ≤ present received
      → rs.decode data_shards received ≡ some payload

present-le : (received : List (Option Bytes)) → present received ≤ length received
present-le [] = omega arith
present-le (none ∷ received) = omega (arith, present-le received)
present-le (some v ∷ received) = omega (arith, present-le received)

Agrees-length :
    (received : List (Option Bytes)) (shards : List Bytes)
    → Agrees received shards
    → length received ≡ length shards
unfolding Agrees
Agrees-length [] [] h = refl
Agrees-length (none ∷ received) (shard ∷ shards) h = omega (arith, Agrees-length received shards h)
Agrees-length (some v ∷ received) (shard ∷ shards) h =
    omega (arith, Agrees-length received shards h.1)
Agrees-length [] (shard ∷ shards) h = absurd h
Agrees-length (r ∷ received) [] h = absurd h

Agrees-all :
    (received : List (Option Bytes)) (shards : List Bytes)
    → Agrees received shards
    → length received ≤ present received
    → received ≡ map some shards
unfolding Agrees
Agrees-all [] [] h all = refl
Agrees-all (none ∷ received) (shard ∷ shards) h all =
    absurd (omega (arith, all, present-le received))
Agrees-all (some v ∷ received) (shard ∷ shards) h all =
    cc (h.0, Agrees-all received shards h.1 (omega (arith, all)))
Agrees-all [] (shard ∷ shards) h all = absurd h
Agrees-all (r ∷ received) [] h all = absurd h

chunk_size :
    (k size : ℕ) (payload : Bytes)
    → 1 ≤ k
    → length payload ≡ k * size
    → (length payload + k - 1) / k ≡ size
chunk_size k size payload positive e =
    let sum : length payload + k - 1 ≡ k * size + (k - 1) = omega (arith, e) in
    rw
      (
        sum,
        mul-add-div {m = k} positive size (k - 1),
        div-eq_of_lt {n = k - 1} {m = k} (omega arith),
      )
      (omega arith)

-- Decoding enough shards of what was encoded gives the payload.
pub erasure_decode-erasure_encode :
    (rs : ReedSolomon) (data_shards total_shards size : ℕ) (payload : Bytes) (shards : List Bytes)
    (received : List (Option Bytes))
    → IsReedSolomon rs
    → 1 ≤ data_shards
    → data_shards ≤ total_shards
    → total_shards ≤ max_gf8_shards
    → 1 ≤ size
    → length payload ≡ data_shards * size
    → length shards ≡ total_shards
    → erasure_encode rs payload data_shards total_shards ≡ some shards
    → Agrees received shards
    → data_shards ≤ present received
    → erasure_decode rs received data_shards ≡ some payload
unfolding erasure_encode erasure_decode
erasure_decode-erasure_encode rs k n size payload shards received law positive fits few
      size_positive filled count encoded agrees enough =
    let same_length = Agrees-length received shards agrees in
    elim (Bool-cases (k == n)) [
      | inl plain ↦
          let kn : k ≡ n = (==_iff k n).0 plain in
          let whole : (k == length received) ≡ true =
            (==_iff k (length received)).1 (omega (arith, kn, same_length, count)) in
          let cut : chunks ((length payload + k - 1) / k) n payload ≡ shards =
            some-inj _ shards (rw plain at encoded) in
          let sized = chunk_size k size payload positive filled in
          let all : received ≡ map some shards =
            Agrees-all received shards agrees (omega (arith, kn, same_length, count, enough)) in
          let filled_n = subst (λ m. length payload ≡ m * size) kn filled in
          let made : shards ≡ chunks size n payload =
            sym cut ∙ ap (λ c. chunks c n payload) sized in
          rw whole
            (ap join_shards (all ∙ ap (map some) made) ∙ join_shards-chunks size n payload filled_n)
      | inr coded ↦
          let apart : k ≢ n = λ h. cc (coded, (==_iff k n).1 h) in
          let not_whole : (k == length received) ≡ false =
            ground (arith, coded, same_length, count) in
          rw not_whole (
            law.decodes k n size payload shards received positive (omega (arith, fits, apart)) few
              size_positive filled (rw coded at encoded) agrees enough)
    ]

chunks-All :
    (size n : ℕ) (payload : Bytes)
    → length payload ≡ n * size
    → All (λ s. length s ≡ size) (chunks size n payload)
chunks-All size zero payload e = tt
chunks-All size (suc n) payload e =
    let more : length payload ≡ size + n * size = omega (arith, e, suc-mul n size) in
    (
      omega (
        arith,
        more,
        length-append (take size payload) (replicate {A = ℕ} (size - length payload) 0),
        length-take size payload,
        length-replicate {A = ℕ} (size - length payload) 0,
      ),
      chunks-All size n (drop size payload) (omega (arith, more, length-drop size payload)),
    )

-- All shards of a payload that fills its data shards have one size.
pub erasure_encode-All :
    (rs : ReedSolomon) (data_shards total_shards size : ℕ) (payload : Bytes) (shards : List Bytes)
    → IsReedSolomon rs
    → 1 ≤ data_shards
    → data_shards ≤ total_shards
    → total_shards ≤ max_gf8_shards
    → 1 ≤ size
    → length payload ≡ data_shards * size
    → erasure_encode rs payload data_shards total_shards ≡ some shards
    → All (λ s. length s ≡ size) shards
unfolding erasure_encode
erasure_encode-All rs k n size payload shards law positive fits few size_positive filled encoded =
    elim (Bool-cases (k == n)) [
      | inl plain ↦
          let kn : k ≡ n = (==_iff k n).0 plain in
          let cut : chunks ((length payload + k - 1) / k) n payload ≡ shards =
            some-inj _ shards (rw plain at encoded) in
          let made : chunks size n payload ≡ shards =
            ap (λ c. chunks c n payload) (sym (chunk_size k size payload positive filled)) ∙ cut in
          subst (All (λ s. length s ≡ size)) made
            (chunks-All size n payload (subst (λ m. length payload ≡ m * size) kn filled))
      | inr coded ↦
          let apart : k ≢ n = λ h. cc (coded, (==_iff k n).1 h) in
          law.sizes k n size payload shards positive (omega (arith, fits, apart)) few size_positive
            filled (rw coded at encoded)
    ]
