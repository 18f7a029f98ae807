-- ===== src/Apdb/Store/Layout.antt =====
-- The bytes of a store, as the encoder writes them and as the decoder takes them.
use mathlib.Core.List.{append_assoc, append-nil}
use arladkr_practicaladkr.Prelude.{
  ℕ, zero, suc, ◌+◌, ◌/◌, ◌≤◌, ◌<◌, ◌≡◌, refl, sym, ◌∙◌, true, not, ◌&&◌, some, List, [], ◌∷◌, ◌++◌,
  arith, lt→ltb, ==_iff, ◌==◌, length, All, guard->>, >>=-eq-some,
}
use arladkr_practicaladkr.Prelude.Int.{ℤ, pos, negsuc}
use arladkr_practicaladkr.Prelude.Bytes.{Bytes}
use arladkr_practicaladkr.Wire.{put_be, max_uint32, write_bytes}
use arladkr_practicaladkr.Wire.Frames.{
  frame, write_bytes-append, write_uint32-put_be, read_uint32-put_be, read_bytes-frame,
}
use arladkr_practicaladkr.Wire.Fields.{read_domain-frame, read_digest-frame}
use arladkr_practicaladkr.Tree.{join}
use arladkr_practicaladkr.Apdb.Store.{
  Store, store_domain, store_domain-fits, merkle_depth, depth_from, index_of, shard_hash, tree_hash,
  follow_checked, verify_store, write_siblings, store_bytes, read_siblings, decode_store,
}

unfoldable pub frames : List Bytes → Bytes
frames [] = []
frames (s ∷ siblings) = frame s ++ frames siblings

abbrev Sized : List Bytes → Type 0
Sized = All (λ d. length d ≡ 32)

write_siblings-frames :
    (buffer : Bytes) (siblings : List Bytes)
    → Sized siblings
    → write_siblings buffer siblings ≡ buffer ++ frames siblings
unfolding write_siblings frames
write_siblings-frames buffer [] h = sym (append-nil buffer)
write_siblings-frames buffer (s ∷ siblings) h =
    write_siblings-frames (write_bytes buffer s).0 siblings h.1
    ∙ rw (write_bytes-append buffer s (omega (arith, h.0)))
        (append_assoc buffer (frame s) (frames siblings))

read_siblings-frames :
    (siblings : List Bytes) (rest : Bytes)
    → Sized siblings
    → read_siblings (length siblings) (frames siblings ++ rest) ≡ some (siblings, rest)
unfolding read_siblings frames
read_siblings-frames [] rest h = refl
read_siblings-frames (s ∷ siblings) rest h = rw append_assoc (
    rw (read_digest-frame s (frames siblings ++ rest) h.0, read_siblings-frames siblings rest h.1)
      refl)

pub empty_of_length : (b : Bytes) → (length b == 0) ≡ true → b ≡ []
empty_of_length [] h = refl
empty_of_length (x ∷ b) h = absurd (ground arith)

unfoldable pub layout : Store → ℕ → Bytes
layout store i =
    frame store_domain
    ++ (frame store.instance_digest
        ++ (frame store.root
            ++ (put_be 4 i
                ++ (frame store.shard
                    ++ (put_be 4 (length store.siblings) ++ (frames store.siblings ++ []))))))

depth_from-le : (fuel shards : ℕ) → depth_from fuel shards ≤ fuel
unfolding depth_from
depth_from-le zero shards = omega arith
depth_from-le (suc fuel) shards = ground (arith, depth_from-le fuel ((shards + 1) / 2))

follow_checked-Sized :
    (sha256 : Bytes → Bytes) (digest : Bytes) (index : ℕ) (siblings : List Bytes) (out : Bytes)
    → follow_checked sha256 digest index siblings ≡ some out
    → Sized siblings
unfolding follow_checked
follow_checked-Sized sha256 digest index [] out e = tt
follow_checked-Sized sha256 digest index (s ∷ siblings) out e =
    let (sized, rest) = guard->> (length s == 32) _ e in
    (
      ground arith,
      follow_checked-Sized sha256 (join (tree_hash sha256) digest index s) (index / 2) siblings out
          rest,
    )

-- What a verified store satisfies.
pub record IsStore (total_shards shard_bytes : ℕ) (store : Store) : Type 0 where
  pub at_index : ℕ
  pub instance_size : length store.instance_digest ≡ 32
  pub root_size : length store.root ≡ 32
  pub index_eq : store.index ≡ pos at_index
  pub inside : at_index < total_shards
  pub shard_size : length store.shard ≡ shard_bytes
  pub depth : length store.siblings ≡ merkle_depth total_shards
  pub sized : Sized store.siblings

index_of-eq :
    (total_shards : ℕ) (index : ℤ) (i : ℕ)
    → index_of total_shards index ≡ some i
    → (index ≡ pos i) × (i < total_shards)
index_of-eq total_shards (pos j) i e = (ground arith, ground arith)
index_of-eq total_shards (negsuc j) i e = cc e

pub verify_store-IsStore :
    (sha256 : Bytes → Bytes) (total_shards shard_bytes : ℕ) (store : Store)
    → verify_store sha256 total_shards shard_bytes (some store) ≡ some tt
    → IsStore total_shards shard_bytes store
unfolding verify_store
verify_store-IsStore sha256 total_shards shard_bytes store e =
    let (sizes, e1) =
      guard->> (length store.instance_digest == 32 && length store.root == 32) _ e in
    let (i, at_i, e2) = >>=-eq-some (index_of total_shards store.index) _ e1 in
    let (shard, e3) = guard->> (not (shard_bytes == 0) && length store.shard == shard_bytes) _ e2 in
    let (depth, e4) = guard->> (length store.siblings == merkle_depth total_shards) _ e3 in
    let leaf = shard_hash sha256 store.instance_digest store.index store.shard in
    let (digest, leads, e5) = >>=-eq-some (follow_checked sha256 leaf i store.siblings) _ e4 in
    let (same, inside) = index_of-eq total_shards store.index i at_i in
    record {
      at_index = i;
      instance_size = ground (arith, sizes);
      root_size = ground (arith, sizes);
      index_eq = same;
      inside = inside;
      shard_size = ground (arith, shard);
      depth = (==_iff (length store.siblings) (merkle_depth total_shards)).0 depth;
      sized = follow_checked-Sized sha256 leaf i store.siblings digest leads;
    }

module _ (sha256 : Bytes → Bytes) (total_shards shard_bytes : ℕ) where
  pub store_bytes-layout :
      (store : Store) (v : IsStore total_shards shard_bytes store)
      → total_shards ≤ max_uint32
      → shard_bytes ≤ max_uint32
      → verify_store sha256 total_shards shard_bytes (some store) ≡ some tt
      → store_bytes sha256 total_shards shard_bytes (some store) ≡ some (layout store v.at_index)
  unfolding store_bytes layout
  store_bytes-layout store v few small verified =
      let deep : length store.siblings ≤ max_uint32 =
        omega (arith, v.depth, depth_from-le total_shards total_shards) in
      rw
        (
          verified,
          write_bytes-append [] store_domain (omega (arith, store_domain-fits)),
          write_bytes-append _ store.instance_digest (omega (arith, v)),
          write_bytes-append _ store.root (omega (arith, v)),
          v.index_eq,
          write_uint32-put_be _ v.at_index (omega (arith, v)),
          write_bytes-append _ store.shard (omega (arith, v)),
          write_uint32-put_be _ (length store.siblings) deep,
          write_siblings-frames _ store.siblings v.sized,
        )
        (simp (append_assoc, append-nil))

  pub decode_store-layout :
      (store : Store) (v : IsStore total_shards shard_bytes store)
      → total_shards ≤ max_uint32
      → shard_bytes ≤ max_uint32
      → verify_store sha256 total_shards shard_bytes (some store) ≡ some tt
      → decode_store sha256 total_shards shard_bytes (layout store v.at_index) ≡ some store
  unfolding decode_store layout
  decode_store-layout store v few small verified =
      let deep : length store.siblings ≤ max_uint32 =
        omega (arith, v.depth, depth_from-le total_shards total_shards) in
      let shard : (length store.shard == shard_bytes) ≡ true = ground (arith, v.shard_size) in
      let depth : (length store.siblings == merkle_depth total_shards) ≡ true =
        (==_iff (length store.siblings) (merkle_depth total_shards)).1 v.depth in
      rw
        (
          read_domain-frame store_domain _ (omega (arith, store_domain-fits)),
          read_digest-frame store.instance_digest _ v.instance_size,
          read_digest-frame store.root _ v.root_size,
          read_uint32-put_be v.at_index _ (omega (arith, v)),
          lt→ltb v.at_index total_shards v.inside,
          read_bytes-frame shard_bytes store.shard _ (omega (arith, v)) (omega (arith, v)),
          shard,
          read_uint32-put_be (length store.siblings) _ deep,
          depth,
          read_siblings-frames store.siblings [] v.sized,
          ← v.index_eq,
          verified,
        )
        refl
