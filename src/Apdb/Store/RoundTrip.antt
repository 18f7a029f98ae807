-- ===== src/Apdb/Store/RoundTrip.antt =====
-- The wire form of a store is canonical, although cvDecodeAPDBStoreScalar does not encode again: on
-- wires of bytes, decoding and encoding are inverse to one another.
use mathlib.Core.List.{append_assoc}
use mathlib.Core.Path.{subst}
use arladkr_practicaladkr.Prelude.{
  ℕ, zero, suc, ◌≤◌, ◌≡◌, refl, sym, ◌∙◌, ap, ◌↔◌, true, some, List, [], ◌∷◌, ◌++◌, arith, ltb,
  ◌==◌, length, guard->>, >>=-eq-some, some-inj,
}
use arladkr_practicaladkr.Prelude.Int.{pos, pos_part}
use arladkr_practicaladkr.Prelude.Bytes.{Bytes, IsBytes}
use arladkr_practicaladkr.Wire.{max_uint32, read_uint32, read_bytes}
use arladkr_practicaladkr.Wire.Frames.{frame}
use arladkr_practicaladkr.Wire.Fields.{read_domain, read_digest}
use arladkr_practicaladkr.Wire.Inverse.{
  read_uint32-Read32, read_bytes-ReadBytes, read_domain-ReadBytes, read_digest-ReadDigest,
}
use arladkr_practicaladkr.Apdb.Store.{
  Store, store_domain, merkle_depth, verify_store, store_bytes, read_siblings, decode_store,
}
use arladkr_practicaladkr.Apdb.Store.Layout.{
  frames, empty_of_length, layout, verify_store-IsStore, store_bytes-layout, decode_store-layout,
}

module _ (sha256 : Bytes → Bytes) (total_shards shard_bytes : ℕ) where
  read_siblings-inv :
      (depth : ℕ) (r : Bytes) (siblings : List Bytes) (rest : Bytes)
      → IsBytes r
      → read_siblings depth r ≡ some (siblings, rest)
      → (r ≡ frames siblings ++ rest) × (length siblings ≡ depth)
  unfolding read_siblings frames
  read_siblings-inv zero r siblings rest small e = (cc e, ground arith)
  read_siblings-inv (suc depth) r siblings rest small e =
      let (first, read, e1) = >>=-eq-some (read_digest r) _ e in
      let d = read_digest-ReadDigest r first.0 first.1 small read in
      let (more, reads, e2) = >>=-eq-some (read_siblings depth first.1) _ e1 in
      let (tail, count) = read_siblings-inv depth first.1 more.0 more.1 d.rest_bytes reads in
      let whole : first.0 ∷ more.0 ≡ siblings = cc e2 in
      let left : more.1 ≡ rest = cc e2 in
      (
        d.wire
            ∙ rw (← whole, ← left)
                (rw tail (sym (append_assoc (frame first.0) (frames more.0) more.1))),
        rw (← whole) (omega (arith, count)),
      )

  -- The wire of a store that was decoded.
  record Decoded (wire : Bytes) (store : Store) : Type 0 where
    index_read : ℕ
    index_eq : store.index ≡ pos index_read
    wire_eq : wire ≡ layout store index_read
    verified : verify_store sha256 total_shards shard_bytes (some store) ≡ some tt

  -- The reads of a decoding that succeeds.
  record Reads (wire : Bytes) (store : Store) : Type 0 where
    after_domain : Bytes
    instance_read : Bytes × Bytes
    root_read : Bytes × Bytes
    number_read : ℕ × Bytes
    shard_read : Bytes × Bytes
    depth_read : ℕ × Bytes
    siblings_read : List Bytes × Bytes
    e1 : read_domain store_domain wire ≡ some after_domain
    e2 : read_digest after_domain ≡ some instance_read
    e3 : read_digest instance_read.1 ≡ some root_read
    e4 : read_uint32 root_read.1 ≡ some number_read
    e5 : read_bytes shard_bytes number_read.1 ≡ some shard_read
    e6 : read_uint32 shard_read.1 ≡ some depth_read
    e7 : read_siblings depth_read.0 depth_read.1 ≡ some siblings_read
    ended : (length siblings_read.1 == 0) ≡ true
    same :
        record {
          instance_digest = instance_read.0;
          root = root_read.0;
          index = pos number_read.0;
          shard = shard_read.0;
          siblings = siblings_read.0;
        }
        ≡ store
    verified : verify_store sha256 total_shards shard_bytes (some store) ≡ some tt

  unit-eq : (u : Unit {0}) → u ≡ tt
  unit-eq u = refl

  decode_store-Reads :
      (wire : Bytes) (store : Store)
      → decode_store sha256 total_shards shard_bytes wire ≡ some store
      → Reads wire store
  unfolding decode_store
  decode_store-Reads wire store e =
      let (r1, e1, k1) = >>=-eq-some (read_domain store_domain wire) _ e in
      let (p2, e2, k2) = >>=-eq-some (read_digest r1) _ k1 in
      let (p3, e3, k3) = >>=-eq-some (read_digest p2.1) _ k2 in
      let (p4, e4, k4) = >>=-eq-some (read_uint32 p3.1) _ k3 in
      let (inside, k5) = guard->> (ltb p4.0 total_shards) _ k4 in
      let (p6, e6, k6) = >>=-eq-some (read_bytes shard_bytes p4.1) _ k5 in
      let (sized, k7) = guard->> (length p6.0 == shard_bytes) _ k6 in
      let (p8, e8, k8) = >>=-eq-some (read_uint32 p6.1) _ k7 in
      let (deep, k9) = guard->> (p8.0 == merkle_depth total_shards) _ k8 in
      let (p10, e10, k10) = >>=-eq-some (read_siblings p8.0 p8.1) _ k9 in
      let (ended, k11) = guard->> (length p10.1 == 0) _ k10 in
      let read : Store = record {
        instance_digest = p2.0;
        root = p3.0;
        index = pos p4.0;
        shard = p6.0;
        siblings = p10.0;
      } in
      let (unit, checked, k12) =
        >>=-eq-some (verify_store sha256 total_shards shard_bytes (some read)) _ k11 in
      let same : read ≡ store = some-inj read store k12 in
      record {
        after_domain = r1;
        instance_read = p2;
        root_read = p3;
        number_read = p4;
        shard_read = p6;
        depth_read = p8;
        siblings_read = p10;
        e1 = e1;
        e2 = e2;
        e3 = e3;
        e4 = e4;
        e5 = e6;
        e6 = e8;
        e7 = e10;
        ended = ended;
        same = same;
        verified =
            subst (λ s. verify_store sha256 total_shards shard_bytes (some s) ≡ some tt) same
              checked;
      }

  Reads-Decoded :
      (wire : Bytes) (store : Store) → IsBytes wire → Reads wire store → Decoded wire store
  unfolding layout
  Reads-Decoded wire store small r =
      let (w1, b1) = read_domain-ReadBytes store_domain wire r.after_domain small r.e1 in
      let d2 = read_digest-ReadDigest r.after_domain r.instance_read.0 r.instance_read.1 b1 r.e2 in
      let d3 =
        read_digest-ReadDigest r.instance_read.1 r.root_read.0 r.root_read.1 d2.rest_bytes r.e3 in
      let d4 =
        read_uint32-Read32 r.root_read.1 r.number_read.0 r.number_read.1 d3.rest_bytes r.e4 in
      let d5 =
        read_bytes-ReadBytes shard_bytes r.number_read.1 r.shard_read.0 r.shard_read.1 d4.rest_bytes
          r.e5 in
      let d6 = read_uint32-Read32 r.shard_read.1 r.depth_read.0 r.depth_read.1 d5.rest_bytes r.e6 in
      let (w7, count) =
        read_siblings-inv r.depth_read.0 r.depth_read.1 r.siblings_read.0 r.siblings_read.1
          d6.rest_bytes r.e7 in
      let nothing : r.siblings_read.1 ≡ [] = empty_of_length r.siblings_read.1 r.ended in
      record {
        index_read = r.number_read.0;
        index_eq = ap (λ (s : Store). s.index) (sym r.same);
        wire_eq =
            subst (λ s. wire ≡ layout s r.number_read.0) r.same
              (rw (w1, d2.wire, d3.wire, d4.wire, d5.wire, d6.wire, w7, nothing, count) refl);
        verified = r.verified;
      }

  pub store_bytes-verified :
      (store : Store) (wire : Bytes)
      → store_bytes sha256 total_shards shard_bytes (some store) ≡ some wire
      → verify_store sha256 total_shards shard_bytes (some store) ≡ some tt
  unfolding store_bytes
  store_bytes-verified store wire e =
      let (unit, verified, rest) =
        >>=-eq-some (verify_store sha256 total_shards shard_bytes (some store)) _ e in
      verified

  pub store_bytes-decodes :
      (store : Store) (wire : Bytes)
      → total_shards ≤ max_uint32
      → shard_bytes ≤ max_uint32
      → store_bytes sha256 total_shards shard_bytes (some store) ≡ some wire
      → decode_store sha256 total_shards shard_bytes wire ≡ some store
  store_bytes-decodes store wire few short e =
      let verified = store_bytes-verified store wire e in
      let v = verify_store-IsStore sha256 total_shards shard_bytes store verified in
      let same : layout store v.at_index ≡ wire =
        some-inj (layout store v.at_index) wire (
          sym (store_bytes-layout sha256 total_shards shard_bytes store v few short verified)
          ∙ e) in
      subst (λ w. decode_store sha256 total_shards shard_bytes w ≡ some store) same
        (decode_store-layout sha256 total_shards shard_bytes store v few short verified)

  -- For wires of bytes, and numbers of shards and of shard bytes that fit 32 bits: a wire decodes
  -- to a store exactly when the store encodes to that wire.
  pub decode_store-store_bytes :
      (store : Store) (wire : Bytes)
      → IsBytes wire
      → total_shards ≤ max_uint32
      → shard_bytes ≤ max_uint32
      → (decode_store sha256 total_shards shard_bytes wire ≡ some store)
        ↔ (store_bytes sha256 total_shards shard_bytes (some store) ≡ some wire)
  decode_store-store_bytes store wire small few short = (
    λ e.
        let d = Reads-Decoded wire store small (decode_store-Reads wire store e) in
        let v = verify_store-IsStore sha256 total_shards shard_bytes store d.verified in
        let index : v.at_index ≡ d.index_read = ap pos_part (sym v.index_eq ∙ d.index_eq) in
        store_bytes-layout sha256 total_shards shard_bytes store v few short d.verified
        ∙ ap some (ap (layout store) index ∙ sym d.wire_eq),
    λ e. store_bytes-decodes store wire few short e,
  )
