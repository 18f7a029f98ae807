-- ===== src/Apdb/Code/Completes.antt =====
-- A dispersed payload comes back from any data_shards stores of its dispersal.
use mathlib.Core.Path.{subst}
use arladkr_practicaladkr.Prelude.{
  ℕ, zero, suc, ◌+◌, ◌≤◌, ◌<◌, ◌≡◌, refl, sym, ◌∙◌, ap, Bool, true, false, not, ◌||◌, Option, none,
  some, List, [], ◌∷◌, arith, ltb, ◌==◌, le→leb, length, get_or, get_elem?, replicate,
  length-replicate, All,
}
use arladkr_practicaladkr.Prelude.Int.{ℤ, pos}
use arladkr_practicaladkr.Prelude.Bytes.{Bytes, beq_refl}
use arladkr_practicaladkr.Prelude.Members.{Distinct, member}
use arladkr_practicaladkr.Wire.{max_int}
use arladkr_practicaladkr.Apdb.Lock.{Lock}
use arladkr_practicaladkr.Apdb.Store.{Store, build_tree, levels, leaves, branch, branches}
use arladkr_practicaladkr.Apdb.Store.Verifies.{store_at, top-Sized, leaves-Sized, length-leaves}
use arladkr_practicaladkr.Apdb.Code.{
  ReedSolomon, Encoded, make_stores, pack, unpack, erasure_decode, encode_sized, place, recover,
}
use arladkr_practicaladkr.Apdb.Code.Shards.{
  length-pack, unpack-pack, Agrees, present, max_gf8_shards, IsReedSolomon, erasure_encode-All,
  erasure_decode-erasure_encode,
}
use arladkr_practicaladkr.Apdb.Code.Recovery.{encode_sized-Dispersed}
use arladkr_practicaladkr.Apdb.Code.Placing.{Placed, Fresh, indices, place-PlacedAll}

get_or-All :
    (P : Bytes → Type 0) (xs : List Bytes) (i : ℕ) → All P xs → i < length xs → P (get_or xs i [])
get_or-All P [] i h inside = absurd (omega (arith, inside))
get_or-All P (x ∷ xs) zero h inside = h.0
get_or-All P (x ∷ xs) (suc i) h inside = get_or-All P xs i h.1 (omega (arith, inside))

get_or-branches :
    (k i : ℕ) (shards : List Bytes) (tree : List (List Bytes))
    → i < length shards
    → get_or (branches k shards tree) i [] ≡ branch (k + i) tree
get_or-branches k i [] tree inside = absurd (omega (arith, inside))
get_or-branches k zero (s ∷ shards) tree inside = let e : k + 0 ≡ k = omega arith in rw e refl
get_or-branches k (suc i) (s ∷ shards) tree inside =
    let e : k + suc i ≡ suc k + i = omega arith in
    rw e (get_or-branches (suc k) i shards tree (omega (arith, inside)))

-- A store that make_stores makes.
make_stores-at :
    (instance_id root : Bytes) (k i : ℕ) (shards : List Bytes) (brs : List (List Bytes))
    (store : Store)
    → get_elem? (make_stores instance_id root k shards brs) i ≡ some store
    → (i < length shards)
      × (store ≡ record {
        instance_digest = instance_id;
        root = root;
        index = pos (k + i);
        shard = get_or shards i [];
        siblings = get_or brs (k + i) [];
      })
make_stores-at instance_id root k i [] brs store e = cc e
make_stores-at instance_id root k zero (s ∷ shards) brs store e =
    let z : k + 0 ≡ k = omega arith in (omega arith, rw z (cc e))
make_stores-at instance_id root k (suc i) (s ∷ shards) brs store e =
    let z : k + suc i ≡ suc k + i = omega arith in
    let (inside, same) = make_stores-at instance_id root (suc k) i shards brs store e in
    (omega (arith, inside), rw z same)

none-Agrees : (shards : List Bytes) → Agrees (replicate (length shards) none) shards
unfolding Agrees
none-Agrees [] = tt
none-Agrees (s ∷ shards) = none-Agrees shards

none-present : (n : ℕ) → present (replicate n none) ≡ 0
none-present zero = refl
none-present (suc n) = none-present n

none-free : (n j : ℕ) → get_or (replicate {A = Option Bytes} n none) j none ≡ none
none-free zero j = refl
none-free (suc n) zero = refl
none-free (suc n) (suc j) = none-free n j

none-Placed : (shards : List Bytes) → Placed shards [] (replicate (length shards) none)
none-Placed shards = record {
  agrees = none-Agrees shards;
  size = length-replicate (length shards) none;
  counted = sym (none-present (length shards));
  free = λ j out. none-free (length shards) j;
}

Fresh-nil : (others : List ℤ) → Fresh [] others
unfolding member
Fresh-nil [] = tt
Fresh-nil (x ∷ others) = (refl, Fresh-nil others)

sibling-branch :
    (sha256 : Bytes → Bytes) (instance_id : Bytes) (shards : List Bytes) (i : ℕ)
    → i < length shards
    → get_or (build_tree sha256 instance_id shards).1 i []
      ≡ branch i (levels sha256 (length shards) (leaves sha256 instance_id 0 shards))
unfolding build_tree
sibling-branch sha256 instance_id shards i inside =
    let z : 0 + i ≡ i = omega arith in
    let tree = levels sha256 (length shards) (leaves sha256 instance_id 0 shards) in
    get_or-branches 0 i shards tree inside ∙ ap (λ m. branch m tree) z

module _ (rs : ReedSolomon) (law : IsReedSolomon rs) (sha256 : Bytes → Bytes)
    (digest_size : (x : Bytes) → length (sha256 x) ≡ 32) (data_shards shard_bytes maximum : ℕ) where
  -- A store of the encoded payload is the store of its index.
  store-IsStoreOf :
      (instance_id : Bytes) (shards : List Bytes) (store : Store) (i : ℕ)
      → get_elem?
          (make_stores instance_id
            (build_tree sha256 instance_id shards).0
            0
            shards
            (build_tree sha256 instance_id shards).1)
          i
        ≡ some store
      → (j : ℕ) × (j < length shards) × (store ≡ store_at sha256 digest_size instance_id shards j)
  store-IsStoreOf instance_id shards store i e =
      let z : 0 + i ≡ i = omega arith in
      let (inside, same) = make_stores-at instance_id _ 0 i shards _ store e in
      (i, inside, rw (← sibling-branch sha256 instance_id shards i inside) (rw z at same))

  given_stores :
      (instance_id : Bytes) (shards : List Bytes) (given : List Store) (stores : List Store)
      → given
        ≡ make_stores instance_id
            (build_tree sha256 instance_id shards).0
            0
            shards
            (build_tree sha256 instance_id shards).1
      → All (λ s. (i : ℕ) × (get_elem? given i ≡ some s)) stores
      → All
          (λ s.
            (j : ℕ) × (j < length shards) × (s ≡ store_at sha256 digest_size instance_id shards j))
          stores
  given_stores instance_id shards given [] made h = tt
  given_stores instance_id shards given (s ∷ stores) made h = (
    store-IsStoreOf instance_id shards s h.0.0 (ap (λ g. get_elem? g h.0.0) (sym made) ∙ h.0.1),
    given_stores instance_id shards given stores made h.1,
  )

  length-root :
      (instance_id : Bytes) (shards : List Bytes)
      → 1 ≤ length shards
      → length (build_tree sha256 instance_id shards).0 ≡ 32
  unfolding build_tree
  length-root instance_id shards some_shard =
      top-Sized sha256 digest_size (length shards) (leaves sha256 instance_id 0 shards)
        (omega (arith, length-leaves sha256 digest_size instance_id 0 shards, some_shard))
        (leaves-Sized sha256 digest_size instance_id 0 shards)

  -- A recovery whose steps all succeed.
  recover-steps :
      (lock : Lock) (stores : List Store) (total_shards : ℕ) (binding_check : Bytes → Bool)
      (payload packed : Bytes) (encoded : Encoded) (seen : List ℤ) (received : List (Option Bytes))
      → length lock.instance_digest ≡ 32
      → length lock.root ≡ 32
      → 1 ≤ data_shards
      → data_shards ≤ total_shards
      → 1 ≤ shard_bytes
      → 1 ≤ maximum
      → data_shards ≤ length stores
      → place sha256 lock total_shards shard_bytes stores [] (replicate total_shards none)
        ≡ some (seen, received)
      → data_shards ≤ length seen
      → erasure_decode rs received data_shards ≡ some packed
      → unpack packed maximum ≡ some payload
      → encode_sized rs sha256 lock.instance_digest payload data_shards total_shards shard_bytes
          maximum
        ≡ some encoded
      → encoded.root ≡ lock.root
      → binding_check payload ≡ true
      → recover rs sha256
          (some lock)
          stores
          data_shards
          total_shards
          shard_bytes
          maximum
          binding_check
        ≡ some payload
  unfolding recover
  recover-steps lock stores total_shards binding_check payload packed encoded seen received i r d t
        b m e places enough decodes unpacks encodes root bound =
      let valid : (not (length lock.instance_digest == 32)
            || not (length lock.root == 32)
            || data_shards == 0
            || ltb total_shards data_shards
            || shard_bytes == 0
            || maximum == 0
            || ltb (length stores) data_shards)
          ≡ false =
        ground arith in
      rw (valid, places)
        (rw
          (
            le→leb data_shards (length seen) enough,
            decodes,
            unpacks,
            encodes,
            root,
            beq_refl lock.root,
            bound,
          )
          refl)

  -- When SHA-256 digests have 32 bytes, there are at most 256 shards, Reed-Solomon decodes up to
  -- that many, and the payload limit is a Go int: from any stores of a dispersed payload, at
  -- distinct indices and as many as there are data shards, cvRecoverAPDBScalar returns the
  -- payload under a lock with its root, if the payload passes the binding check.
  pub recovers_dispersed :
      (lock : Lock) (payload : Bytes) (total_shards : ℕ) (encoded : Encoded) (stores : List Store)
      (binding_check : Bytes → Bool)
      → total_shards ≤ max_gf8_shards
      → maximum ≤ max_int
      → encode_sized rs sha256 lock.instance_digest payload data_shards total_shards shard_bytes
          maximum
        ≡ some encoded
      → encoded.root ≡ lock.root
      → All (λ s. (i : ℕ) × (get_elem? encoded.stores i ≡ some s)) stores
      → Distinct (indices stores)
      → data_shards ≤ length stores
      → binding_check payload ≡ true
      → recover rs sha256
          (some lock)
          stores
          data_shards
          total_shards
          shard_bytes
          maximum
          binding_check
        ≡ some payload
  recovers_dispersed lock payload total_shards encoded stores binding_check few small encodes root
        known distinct enough bound =
      let d =
        encode_sized-Dispersed rs sha256 lock.instance_digest payload data_shards total_shards
          shard_bytes maximum encoded encodes in
      let root' : (build_tree sha256 lock.instance_digest d.shards).0 ≡ lock.root =
        d.root_eq ∙ root in
      let root_size : length lock.root ≡ 32 =
        ap length (sym root')
        ∙ length-root lock.instance_digest d.shards
            (omega (arith, d.count, d.some_data, d.few_data)) in
      let filled = length-pack payload data_shards shard_bytes d.fits in
      let all_sized =
        erasure_encode-All rs data_shards total_shards shard_bytes
          (pack payload data_shards shard_bytes) d.shards law d.some_data d.few_data few
          d.some_shard_byte filled d.coded in
      let sized : (i : ℕ) → i < length d.shards → length (get_or d.shards i []) ≡ shard_bytes =
        λ i inside. get_or-All (λ s. length s ≡ shard_bytes) d.shards i all_sized inside in
      let p =
        place-PlacedAll sha256 digest_size lock d.shards shard_bytes d.instance_size root'
          d.some_shard_byte sized stores [] (replicate (length d.shards) none)
          (given_stores lock.instance_digest d.shards encoded.stores stores d.stores_eq known)
          distinct (Fresh-nil (indices stores)) (none-Placed d.shards) in
      let places =
        subst
          (λ n.
            place sha256 lock n shard_bytes stores [] (replicate n none)
            ≡ some (p.seen', p.received'))
          d.count p.places in
      let decodes =
        erasure_decode-erasure_encode rs data_shards total_shards shard_bytes
          (pack payload data_shards shard_bytes) d.shards p.received' law d.some_data d.few_data few
          d.some_shard_byte filled d.count d.coded p.placed.agrees
          (omega (arith, p.placed.counted, p.grown, enough)) in
      recover-steps lock stores total_shards binding_check payload
        (pack payload data_shards shard_bytes) encoded p.seen' p.received' d.instance_size root_size
        d.some_data d.few_data d.some_shard_byte (omega (arith, d.bounded, d.some_byte)) enough
        places (omega (arith, p.grown, enough)) decodes
        (unpack-pack payload data_shards shard_bytes maximum d.fits d.some_byte d.bounded small)
        encodes root bound
