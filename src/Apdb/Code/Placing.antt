-- ===== src/Apdb/Code/Placing.antt =====
-- The loop of cvRecoverAPDBScalar over stores of one dispersal: it places their shards.
use mathlib.Core.Path.{subst}
use arladkr_practicaladkr.Prelude.{
  ℕ, zero, suc, ◌+◌, ◌≤◌, ◌<◌, ◌≡◌, refl, sym, ◌∙◌, ap, false, ◌||◌, Option, none, some, List, [],
  ◌∷◌, arith, ◌==◌, length, get_or, set, length-set, All,
}
use arladkr_practicaladkr.Prelude.Int.{ℤ, pos, eqb_ℤ, eqb_ℤ_iff}
use arladkr_practicaladkr.Prelude.Bytes.{Bytes, beq_refl}
use arladkr_practicaladkr.Prelude.Members.{member, add, Distinct, member-add}
use arladkr_practicaladkr.Apdb.Lock.{Lock}
use arladkr_practicaladkr.Apdb.Store.{Store, build_tree}
use arladkr_practicaladkr.Apdb.Store.Verifies.{store_at, every_store_verifies}
use arladkr_practicaladkr.Apdb.Code.{place}
use arladkr_practicaladkr.Apdb.Code.Shards.{Agrees, present}

Agrees-set :
    (received : List (Option Bytes)) (shards : List Bytes) (i : ℕ)
    → Agrees received shards
    → i < length shards
    → Agrees (set received i (some (get_or shards i []))) shards
unfolding Agrees
Agrees-set [] [] i h inside = absurd (omega (arith, inside))
Agrees-set (none ∷ received) (s ∷ shards) zero h inside = (refl, h)
Agrees-set (some v ∷ received) (s ∷ shards) zero h inside = (refl, h.1)
Agrees-set (none ∷ received) (s ∷ shards) (suc i) h inside =
    Agrees-set received shards i h (omega (arith, inside))
Agrees-set (some v ∷ received) (s ∷ shards) (suc i) h inside =
    (h.0, Agrees-set received shards i h.1 (omega (arith, inside)))
Agrees-set [] (s ∷ shards) i h inside = absurd h
Agrees-set (r ∷ received) [] i h inside = absurd h

present-set :
    (received : List (Option Bytes)) (i : ℕ) (v : Bytes)
    → i < length received
    → get_or received i none ≡ none
    → present (set received i (some v)) ≡ suc (present received)
present-set [] i v inside free = absurd (omega (arith, inside))
present-set (none ∷ received) zero v inside free = refl
present-set (some w ∷ received) zero v inside free = cc free
present-set (none ∷ received) (suc i) v inside free =
    present-set received i v (omega (arith, inside)) free
present-set (some w ∷ received) (suc i) v inside free =
    ap suc (present-set received i v (omega (arith, inside)) free)

get_or-set_other :
    (received : List (Option Bytes)) (i j : ℕ) (v : Option Bytes)
    → (i == j) ≡ false
    → get_or (set received i v) j none ≡ get_or received j none
get_or-set_other [] i j v apart = refl
get_or-set_other (r ∷ received) zero zero v apart = absurd (ground arith)
get_or-set_other (r ∷ received) zero (suc j) v apart = refl
get_or-set_other (r ∷ received) (suc i) zero v apart = refl
get_or-set_other (r ∷ received) (suc i) (suc j) v apart =
    get_or-set_other received i j v (ground arith)

-- The indices seen are those of the shards that are there.
pub record Placed (shards : List Bytes) (seen : List ℤ) (received : List (Option Bytes))
    : Type 0 where
  pub agrees : Agrees received shards
  pub size : length received ≡ length shards
  pub counted : length seen ≡ present received
  pub free : (j : ℕ) → member (pos j) seen ≡ false → get_or received j none ≡ none

abbrev pub indices : List Store → List ℤ
indices [] = []
indices (s ∷ stores) = s.index ∷ indices stores

abbrev pub Fresh : List ℤ → List ℤ → Type 0
Fresh seen = All (λ i. member i seen ≡ false)

Fresh-add :
    (i : ℤ) (seen others : List ℤ)
    → member i others ≡ false
    → Fresh seen others
    → Fresh (add i seen) others
unfolding member
Fresh-add i seen [] new h = tt
Fresh-add i seen (j ∷ others) new h = (
  member-add i j seen ∙ ground (arith, new, h.0, eqb_ℤ_iff i j, eqb_ℤ_iff j i),
  Fresh-add i seen others (ground (arith, new)) h.1,
)

place-one :
    (shards : List Bytes) (seen : List ℤ) (received : List (Option Bytes)) (i : ℕ)
    → i < length shards
    → member (pos i) seen ≡ false
    → Placed shards seen received
    → Placed shards (add (pos i) seen) (set received i (some (get_or shards i [])))
unfolding add
place-one shards seen received i inside new p = record {
  agrees = Agrees-set received shards i p.agrees inside;
  size = length-set received i _ ∙ p.size;
  counted = rw new (
      omega (
        arith,
        p.counted,
        present-set received i (get_or shards i []) (omega (arith, inside, p.size)) (p.free i new),
      ));
  free = λ j out.
      let parts : (eqb_ℤ (pos i) (pos j) || member (pos j) seen) ≡ false =
        sym (member-add (pos i) (pos j) seen) ∙ out in
      get_or-set_other received i j _ (ground (arith, parts)) ∙ p.free j (ground (arith, parts));
}

module _ (sha256 : Bytes → Bytes) (digest_size : (x : Bytes) → length (sha256 x) ≡ 32) (lock : Lock)
    (shards : List Bytes) (shard_bytes : ℕ) (instance_size : length lock.instance_digest ≡ 32)
    (same_root : (build_tree sha256 lock.instance_digest shards).0 ≡ lock.root)
    (positive : 1 ≤ shard_bytes)
    (sized : (i : ℕ) → i < length shards → length (get_or shards i []) ≡ shard_bytes) where
  -- A store of the dispersal.
  abbrev pub IsStoreOf : Store → Type 0
  IsStoreOf store =
      (i : ℕ) × (i < length shards)
      × (store ≡ store_at sha256 digest_size lock.instance_digest shards i)

  pub record PlacedAll (stores : List Store) (seen : List ℤ) (received : List (Option Bytes))
      : Type 0 where
    pub seen' : List ℤ
    pub received' : List (Option Bytes)
    pub places :
        place sha256 lock (length shards) shard_bytes stores seen received ≡ some (seen', received')
    pub placed : Placed shards seen' received'
    pub grown : length seen' ≡ length seen + length stores

  length-add_new :
      (i : ℤ) (seen : List ℤ) → member i seen ≡ false → length (add i seen) ≡ suc (length seen)
  unfolding add
  length-add_new i seen new = rw new refl

  pub place-PlacedAll :
      (stores : List Store) (seen : List ℤ) (received : List (Option Bytes))
      → All IsStoreOf stores
      → Distinct (indices stores)
      → Fresh seen (indices stores)
      → Placed shards seen received
      → PlacedAll stores seen received
  unfolding place
  place-PlacedAll [] seen received known distinct fresh p = record {
    seen' = seen;
    received' = received;
    places = refl;
    placed = p;
    grown = omega arith;
  }
  place-PlacedAll (store ∷ stores) seen received known distinct fresh p =
      let (i, inside, is_store) = known.0 in
      let index : store.index ≡ pos i = ap (λ (s : Store). s.index) is_store in
      let new : member (pos i) seen ≡ false = subst (λ x. member x seen ≡ false) index fresh.0 in
      let apart : member (pos i) (indices stores) ≡ false =
        subst (λ x. member x (indices stores) ≡ false) index distinct.0 in
      let rest =
        place-PlacedAll stores (add (pos i) seen) (set received i (some (get_or shards i [])))
          known.1 distinct.1 (Fresh-add (pos i) seen (indices stores) apart fresh.1)
          (place-one shards seen received i inside new p) in
      let verifies =
        every_store_verifies sha256 digest_size lock.instance_digest shards shard_bytes i
          instance_size inside positive (sized i inside) in
      record {
        seen' = rest.seen';
        received' = rest.received';
        places =
            rw (is_store, beq_refl lock.instance_digest)
              (rw (verifies, same_root, beq_refl lock.root, new) (rest.places));
        placed = rest.placed;
        grown = omega (arith, rest.grown, length-add_new (pos i) seen new);
      }
