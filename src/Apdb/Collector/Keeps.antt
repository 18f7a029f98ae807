-- ===== src/Apdb/Collector/Keeps.antt =====
-- What a collector keeps, whatever order answers come in and however workers interleave.
use mathlib.Core.Path.{subst}
use arladkr_practicaladkr.Prelude.{
  ℕ, ◌≡◌, refl, ◌∙◌, ap, inl, inr, Bool, not, ◌&&◌, none, some, List, [], ◌∷◌, leb, ◌==◌, length,
  Option-cases, Bool-cases, some-inj, ==_iff, guard->>, >>=-eq-some,
}
use arladkr_practicaladkr.Prelude.Int.{ℤ, pos, eqb_ℤ}
use arladkr_practicaladkr.Prelude.Bytes.{Bytes, beq, beq→eq}
use arladkr_practicaladkr.Apdb.Store.{Store, decode_store}
use arladkr_practicaladkr.Apdb.Code.{ReedSolomon, Encoded, encode_sized, recover}
use arladkr_practicaladkr.Apdb.Code.Recovery.{Recovered, recover-Recovered}
use arladkr_practicaladkr.Apdb.Collector.{
  Collector, total_shards, member_index, lookup, add_decoded_store, add_store, PayloadResponse,
  commit_payload, ordered_stores, recover_with_source,
}

-- The sections that run under the mutex, or alone.
pub data Section : Type 0 where
  store_came : ℤ → Bytes → Section
  payload_checked : PayloadResponse → Section
  payload_committed : Bool → PayloadResponse → Section

module _ (rs : ReedSolomon) (sha256 : Bytes → Bytes) where
  -- The state after a section; an error leaves it as it was.
  unfoldable pub after : Section → Collector → Collector
  after (store_came from wire) c = elim (add_store sha256 from wire c) [
    | none ↦ c
    | some (c', enough) ↦ c'
  ]
  after (payload_checked response) c = c
  after (payload_committed hints response) c = elim (commit_payload rs sha256 hints response c) [
    | none ↦ c
    | some c' ↦ c'
  ]

  unfoldable pub after_all : List Section → Collector → Collector
  after_all [] c = c
  after_all (s ∷ sections) c = after_all sections (after s c)

  -- A payload that is kept has the root of the lock.
  pub record IsCollector (c : Collector) : Type 0 where
    pub payload_root :
        (p : Bytes)
        → c.payload ≡ some p
        → (encoded : Encoded) × (encode_sized rs sha256 c.lock.instance_digest p c.data_shards
              (total_shards c)
              c.shard_bytes
              c.maximum_payload
            ≡ some encoded)
          × (encoded.root ≡ c.lock.root)

  -- What no section changes.
  pub record Keeps (c c' : Collector) : Type 0 where
    pub lock : c'.lock ≡ c.lock
    pub roster : c'.old_roster ≡ c.old_roster
    pub payload : (p : Bytes) → c.payload ≡ some p → c'.payload ≡ some p
    pub wires :
        (i : ℕ) (w : Bytes) → lookup i c.store_wires ≡ some w → lookup i c'.store_wires ≡ some w
    pub valid : IsCollector c → IsCollector c'

  Keeps-refl : (c : Collector) → Keeps c c
  Keeps-refl c = record {
    lock = refl;
    roster = refl;
    payload = λ p h. h;
    wires = λ i w h. h;
    valid = λ v. v;
  }

  Keeps-trans : (a b c : Collector) → Keeps a b → Keeps b c → Keeps a c
  Keeps-trans a b c h k = record {
    lock = k.lock ∙ h.lock;
    roster = k.roster ∙ h.roster;
    payload = λ p e. k.payload p (h.payload p e);
    wires = λ i w e. k.wires i w (h.wires i w e);
    valid = λ v. k.valid (h.valid v);
  }

  lookup-cons :
      {A : Type 0} (i j : ℕ) (a b : A) (entries : List (ℕ × A))
      → lookup j entries ≡ none
      → lookup i entries ≡ some a
      → lookup i ((j, b) ∷ entries) ≡ some a
  unfolding lookup
  lookup-cons i j a b entries new old = elim (Bool-cases (j == i)) [
    | inl same ↦ let e : j ≡ i = (==_iff j i).0 same in cc (ap (λ k. lookup k entries) e, new, old)
    | inr other ↦ rw other old
  ]

  add_decoded_store-Keeps :
      (from : ℤ) (store : Store) (wire : Bytes) (c c' : Collector) (enough : Bool)
      → add_decoded_store from store wire c ≡ some (c', enough)
      → Keeps c c'
  unfolding add_decoded_store
  add_decoded_store-Keeps from store wire c c' enough e =
      let (nonempty, k1) = guard->> (not (length wire == 0)) _ e in
      let (index, is_member, k2) = >>=-eq-some (member_index from 0 c.old_roster) _ k1 in
      let (expected, k3) =
        guard->>
          (eqb_ℤ store.index (pos index)
            && beq store.instance_digest c.lock.instance_digest
            && beq store.root c.lock.root)
          _ k2 in
      elim (Option-cases (lookup index c.store_wires)) [
        | inl new ↦
            let same =
              ap (λ (r : Collector × Bool). r.0) (some-inj _ (c', enough) (rw new at k3)) in
            subst (Keeps c) same (record {
              lock = refl;
              roster = refl;
              payload = λ p h. h;
              wires = λ i w h. lookup-cons i index w wire c.store_wires new h;
              valid = λ v. record { payload_root = v.payload_root };
            })
        | inr (previous, old) ↦ elim (Bool-cases (beq previous wire)) [
          | inl equal ↦
              let same =
                ap (λ (r : Collector × Bool). r.0)
                  (some-inj _ (c', enough) (rw (old, equal) at k3)) in
              subst (Keeps c) same (Keeps-refl c)
          | inr conflict ↦ cc (rw (old, conflict) at k3)
        ]
      ]

  add_store-Keeps :
      (from : ℤ) (wire : Bytes) (c c' : Collector) (enough : Bool)
      → add_store sha256 from wire c ≡ some (c', enough)
      → Keeps c c'
  unfolding add_store
  add_store-Keeps from wire c c' enough e =
      let (store, decoded, k1) =
        >>=-eq-some (decode_store sha256 (total_shards c) c.shard_bytes wire) _ e in
      add_decoded_store-Keeps from store wire c c' enough k1

  commit_payload-Keeps :
      (hints_enabled : Bool) (response : PayloadResponse) (c c' : Collector)
      → commit_payload rs sha256 hints_enabled response c ≡ some c'
      → Keeps c c'
  unfolding commit_payload
  commit_payload-Keeps hints_enabled response c c' e =
      let (encoded, encodes, k1) =
        >>=-eq-some
          (encode_sized rs sha256 c.lock.instance_digest response.payload c.data_shards
            (total_shards c) c.shard_bytes c.maximum_payload)
          _ e in
      let (root, k2) = guard->> (beq encoded.root c.lock.root) _ k1 in
      elim (Option-cases c.payload) [
        | inl free ↦ subst (Keeps c) (some-inj _ c' (rw free at k2)) (record {
          lock = refl;
          roster = refl;
          payload = λ p h. cc (h, free);
          wires = λ i w h. h;
          valid = λ v. record {
            payload_root = λ p h. (
              encoded,
              subst
                  (λ q.
                    encode_sized rs sha256 c.lock.instance_digest q c.data_shards (total_shards c)
                      c.shard_bytes c.maximum_payload
                    ≡ some encoded)
                  (some-inj response.payload p h) encodes,
              beq→eq encoded.root c.lock.root root,
            );
          };
        })
        | inr (p, kept) ↦ elim (Bool-cases (beq p response.payload)) [
          | inl equal ↦ subst (Keeps c) (some-inj c c' (rw (kept, equal) at k2)) (Keeps-refl c)
          | inr conflict ↦ cc (rw (kept, conflict) at k2)
        ]
      ]

  after-Keeps : (s : Section) (c : Collector) → Keeps c (after s c)
  unfolding after
  after-Keeps (store_came from wire) c = elim (Option-cases (add_store sha256 from wire c)) [
    | inl refused ↦ rw (refused, after) (Keeps-refl c)
    | inr (r, taken) ↦ rw (taken, after) (add_store-Keeps from wire c r.0 r.1 taken)
  ]
  after-Keeps (payload_checked response) c = Keeps-refl c
  after-Keeps (payload_committed hints response) c =
      elim (Option-cases (commit_payload rs sha256 hints response c)) [
        | inl refused ↦ rw (refused, after) (Keeps-refl c)
        | inr (c', taken) ↦ rw (taken, after) (commit_payload-Keeps hints response c c' taken)
      ]

  -- For any order of sections: a wire that is kept for a holder stays, a payload that is kept
  -- stays, the lock and the roster stay, and if a payload kept before has the root of the lock,
  -- so has a payload kept after.
  pub after_all-Keeps : (sections : List Section) (c : Collector) → Keeps c (after_all sections c)
  unfolding after_all
  after_all-Keeps [] c = Keeps-refl c
  after_all-Keeps (s ∷ sections) c =
      Keeps-trans c (after s c) (after_all sections (after s c)) (after-Keeps s c)
        (after_all-Keeps sections (after s c))

  -- Whether the payload came whole or from stores: what recoverWithSource returns passes the binding
  -- check, and its dispersal has the root of the lock.
  recover_with_source-Recovered :
      (c : Collector) (p : Bytes) (whole : Bool)
      → IsCollector c
      → recover_with_source rs sha256 c ≡ some (p, whole)
      → Recovered rs sha256 c.lock c.data_shards
          (total_shards c)
          c.shard_bytes
          c.maximum_payload
          c.binding_check
          p
  unfolding recover_with_source
  recover_with_source-Recovered c p whole v e = elim (Option-cases c.payload) [
    | inl absent ↦
        let (enough, k1) = guard->> (leb c.data_shards (length c.stores)) _ (rw absent at e) in
        let (recovered, found, k2) =
          >>=-eq-some
            (recover rs sha256 (some c.lock) (ordered_stores 0 (total_shards c) c.stores)
              c.data_shards (total_shards c) c.shard_bytes c.maximum_payload c.binding_check)
            _ k1 in
        let same : recovered ≡ p = ap (λ (r : Bytes × Bool). r.0) (some-inj _ (p, whole) k2) in
        recover-Recovered rs sha256 c.data_shards (total_shards c) c.shard_bytes c.maximum_payload
          c.lock (ordered_stores 0 (total_shards c) c.stores) c.binding_check p
          (found ∙ ap some same)
    | inr (kept, present) ↦ elim (Bool-cases (c.binding_check kept)) [
      | inl passes ↦
          let same : kept ≡ p =
            ap (λ (r : Bytes × Bool). r.0) (some-inj _ (p, whole) (rw (present, passes) at e)) in
          let (encoded, encodes, root) = v.payload_root kept present in
          subst
            (Recovered rs sha256 c.lock c.data_shards (total_shards c) c.shard_bytes
              c.maximum_payload c.binding_check)
            same (record { encoded = encoded; encodes = encodes; same_root = root; bound = passes })
      | inr fails ↦ cc (rw (present, fails) at e)
    ]
  ]

  -- For a collector that starts without a payload, after any order of sections: what
  -- recoverWithSource returns passes the binding check, its dispersal succeeds with the root of
  -- the lock, and the lock is that of the start.
  pub collector_returns_locked_payload :
      (sections : List Section) (start : Collector) (p : Bytes) (whole : Bool)
      → start.payload ≡ none
      → recover_with_source rs sha256 (after_all sections start) ≡ some (p, whole)
      → (let c = after_all sections start in
          Recovered rs sha256 c.lock c.data_shards
            (total_shards c)
            c.shard_bytes
            c.maximum_payload
            c.binding_check
            p)
        × ((after_all sections start).lock ≡ start.lock)
  collector_returns_locked_payload sections start p whole empty e =
      let keeps = after_all-Keeps sections start in
      (
        recover_with_source-Recovered (after_all sections start) p whole
            (keeps.valid (record { payload_root = λ q h. cc (h, empty) })) e,
        keeps.lock,
      )
