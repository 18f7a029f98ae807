-- ===== src/Leaf/Partition/Covers.antt =====
-- A partition is accepted exactly when it covers the receivers, each one once.
use arladkr_practicaladkr.Prelude.{
  ℕ, zero, suc, ◌+◌, ◌≤◌, ◌<◌, ◌≡◌, ◌↔◌, refl, sym, ap, ◌∙◌, inl, inr, Bool, true, false, not, ◌||◌,
  some, List, [], ◌∷◌, arith, leb, leb→le, le→leb, ◌==◌, ==_iff, length, All, Bool-cases,
  guard-true, guard->>, >>=-eq-some, some-inj, &&-left, &&-right,
}
use arladkr_practicaladkr.Prelude.Int.{ℤ, pos, eqb_ℤ, eqb_ℤ_iff, leb_ℤ, ◌<ℤ◌}
use arladkr_practicaladkr.Prelude.Members.{member}
use arladkr_practicaladkr.Prelude.Ascending.{Above, Above-weaken, Ascending}
use arladkr_practicaladkr.Leaf.Partition.{Partition, check_indices, all_seen, check_partition}

-- What the inner loop has found of a list of indices.
record Checked (total : ℕ) (previous : ℤ) (seen indices : List ℤ) : Type 0 where
  above : Above previous indices
  ascending : Ascending indices
  within : All (λ i. leb_ℤ i (pos total) ≡ true) indices
  fresh : All (λ i. member i seen ≡ false) indices

fresh_still :
    (a : ℤ) (seen indices : List ℤ)
    → All (λ i. member i (a ∷ seen) ≡ false) indices
    → All (λ i. member i seen ≡ false) indices
unfolding member
fresh_still a seen [] h = tt
fresh_still a seen (i ∷ indices) h = (ground (arith, h.0), fresh_still a seen indices h.1)

fresh_behind :
    (a : ℤ) (seen indices : List ℤ)
    → Above a indices
    → All (λ i. member i seen ≡ false) indices
    → All (λ i. member i (a ∷ seen) ≡ false) indices
unfolding member
fresh_behind a seen [] up h = tt
fresh_behind a seen (i ∷ indices) up h =
    (later a i (up.0) (member i seen) (h.0), fresh_behind a seen indices up.1 h.1)
  where
    later : (a i : ℤ) → ◌<ℤ◌ a i → (t : Bool) → t ≡ false → (eqb_ℤ a i || t) ≡ false
    later a i lt t e = ground (arith, eqb_ℤ_iff a i)

refused : ℕ → ℤ → List ℤ → ℤ → Bool
refused total previous seen i = leb_ℤ i previous || not (leb_ℤ i (pos total)) || member i seen

record Passes (total : ℕ) (previous : ℤ) (seen : List ℤ) (i : ℤ) : Type 0 where
  up : ◌<ℤ◌ previous i
  inside : leb_ℤ i (pos total) ≡ true
  new : member i seen ≡ false

refused-Passes :
    (total : ℕ) (previous : ℤ) (seen : List ℤ) (i : ℤ)
    → refused total previous seen i ≡ false
    → Passes total previous seen i
unfolding refused
refused-Passes total previous seen i h = record {
  up = ground (arith, h);
  inside = ground (arith, h);
  new = ground (arith, h);
}

Passes-refused :
    (total : ℕ) (previous : ℤ) (seen : List ℤ) (i : ℤ)
    → Passes total previous seen i
    → refused total previous seen i ≡ false
unfolding refused
Passes-refused total previous seen i p = ground (arith, p.up, p.inside, p.new)

check_indices-Checked :
    (total : ℕ) (previous : ℤ) (seen indices out : List ℤ)
    → check_indices total previous seen indices ≡ some out
    → Checked total previous seen indices
      × ((a : ℤ) → member a out ≡ (member a indices || member a seen))
unfolding check_indices member refused
check_indices-Checked total previous seen [] out h = (
  record { above = tt; ascending = tt; within = tt; fresh = tt },
  λ a. ap (member a) (sym (some-inj seen out h)),
)
check_indices-Checked total previous seen (i ∷ indices) out h =
    elim (Bool-cases (refused total previous seen i)) [
      | inl bad ↦ cc (rw bad at h)
      | inr good ↦
          let p = refused-Passes total previous seen i good in
          let (rest, members) =
            check_indices-Checked total i (i ∷ seen) indices out (rw good at h) in
          (
            record {
              above = (p.up, Above-weaken previous i indices p.up rest.above);
              ascending = (rest.above, rest.ascending);
              within = (p.inside, rest.within);
              fresh = (p.new, fresh_still i seen indices rest.fresh);
            },
            λ a. members a ∙ swap (member a indices) (eqb_ℤ i a) (member a seen),
          )
    ]
  where
    swap : (x y z : Bool) → (x || (y || z)) ≡ ((y || x) || z)
    swap x y z = ground arith

Checked-check_indices :
    (total : ℕ) (previous : ℤ) (seen indices : List ℤ)
    → Checked total previous seen indices
    → (out : List ℤ) × (check_indices total previous seen indices ≡ some out)
unfolding check_indices refused
Checked-check_indices total previous seen [] k = (seen, refl)
Checked-check_indices total previous seen (i ∷ indices) k =
    let good =
      Passes-refused total previous seen i
        (record { up = k.above.0; inside = k.within.0; new = k.fresh.0 }) in
    let (out, e) = Checked-check_indices total i (i ∷ seen) indices (record {
      above = k.ascending.0;
      ascending = k.ascending.1;
      within = k.within.1;
      fresh = fresh_behind i seen indices k.ascending.0 k.fresh.1;
    }) in
    (out, rw good e)

all_seen_iff :
    (left index : ℕ) (seen : List ℤ)
    → (all_seen left index seen ≡ true)
      ↔ ((k : ℕ) → index ≤ k → k < index + left → member (pos k) seen ≡ true)
unfolding all_seen
all_seen_iff zero index seen = (λ h k ge lt. absurd (omega (arith, ge, lt)), λ h. refl)
all_seen_iff (suc left) index seen = (
  λ h k ge lt. elim (Bool-cases (index == k)) [
    | inl same ↦
        let e : index ≡ k = (==_iff index k).0 same in
        rw (← e) (&&-left (member (pos index) seen) _ h)
    | inr other ↦
        (all_seen_iff left (suc index) seen).0 (&&-right (member (pos index) seen) _ h) k
          (ground (arith, other, ge)) (omega (arith, lt))
  ],
  λ h.
      let here = h index (omega arith) (omega arith) in
      let behind =
        (all_seen_iff left (suc index) seen).1
          (λ k ge lt. h k (omega (arith, ge)) (omega (arith, lt))) in
      rw (here, behind) refl,
)

or_false_right : (t : Bool) → (t || false) ≡ t
or_false_right t = ground arith

swap_or : (x y : Bool) → (y || x) ≡ (x || y)
swap_or x y = ground arith

fresh-map :
    (xs ys indices : List ℤ)
    → ((a : ℤ) → member a xs ≡ member a ys)
    → All (λ i. member i xs ≡ false) indices
    → All (λ i. member i ys ≡ false) indices
fresh-map xs ys [] same h = tt
fresh-map xs ys (i ∷ indices) same h = (sym (same i) ∙ h.0, fresh-map xs ys indices same h.1)

-- Ascending indices from 1 to a total.
pub record IsIndices (total : ℕ) (indices : List ℤ) : Type 0 where
  pub positive : Above (pos 0) indices
  pub ascending : Ascending indices
  pub within : All (λ i. leb_ℤ i (pos total) ≡ true) indices

-- Every receiver has one of two parts, and not more than the faulty ones fall back.
pub record IsPartition (total new_faults : ℕ) (acks fallbacks : List ℤ) : Type 0 where
  pub few : length fallbacks ≤ new_faults
  pub sizes : length acks + length fallbacks ≡ total
  pub acks_indices : IsIndices total acks
  pub fallbacks_indices : IsIndices total fallbacks
  pub disjoint : All (λ i. member i acks ≡ false) fallbacks
  pub covers :
      (k : ℕ) → 1 ≤ k → k ≤ total → (member (pos k) acks || member (pos k) fallbacks) ≡ true

abbrev partition_of : List ℤ → List ℤ → Partition
partition_of acks fallbacks = record {
  ack_receiver_indices = acks;
  fallback_receiver_indices = fallbacks;
}

no_member : (i : ℤ) → member i [] ≡ false
unfolding member
no_member i = refl

all_fresh : (indices : List ℤ) → All (λ i. member i [] ≡ false) indices
all_fresh [] = tt
all_fresh (i ∷ indices) = (no_member i, all_fresh indices)

module _ (total new_faults : ℕ) (acks fallbacks : List ℤ) where
  seen_members :
      (seen : List ℤ)
      → ((a : ℤ) → member a seen ≡ (member a acks || member a []))
      → (a : ℤ) → member a seen ≡ member a acks
  unfolding member
  seen_members seen h a = h a ∙ or_false_right (member a acks)

  accepted-IsPartition :
      (u : Unit {0})
      → check_partition total new_faults (partition_of acks fallbacks) ≡ some u
      → IsPartition total new_faults acks fallbacks
  unfolding check_partition
  accepted-IsPartition u h =
      let (few, h1) = guard->> (leb (length fallbacks) new_faults) _ h in
      let (sized, h2) = guard->> (length acks + length fallbacks == total) _ h1 in
      let (seen, first, h3) = >>=-eq-some (check_indices total (pos 0) [] acks) _ h2 in
      let (all, second, h4) = >>=-eq-some (check_indices total (pos 0) seen fallbacks) _ h3 in
      let (a, in_seen) = check_indices-Checked total (pos 0) [] acks seen first in
      let (b, in_all) = check_indices-Checked total (pos 0) seen fallbacks all second in
      let same = seen_members seen in_seen in
      record {
        few = leb→le (length fallbacks) new_faults few;
        sizes = (==_iff (length acks + length fallbacks) total).0 sized;
        acks_indices = record { positive = a.above; ascending = a.ascending; within = a.within };
        fallbacks_indices = record {
          positive = b.above;
          ascending = b.ascending;
          within = b.within;
        };
        disjoint = fresh-map seen acks fallbacks same b.fresh;
        covers = λ k low high.
            sym (
              in_all (pos k)
              ∙ ap (λ t. member (pos k) fallbacks || t) (same (pos k))
              ∙ swap_or (member (pos k) acks) (member (pos k) fallbacks))
            ∙ (all_seen_iff total 1 all).0 (guard-true (all_seen total 1 all) u h4) k low
                (omega (arith, high));
      }

  IsPartition-accepted :
      IsPartition total new_faults acks fallbacks
      → check_partition total new_faults (partition_of acks fallbacks) ≡ some tt
  unfolding check_partition
  IsPartition-accepted p =
      let (seen, first) = Checked-check_indices total (pos 0) [] acks (record {
        above = p.acks_indices.positive;
        ascending = p.acks_indices.ascending;
        within = p.acks_indices.within;
        fresh = all_fresh acks;
      }) in
      let same = seen_members seen (check_indices-Checked total (pos 0) [] acks seen first).1 in
      let (all, second) = Checked-check_indices total (pos 0) seen fallbacks (record {
        above = p.fallbacks_indices.positive;
        ascending = p.fallbacks_indices.ascending;
        within = p.fallbacks_indices.within;
        fresh = fresh-map acks seen fallbacks (λ a. sym (same a)) p.disjoint;
      }) in
      let in_all = (check_indices-Checked total (pos 0) seen fallbacks all second).1 in
      let complete : all_seen total 1 all ≡ true = (all_seen_iff total 1 all).1 (λ k low high.
        in_all (pos k)
        ∙ ap (λ t. member (pos k) fallbacks || t) (same (pos k))
        ∙ swap_or (member (pos k) acks) (member (pos k) fallbacks)
        ∙ p.covers k low (omega (arith, high))) in
      let few = le→leb (length fallbacks) new_faults p.few in
      let sized = (==_iff (length acks + length fallbacks) total).1 p.sizes in
      rw (few, sized, first, second, complete) refl

-- A partition passes its checks exactly when both lists ascend from 1 to the number of receivers,
-- have no index in common, cover every index, and no more receivers fall back than may be faulty.
pub check_partition_iff :
    (total new_faults : ℕ) (acks fallbacks : List ℤ)
    → (check_partition total new_faults
          (record { ack_receiver_indices = acks; fallback_receiver_indices = fallbacks })
        ≡ some tt)
      ↔ IsPartition total new_faults acks fallbacks
check_partition_iff total new_faults acks fallbacks = (
  accepted-IsPartition total new_faults acks fallbacks tt,
  IsPartition-accepted total new_faults acks fallbacks,
)
