-- ===== src/Tree/Binding.antt =====
-- What the end of a branch commits to, where equal nodes come from equal children unless something
-- else, `Broken`, holds.
use arladkr_practicaladkr.Prelude.{
  ℕ, ◌/◌, ◌%◌, ◌≡◌, sym, ◌∙◌, ap, ◌⊎◌, inl, inr, List, [], ◌∷◌, ◌++◌, arith, ◌==◌, length,
  length-append, take, drop, take-append, drop-append, Bool-cases,
}
use arladkr_practicaladkr.Prelude.Bytes.{Bytes}
use arladkr_practicaladkr.Tree.{join, follow}

-- Two lists that are equal and whose first parts have one length have equal parts.
pub split-left : (a a' b b' : Bytes) → length a ≡ length a' → a ++ b ≡ a' ++ b' → a ≡ a'
split-left a a' b b' same e =
    sym (take-append a b) ∙ ap (take (length a)) e ∙ rw same (take-append a' b')

pub split-right : (a a' b b' : Bytes) → length b ≡ length b' → a ++ b ≡ a' ++ b' → b ≡ b'
split-right a a' b b' same e =
    let fronts : length a ≡ length a' =
      omega (arith, length-append a b, length-append a' b', ap length e, same) in
    sym (drop-append a b) ∙ ap (drop (length a)) e ∙ rw fronts (drop-append a' b')

module _ {Broken : Type 0} (node : Bytes → Bytes → Bytes)
    (node-binds : (l l' r r' : Bytes) → node l r ≡ node l' r' → (l ++ r ≡ l' ++ r') ⊎ Broken)
    (size : ℕ) (node_size : (l r : Bytes) → length (node l r) ≡ size) where
  join-binds :
      (cur cur' : Bytes) (idx : ℕ) (sib sib' : Bytes)
      → length cur ≡ length cur'
      → join node cur idx sib ≡ join node cur' idx sib'
      → (cur ≡ cur') ⊎ Broken
  join-binds cur cur' idx sib sib' same e = elim (Bool-cases (idx % 2 == 0)) [
    | inl even ↦ elim (node-binds cur cur' sib sib' (rw even at e)) [
      | inl equal ↦ inl (split-left cur cur' sib sib' same equal)
      | inr broken ↦ inr broken
    ]
    | inr odd ↦ elim (node-binds sib sib' cur cur' (rw odd at e)) [
      | inl equal ↦ inl (split-right sib sib' cur cur' same equal)
      | inr broken ↦ inr broken
    ]
  ]

  length-join : (cur : Bytes) (idx : ℕ) (sib : Bytes) → length (join node cur idx sib) ≡ size
  length-join cur idx sib = elim (Bool-cases (idx % 2 == 0)) [
    | inl even ↦ rw even (node_size cur sib)
    | inr odd ↦ rw odd (node_size sib cur)
  ]

  pub follow-binds :
      (cur cur' : Bytes) (idx : ℕ) (sibs sibs' : List Bytes)
      → length cur ≡ length cur'
      → length sibs ≡ length sibs'
      → (follow node cur idx sibs).0 ≡ (follow node cur' idx sibs').0
      → (cur ≡ cur') ⊎ Broken
  unfolding follow
  follow-binds cur cur' idx [] [] same depth e = inl e
  follow-binds cur cur' idx [] (s ∷ ss) same depth e = absurd (omega (arith, depth))
  follow-binds cur cur' idx (s ∷ ss) [] same depth e = absurd (omega (arith, depth))
  follow-binds cur cur' idx (s ∷ ss) (s' ∷ ss') same depth e =
      elim (follow-binds (join node cur idx s) (join node cur' idx s') (idx / 2) ss ss'
        (length-join cur idx s ∙ sym (length-join cur' idx s')) (omega (arith, depth)) e) [
          | inl equal ↦ join-binds cur cur' idx s s' same equal
          | inr broken ↦ inr broken
        ]
