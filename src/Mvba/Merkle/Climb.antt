-- ===== src/Mvba/Merkle/Climb.antt =====
-- The loop of buildMerkle: every path leads from its leaf to the node of the level it has come to.
use arladkr_practicaladkr.Prelude.{
  ℕ, zero, suc, ◌+◌, ◌-◌, ◌*◌, ◌/◌, ◌%◌, ◌≤◌, ◌<◌, ◌≡◌, refl, sym, ◌∙◌, ap, inl, inr, List, [], ◌∷◌,
  map, arith, leb, leb→le, ◌==◌, length, get_or, Bool-cases,
}
use arladkr_practicaladkr.Prelude.Bytes.{Bytes}
use arladkr_practicaladkr.Tree.{pad, pair_up, follow}
use arladkr_practicaladkr.Tree.Levels.{
  get_or-pad, length-pad, length-pair_up, get_or-pair_up, follow-append,
}
use arladkr_practicaladkr.Mvba.Merkle.{node_hash, sibling, extend, climb}

module _ (sha256 : Bytes → Bytes) where
  -- A path leads from its leaf to its node.
  abbrev pub Leads : List Bytes → Bytes → ℕ → ℕ × List Bytes → Type 0
  Leads level leaf i path =
      (follow (node_hash sha256) leaf i path.1 ≡ (get_or level path.0 [], path.0))
      × (path.0 < length level)

  -- One step up.
  follow-step :
      (level : List Bytes) (pos : ℕ)
      → pos < length level
      → follow
          (node_hash sha256)
          (get_or level pos [])
          pos
          (get_or (pad level) (sibling (pad level) pos) [] ∷ [])
        ≡ (get_or (pair_up (node_hash sha256) (pad level)) (pos / 2) [], pos / 2)
  unfolding follow
  follow-step level pos h =
      let size = length-pad level in
      let own = get_or-pad level pos h in
      let above =
        get_or-pair_up (node_hash sha256) (pad level) (pos / 2) (omega (arith, size, h)) in
      elim (Bool-cases (pos % 2 == 0)) [
        | inl even ↦
            let s : sibling (pad level) pos ≡ pos + 1 = ground (arith, size) in
            let l : 2 * (pos / 2) ≡ pos = ground arith in
            rw (s, even) (ap (λ v. (v, pos / 2)) (sym (above ∙ rw (l, own) refl)))
        | inr odd ↦
            let s : sibling (pad level) pos ≡ pos - 1 = ground (arith, size) in
            let l : 2 * (pos / 2) ≡ pos - 1 = ground arith in
            let r : 2 * (pos / 2) + 1 ≡ pos = ground arith in
            rw (s, odd) (ap (λ v. (v, pos / 2)) (sym (above ∙ rw (r, l, own) refl)))
      ]

  extend-Leads :
      (level : List Bytes) (leaf : Bytes) (i pos : ℕ) (siblings : List Bytes)
      → Leads level leaf i (pos, siblings)
      → Leads (pair_up (node_hash sha256) (pad level)) leaf i (extend (pad level) (pos, siblings))
  extend-Leads level leaf i pos siblings (e, h) = (
    follow-append (node_hash sha256) leaf i siblings
          (get_or (pad level) (sibling (pad level) pos) [])
        ∙ rw e (follow-step level pos h),
    omega (arith, h, length-pair_up (node_hash sha256) (pad level), length-pad level),
  )

  -- Every path leads from its leaf, counted from i, to a node of the level.
  unfoldable pub AllLead : List Bytes → ℕ → List Bytes → List (ℕ × List Bytes) → Type 0
  AllLead level i [] [] = Unit {0}
  AllLead level i (leaf ∷ leaves) (path ∷ paths) =
      Leads level leaf i path × AllLead level (suc i) leaves paths
  AllLead level i [] (path ∷ paths) = ⊥
  AllLead level i (leaf ∷ leaves) [] = ⊥

  extend-AllLead :
      (level : List Bytes) (i : ℕ) (leaves : List Bytes) (paths : List (ℕ × List Bytes))
      → AllLead level i leaves paths
      → AllLead (pair_up (node_hash sha256) (pad level)) i leaves (map (extend (pad level)) paths)
  unfolding AllLead
  extend-AllLead level i [] [] h = tt
  extend-AllLead level i (leaf ∷ leaves) ((pos, siblings) ∷ paths) h =
      (extend-Leads level leaf i pos siblings h.0, extend-AllLead level (suc i) leaves paths h.1)
  extend-AllLead level i [] (path ∷ paths) h = absurd h
  extend-AllLead level i (leaf ∷ leaves) [] h = absurd h

  pub climb-AllLead :
      (fuel : ℕ) (level : List Bytes) (i : ℕ) (leaves : List Bytes) (paths : List (ℕ × List Bytes))
      → AllLead level i leaves paths
      → AllLead (climb sha256 fuel level paths).0 i leaves (climb sha256 fuel level paths).1
  unfolding climb
  climb-AllLead zero level i leaves paths h = h
  climb-AllLead (suc fuel) level i leaves paths h = elim (Bool-cases (leb (length level) 1)) [
    | inl done ↦ rw (done, climb) h
    | inr more ↦
        rw (more, climb)
          (climb-AllLead fuel (pair_up (node_hash sha256) (pad level)) i leaves
            (map (extend (pad level)) paths) (extend-AllLead level i leaves paths h))
  ]

  -- Enough fuel leaves one node.
  pub length-climb :
      (fuel : ℕ) (level : List Bytes) (paths : List (ℕ × List Bytes))
      → length level ≤ fuel + 1
      → length (climb sha256 fuel level paths).0 ≤ 1
  unfolding climb
  length-climb zero level paths h = omega arith
  length-climb (suc fuel) level paths h = elim (Bool-cases (leb (length level) 1)) [
    | inl done ↦ rw (done, climb) (leb→le (length level) 1 done)
    | inr more ↦
        rw (more, climb)
          (length-climb fuel (pair_up (node_hash sha256) (pad level))
            (map (extend (pad level)) paths)
            (ground (arith, length-pair_up (node_hash sha256) (pad level), length-pad level)))
  ]
