-- ===== src/Prelude/Entries.antt =====
-- Go's maps from nodes to bytes as lists of entries.
use Prim.Native.Nat.{suc}
use mathlib.Core.Path.{◌≡◌, refl, ap}
use mathlib.Core.Bool.{true, false}
use mathlib.Core.Logic.{inl, inr}
use mathlib.Core.Option.{Option, none, some}
use mathlib.Core.List.{List, [], ◌∷◌}
use native.Mathlib.Omega.{arith}
use arladkr_practicaladkr.Prelude.Tests.{if◌then◌else◌, Bool-cases, some-inj}
use arladkr_practicaladkr.Prelude.Lists.{length, All}
use arladkr_practicaladkr.Prelude.Int.{ℤ, eqb_ℤ, eqb_ℤ_iff}
use arladkr_practicaladkr.Prelude.Bytes.{Bytes}
use arladkr_practicaladkr.Prelude.Members.{member, Distinct}

-- The value of a node.
unfoldable pub entry : ℤ → List (ℤ × Bytes) → Option Bytes
entry m [] = none
entry m ((n, v) ∷ entries) = let rest = entry m entries in if eqb_ℤ n m then some v else rest

abbrev pub keys : List (ℤ × Bytes) → List ℤ
keys [] = []
keys ((m, v) ∷ entries) = m ∷ keys entries

pub entry-none :
    (m : ℤ) (entries : List (ℤ × Bytes)) → entry m entries ≡ none → member m (keys entries) ≡ false
unfolding entry member
entry-none m [] h = refl
entry-none m ((n, v) ∷ entries) h = elim (Bool-cases (eqb_ℤ n m)) [
  | inl same ↦ cc (rw same at h)
  | inr other ↦ rw other (entry-none m entries (rw other at h))
]

pub entry-some :
    (m : ℤ) (v : Bytes) (entries : List (ℤ × Bytes))
    → entry m entries ≡ some v
    → member m (keys entries) ≡ true
unfolding entry member
entry-some m v [] h = cc
entry-some m v ((n, w) ∷ entries) h = elim (Bool-cases (eqb_ℤ n m)) [
  | inl same ↦ rw same
  | inr other ↦ rw other (entry-some m v entries (rw other at h))
]

pub length-keys : (entries : List (ℤ × Bytes)) → length (keys entries) ≡ length entries
length-keys [] = refl
length-keys ((m, v) ∷ entries) = ap suc (length-keys entries)

pub key-entry :
    (m : ℤ) (entries : List (ℤ × Bytes))
    → member m (keys entries) ≡ true
    → (v : Bytes) × (entry m entries ≡ some v)
unfolding entry member
key-entry m [] h = cc h
key-entry m ((n, w) ∷ entries) h = elim (Bool-cases (eqb_ℤ n m)) [
  | inl same ↦ (w, rw same)
  | inr other ↦ rw other (key-entry m entries (rw other at h))
]

pub entry-All {κ} :
    (P : ℤ × Bytes → Type κ) (m : ℤ) (v : Bytes) (entries : List (ℤ × Bytes))
    → All P entries
    → entry m entries ≡ some v
    → P (m, v)
unfolding entry
entry-All P m v [] h e = cc e
entry-All P m v ((n, w) ∷ entries) h e = elim (Bool-cases (eqb_ℤ n m)) [
  | inl same ↦
      let key : n ≡ m = (eqb_ℤ_iff n m).0 same in
      let value : w ≡ v = some-inj w v (rw same at e) in rw (← key, ← value) (h.0)
  | inr other ↦ entry-All P m v entries h.1 (rw other at e)
]

-- `entries[m] = v`
unfoldable pub put : ℤ → Bytes → List (ℤ × Bytes) → List (ℤ × Bytes)
put m v [] = (m, v) ∷ []
put m v ((n, w) ∷ entries) =
    let rest = put m v entries in if eqb_ℤ n m then (m, v) ∷ entries else (n, w) ∷ rest

member-put :
    (a m : ℤ) (v : Bytes) (entries : List (ℤ × Bytes))
    → member a (keys entries) ≡ false
    → eqb_ℤ m a ≡ false
    → member a (keys (put m v entries)) ≡ false
unfolding put member
member-put a m v [] h e = ground arith
member-put a m v ((n, w) ∷ entries) h e = elim (Bool-cases (eqb_ℤ n m)) [
  | inl same ↦ let key : n ≡ m = (eqb_ℤ_iff n m).0 same in rw same (rw key at h)
  | inr other ↦ rw other (ground (arith, h, member-put a m v entries, e))
]

pub put-Distinct :
    (m : ℤ) (v : Bytes) (entries : List (ℤ × Bytes))
    → Distinct (keys entries)
    → Distinct (keys (put m v entries))
unfolding put
put-Distinct m v [] d = (unfold member in refl, tt)
put-Distinct m v ((n, w) ∷ entries) d = elim (Bool-cases (eqb_ℤ n m)) [
  | inl same ↦ let key : n ≡ m = (eqb_ℤ_iff n m).0 same in rw same (rw key at d)
  | inr other ↦
      rw other (member-put n m v entries d.0 (different n m other), put-Distinct m v entries d.1)
]
  where
    different : (a b : ℤ) → eqb_ℤ a b ≡ false → eqb_ℤ b a ≡ false
    different a b e = ground (arith, eqb_ℤ_iff a b, eqb_ℤ_iff b a)

pub put-All {κ} :
    (P : ℤ × Bytes → Type κ) (m : ℤ) (v : Bytes) (entries : List (ℤ × Bytes))
    → P (m, v)
    → All P entries
    → All P (put m v entries)
unfolding put
put-All P m v [] p h = (p, tt)
put-All P m v ((n, w) ∷ entries) p h = elim (Bool-cases (eqb_ℤ n m)) [
  | inl same ↦ rw same (p, h.1)
  | inr other ↦ rw other (h.0, put-All P m v entries p h.1)
]
