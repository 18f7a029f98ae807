-- ===== src/Util.antt =====
-- core/util.go: hashing of concatenated parts. SHA-256 itself is a parameter, a function on bytes.
use arladkr_practicaladkr.Prelude.{
  ◌≡◌, ◌≢◌, ap, ◌⊎◌, inl, inr, false, List, [], ◌∷◌, ◌++◌, Bool-cases,
}
use arladkr_practicaladkr.Prelude.Bytes.{Bytes, beq, beq→eq, beq_refl}

abbrev pub concat : List Bytes → Bytes
concat [] = []
concat (p ∷ ps) = p ++ concat ps

-- `hashBytes`: the parts are written to one hash, one after the other.
unfoldable pub hash_bytes : (Bytes → Bytes) → List Bytes → Bytes
hash_bytes sha256 parts = sha256 (concat parts)

-- Two inputs on which the hash function collides.
abbrev pub Collision : (Bytes → Bytes) → Type 0
Collision sha256 = (x : Bytes) × (y : Bytes) × (x ≢ y) × (sha256 x ≡ sha256 y)

ne_of_beq : (a b : Bytes) → beq a b ≡ false → a ≢ b
ne_of_beq a b h e = cc (h, ap (beq a) e, beq_refl a)

-- Equal hashes: equal inputs, or a collision.
pub hash_bytes-Collision :
    (sha256 : Bytes → Bytes) (ps qs : List Bytes)
    → hash_bytes sha256 ps ≡ hash_bytes sha256 qs
    → (concat ps ≡ concat qs) ⊎ Collision sha256
unfolding hash_bytes
hash_bytes-Collision sha256 ps qs e = elim (Bool-cases (beq (concat ps) (concat qs))) [
  | inl same ↦ inl (beq→eq (concat ps) (concat qs) same)
  | inr other ↦ inr (concat ps, concat qs, ne_of_beq (concat ps) (concat qs) other, e)
]
