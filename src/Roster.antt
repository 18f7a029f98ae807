-- ===== src/Roster.antt =====
-- core/util.go, core/config.go and core/cv_sapvss_scalar_keys.go: lists of node identifiers. The
-- result of `sort.Ints` is written as an insertion sort.
pub mod Sorted
use arladkr_practicaladkr.Prelude.{
  ℕ, zero, suc, ◌-◌, ◌≡◌, Bool, true, false, not, ◌&&◌, ◌||◌, List, [], ◌∷◌, ◌++◌, leb, ◌==◌,
  if◌then◌else◌, length, take,
}
use arladkr_practicaladkr.Prelude.Int.{ℤ, pos, pos_part, eqb_ℤ, leb_ℤ, is_neg}
use arladkr_practicaladkr.Prelude.Bytes.{Bytes}
use arladkr_practicaladkr.Prelude.Members.{member}
use arladkr_practicaladkr.Wire.{put_be, uint64}

unfoldable pub insert : ℤ → List ℤ → List ℤ
insert a [] = a ∷ []
insert a (x ∷ xs) = let rest = insert a xs in if leb_ℤ a x then a ∷ x ∷ xs else x ∷ rest

-- `sortedCopy`
unfoldable pub sorted_copy : List ℤ → List ℤ
sorted_copy [] = []
sorted_copy (x ∷ xs) = insert x (sorted_copy xs)

-- The loop of sortedUnique once it has appended an identifier, the last of which is given.
unfoldable pub unique_after : ℤ → List ℤ → List ℤ
unique_after last [] = []
unique_after last (id ∷ ids) =
    let rest = unique_after id ids in if eqb_ℤ id last then rest else id ∷ rest

unfoldable pub unique : List ℤ → List ℤ
unique [] = []
unique (id ∷ ids) = id ∷ unique_after id ids

-- `sortedUnique`
unfoldable pub sorted_unique : List ℤ → List ℤ
sorted_unique v = unique (sorted_copy v)

-- `equalInts`
unfoldable pub equal_ints : List ℤ → List ℤ → Bool
equal_ints [] [] = true
equal_ints (x ∷ xs) (y ∷ ys) = eqb_ℤ x y && equal_ints xs ys
equal_ints [] (y ∷ ys) = false
equal_ints (x ∷ xs) [] = false

-- `takeFirst`
unfoldable pub take_first : List ℤ → ℤ → List ℤ
take_first v k = if leb_ℤ k (pos 0) then [] else take (pos_part k) v

-- `encodeInts`
unfoldable pub encode_ints : List ℤ → Bytes
encode_ints [] = []
encode_ints (n ∷ v) = put_be 8 (uint64 n) ++ encode_ints v

-- The loop of filterNodeIDs, with the set of the identifiers seen.
unfoldable pub filter_from : List ℤ → List ℤ → List ℤ → List ℤ
filter_from universe seen [] = []
filter_from universe seen (id ∷ ids) =
    let skipped = filter_from universe seen ids in
    let taken = id ∷ filter_from universe (id ∷ seen) ids in
    if not (member id universe) || member id seen then skipped else taken

-- `filterNodeIDs`
unfoldable pub filter_node_ids : List ℤ → List ℤ → List ℤ
filter_node_ids ids universe =
    if length ids == 0 || length universe == 0
    then []
    else filter_from universe [] (sorted_unique ids)
