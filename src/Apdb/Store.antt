-- ===== src/Apdb/Store.antt =====
-- core/cv_sapvss_apdb.go: cvAPDBStoreScalar, the shard that one holder keeps, with its branch in the
-- hash tree over all shards. Numbers of shards and bytes are natural numbers.
pub mod Branches
pub mod Verifies
pub mod Commits
pub mod Layout
pub mod RoundTrip
use arladkr_practicaladkr.Prelude.{
  ℕ, zero, suc, ◌+◌, ◌-◌, ◌/◌, ◌%◌, ◌≤◌, Bool, true, false, not, ◌&&◌, ◌||◌, Option, none, some,
  List, [], ◌∷◌, arith, leb, ltb, ◌==◌, if◌then◌else◌, length, get_or, ◌>>=◌, ◌>>◌, guard,
}
use arladkr_practicaladkr.Prelude.Int.{ℤ, pos, negsuc, is_neg, ltb_ℤ}
use arladkr_practicaladkr.Prelude.Bytes.{Bytes, beq}
use arladkr_practicaladkr.Prelude.Text.{codes}
use arladkr_practicaladkr.Util.{hash_bytes}
use arladkr_practicaladkr.Wire.{put_be, write_uint32, write_bytes, read_uint32, read_bytes}
use arladkr_practicaladkr.Wire.Fields.{read_domain, read_digest}
use arladkr_practicaladkr.Tree.{pad, pair_up, join}

-- cvAPDBShardDomain, cvAPDBNodeDomain and cvAPDBStoreWireDomain
unfoldable pub shard_domain : Bytes
shard_domain = codes "ARL-CV-sAPVSS/v2-scalar-group/apdb-shard"

unfoldable pub node_domain : Bytes
node_domain = codes "ARL-CV-sAPVSS/v2-scalar-group/apdb-node"

unfoldable pub store_domain : Bytes
store_domain = codes "ARL-CV-sAPVSS/v2-scalar-group/apdb-store"

pub store_domain-fits : length store_domain ≤ 100
unfolding store_domain
store_domain-fits = omega arith

pub record Store : Type 0 where
  pub instance_digest : Bytes
  pub root : Bytes
  pub index : ℤ
  pub shard : Bytes
  pub siblings : List Bytes

-- The conversion `uint32(x)` of an `int`.
abbrev pub uint32 : ℤ → ℕ
uint32 (pos n) = n % 4294967296
uint32 (negsuc n) = 4294967295 - n % 4294967296

-- `cvAPDBShardHashScalar`
unfoldable pub shard_hash : (Bytes → Bytes) → Bytes → ℤ → Bytes → Bytes
shard_hash sha256 instance_id index shard =
    hash_bytes sha256 (shard_domain ∷ instance_id ∷ put_be 4 (uint32 index) ∷ shard ∷ [])

-- The hash of two nodes, in cvAPDBBuildMerkleScalar and in cvVerifyAPDBStoreScalar.
unfoldable pub tree_hash : (Bytes → Bytes) → Bytes → Bytes → Bytes
tree_hash sha256 l r = hash_bytes sha256 (node_domain ∷ l ∷ r ∷ [])

-- The levels of the tree, the leaves first, on fuel.
unfoldable pub levels : (Bytes → Bytes) → ℕ → List Bytes → List (List Bytes)
levels sha256 zero level = level ∷ []
levels sha256 (suc fuel) level =
    let above = levels sha256 fuel (pair_up (tree_hash sha256) (pad level)) in
    if leb (length level) 1 then level ∷ [] else level ∷ above

-- `index ^ 1`, and the last node where that is past the end.
abbrev pub branch_sibling : List Bytes → ℕ → ℕ
branch_sibling level index =
    let s = if index % 2 == 0 then index + 1 else index - 1 in
    if leb (length level) s then length level - 1 else s

-- The loop over the depths, for one shard.
unfoldable pub branch : ℕ → List (List Bytes) → List Bytes
branch index [] = []
branch index (level ∷ []) = []
branch index (level ∷ above ∷ rest) =
    get_or level (branch_sibling level index) [] ∷ branch (index / 2) (above ∷ rest)

-- `levels[len(levels)-1][0]`
unfoldable pub top : List (List Bytes) → Bytes
top [] = []
top (level ∷ []) = get_or level 0 []
top (level ∷ above ∷ rest) = top (above ∷ rest)

abbrev pub leaves : (Bytes → Bytes) → Bytes → ℕ → List Bytes → List Bytes
leaves sha256 instance_id i [] = []
leaves sha256 instance_id i (shard ∷ shards) =
    shard_hash sha256 instance_id (pos i) shard ∷ leaves sha256 instance_id (suc i) shards

abbrev pub branches : ℕ → List Bytes → List (List Bytes) → List (List Bytes)
branches i [] tree = []
branches i (shard ∷ shards) tree = branch i tree ∷ branches (suc i) shards tree

-- `cvAPDBBuildMerkleScalar`, which is called with at least one shard.
unfoldable pub build_tree : (Bytes → Bytes) → Bytes → List Bytes → Bytes × List (List Bytes)
build_tree sha256 instance_id shards =
    let tree = levels sha256 (length shards) (leaves sha256 instance_id 0 shards) in
    (top tree, branches 0 shards tree)

-- The loop of cvAPDBMerkleDepth, on fuel.
unfoldable pub depth_from : ℕ → ℕ → ℕ
depth_from zero shards = 0
depth_from (suc fuel) shards =
    let rest = depth_from fuel ((shards + 1) / 2) in if leb shards 1 then 0 else rest + 1

-- `cvAPDBMerkleDepth`
abbrev pub merkle_depth : ℕ → ℕ
merkle_depth total_shards = depth_from total_shards total_shards

-- The loop of cvVerifyAPDBStoreScalar over the siblings.
unfoldable pub follow_checked : (Bytes → Bytes) → Bytes → ℕ → List Bytes → Option Bytes
follow_checked sha256 digest index [] = some digest
follow_checked sha256 digest index (sibling ∷ siblings) = do
  guard (length sibling == 32)
  follow_checked sha256 (join (tree_hash sha256) digest index sibling) (index / 2) siblings

-- `store.Index < 0 || store.Index >= totalShards`
abbrev pub index_of : ℕ → ℤ → Option ℕ
index_of total_shards (pos i) = if ltb i total_shards then some i else none
index_of total_shards (negsuc i) = none

-- `cvVerifyAPDBStoreScalar`; an error is none.
unfoldable pub verify_store : (Bytes → Bytes) → ℕ → ℕ → Option Store → Option (Unit {0})
verify_store sha256 total_shards shard_bytes none = none
verify_store sha256 total_shards shard_bytes (some store) = do
  guard (length store.instance_digest == 32 && length store.root == 32)
  index ← index_of total_shards store.index
  guard (not (shard_bytes == 0) && length store.shard == shard_bytes)
  guard (length store.siblings == merkle_depth total_shards)
  let leaf = shard_hash sha256 store.instance_digest store.index store.shard
  digest ← follow_checked sha256 leaf index store.siblings
  guard (beq digest store.root)

-- The loop of cvAPDBStoreScalarCanonicalBytes over the siblings.
unfoldable pub write_siblings : Bytes → List Bytes → Bytes
write_siblings buffer [] = buffer
write_siblings buffer (sibling ∷ siblings) = write_siblings (write_bytes buffer sibling).0 siblings

-- `cvAPDBStoreScalarCanonicalBytes`
unfoldable pub store_bytes : (Bytes → Bytes) → ℕ → ℕ → Option Store → Option Bytes
store_bytes sha256 total_shards shard_bytes none = none
store_bytes sha256 total_shards shard_bytes (some store) = do
  verify_store sha256 total_shards shard_bytes (some store)
  let w1 = (write_bytes [] store_domain).0
  let w2 = (write_bytes w1 store.instance_digest).0
  let w3 = (write_bytes w2 store.root).0
  let (w4, index_fits) = write_uint32 w3 store.index
  guard index_fits
  let w5 = (write_bytes w4 store.shard).0
  let (w6, depth_fits) = write_uint32 w5 (pos (length store.siblings))
  guard depth_fits
  some (write_siblings w6 store.siblings)

-- The loop of cvDecodeAPDBStoreScalar over the siblings.
unfoldable pub read_siblings : ℕ → Bytes → Option (List Bytes × Bytes)
read_siblings zero r = some ([], r)
read_siblings (suc depth) r = do
  (sibling, r1) ← read_digest r
  (siblings, rest) ← read_siblings depth r1
  some (sibling ∷ siblings, rest)

-- `cvDecodeAPDBStoreScalar`
unfoldable pub decode_store : (Bytes → Bytes) → ℕ → ℕ → Bytes → Option Store
decode_store sha256 total_shards shard_bytes wire = do
  r1 ← read_domain store_domain wire
  (instance_id, r2) ← read_digest r1
  (root, r3) ← read_digest r2
  (index, r4) ← read_uint32 r3
  guard (ltb index total_shards)
  (shard, r5) ← read_bytes shard_bytes r4
  guard (length shard == shard_bytes)
  (depth, r6) ← read_uint32 r5
  guard (depth == merkle_depth total_shards)
  (siblings, r7) ← read_siblings depth r6
  guard (length r7 == 0)
  let store : Store = record {
    instance_digest = instance_id;
    root = root;
    index = pos index;
    shard = shard;
    siblings = siblings;
  }
  verify_store sha256 total_shards shard_bytes (some store)
  some store
