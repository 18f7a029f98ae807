-- ===== src/Tests.antt =====
-- Runs of the models on concrete data: a group of four nodes, of which one may be faulty, and a
-- stand-in for SHA-256 that pads to 32 bytes.
pub mod PoolTests
pub mod AbaTests
pub mod MerkleTests
pub mod ApdbTests
pub mod CollectorTests
pub mod PackingTests
pub mod RosterTests
pub mod RouterTests
pub mod FilesTests
pub mod HolderTests
pub mod SamplingTests
pub mod ConfigTests
pub mod EligibilityTests
pub mod LeafTests
use arladkr_practicaladkr.Prelude.{
  ℕ, ◌+◌, ◌≤◌, ◌≡◌, refl, sym, arith, Option, none, some, List, [], ◌∷◌, ◌++◌, length,
  length-append, length-take, length-replicate, take, replicate,
}
use arladkr_practicaladkr.Prelude.Bytes.{Bytes}

-- A function on bytes with 32-byte results.
abbrev pub toy_hash : Bytes → Bytes
toy_hash x = take 32 (x ++ replicate 32 0)

pub length-toy_hash : (x : Bytes) → length (toy_hash x) ≡ 32
length-toy_hash x = omega (
  arith,
  length-take 32 (x ++ replicate 32 0),
  length-append x (replicate {A = ℕ} 32 0),
  length-replicate {A = ℕ} 32 0,
)

abbrev pub get : Option Bytes → Bytes
get none = []
get (some w) = w
