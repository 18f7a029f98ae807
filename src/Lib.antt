-- ===== src/Lib.antt =====
-- ARL-ADKR and PracticalADKR: asynchronous distributed key regeneration, in Go.
--
-- A committee of n nodes, of which f may be faulty, hands a shared key to a new committee. Dealers
-- share components of the key; each component's payload is dispersed among the committee (APDB) and
-- gets a lock, a certificate that it can be recovered. A proposer offers a pool of locked
-- components, the members sign it, and an agreement (core/, over the one in
-- experiments/dumbomvba-go) selects what the new key is made of. All messages are canonical wires:
-- a decoder reads the fields, encodes them again and compares.
--
-- Which file models what (paths from the repository's root; a Go error is `none`, a pointer that may
-- be nil an `Option`):
--   Prelude             Boolean tests, lists, Go's int, byte slices, texts, sets of nodes and quorums,
--                       maps from nodes, ascending rosters
--   Util                hashBytes of core/util.go; SHA-256 is a parameter, a function on bytes
--   Wire                cvWriteUint32, cvWriteUint64, cvWriteBytes of core/cv_sapvss.go and
--                       cvWireReader of core/cv_sapvss_m4.go; a buffer is the bytes written, a
--                       reader the bytes left. Wire.Fields: the reads that decoders repeat
--                       Wire.Wrapped: sums of ints that wrap
--   Roster              sortedUnique, filterNodeIDs, equalInts and their kin of core/util.go,
--                       core/config.go and core/cv_sapvss_scalar_keys.go
--   Router              core/cv_sapvss_router.go: Envelope, its codec; Tags; Routing, the constructor,
--                       route and readLoop; Roles: the table of who may send what to whom
--   Files               core/cv_sapvss_store.go: a file system as a list of files by path, and
--                       cvPutImmutableFile with what its system calls answer as an argument; Keys, the
--                       names of the files
--   Sampling            binomial of core/cv_eligibility.go, the failure bounds of
--                       core/cv_sapvss_scalar_params.go and the search for sample sizes of
--                       core/cv_sapvss_sampling_scalar.go; Budget: the texts that stand for a budget.
--                       A big.Rat is a numerator over a denominator, compared crosswise
--   Config              core/config.go: Config, NormalizeConfig (Defaults), ValidateConfig and
--                       validateCVEpochConfig (Checks), with the environment as an argument; Params:
--                       cvDeriveScalarParams and cvProfile; Quorums: what the thresholds are
--   Eligibility         core/cv_eligibility.go: cvEligibilitySampleSize, cvEligibilityProposerSet, the
--                       codec of a coin share, and CollectEligibilityCoin and
--                       handleEligibilityShare as functions on the shares kept; Order: the sort by
--                       digests
--   Leaf                cvLeafContextScalar of core/cv_sapvss_core_scalar.go with its checks, codec and
--                       digest; Partition: core/cv_sapvss_partition_scalar.go
--   Apdb.Lock           cvAPDBLockScalar of core/cv_sapvss_apdb.go: encoder, decoder, instance digest
--   Tree                the parts that the hash trees of the repository share
--   Apdb.Store          cvAPDBStoreScalar of core/cv_sapvss_apdb.go: the tree over the shards, a store
--                       and its check, encoder and decoder
--   Apdb.Code           cvErasureEncode and cvErasureDecode of core/cv_sapvss_m4.go, with Reed-Solomon
--                       as a record that is a parameter, and cvAPDBEncodeScalar,
--                       cvAPDBEncodeSizedScalar and cvRecoverAPDBScalar of core/cv_sapvss_apdb.go
--   Apdb.Collector      cvAPDBRecoveryCollectorScalar of core/cv_sapvss_apdb_recovery.go: the answers
--                       gathered so far; Keeps: what its workers do under the mutex, as steps
--   Apdb.StoredShare, .Holder, .LockCollector
--                       core/cv_sapvss_apdb_store.go and core/cv_sapvss_apdb_service_scalar.go: what a
--                       holder stores, signs once and serves (StoreAndSignOnce, Read and the handlers),
--                       and the collector of its shares with RecoverLock
--   Pool.Share, .Header, .Ref, .Offer, .Certificate, .Slot
--                       core/cv_sapvss_pool.go: the certificate share, the header and the reference
--                       of a component, the pool, its certificate, and the state of a proposer's slot
--                       (observePool, markSigned, observeCertificate)
--   Mvba.Aba            a round of runABA in experiments/dumbomvba-go/core/aba_equivalent.go: the
--                       sets est, aux, conf and bin as a record, sendEST and accept as functions on
--                       it; Stages: what happens between the waits; History: the reachable rounds
--   Mvba.Packing        packValue and unpackValue of the file below, with a panic as a result
--   Mvba.Merkle         buildMerkle and verifyMerkle of
--                       experiments/dumbomvba-go/core/equivalent_utils.go
--   Tests               runs on concrete data
--
-- Integers: a Go int is an integer ℤ, bounded by IsInt where a bound matters; `uint64(x)` keeps its
-- wrap-around. The loop of buildMerkle runs on fuel, as much as there are stripes; a level has at most
-- half the nodes of the padded one below, so that the loop ends with one node; the same holds for the
-- levels of cvAPDBBuildMerkleScalar and the depth that cvAPDBMerkleDepth counts.
--
-- Reed-Solomon is github.com/klauspost/reedsolomon. What it promises is used for at most 256 shards:
-- above, the library pads shards to multiples of 64 bytes. 3f+1 and 2f+1 keep the wrap-around of an int
-- where the code tests them (Wire.Wrapped); a product of sizes of slices is taken as it is.
--
-- Not modelled: the group arithmetic of gnark-crypto and what is made of it in core/, proofs and the
-- threshold signatures of tblsThresholdSigner (where a modelled function calls a signer, it is a
-- parameter), transports, key files, the goroutines that drive the protocols, the benchmark runners, and
-- the scripts.
pub mod Prelude
pub mod Util
pub mod Wire
pub mod Tree
pub mod Roster
pub mod Router
pub mod Files
pub mod Sampling
pub mod Config
pub mod Eligibility
pub mod Leaf
pub mod Apdb
pub mod Pool
pub mod Mvba
pub mod Tests
