-- ===== src/Apdb/Holder/Signs.antt =====
-- A holder signs one store per key, and what it signed it can serve: whatever is written in between,
-- whichever system calls fail and whoever races.
use arladkr_practicaladkr.Prelude.{
  ℕ, ◌≤◌, ◌≡◌, sym, ap, ◌∙◌, inl, inr, true, false, not, ◌&&◌, none, some, List, [], ◌∷◌, arith,
  ◌==◌, length, Bool-cases, Option-cases, guard->>, >>=-eq-some, some-inj, &&-left,
}
use arladkr_practicaladkr.Prelude.Int.{pos, eqb_ℤ, is_neg}
use arladkr_practicaladkr.Prelude.Bytes.{Bytes, beq_refl}
use arladkr_practicaladkr.Wire.{max_uint32}
use arladkr_practicaladkr.Roster.{sorted_unique, equal_ints}
use arladkr_practicaladkr.Files.{
  FilePath, FileSystem, File, find, read_immutable, Calls, put_immutable,
}
use arladkr_practicaladkr.Files.WriteOnce.{Keeps, Keeps-refl, Keeps-trans, put_immutable-Put}
use arladkr_practicaladkr.Apdb.Store.{Store, index_of, verify_store, store_bytes, decode_store}
use arladkr_practicaladkr.Apdb.Store.Layout.{verify_store-IsStore}
use arladkr_practicaladkr.Apdb.Store.RoundTrip.{store_bytes-verified, store_bytes-decodes}
use arladkr_practicaladkr.Apdb.Holder.{
  Signer, holder_path, position, Request, prepare, store_and_sign, read_store,
}

-- A call of StoreAndSignOnce, by any holder of the process, or another file that is written once.
pub data Write : Type 0 where
  stores : ℕ → ℕ → Calls → Request → Write
  writes : Calls → FilePath → Bytes → Write

-- What a request that passes its checks will write.
record Prepared (sha256 : Bytes → Bytes) (total_shards shard_bytes : ℕ) (q : Request)
    (path : FilePath) (wire : Bytes) : Type 0 where
  at_path : holder_path sha256 q.sid q.epoch q.holder q.store.instance_digest ≡ some path
  encoded : store_bytes sha256 total_shards shard_bytes (some q.store) ≡ some wire

module _ (sha256 : Bytes → Bytes) (signer : Signer) where
  unfoldable pub after_write : Write → FileSystem → FileSystem
  after_write (stores total_shards shard_bytes calls q) fs =
      (store_and_sign sha256 signer total_shards shard_bytes calls q fs).0
  after_write (writes calls path value) fs = (put_immutable calls path value fs).0

  unfoldable pub after_writes : List Write → FileSystem → FileSystem
  after_writes [] fs = fs
  after_writes (w ∷ ws) fs = after_writes ws (after_write w fs)

  prepare-Prepared :
      (total_shards shard_bytes : ℕ) (q : Request) (path : FilePath) (wire : Bytes)
      → prepare sha256 signer total_shards shard_bytes q ≡ some (path, wire)
      → Prepared sha256 total_shards shard_bytes q path wire
  unfolding prepare
  prepare-Prepared total_shards shard_bytes q path wire h =
      let (checked, h1) =
        guard->>
          (not (length q.sid == 0)
            && not (q.epoch == 0)
            && not (is_neg q.holder)
            && signer.has_apdb_role
            && signer.can_sign q.holder
            && length q.old_roster == total_shards
            && equal_ints q.old_roster (sorted_unique q.old_roster)
            && equal_ints signer.member_order q.old_roster)
          _ h in
      let (index, found, h2) = >>=-eq-some (position q.holder 0 q.old_roster) _ h1 in
      let (placed, h3) = guard->> (eqb_ℤ q.store.index (pos index)) _ h2 in
      let (w, encoded, h4) =
        >>=-eq-some (store_bytes sha256 total_shards shard_bytes (some q.store)) _ h3 in
      let (p, at_path, h5) =
        >>=-eq-some (holder_path sha256 q.sid q.epoch q.holder q.store.instance_digest) _ h4 in
      let same : (p, w) ≡ (path, wire) = some-inj _ _ h5 in
      record {
        at_path = at_path ∙ ap some (ap (λ (r : FilePath × Bytes). r.0) same);
        encoded = encoded ∙ ap some (ap (λ (r : FilePath × Bytes). r.1) same);
      }

  store_and_sign-Keeps :
      (total_shards shard_bytes : ℕ) (calls : Calls) (q : Request) (fs : FileSystem)
      → Keeps fs (store_and_sign sha256 signer total_shards shard_bytes calls q fs).0
  unfolding store_and_sign
  store_and_sign-Keeps total_shards shard_bytes calls q fs =
      elim (Option-cases (prepare sha256 signer total_shards shard_bytes q)) [
        | inl refused ↦ rw (refused, store_and_sign) (Keeps-refl fs)
        | inr ((path, wire), ok) ↦
            rw (ok, store_and_sign) ((put_immutable-Put calls path wire fs).keeps)
      ]

  after_writes-Keeps : (ws : List Write) (fs : FileSystem) → Keeps fs (after_writes ws fs)
  unfolding after_writes after_write
  after_writes-Keeps [] fs = Keeps-refl fs
  after_writes-Keeps (stores total_shards shard_bytes calls q ∷ ws) fs =
      let fs' = (store_and_sign sha256 signer total_shards shard_bytes calls q fs).0 in
      Keeps-trans fs fs' (after_writes ws fs')
        (store_and_sign-Keeps total_shards shard_bytes calls q fs) (after_writes-Keeps ws fs')
  after_writes-Keeps (writes calls path value ∷ ws) fs =
      let fs' = (put_immutable calls path value fs).0 in
      Keeps-trans fs fs' (after_writes ws fs') (put_immutable-Put calls path value fs).keeps
        (after_writes-Keeps ws fs')

  -- A store that was signed is on disk.
  record OnDisk (total_shards shard_bytes : ℕ) (q : Request) (fs : FileSystem) : Type 0 where
    path : FilePath
    wire : Bytes
    prepared : Prepared sha256 total_shards shard_bytes q path wire
    file : File
    found : find path fs ≡ some file
    private : file.private_regular ≡ true
    holds : file.content ≡ wire

  signed-OnDisk :
      (total_shards shard_bytes : ℕ) (calls : Calls) (q : Request) (fs : FileSystem) (share : Bytes)
      → (store_and_sign sha256 signer total_shards shard_bytes calls q fs).1 ≡ some share
      → OnDisk total_shards shard_bytes q
          (store_and_sign sha256 signer total_shards shard_bytes calls q fs).0
  unfolding store_and_sign
  signed-OnDisk total_shards shard_bytes calls q fs share h =
      elim (Option-cases (prepare sha256 signer total_shards shard_bytes q)) [
        | inl refused ↦ cc (rw (refused, store_and_sign) at h)
        | inr ((path, wire), ok) ↦ elim (Bool-cases (put_immutable calls path wire fs).1) [
          | inl written ↦
              let (file, found, private, holds) =
                (put_immutable-Put calls path wire fs).holds written in
              rw (ok, store_and_sign)
                (record {
                  path = path;
                  wire = wire;
                  prepared = prepare-Prepared total_shards shard_bytes q path wire ok;
                  file = file;
                  found = found;
                  private = private;
                  holds = holds;
                })
          | inr lost ↦ let e : none ≡ some share = rw (ok, store_and_sign, lost) at h in cc e
        ]
      ]

  stays-OnDisk :
      (total_shards shard_bytes : ℕ) (q : Request) (fs fs' : FileSystem)
      → Keeps fs fs'
      → OnDisk total_shards shard_bytes q fs
      → OnDisk total_shards shard_bytes q fs'
  stays-OnDisk total_shards shard_bytes q fs fs' k d = record {
    path = d.path;
    wire = d.wire;
    prepared = d.prepared;
    file = d.file;
    found = k.kept d.path d.file d.found;
    private = d.private;
    holds = d.holds;
  }

  -- Two requests are about one key of the holder's store.
  abbrev pub SameKey : Request → Request → Type 0
  SameKey q q' =
      (q.sid ≡ q'.sid)
      × (q.epoch ≡ q'.epoch)
      × (q.holder ≡ q'.holder)
      × (q.store.instance_digest ≡ q'.store.instance_digest)

  one_store :
      (total_shards shard_bytes : ℕ) (q q' : Request) (fs : FileSystem)
      → total_shards ≤ max_uint32
      → shard_bytes ≤ max_uint32
      → SameKey q q'
      → OnDisk total_shards shard_bytes q fs
      → OnDisk total_shards shard_bytes q' fs
      → q.store ≡ q'.store
  one_store total_shards shard_bytes q q' fs few short (sids, epochs, holders, instances) d d' =
      let path : d.path ≡ d'.path =
        some-inj d.path d'.path
          (sym d.prepared.at_path ∙ rw (sids, epochs, holders, instances) d'.prepared.at_path) in
      let file : d.file ≡ d'.file =
        some-inj d.file d'.file (sym d.found ∙ ap (λ p. find p fs) path ∙ d'.found) in
      let wire : d.wire ≡ d'.wire = sym d.holds ∙ ap File.content file ∙ d'.holds in
      some-inj q.store q'.store (
        sym (
          store_bytes-decodes sha256 total_shards shard_bytes q.store d.wire few short
            d.prepared.encoded)
        ∙ ap (decode_store sha256 total_shards shard_bytes) wire
        ∙ store_bytes-decodes sha256 total_shards shard_bytes q'.store d'.wire few short
            d'.prepared.encoded)

  -- For numbers of shards and of shard bytes that fit 32 bits: two requests under one session,
  -- epoch, holder and instance digest that both get a signature, with any writes between them,
  -- whatever system calls fail and whoever races, are about the same store.
  pub signs_one_store :
      (total_shards shard_bytes : ℕ) (calls calls' : Calls) (q q' : Request) (ws : List Write)
      (fs : FileSystem) (share share' : Bytes)
      → total_shards ≤ max_uint32
      → shard_bytes ≤ max_uint32
      → SameKey q q'
      → (store_and_sign sha256 signer total_shards shard_bytes calls q fs).1 ≡ some share
      → (store_and_sign sha256 signer total_shards shard_bytes calls' q'
          (after_writes ws (store_and_sign sha256 signer total_shards shard_bytes calls q fs).0)).1
        ≡ some share'
      → q.store ≡ q'.store
  signs_one_store total_shards shard_bytes calls calls' q q' ws fs share share' few short same first
        second =
      let fs1 = (store_and_sign sha256 signer total_shards shard_bytes calls q fs).0 in
      let fs2 = after_writes ws fs1 in
      let fs3 = (store_and_sign sha256 signer total_shards shard_bytes calls' q' fs2).0 in
      let kept =
        Keeps-trans fs1 fs2 fs3 (after_writes-Keeps ws fs1)
          (store_and_sign-Keeps total_shards shard_bytes calls' q' fs2) in
      one_store total_shards shard_bytes q q' fs3 few short same
        (stays-OnDisk total_shards shard_bytes q fs1 fs3 kept
          (signed-OnDisk total_shards shard_bytes calls q fs share first))
        (signed-OnDisk total_shards shard_bytes calls' q' fs2 share' second)

  verify_store-size :
      (total_shards shard_bytes : ℕ) (store : Store)
      → verify_store sha256 total_shards shard_bytes (some store) ≡ some tt
      → not (shard_bytes == 0) ≡ true
  unfolding verify_store
  verify_store-size total_shards shard_bytes store h =
      let (digests, h1) =
        guard->> (length store.instance_digest == 32 && length store.root == 32) _ h in
      let (index, inside, h2) = >>=-eq-some (index_of total_shards store.index) _ h1 in
      let (sized, h3) =
        guard->> (not (shard_bytes == 0) && length store.shard == shard_bytes) _ h2 in
      &&-left (not (shard_bytes == 0)) _ sized

  read-OnDisk :
      (total_shards shard_bytes : ℕ) (q : Request) (fs : FileSystem)
      → total_shards ≤ max_uint32
      → shard_bytes ≤ max_uint32
      → OnDisk total_shards shard_bytes q fs
      → read_store sha256 total_shards shard_bytes false q.sid q.epoch q.holder
          q.store.instance_digest q.store.root fs
        ≡ some q.store
  unfolding read_store read_immutable
  read-OnDisk total_shards shard_bytes q fs few short d =
      let verified =
        store_bytes-verified sha256 total_shards shard_bytes q.store d.wire d.prepared.encoded in
      let v = verify_store-IsStore sha256 total_shards shard_bytes q.store verified in
      let sizes : (length q.store.instance_digest == 32
            && length q.store.root == 32
            && not (total_shards == 0)
            && not (shard_bytes == 0))
          ≡ true =
        ground (arith, v, verify_store-size total_shards shard_bytes q.store verified) in
      rw (
        sizes,
        d.prepared.at_path,
        d.found,
        d.private,
        d.holds,
        store_bytes-decodes sha256 total_shards shard_bytes q.store d.wire few short
            d.prepared.encoded,
        beq_refl q.store.instance_digest,
        beq_refl q.store.root,
      )

  -- For numbers of shards and of shard bytes that fit 32 bits: after a request that got a
  -- signature and any writes, a Read under its session, epoch, holder, instance digest and root,
  -- none of whose system calls fails, gives its store.
  pub signed_store_is_read :
      (total_shards shard_bytes : ℕ) (calls : Calls) (q : Request) (ws : List Write)
      (fs : FileSystem) (share : Bytes)
      → total_shards ≤ max_uint32
      → shard_bytes ≤ max_uint32
      → (store_and_sign sha256 signer total_shards shard_bytes calls q fs).1 ≡ some share
      → read_store sha256 total_shards shard_bytes false q.sid q.epoch q.holder
          q.store.instance_digest q.store.root
          (after_writes ws (store_and_sign sha256 signer total_shards shard_bytes calls q fs).0)
        ≡ some q.store
  signed_store_is_read total_shards shard_bytes calls q ws fs share few short signed =
      let fs1 = (store_and_sign sha256 signer total_shards shard_bytes calls q fs).0 in
      read-OnDisk total_shards shard_bytes q (after_writes ws fs1) few short (
        stays-OnDisk total_shards shard_bytes q fs1 (after_writes ws fs1)
          (after_writes-Keeps ws fs1)
          (signed-OnDisk total_shards shard_bytes calls q fs share signed))
