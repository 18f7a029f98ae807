-- ===== src/Files.antt =====
-- core/cv_sapvss_store.go: files that are written once. A file system is a list of files by path, the
-- last one linked first; what the system calls answer is an argument.
pub mod WriteOnce
pub mod Keys
use arladkr_practicaladkr.Prelude.{
  ℕ, Bool, true, false, not, ◌&&◌, Option, none, some, List, [], ◌∷◌, if◌then◌else◌,
}
use arladkr_practicaladkr.Prelude.Bytes.{Bytes, beq}

-- The components of a path below the root of a store.
abbrev pub FilePath : Type 0
FilePath = List Bytes

unfoldable pub same_path : FilePath → FilePath → Bool
same_path [] [] = true
same_path (p ∷ ps) (q ∷ qs) = beq p q && same_path ps qs
same_path [] (q ∷ qs) = false
same_path (p ∷ ps) [] = false

-- Whether it is a regular file with permission 0o600, and what it holds.
pub record File : Type 0 where
  pub private_regular : Bool
  pub content : Bytes

abbrev pub FileSystem : Type 0
FileSystem = List (FilePath × File)

unfoldable pub find : FilePath → FileSystem → Option File
find path [] = none
find path ((p, file) ∷ files) =
    let rest = find path files in if same_path p path then some file else rest

pub data ReadResult : Type 0 where
  contents : Bytes → ReadResult
  missing : ReadResult  -- an error for which os.IsNotExist holds
  failed : ReadResult

-- `cvReadImmutableFile`; the first argument says that Lstat or ReadFile fails.
unfoldable pub read_immutable : Bool → FilePath → FileSystem → ReadResult
read_immutable faulty path fs = if faulty then failed else elim (find path fs) [
  | none ↦ missing
  | some file ↦ if file.private_regular then contents file.content else failed
]

-- What the system calls of one cvPutImmutableFile answer: the directory, the first read, the
-- temporary file, the link for another reason than that the path exists, the second read, the sync;
-- and the file that another process links at the path just before.
pub record Calls : Type 0 where
  pub dir_fails : Bool
  pub read_fails : Bool
  pub temporary_fails : Bool
  pub link_fails : Bool
  pub second_read_fails : Bool
  pub sync_fails : Bool
  pub raced : Option File

-- The file system when the link is made.
unfoldable pub after_race : Option File → FilePath → FileSystem → FileSystem
after_race none path fs = fs
after_race (some file) path fs = (path, file) ∷ fs

-- `os.Link` of the temporary file, and what follows when the path exists.
unfoldable pub link_immutable : Calls → FilePath → Bytes → FileSystem → FileSystem × Bool
link_immutable calls path value fs = if calls.link_fails then (fs, false) else elim (find path fs) [
  | none ↦ ((path, record { private_regular = true; content = value }) ∷ fs, not calls.sync_fails)
  | some file ↦ elim (read_immutable calls.second_read_fails path fs) [
    | contents existing ↦ (fs, beq existing value && not calls.sync_fails)
    | missing ↦ (fs, false)
    | failed ↦ (fs, false)
  ]
]

-- `cvPutImmutableFile`: the file system after it, and whether it returned no error.
unfoldable pub put_immutable : Calls → FilePath → Bytes → FileSystem → FileSystem × Bool
put_immutable calls path value fs =
    if calls.dir_fails then (fs, false) else elim (read_immutable calls.read_fails path fs) [
      | contents existing ↦ (fs, beq existing value && not calls.sync_fails)
      | failed ↦ (fs, false)
      | missing ↦
          if calls.temporary_fails
          then (fs, false)
          else link_immutable calls path value (after_race calls.raced path fs)
    ]
