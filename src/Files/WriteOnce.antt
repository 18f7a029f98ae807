-- ===== src/Files/WriteOnce.antt =====
-- Write once: a file that is there stays, whatever calls fail and whoever races; a put that succeeds
-- has left its bytes; and without faults a put is that of an abstract write-once map.
use arladkr_practicaladkr.Prelude.{
  ◌≡◌, refl, sym, ap, ◌∙◌, ◌⊎◌, inl, inr, Bool, true, false, not, ◌&&◌, Option, none, some, [], ◌∷◌,
  arith, if◌then◌else◌, Bool-cases, Option-cases, &&-left, some-inj,
}
use arladkr_practicaladkr.Prelude.Bytes.{Bytes, beq, beq→eq, beq_refl}
use arladkr_practicaladkr.Files.{
  FilePath, same_path, File, FileSystem, find, ReadResult, contents, missing, failed,
  read_immutable, Calls, after_race, link_immutable, put_immutable,
}

pub same_path_refl : (p : FilePath) → same_path p p ≡ true
unfolding same_path
same_path_refl [] = refl
same_path_refl (c ∷ p) = ground (arith, beq_refl c, same_path_refl p)

same_path→eq : (p q : FilePath) → same_path p q ≡ true → p ≡ q
unfolding same_path
same_path→eq [] [] h = refl
same_path→eq [] (c ∷ q) h = cc
same_path→eq (c ∷ p) [] h = cc
same_path→eq (c ∷ p) (d ∷ q) h = ground (arith, beq→eq c d, same_path→eq p q)

-- Every file is still there, with the same content.
pub record Keeps (fs fs' : FileSystem) : Type 0 where
  pub kept : (path : FilePath) (file : File) → find path fs ≡ some file → find path fs' ≡ some file

pub Keeps-refl : (fs : FileSystem) → Keeps fs fs
Keeps-refl fs = record { kept = λ path file h. h }

pub Keeps-trans : (a b c : FileSystem) → Keeps a b → Keeps b c → Keeps a c
Keeps-trans a b c h k = record { kept = λ path file e. k.kept path file (h.kept path file e) }

find-other :
    (p path : FilePath) (file : File) (fs : FileSystem)
    → same_path p path ≡ false
    → find path ((p, file) ∷ fs) ≡ find path fs
unfolding find
find-other p path file fs other = rw other

pub find_self :
    (path : FilePath) (file : File) (fs : FileSystem) → find path ((path, file) ∷ fs) ≡ some file
unfolding find
find_self path file fs = rw (same_path_refl path)

new-Keeps :
    (path : FilePath) (file : File) (fs : FileSystem)
    → find path fs ≡ none
    → Keeps fs ((path, file) ∷ fs)
new-Keeps path file fs free = record {
  kept = λ q old h. elim (Bool-cases (same_path path q)) [
    | inl same ↦ let e : path ≡ q = same_path→eq path q same in cc (h, ap (λ x. find x fs) e, free)
    | inr other ↦ find-other path q file fs other ∙ h
  ];
}

read-find :
    (faulty : Bool) (path : FilePath) (fs : FileSystem) (value : Bytes)
    → read_immutable faulty path fs ≡ contents value
    → (file : File) × (find path fs ≡ some file)
      × (file.private_regular ≡ true)
      × (file.content ≡ value)
unfolding read_immutable
read-find true path fs value h = cc h
read-find false path fs value h = elim (Option-cases (find path fs)) [
  | inl free ↦ cc (rw free at h)
  | inr (file, found) ↦ elim (Bool-cases file.private_regular) [
    | inl private ↦
        let e : contents file.content ≡ contents value = rw (found, private) at h in
        (file, found, private, cc e)
    | inr open_file ↦ let e : failed ≡ contents value = rw (found, open_file) at h in cc e
  ]
]

read-missing :
    (faulty : Bool) (path : FilePath) (fs : FileSystem)
    → read_immutable faulty path fs ≡ missing
    → find path fs ≡ none
unfolding read_immutable
read-missing true path fs h = cc h
read-missing false path fs h = elim (Option-cases (find path fs)) [
  | inl free ↦ free
  | inr (file, found) ↦ elim (Bool-cases file.private_regular) [
    | inl private ↦ let e : contents file.content ≡ missing = rw (found, private) at h in cc e
    | inr open_file ↦ let e : failed ≡ missing = rw (found, open_file) at h in cc e
  ]
]

after_race-Keeps :
    (raced : Option File) (path : FilePath) (fs : FileSystem)
    → find path fs ≡ none
    → Keeps fs (after_race raced path fs)
unfolding after_race
after_race-Keeps none path fs free = Keeps-refl fs
after_race-Keeps (some file) path fs free = new-Keeps path file fs free

ReadResult-cases :
    (r : ReadResult) → ((value : Bytes) × (r ≡ contents value)) ⊎ ((r ≡ missing) ⊎ (r ≡ failed))
ReadResult-cases (contents value) = inl (value, refl)
ReadResult-cases missing = inr (inl refl)
ReadResult-cases failed = inr (inr refl)

-- What a put does to the file system, and what its success says.
pub record Put (path : FilePath) (value : Bytes) (fs : FileSystem) (r : FileSystem × Bool)
    : Type 0 where
  pub keeps : Keeps fs r.0
  pub holds :
      r.1 ≡ true
      → (file : File) × (find path r.0 ≡ some file)
        × (file.private_regular ≡ true)
        × (file.content ≡ value)

found-Put :
    (faulty sync_fails : Bool) (path : FilePath) (value existing : Bytes) (fs : FileSystem)
    → read_immutable faulty path fs ≡ contents existing
    → Put path value fs (fs, beq existing value && not sync_fails)
found-Put faulty sync_fails path value existing fs h = record {
  keeps = Keeps-refl fs;
  holds = λ ok.
      let (file, found, private, same) = read-find faulty path fs existing h in
      (
        file,
        found,
        private,
        same ∙ beq→eq existing value (&&-left (beq existing value) (not sync_fails) ok),
      );
}

refused-Put :
    (path : FilePath) (value : Bytes) (fs fs' : FileSystem)
    → Keeps fs fs'
    → Put path value fs (fs', false)
refused-Put path value fs fs' k = record { keeps = k; holds = λ ok. cc ok }

link-Put :
    (calls : Calls) (path : FilePath) (value : Bytes) (fs : FileSystem)
    → Put path value fs (link_immutable calls path value fs)
unfolding link_immutable
link-Put calls path value fs = elim (Bool-cases calls.link_fails) [
  | inl fails ↦ rw (fails, link_immutable) (refused-Put path value fs fs (Keeps-refl fs))
  | inr works ↦ elim (Option-cases (find path fs)) [
    | inl free ↦
        rw (works, free, link_immutable)
          (record {
            keeps = new-Keeps path (record { private_regular = true; content = value }) fs free;
            holds = λ ok. (
              record { private_regular = true; content = value },
              find_self path (record { private_regular = true; content = value }) fs,
              refl,
              refl,
            );
          })
    | inr (file, found) ↦ elim (ReadResult-cases (read_immutable calls.second_read_fails path fs)) [
      | inl (existing, read) ↦
          rw (works, found, read, link_immutable)
            (found-Put calls.second_read_fails calls.sync_fails path value existing fs read)
      | inr (inl gone) ↦
          rw (works, found, gone, link_immutable) (refused-Put path value fs fs (Keeps-refl fs))
      | inr (inr fails) ↦
          rw (works, found, fails, link_immutable) (refused-Put path value fs fs (Keeps-refl fs))
    ]
  ]
]

Put-after :
    (path : FilePath) (value : Bytes) (fs mid : FileSystem) (r : FileSystem × Bool)
    → Keeps fs mid
    → Put path value mid r
    → Put path value fs r
Put-after path value fs mid r k p = record {
  keeps = Keeps-trans fs mid r.0 k p.keeps;
  holds = p.holds;
}

-- Whatever system calls fail and whatever another process links at the path meanwhile: every file
-- that is there stays as it is, and a put that returns no error has left a private regular file
-- with its bytes at the path.
pub put_immutable-Put :
    (calls : Calls) (path : FilePath) (value : Bytes) (fs : FileSystem)
    → Put path value fs (put_immutable calls path value fs)
unfolding put_immutable link_immutable
put_immutable-Put calls path value fs = elim (Bool-cases calls.dir_fails) [
  | inl fails ↦ rw (fails, put_immutable) (refused-Put path value fs fs (Keeps-refl fs))
  | inr works ↦ elim (ReadResult-cases (read_immutable calls.read_fails path fs)) [
    | inl (existing, read) ↦
        rw (works, read, put_immutable)
          (found-Put calls.read_fails calls.sync_fails path value existing fs read)
    | inr (inr fails) ↦
        rw (works, fails, put_immutable) (refused-Put path value fs fs (Keeps-refl fs))
    | inr (inl gone) ↦ elim (Bool-cases calls.temporary_fails) [
      | inl full ↦
          rw (works, gone, full, put_immutable) (refused-Put path value fs fs (Keeps-refl fs))
      | inr written ↦
          let mid = after_race calls.raced path fs in
          rw (works, gone, written, put_immutable)
            (Put-after path value fs mid (link_immutable calls path value mid)
              (after_race-Keeps calls.raced path fs (read-missing calls.read_fails path fs gone))
              (link-Put calls path value mid))
    ]
  ]
]

-- The abstract map: a key is given a value once.
abbrev pub View : Type 0
View = FilePath → Option Bytes

abbrev pub view : FileSystem → View
view fs path = elim (find path fs) [ none ↦ none | some file ↦ some file.content ]

unfoldable pub put_once : FilePath → Bytes → View → View × Bool
put_once path value m = elim (m path) [
  | none ↦ (λ q. if same_path path q then some value else m q, true)
  | some old ↦ (m, beq old value)
]

-- No call fails and nobody races.
abbrev pub quiet : Calls
quiet = record {
  dir_fails = false;
  read_fails = false;
  temporary_fails = false;
  link_fails = false;
  second_read_fails = false;
  sync_fails = false;
  raced = none;
}

abbrev pub IsPrivate : FileSystem → Type 0
IsPrivate fs =
    (path : FilePath) (file : File) → find path fs ≡ some file → file.private_regular ≡ true

-- What a put on a file system and one on its view agree on.
pub record Refines (r : FileSystem × Bool) (s : View × Bool) : Type 0 where
  pub same_view : (q : FilePath) → view r.0 q ≡ s.0 q
  pub same_answer : r.1 ≡ s.1
  pub still_private : IsPrivate r.0

new_view :
    (path q : FilePath) (value : Bytes) (fs : FileSystem)
    → view ((path, record { private_regular = true; content = value }) ∷ fs) q
      ≡ (if same_path path q then some value else view fs q)
unfolding find
new_view path q value fs = elim (Bool-cases (same_path path q)) [
  | inl same ↦ rw (same, view, find)
  | inr other ↦ rw (other, view, find)
]

new-IsPrivate :
    (path : FilePath) (value : Bytes) (fs : FileSystem)
    → IsPrivate fs
    → IsPrivate ((path, record { private_regular = true; content = value }) ∷ fs)
unfolding find
new-IsPrivate path value fs p q file h = elim (Bool-cases (same_path path q)) [
  | inl same ↦
      let e : some (record { private_regular = true; content = value }) ≡ some file =
        rw same at h in
      ap File.private_regular (sym (some-inj _ file e))
  | inr other ↦ p q file (rw other at h)
]

put_quiet-new :
    (path : FilePath) (value : Bytes) (fs : FileSystem)
    → find path fs ≡ none
    → put_immutable quiet path value fs
      ≡ ((path, record { private_regular = true; content = value }) ∷ fs, true)
unfolding put_immutable link_immutable read_immutable after_race
put_quiet-new path value fs free = ground (arith, free)

-- When no system call fails, nobody races and the files are private: cvPutImmutableFile answers,
-- and changes the contents of the files, as an abstract map does in which a key is given a value
-- once.
pub put_immutable-Refines :
    (path : FilePath) (value : Bytes) (fs : FileSystem)
    → IsPrivate fs
    → Refines (put_immutable quiet path value fs) (put_once path value (view fs))
unfolding put_immutable read_immutable put_once
put_immutable-Refines path value fs private = elim (Option-cases (find path fs)) [
  | inl free ↦
      rw (put_quiet-new path value fs free, put_once, free)
        (record {
          same_view = λ q. new_view path q value fs;
          same_answer = refl;
          still_private = new-IsPrivate path value fs private;
        })
  | inr (file, found) ↦
      rw (found, private path file found, put_immutable, read_immutable, put_once)
        (record { same_view = λ q. refl; same_answer = ground arith; still_private = private })
]
