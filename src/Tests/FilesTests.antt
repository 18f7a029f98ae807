-- ===== src/Tests/FilesTests.antt =====
-- A file that is written twice.
use arladkr_practicaladkr.Prelude.{◌≡◌, refl, true, false, some, [], ◌∷◌}
use arladkr_practicaladkr.Prelude.Bytes.{beq}
use arladkr_practicaladkr.Files.{
  FilePath, same_path, find, read_immutable, Calls, after_race, link_immutable, put_immutable,
}
use arladkr_practicaladkr.Files.WriteOnce.{
  Put, put_immutable-Put, quiet, view, put_once, IsPrivate, Refines, put_immutable-Refines,
}

abbrev path : FilePath
path = (1 ∷ []) ∷ (2 ∷ []) ∷ []

abbrev raced : Calls
raced = record quiet { raced = some (record { private_regular = true; content = 7 ∷ [] }) }

-- Another process links other bytes first.
race_lost : (put_immutable raced path (8 ∷ []) []).1 ≡ false
unfolding put_immutable link_immutable read_immutable after_race find same_path beq
race_lost = refl

put_immutable-Put_example : Put path (8 ∷ []) [] (put_immutable raced path (8 ∷ []) [])
put_immutable-Put_example = put_immutable-Put raced path (8 ∷ []) []

nothing-IsPrivate : IsPrivate []
unfolding find
nothing-IsPrivate p file h = cc h

put_immutable-Refines_example :
    Refines (put_immutable quiet path (8 ∷ []) []) (put_once path (8 ∷ []) (view []))
put_immutable-Refines_example = put_immutable-Refines path (8 ∷ []) [] nothing-IsPrivate
