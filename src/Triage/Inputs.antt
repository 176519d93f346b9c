-- ===== src/Triage/Inputs.antt =====
-- chassis/triage.py: `_iter_inputs`, over the file system and the text of the standard input.
pub mod Order
pub mod Listing
use mapfuzz.Base.{
  Text, codes, Bool, true, false, not, Option, none, some, List, [], ◌∷◌, ◌++◌, starts_with,
  if◌then◌else◌,
}
use mapfuzz.Base.Sorting.{sort_by, text_lt}
use mapfuzz.Triage.Signature.{path_name}
use mapfuzz.Triage.Dedup.{Report}

-- what stands under a path: a directory with the names in it, each with its text if it is a regular
-- file, a regular file with its text, or neither
pub data Node : Type 0 where
  directory : List (Text × Option Text) → Node
  file : Text → Node
  missing : Node

-- the arguments that are no options
unfoldable pub paths_of : List Text → List Text
paths_of [] = []
paths_of (a ∷ argv) =
    let rest = paths_of argv in if starts_with a (codes "-") then rest else a ∷ rest

abbrev pub before : Text × Option Text → Text × Option Text → Bool
before a b = text_lt a.0 b.0

-- the regular files of a directory, in the order given
unfoldable pub regular : List (Text × Option Text) → List Report
regular [] = []
regular ((name, none) ∷ entries) = regular entries
regular ((name, some text) ∷ entries) = (name, text) ∷ regular entries

-- one round of the loop
unfoldable pub inputs_at : Text → Node → List Report
unfolding regular
inputs_at p (directory entries) = regular (sort_by before entries)
inputs_at p (file text) = (path_name p, text) ∷ []
inputs_at p missing = []

unfoldable pub inputs_under : (Text → Node) → List Text → List Report
unfolding inputs_at
inputs_under node [] = []
inputs_under node (p ∷ ps) = inputs_at p (node p) ++ inputs_under node ps

unfoldable pub from_paths : (Text → Node) → Text → List Text → List Report
unfolding inputs_under
from_paths node stdin [] = (codes "<stdin>", stdin) ∷ []
from_paths node stdin (p ∷ ps) = inputs_under node (p ∷ ps)

-- `_iter_inputs`
unfoldable pub iter_inputs : (Text → Node) → Text → List Text → List Report
unfolding from_paths paths_of
iter_inputs node stdin argv = from_paths node stdin (paths_of argv)
