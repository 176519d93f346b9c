-- ===== src/Targets/TransformersConfig/Paths.antt =====
-- The scope guard, seen from the paths into a value: what it leaves at each, and what it takes away.
use mapfuzz.Base.{
  ℕ, zero, suc, Bool, true, not, if◌then◌else◌, Text, false, Option, none, some, List, [], ◌∷◌,
}
use mapfuzz.Json.{Json, array, object, Items, no_items, item, get_member}
use mapfuzz.Targets.TransformersConfig.{is_forbidden, scrub}

-- A step from a value into it: by a key, or by an index.
pub data Step : Type 0 where
  by_key : Text → Step
  index : ℕ → Step

get_item : ℕ → Items → Option Json
get_item i no_items = none
get_item zero (item x xs) = some x
get_item (suc i) (item x xs) = get_item i xs

-- the value at the end of a path
enter : Step → Json → Option Json
unfolding get_item
enter (by_key k) (object ms) = get_member k ms
enter (index i) (array xs) = get_item i xs
enter _ _ = none

if_there : Option Json → (Json → Option Json) → Option Json
if_there none f = none
if_there (some j) f = f j

pub at_path : List Step → Json → Option Json
unfolding if_there
at_path [] j = some j
at_path (s ∷ path) j = if_there (enter s j) (at_path path)

allowed : Step → Bool
allowed (by_key k) = not (is_forbidden k)
allowed (index i) = true

-- no step of the path is by a forbidden key
pub all_allowed : List Step → Bool
unfolding allowed
all_allowed [] = true
all_allowed (s ∷ path) = if allowed s then all_allowed path else false

abbrev pub scrubbed_too : Option Json → Option Json
scrubbed_too none = none
scrubbed_too (some j) = some (scrub j)

kept_or_gone : Bool → Option Json → Option Json
kept_or_gone true o = scrubbed_too o
kept_or_gone false o = none
