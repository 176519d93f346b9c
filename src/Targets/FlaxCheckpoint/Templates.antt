-- ===== src/Targets/FlaxCheckpoint/Templates.antt =====
-- The targets of fuzz_from_state_dict.py that a state is restored into.
use mapfuzz.Base.{codes, List, [], ◌∷◌, pos, false}
use mapfuzz.Targets.FlaxCheckpoint.Values.{
  PyTree, integer, float, boolean, string, array, dict, Items, item, no_items, Entries, entry,
  no_entries, name,
}

-- a value, a tuple, or a `FrozenDict` over a dictionary
pub data Target : Type 0 where
  plain : PyTree → Target
  tuple : Items → Target
  frozen : Entries → Target

abbrev zero_leaf : PyTree
zero_leaf = integer (pos 0)

abbrev kernel_layer : PyTree
kernel_layer = dict (entry (name (codes "kernel")) zero_leaf no_entries)

-- `_TARGETS`, the first of which is `t` of the self-test
abbrev pub first_target : Target
first_target = plain (
    dict (
      entry (name (codes "params"))
        (dict (entry (name (codes "w")) zero_leaf (entry (name (codes "b")) zero_leaf no_entries)))
        (entry (name (codes "step")) zero_leaf no_entries)))

abbrev pub targets : List Target
targets =
    first_target
    ∷ plain (
        dict (
          entry (name (codes "model"))
            (dict (
              entry (name (codes "layers")) (array (item kernel_layer (item kernel_layer no_items)))
                no_entries))
            (entry (name (codes "opt")) (dict (entry (name (codes "count")) zero_leaf no_entries))
              no_entries)))
    ∷ plain (array (item zero_leaf (item zero_leaf (item zero_leaf no_items))))
    ∷ tuple (item zero_leaf (item zero_leaf no_items))
    ∷ frozen (
        entry (name (codes "a")) zero_leaf (
          entry (name (codes "nested")) (dict (entry (name (codes "x")) zero_leaf no_entries))
            no_entries))
    ∷ plain (
        dict (
          entry (name (codes "scalar")) (float (codes "0.0")) (
            entry (name (codes "flag")) (boolean false)
              (entry (name (codes "name")) (string (codes "")) no_entries))))
    ∷ []
