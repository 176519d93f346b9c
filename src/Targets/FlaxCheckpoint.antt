-- ===== src/Targets/FlaxCheckpoint.antt =====
-- targets/flax_checkpoint/harness/fuzz_from_state_dict.py and fuzz_msgpack_restore.py: which exceptions
-- of flax are recorded. msgpack and flax are parameters, as are the exception classes of msgpack; the
-- values that are generated stand in Values.
pub mod Recorded
pub mod Values
pub mod Templates
pub mod Selftest
use mapfuzz.Base.{
  length, get_or, ◌-◌, Option, none, some, ℤ, ℕ, Text, codes, text_in, Bool, true, false, ◌||◌,
  List, [], ◌∷◌, ◌⊎◌, inl, inr, if◌then◌else◌,
}
use mapfuzz.Provider.{Provider, Gen, pure, draw, ◌>>=◌}
use mapfuzz.Targets.FlaxCheckpoint.Values.{PyTree, make_state, make_value}
use mapfuzz.Targets.FlaxCheckpoint.Templates.{Target, first_target, targets}
use mapfuzz.Exceptions.{
  ExcClass, builtin, derived, Builtin, value_error, key_error, type_error, index_error,
  overflow_error, unicode_decode_error, os_error, not_implemented_error, attribute_error,
  recursion_error, exception, same_class, Outcome, returned, raised, swallow, reraise, Clauses,
  handle, is_one_of,
}

-- `type(exc).__name__ in names`; of the names, three are those of built-in classes
unfoldable pub is_named : ExcClass → Bool
is_named (builtin b) =
    same_class (builtin b) (builtin value_error)
    || same_class (builtin b) (builtin key_error)
    || same_class (builtin b) (builtin type_error)
is_named (derived n c) =
    text_in n
      (codes "SerializationError" ∷ codes "ValueError" ∷ codes "KeyError" ∷ codes "TypeError" ∷ [])

-- `_expected`
unfoldable pub is_expected : ExcClass → Bool
unfolding is_named
is_expected e = is_named e || is_one_of e (builtin value_error ∷ builtin key_error ∷ [])

-- the clauses around `from_state_dict`
unfoldable pub state_outcome : Outcome → Outcome
unfolding is_expected
state_outcome returned = returned
state_outcome (raised e) =
    if is_one_of e (builtin recursion_error ∷ [])
    then raised e
    else if is_one_of e (builtin exception ∷ [])
    then (if is_expected e then returned else raised e)
    else raised e

-- an `except Exception: return`
unfoldable pub given_up : ExcClass → Outcome
given_up e = if is_one_of e (builtin exception ∷ []) then returned else raised e

-- the fuel of the generators: one for each level of their recursion
abbrev pub state_fuel : ℕ
state_fuel = 7

abbrev pub value_fuel : ℕ
value_fuel = 5

module _ {S : Type 0} (fdp : Provider S) (from_state_dict : Target → PyTree → Outcome) where
  -- the choice of one of the six targets, and of the state
  unfoldable pub state_input : Gen S (Target × PyTree)
  state_input = draw (fdp.int_in_range 0 (length targets - 1)) >>= λ i.
      make_state fdp state_fuel 0 >>= λ state. pure (get_or targets i first_target, state)

  -- the two `try` statements; fuel that is not enough would be a `RecursionError` of the generator
  unfoldable pub with_state : Option ((Target × PyTree) × S) → Outcome
  unfolding state_outcome given_up
  with_state none = given_up (builtin recursion_error)
  with_state (some ((target, state), s)) = state_outcome (from_state_dict target state)

  -- `TestOneInput` of fuzz_from_state_dict.py
  unfoldable pub test_state : S → Outcome
  unfolding with_state state_input
  test_state s = with_state (state_input s)

-- `_EXPECTED` of fuzz_msgpack_restore.py
abbrev pub expected : ExcClass → ExcClass → List ExcClass
expected unpack_exception extra_data =
    builtin value_error
    ∷ builtin type_error
    ∷ builtin key_error
    ∷ builtin index_error
    ∷ unpack_exception
    ∷ extra_data
    ∷ builtin overflow_error
    ∷ builtin unicode_decode_error
    ∷ builtin os_error
    ∷ builtin not_implemented_error
    ∷ builtin attribute_error
    ∷ []

abbrev pub recorded_clauses : Clauses
recorded_clauses = (builtin recursion_error ∷ [], reraise) ∷ (builtin exception ∷ [], reraise) ∷ []

module _ {S : Type 0} (fdp : Provider S) (unpack_exception extra_data : ExcClass)
    (packb : List ℤ → Text → List ℕ → List ℕ) (pack_default pack : PyTree → ExcClass ⊎ List ℕ)
    (restore : List ℕ → Outcome) where
  unfoldable pub restored : List ℕ → Outcome
  restored blob =
      handle ((expected unpack_exception extra_data, swallow) ∷ recorded_clauses) (restore blob)

  -- the second attempt at packing
  unfoldable pub packed_again : ExcClass ⊎ List ℕ → Outcome
  unfolding restored given_up
  packed_again (inl e) = given_up e
  packed_again (inr blob) = restored blob

  -- the first attempt
  unfoldable pub packed : PyTree → ExcClass ⊎ List ℕ → Outcome
  unfolding packed_again
  packed tree (inl e) =
      if is_one_of e (builtin exception ∷ []) then packed_again (pack tree) else raised e
  packed tree (inr blob) = restored blob

  -- If the generator itself raised, `tree` would be unbound in the second attempt, which raises an
  -- exception that its clause takes.
  unfoldable pub with_value : Option (PyTree × S) → Outcome
  unfolding packed given_up
  with_value none = given_up (builtin recursion_error)
  with_value (some (tree, s)) = packed tree (pack_default tree)

  -- `TestOneInput` of fuzz_msgpack_restore.py
  unfoldable pub test_restore : S → Outcome
  unfolding with_value
  test_restore s = with_value (make_value fdp packb value_fuel 0 s)
