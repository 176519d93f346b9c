-- ===== src/Targets/WeightsOnly.antt =====
-- targets/pytorch/harness/fuzz_weights_only.py: which exceptions of the restricted unpickler are
-- recorded. The unpickler, of torch, is the parameter `load`, and `unpickling_error` the class
-- of its own that the harness names.
pub mod Laws
use mapfuzz.Base.{ℕ, List, [], ◌∷◌}
use mapfuzz.Exceptions.{
  ExcClass, builtin, value_error, key_error, struct_error, index_error, eof_error, type_error,
  attribute_error, import_error, recursion_error, Outcome, swallow, reraise, Clauses, handle,
}

-- `_EXPECTED`
abbrev pub expected : ExcClass → List ExcClass
expected unpickling_error =
    unpickling_error
    ∷ builtin eof_error
    ∷ builtin value_error
    ∷ builtin key_error
    ∷ builtin index_error
    ∷ builtin type_error
    ∷ builtin attribute_error
    ∷ builtin import_error
    ∷ builtin struct_error
    ∷ []

abbrev pub recorded_clauses : Clauses
recorded_clauses = (builtin recursion_error ∷ [], reraise) ∷ []

-- `TestOneInput`
unfoldable pub test_one_input : ExcClass → (List ℕ → Outcome) → List ℕ → Outcome
unfolding handle
test_one_input unpickling_error load input =
    handle ((expected unpickling_error, swallow) ∷ recorded_clauses) (load input)
