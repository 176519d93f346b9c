-- ===== src/Targets/WeightsOnly/Laws.antt =====
-- What the harness of the restricted unpickler records.
use mapfuzz.Base.{◌↔◌, ℕ, ◌≡◌, refl, false, List, if◌then◌else◌, ◌∙◌}
use mapfuzz.Exceptions.{
  ExcClass, builtin, recursion_error, Outcome, returned, raised, is_instance, is_one_of,
}
use mapfuzz.Exceptions.Laws.{handle_first, handle_iff}
use mapfuzz.Targets.WeightsOnly.{expected, recorded_clauses, test_one_input}

-- An exception is let through exactly when it is of no expected class.
test_one_input_lem :
    (unpickling_error : ExcClass) (load : List ℕ → Outcome) (input : List ℕ) (e : ExcClass)
    → load input ≡ raised e
    → test_one_input unpickling_error load input
      ≡ (if is_one_of e (expected unpickling_error) then returned else raised e)
unfolding test_one_input
test_one_input_lem u load input e h = rw h (handle_first (expected u) recorded_clauses e (refl, tt))

-- A run is recorded exactly when the unpickler raises something of no expected class.
recorded_iff :
    (unpickling_error : ExcClass) (load : List ℕ → Outcome) (input : List ℕ) (e : ExcClass)
    → (test_one_input unpickling_error load input ≡ raised e)
      ↔ ((load input ≡ raised e) × (is_one_of e (expected unpickling_error) ≡ false))
unfolding test_one_input
recorded_iff u load input e = handle_iff (expected u) recorded_clauses (load input) e (refl, tt)

-- A `RecursionError` is recorded, whatever class the unpickler's own error is, as long as that
-- class is no base of `RecursionError`.
recursion_error-recorded :
    (unpickling_error : ExcClass) (load : List ℕ → Outcome) (input : List ℕ)
    → is_instance (builtin recursion_error) unpickling_error ≡ false
    → load input ≡ raised (builtin recursion_error)
    → test_one_input unpickling_error load input ≡ raised (builtin recursion_error)
unfolding is_one_of
recursion_error-recorded u load input no_base h =
    test_one_input_lem u load input (builtin recursion_error) h ∙ rw no_base refl
