-- ===== src/Targets/MetaTensor/Recorded.antt =====
-- Which exceptions of the unpickler the harness records.
use mapfuzz.Base.{
  codes, [], ◌∷◌, false, ◌↔◌, ◌≡◌, refl, true, some, if◌then◌else◌, ◌∙◌, inl, inr, Elem,
}
use mapfuzz.Targets.MetaTensor.Pickle.{Run, val}
use mapfuzz.Targets.MetaTensor.Stream.{rebuild_call, build_stream-Run}
use mapfuzz.Exceptions.{
  ExcClass, builtin, recursion_error, runtime_error, Outcome, returned, raised, is_instance,
  is_one_of,
}
use mapfuzz.Exceptions.Laws.{
  handle_iff, handle_first, is_one_of-Elem, recursion_error-is_runtime_error,
}
use mapfuzz.Targets.MetaTensor.{
  fields_of, fixed_bytes, Bytes, build_stream, expected, recorded_clauses, test_one_input,
}

-- An exception of the unpickler is let through exactly when it is of no expected class.
test_one_input_lem :
    (unpickling_error : ExcClass) (load : Bytes → Outcome) (input stream : Bytes) (e : ExcClass)
    → build_stream input ≡ some stream
    → load stream ≡ raised e
    → test_one_input unpickling_error load input
      ≡ (if is_one_of e (expected unpickling_error) then returned else raised e)
unfolding test_one_input
test_one_input_lem u load input stream e b h =
    rw (b, h) (handle_first (expected u) recorded_clauses e (refl, tt))

recorded_iff :
    (unpickling_error : ExcClass) (load : Bytes → Outcome) (input stream : Bytes) (e : ExcClass)
    → build_stream input ≡ some stream
    → (test_one_input unpickling_error load input ≡ raised e)
      ↔ ((load stream ≡ raised e) × (is_one_of e (expected unpickling_error) ≡ false))
unfolding test_one_input
recorded_iff u load input stream e b =
    rw b (handle_iff (expected u) recorded_clauses (load stream) e (refl, tt))

-- For all data there is a stream which the pickle machine runs up to its STOP with one value on the
-- stack, the call that the bytes select; and whatever the unpickler does, and whatever class its own
-- error is, a run is recorded exactly when the unpickler raises on this stream something of no
-- expected class.
pub test_one_input-Run :
    (input : Bytes)
    → (stream : Bytes) × Run
        (stream, [])
        (codes ".", val (rebuild_call (fields_of (fixed_bytes input))) ∷ [])
      × ((unpickling_error : ExcClass) (load : Bytes → Outcome) (e : ExcClass)
          → (test_one_input unpickling_error load input ≡ raised e)
            ↔ ((load stream ≡ raised e) × (is_one_of e (expected unpickling_error) ≡ false)))
test_one_input-Run input =
    let (stream, built, run) = build_stream-Run input in
    (stream, run, λ u load e. recorded_iff u load input stream e built)

-- A `RecursionError`, or an exception of a class under it, is never recorded, though the last clause
-- re-raises it: `RuntimeError` is expected, and is a base of it.
pub recursion_error-swallowed :
    (unpickling_error : ExcClass) (load : Bytes → Outcome) (input stream : Bytes) (e : ExcClass)
    → build_stream input ≡ some stream
    → load stream ≡ raised e
    → is_instance e (builtin recursion_error) ≡ true
    → test_one_input unpickling_error load input ≡ returned
recursion_error-swallowed u load input stream e b h r =
    test_one_input_lem u load input stream e b h ∙ rw expected_one refl
  where
    listed : Elem (builtin runtime_error) (expected u)
    listed = inr (inr (inr (inr (inr (inr (inr (inr (inr (inl refl)))))))))

    expected_one : is_one_of e (expected u) ≡ true
    expected_one =
        is_one_of-Elem e (builtin runtime_error) (expected u) listed
          (recursion_error-is_runtime_error e r)
