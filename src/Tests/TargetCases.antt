-- ===== src/Tests/TargetCases.antt =====
-- The harnesses on small inputs.
use mapfuzz.Targets.MetaTensor.Reach.{fields_of-reaches}
use mapfuzz.Base.{All, IsByte, length, map, true}
use mapfuzz.Base.{
  ℕ, ◌≡◌, refl, some, List, [], ◌∷◌, ◌++◌, codes, negsuc, set, arith, ◌↔◌, false, none,
}
use mapfuzz.Exceptions.{
  ExcClass, builtin, derived, exception, unicode_decode_error, recursion_error, Outcome, returned,
  raised, is_instance, is_one_of,
}
use mapfuzz.Targets.GgufReader
use mapfuzz.Targets.MetaTensor
use mapfuzz.Targets.GgufReader.Laws.{Expected, unicode_decode_error-swallowed, selftest_iff}
use mapfuzz.Targets.MetaTensor.{
  Bytes, bit_length, int_opcode, build_stream, fields_of, fixed_bytes, test_one_input, tuple_opcode,
  global_opcode, bool_opcode,
}
use mapfuzz.Targets.MetaTensor.Integers.{LongOpcode, int_opcode-LongOpcode}
use mapfuzz.Targets.MetaTensor.Pickle.{Run, val}
use mapfuzz.Targets.MetaTensor.Stream.{rebuild_call, build_stream-Run}
use mapfuzz.Targets.MetaTensor.Layout.{Same, offset, field_at, one_byte-one_field}
use mapfuzz.Targets.MetaTensor.Recorded.{recursion_error-swallowed, test_one_input-Run}
use mapfuzz.Targets.MetaTensor.{slot_values, value_from_byte}
use mapfuzz.Targets.MetaTensor.Selftest.{changed, decode_fields, flip_byte, stability_test}
use mapfuzz.Targets.MetaTensor.Selftest.Stable.{stability_test-passes}

abbrev bad_utf8 : List ℕ → Outcome
bad_utf8 _ = raised (builtin unicode_decode_error)

unicode_decode_error-swallowed_example : GgufReader.run_one bad_utf8 (codes "GGUF") ≡ returned
unfolding is_instance
unicode_decode_error-swallowed_example =
    unicode_decode_error-swallowed bad_utf8 (codes "GGUF") (builtin unicode_decode_error) refl refl

-- the class that torch takes from the pickle module
abbrev unpickling_error : ExcClass
unpickling_error =
    derived (codes "UnpicklingError") (derived (codes "PickleError") (builtin exception))

abbrev too_deep : List ℕ → Outcome
too_deep _ = raised (builtin recursion_error)

abbrev empty_stream : Bytes
empty_stream =
    0x80
    ∷ 2
    ∷ (codes "ctorch._utils"
        ++ 10
          ∷ (codes "_rebuild_meta_tensor_no_storage"
              ++ 10
                ∷ (codes "(ctorch"
                    ++ 10 ∷ (codes "float32" ++ 10 ∷ (codes "(t(t" ++ 0x89 ∷ codes "tR.")))))

empty-built : build_stream [] ≡ some empty_stream
unfolding build_stream tuple_opcode global_opcode bool_opcode
empty-built = refl

recursion_error-swallowed_example : test_one_input unpickling_error too_deep [] ≡ returned
unfolding is_instance
recursion_error-swallowed_example =
    recursion_error-swallowed unpickling_error too_deep [] empty_stream (builtin recursion_error)
      empty-built refl refl

build_stream-Run_example :
    (stream : Bytes) × (build_stream (3 ∷ 1 ∷ []) ≡ some stream)
    × Run (stream, []) (codes ".", val (rebuild_call (fields_of (fixed_bytes (3 ∷ 1 ∷ [])))) ∷ [])
build_stream-Run_example = build_stream-Run (3 ∷ 1 ∷ [])

one_byte-one_field_example :
    Same offset
      (fields_of (fixed_bytes (set (0 ∷ 1 ∷ 2 ∷ 3 ∷ 4 ∷ 5 ∷ []) 5 250)))
      (fields_of (fixed_bytes (0 ∷ 1 ∷ 2 ∷ 3 ∷ 4 ∷ 5 ∷ [])))
unfolding field_at
one_byte-one_field_example = one_byte-one_field (0 ∷ 1 ∷ 2 ∷ 3 ∷ 4 ∷ 5 ∷ []) 5 250 offset (λ e. cc)

int_opcode-LongOpcode_example :
    (stream : Bytes) × (int_opcode (negsuc 128) ≡ some stream) × LongOpcode (negsuc 128) stream
unfolding bit_length
int_opcode-LongOpcode_example = int_opcode-LongOpcode (negsuc 128) (omega arith)

minus_129 : int_opcode (negsuc 128) ≡ some (0x8a ∷ 2 ∷ 127 ∷ 255 ∷ [])
unfolding int_opcode
minus_129 = refl

stability_test-passes_example : stability_test (7 ∷ 2 ∷ 1 ∷ 0 ∷ 3 ∷ 18 ∷ []) ≡ some 0
stability_test-passes_example = stability_test-passes (7 ∷ 2 ∷ 1 ∷ 0 ∷ 3 ∷ 18 ∷ [])

flip_sizes :
    changed
      (decode_fields (7 ∷ 2 ∷ 1 ∷ 0 ∷ 3 ∷ 18 ∷ []))
      (decode_fields (flip_byte (7 ∷ 2 ∷ 1 ∷ 0 ∷ 3 ∷ 18 ∷ [])))
    ≡ 4 ∷ []
unfolding changed decode_fields flip_byte fixed_bytes slot_values value_from_byte
flip_sizes = refl

fields_of-reaches_example :
    (input : Bytes) × All IsByte input
    × (length input ≡ 17)
    × (fields_of (fixed_bytes input) ≡ record {
      dtype = 11;
      requires_grad = true;
      offset = value_from_byte 6;
      size = map value_from_byte (1 ∷ 255 ∷ []);
      stride = map value_from_byte [];
    })
fields_of-reaches_example =
    fields_of-reaches 11 true 6 (1 ∷ 255 ∷ []) [] (omega arith) (omega arith)
      (omega arith, (omega arith, tt)) tt (omega arith) (omega arith)

-- on a short input there is no byte to flip
short_input : stability_test (7 ∷ 2 ∷ []) ≡ none
unfolding stability_test
short_input = refl

selftest_iff_example : (GgufReader.selftest bad_utf8 ≡ 0) ↔ (
    Expected (bad_utf8 [])
    × Expected (bad_utf8 (codes "XXXX"))
    × Expected (bad_utf8 (codes "GGUF"))
    × Expected (bad_utf8 (71 ∷ 71 ∷ 85 ∷ 70 ∷ 3 ∷ 0 ∷ 0 ∷ 0 ∷ [])))
selftest_iff_example = selftest_iff bad_utf8

test_one_input-Run_example :
    (stream : Bytes) × Run
      (stream, [])
      (codes ".", val (rebuild_call (fields_of (fixed_bytes (3 ∷ 1 ∷ [])))) ∷ [])
    × ((u : ExcClass) (load : Bytes → Outcome) (e : ExcClass)
        → (test_one_input u load (3 ∷ 1 ∷ []) ≡ raised e)
          ↔ ((load stream ≡ raised e) × (is_one_of e (MetaTensor.expected u) ≡ false)))
test_one_input-Run_example = test_one_input-Run (3 ∷ 1 ∷ [])
