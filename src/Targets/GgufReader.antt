-- ===== src/Targets/GgufReader.antt =====
-- targets/gguf_py_reader/harness/fuzz_gguf_reader.py: which exceptions of the reader are recorded.
-- The reader, of the gguf package, is the parameter `reader`: what a call on a file with these
-- bytes ends in.
pub mod Laws
use mapfuzz.Base.{ℕ, Text, codes, Bool, true, false, List, [], ◌∷◌, ◌++◌, if◌then◌else◌}
use mapfuzz.Exceptions.{
  ExcClass, builtin, value_error, key_error, struct_error, index_error, eof_error, os_error,
  recursion_error, memory_error, unicode_decode_error, exception, Outcome, returned, raised,
  swallow, reraise, Clauses, handle, is_one_of,
}

-- `EXPECTED`
abbrev pub expected : List ExcClass
expected =
    builtin value_error
    ∷ builtin key_error
    ∷ builtin struct_error
    ∷ builtin index_error
    ∷ builtin eof_error
    ∷ builtin os_error
    ∷ []

-- the clauses behind `except EXPECTED`
abbrev pub recorded_clauses : Clauses
recorded_clauses =
    (builtin recursion_error ∷ builtin memory_error ∷ [], reraise)
    ∷ (builtin unicode_decode_error ∷ [], reraise)
    ∷ (builtin exception ∷ [], reraise)
    ∷ []

abbrev pub Bytes : Type 0
Bytes = List ℕ

module _ (reader : Bytes → Outcome) where
  -- `_run_one`: an outcome `raised` is what the fuzzer records
  unfoldable pub run_one : Bytes → Outcome
  unfolding handle
  run_one input = handle ((expected, swallow) ∷ recorded_clauses) (reader input)

-- `_cleanup`, on what `os.unlink` of the temporary file ends in
unfoldable pub cleanup : Outcome → Outcome
unfolding handle
cleanup unlinked = handle ((builtin os_error ∷ [], swallow) ∷ []) unlinked

-- the clauses of one round of `_selftest`
unfoldable pub probe_passes : Outcome → Bool
probe_passes returned = true
probe_passes (raised e) =
    if is_one_of e expected
    then true
    else if is_one_of e
        (builtin recursion_error ∷ builtin memory_error ∷ builtin unicode_decode_error ∷ [])
    then false
    else if is_one_of e (builtin exception ∷ [])
    then false
    else false

module _ (reader : Bytes → Outcome) where
  -- the loop of `_selftest`
  unfoldable pub probe_all : List Bytes → ℕ
  unfolding probe_passes run_one
  probe_all [] = 0
  probe_all (p ∷ ps) = if probe_passes (run_one reader p) then probe_all ps else 1

  -- `_selftest`
  unfoldable pub selftest : ℕ
  unfolding probe_all
  selftest =
      probe_all ([] ∷ codes "XXXX" ∷ codes "GGUF" ∷ (codes "GGUF" ++ 3 ∷ 0 ∷ 0 ∷ 0 ∷ []) ∷ [])
