-- ===== src/Targets/Launch.antt =====
-- `main` of the harnesses: the self-test on request, and the fuzzer otherwise. atheris is the
-- parameter `fuzz`: what `Setup` and `Fuzz` end in, for a callback.
use mapfuzz.Base.{
  ℕ, Text, codes, text_in, Bool, Option, none, some, List, ◌⊎◌, inl, inr, ℤ, if◌then◌else◌,
}
use mapfuzz.Exceptions.{ExcClass, Outcome}
use mapfuzz.Json.{Json}
use mapfuzz.Provider.{Provider}
use mapfuzz.Targets.FlaxCheckpoint.{test_state, test_restore}
use mapfuzz.Targets.FlaxCheckpoint.Selftest.{state_selftest, restore_selftest}
use mapfuzz.Targets.FlaxCheckpoint.Values.{PyTree}
use mapfuzz.Targets.FlaxCheckpoint.Templates.{Target}
use mapfuzz.Targets.TransformersConfig.Selftest.{config_selftest}
use mapfuzz.Targets.MetaTensor.Selftest.{stability_test, base}
use mapfuzz.Targets.TokenizersConfig.Selftest.{tokenizers_selftest}
use mapfuzz.Targets.Differential.Selftest.{differential_selftest}
use mapfuzz.Targets.GgufReader
use mapfuzz.Targets.WeightsOnly
use mapfuzz.Targets.MetaTensor
use mapfuzz.Targets.TransformersConfig.Values
use mapfuzz.Targets.TokenizersConfig
use mapfuzz.Targets.Differential

abbrev Bytes : Type 0
Bytes = List ℕ

-- How a process ends: with a status, with an exception that nothing catches, or with an input on
-- whose run the callback raised; `stopped` is any other end of the fuzzer, such as a native crash,
-- the time or memory limit, or the end of its runs.
data Exit : Type 0 where
  exited : ℕ → Exit
  uncaught : Exit
  crashed : Bytes → ExcClass → Exit
  stopped : Exit

-- `raise SystemExit(_selftest())`
unfoldable exit_with : {A : Type 0} → (A → ℕ) → ExcClass ⊎ A → Exit
exit_with status (inl e) = uncaught
exit_with status (inr a) = exited (status a)

unfoldable exit_or_fail : Option ℕ → Exit
exit_or_fail none = uncaught
exit_or_fail (some n) = exited n

-- `"--selftest" in sys.argv`
unfoldable wants_selftest : List Text → Bool
wants_selftest argv = text_in (codes "--selftest") argv

-- the two branches
unfoldable launch : List Text → Exit → Exit → Exit
unfolding wants_selftest
launch argv selftest fuzzed = if wants_selftest argv then selftest else fuzzed

abbrev Fuzz : Type 0
Fuzz = List Text → (Bytes → Outcome) → Exit

module _ (fuzz : Fuzz) (argv : List Text) where
  -- `main` of fuzz_gguf_reader.py
  unfoldable gguf_main : (Bytes → Outcome) → Exit
  unfolding launch
  gguf_main reader =
      launch argv (exited (GgufReader.selftest reader)) (fuzz argv (GgufReader.run_one reader))

  -- `main` of fuzz_weights_only.py
  unfoldable weights_only_main : ExcClass → (Bytes → Outcome) → Exit
  weights_only_main unpickling_error load =
      fuzz argv (WeightsOnly.test_one_input unpickling_error load)

  -- `main` of fuzz_rebuild_args_stable.py
  unfoldable rebuild_args_main : ExcClass → (Bytes → Outcome) → Exit
  unfolding launch exit_or_fail
  rebuild_args_main unpickling_error load =
      launch argv (exit_or_fail (stability_test base))
        (fuzz argv (MetaTensor.test_one_input unpickling_error load))

  -- `main` of fuzz_config_stable.py
  unfoldable tokenizers_main : (Json → ExcClass ⊎ Text) → (Text → Outcome) → Exit
  unfolding launch exit_with
  tokenizers_main dumps from_str =
      launch argv (exit_with (λ n. n) (tokenizers_selftest dumps from_str))
        (fuzz argv (TokenizersConfig.test_one_input dumps from_str))

  -- `main` of fuzz_fast_slow_divergence.py
  unfoldable differential_main :
      (Text → ExcClass ⊎ List ℕ) → (Text → ExcClass ⊎ List ℕ) → (Bytes → ExcClass ⊎ Text) → Exit
  unfolding launch exit_with
  differential_main slow fast decode =
      launch argv (exit_with (λ (n, status). status) (differential_selftest slow fast))
        (fuzz argv (Differential.test_one_input slow fast decode))

  -- The generators draw from a provider over the data of the callback.
  module _ {S : Type 0} (fdp : Provider S) (provide : Bytes → S) where
    -- `main` of fuzz_config_from_dict.py
    unfoldable config_main :
        (Json → Outcome) → (Json → ExcClass ⊎ Text) → (Text → ExcClass ⊎ Json) → ℕ → Exit
    unfolding launch exit_with
    config_main from_dict dumps loads limit =
        launch argv (exit_with (λ n. n) (config_selftest from_dict)) (
          fuzz argv
            (λ input. Values.test_one_input fdp from_dict dumps loads limit (provide input)))

    -- `main` of fuzz_from_state_dict.py, over the random data of the self-test
    unfoldable state_main : (Target → PyTree → Outcome) → List S → Exit
    unfolding launch exit_with
    state_main from_state_dict seeds =
        launch argv (exit_with (λ t. 0) (state_selftest fdp from_state_dict seeds))
          (fuzz argv (λ input. test_state fdp from_state_dict (provide input)))

    -- `main` of fuzz_msgpack_restore.py
    unfoldable restore_main :
        ExcClass
        → ExcClass
        → (List ℤ → Text → List ℕ → List ℕ)
        → (PyTree → ExcClass ⊎ List ℕ)
        → (PyTree → ExcClass ⊎ List ℕ)
        → (List ℕ → Outcome)
        → (ExcClass ⊎ List ℕ)
        → (List ℕ → Outcome)
        → List S
        → Exit
    unfolding launch exit_with
    restore_main unpack_exception extra_data packb pack_default pack restore serialized step_of
          seeds =
        launch argv
          (exit_with (λ (ok, rej). 0)
            (restore_selftest fdp packb pack restore serialized step_of seeds))
          (fuzz argv (λ input.
            test_restore fdp unpack_exception extra_data packb pack_default pack restore
              (provide input)))
