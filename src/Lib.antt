-- ===== src/Lib.antt =====
-- mapfuzz: the triage of fuzzer findings, the resource oracle, and the fuzz harnesses.
--
-- The program and its parts. The harnesses under targets/ give a loader of some machine learning
-- package bytes or values that they build from the fuzzer's data, and let through what the fuzzer is
-- to record. chassis/triage.py reads the reports of the recorded runs, merges those of one
-- root cause, judges each, and gates continuous integration by its exit status.
-- chassis/resource_oracle.py runs a loader in a capped child process and tells whether a small input
-- makes it use its resources up. evidence/tool.py checks the record of what was found, and
-- renders it.
--
-- Which file models which part:
--   Base, Json        texts as lists of character codes, lists, the integers, JSON values
--   Regex             Python's `re` as far as triage uses it: a backtracking matcher with greedy and
--                     lazy repetition and groups, an independent denotation of the patterns, and what
--                     relates the two; Greedy and Backtrack say which match is the first
--   Exceptions        Python's exception classes, `isinstance`, `try` with several `except` clauses
--   Triage            chassis/triage.py: Signature (`Signature`, `_scrub`, `_basename_line`), Parsers
--                     (the six `_parse_…` and `parse_report`), Classify (`classify`), Dedup (`Bucket`,
--                     `dedup`), Table (`format_table`), Inputs (`_iter_inputs`), Main (`main`)
--   Oracle            chassis/resource_oracle.py: `_child`, `run_capped`, `assert_guards_class`, the
--                     three loaders and `_selftest`
--   Evidence          evidence/tool.py: `check`; Render (`render`), Main (`main`)
--   Provider          atheris' FuzzedDataProvider: an interface of its methods, the laws of it that the
--                     generators rely on, a monad for generators, and a provider over a list of numbers
--   Targets           GgufReader is targets/gguf_py_reader/harness/fuzz_gguf_reader.py, WeightsOnly
--                     and MetaTensor are targets/pytorch/harness/fuzz_weights_only.py and
--                     fuzz_rebuild_args_stable.py, TransformersConfig is
--                     targets/transformers_config/harness/fuzz_config_from_dict.py, TokenizersConfig is
--                     targets/tokenizers/harness/fuzz_config_stable.py, Differential is
--                     targets/tokenizers_differential/harness/fuzz_fast_slow_divergence.py,
--                     FlaxCheckpoint is targets/flax_checkpoint/harness/fuzz_from_state_dict.py and
--                     fuzz_msgpack_restore.py. In each, Values is the generator over the
--                     FuzzedDataProvider, where there is one, and Selftest is `_selftest`; Launch is
--                     the `main` of them all, over atheris. Seeds is
--                     targets/gguf_py_reader/harness/make_seed.py and
--                     targets/clip_mmproj/harness/make_clip_seed.py, as calls of a `GGUFWriter`
--   Tests             small runs, and the theorems at inputs that meet their hypotheses; Fixtures and
--                     Suite are the reports and the assertions of chassis/tests/test_triage.py
--
-- How the code is rendered. Texts and bytes are lists of native numbers. `\d`, `\w`, `\s` and
-- `lower` are the ASCII ones. A dictionary is a list of its members in insertion order. A run of a
-- loader is an `Outcome`: it returned, or raised an exception of a class; the text of an exception is
-- left out. An `Outcome` that a harness lets through is what the fuzzer records. A field of an
-- evidence claim is a text or a list of texts.
-- Fuel: the matcher recurses on the length of the text with the pattern, and repetition stops on an
-- empty round; `bit_length` halves its number at most as often as the number says. The generators
-- have fuel for the levels of their recursion: 7 for `_make_state` and 5 for `_make_value`, which stop
-- to nest at the depths 6 and 4, and for `_rand_value` the recursion limit, of which one more than the
-- number of bytes is enough, since each call takes one.
-- The file system is a function from paths to what stands there, the command line a list of texts, and
-- what a program prints and returns is its result. A claim's date is the text that `str` makes of it.
--
-- Parameters: the loaders of gguf, torch, flax, transformers and tokenizers, the exception classes
-- of torch and msgpack, the FuzzedDataProvider, Python's `json`, what `str` makes of a list of texts,
-- and the host of the oracle, which says how the operating system and the interpreter take a loader's
-- work under the caps, atheris' `Setup` and `Fuzz`, and the `GGUFWriter`. Oracle/Selftest names what
-- is asked of the host, and Provider what is asked of the provider; nothing is asked of atheris, which
-- may end in any way, nor of the writer.
--
-- Not modelled: the detail texts of the oracle's outcomes and the parsing of its command line; the
-- wording of what `check` finds; `load`, which reads YAML; the writing of temporary files, and what
-- the self-tests print of values that a package made; the runner of the tests.

pub mod Base
pub mod Regex
pub mod Json
pub mod Triage
pub mod Exceptions
pub mod Provider
pub mod Targets
pub mod Oracle
pub mod Evidence
mod Tests
