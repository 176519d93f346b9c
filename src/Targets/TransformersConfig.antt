-- ===== src/Targets/TransformersConfig.antt =====
-- targets/transformers_config/harness/fuzz_config_from_dict.py: the scope guard that strips keys from
-- a generated configuration, and which exceptions of `from_dict` are recorded. `from_dict`, of
-- transformers, and Python's `json.dumps` and `json.loads` are parameters.
pub mod Scrub
pub mod Paths
pub mod Recorded
pub mod Values
pub mod Selftest
use mapfuzz.Base.{
  ℕ, Text, codes, Bool, true, false, text_eq, text_in, List, [], ◌∷◌, ◌⊎◌, inl, inr, ℤ, pos,
  if◌then◌else◌,
}
use mapfuzz.Json.{
  Json, null, boolean, integer, float, string, array, object, Items, no_items, item, Members,
  no_members, member, set_member,
}
use mapfuzz.Exceptions.{
  ExcClass, builtin, value_error, key_error, os_error, type_error, attribute_error, overflow_error,
  unicode_error, json_decode_error, recursion_error, Outcome, returned, raised, swallow, reraise,
  Clauses, handle, is_one_of,
}

-- `_FORBIDDEN_KEYS`
abbrev pub forbidden_keys : List Text
forbidden_keys =
    codes "auto_map"
    ∷ codes "trust_remote_code"
    ∷ codes "_attn_implementation_internal"
    ∷ codes "_experts_implementation_internal"
    ∷ codes "attn_implementation"
    ∷ codes "quantization_config"
    ∷ codes "custom_pipelines"
    ∷ []

unfoldable pub is_forbidden : Text → Bool
is_forbidden k = text_in k forbidden_keys

-- `_scrub`, with its two comprehensions
unfoldable mutual
  pub scrub : Json → Json
  scrub null = null
  scrub (boolean b) = boolean b
  scrub (integer n) = integer n
  scrub (float t) = float t
  scrub (string t) = string t
  scrub (array xs) = array (scrub_items xs)
  scrub (object ms) = object (scrub_members ms)

  pub scrub_items : Items → Items
  scrub_items no_items = no_items
  scrub_items (item x xs) = item (scrub x) (scrub_items xs)

  pub scrub_members : Members → Members
  scrub_members no_members = no_members
  scrub_members (member k v ms) =
      let w = scrub v in
      let rest = scrub_members ms in if is_forbidden k then rest else member k w rest

-- `_TEMPLATE`
abbrev pub template : Members
template = member (codes "model_type") (string (codes "bert")) (
    member (codes "hidden_size") (integer (pos 16)) (
      member (codes "num_hidden_layers") (integer (pos 2)) (
        member (codes "num_attention_heads") (integer (pos 2)) (
          member (codes "vocab_size") (integer (pos 100)) (
            member (codes "id2label")
              (object (
                member (codes "0") (string (codes "A"))
                  (member (codes "1") (string (codes "B")) no_members)))
              no_members)))))

-- `… or "k"`
unfoldable pub or_k : Text → Text
or_k [] = codes "k"
or_k (c ∷ cs) = c ∷ cs

-- the loop of `_build_dict` over the keys and values that the fuzzer's data yields
unfoldable pub override : List (Text × Json) → Members → Members
unfolding or_k
override [] d = d
override ((k, v) ∷ draws) d = override draws (set_member (or_k k) v d)

-- `_build_dict`
unfoldable pub build_dict : List (Text × Json) → Json
build_dict draws = scrub (object (override draws template))

-- `_EXPECTED`
abbrev pub expected : List ExcClass
expected =
    builtin value_error
    ∷ builtin type_error
    ∷ builtin key_error
    ∷ builtin attribute_error
    ∷ builtin overflow_error
    ∷ builtin json_decode_error
    ∷ builtin unicode_error
    ∷ builtin os_error
    ∷ []

abbrev pub recorded_clauses : Clauses
recorded_clauses = (builtin recursion_error ∷ [], reraise) ∷ []

abbrev pub tried : Outcome → Outcome
tried o = handle ((expected, swallow) ∷ recorded_clauses) o

-- A statement is followed by the rest, unless it raises.
unfoldable pub and_then : Outcome → Outcome → Outcome
and_then returned rest = rest
and_then (raised e) rest = raised e

module _ (from_dict : Json → Outcome) (dumps : Json → ExcClass ⊎ Text)
    (loads : Text → ExcClass ⊎ Json) where
  -- `PretrainedConfig.from_dict(json.loads(text))`
  unfoldable pub reload : ExcClass ⊎ Json → Outcome
  reload (inl e) = raised e
  reload (inr d) = from_dict d

  -- what follows the first `try`
  unfoldable pub through_text : ExcClass ⊎ Text → Outcome
  unfolding reload
  through_text (inl e) =
      if is_one_of e (builtin type_error ∷ builtin value_error ∷ []) then returned else raised e
  through_text (inr text) = tried (reload (loads text))

  -- `TestOneInput`, from the dictionary on
  unfoldable pub test_dict : Json → Outcome
  unfolding through_text and_then
  test_dict d = and_then (tried (from_dict d)) (through_text (dumps d))
