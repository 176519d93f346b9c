-- ===== src/Tests/ConfigCases.antt =====
-- The configuration harnesses on small inputs.
use mapfuzz.Targets.TokenizersConfig.Reach.{Choice, InGrammar, configured, build_config-reaches}
use mapfuzz.Base.{◌↔◌, inr, IsByte, none, ℕ, All}
use mapfuzz.Base.{
  arith, length, ◌≡◌, ◌≢◌, refl, Text, true, some, List, [], ◌∷◌, codes, set, ◌↔◌, ◌⊎◌, inr, pos,
}
use mapfuzz.Json.{
  Json, null, integer, object, array, no_members, member, no_items, item, get_member,
}
use mapfuzz.Exceptions.{ExcClass, Outcome, raised, returned}
use mapfuzz.Provider.{many}
use mapfuzz.Provider.Scripted.{scripted, scripted_int, scripted-Documented}
use mapfuzz.Provider.Draws.{Makes}
use mapfuzz.Targets.TransformersConfig.Values
use mapfuzz.Targets.TransformersConfig.Values.Ends.{drawn_dict-Makes}
use mapfuzz.Targets.TransformersConfig.{template}
use mapfuzz.Targets.TransformersConfig.Recorded.{Fails, test_one_input-Fails}
use mapfuzz.Targets.TransformersConfig.Selftest.{config_selftest, config_selftest_iff}
use mapfuzz.Targets.TransformersConfig.Scrub.{InScope}
use mapfuzz.Targets.TransformersConfig.Paths.{Step, by_key, index}
use mapfuzz.Targets.TokenizersConfig.{build_config}
use mapfuzz.Targets.TokenizersConfig.Layout.{key_name, post_processor, key_at, one_byte-one_member}

-- a forbidden key inside a list inside an object
abbrev dirty : Json
dirty = object (
    member (codes "a")
      (array (
        item
          (object
            (member (codes "auto_map") null (member (codes "b") (integer (pos 1)) no_members)))
          no_items))
      no_members)

abbrev draws : List (Text × Json)
draws = (codes "trust_remote_code", integer (pos 1)) ∷ (codes "x", dirty) ∷ []

abbrev path : List Step
path = by_key (codes "a") ∷ index 0 ∷ by_key (codes "b") ∷ []

drawn_dict-Makes_example :
    Makes (Values.drawn_dict scripted 9 (1 ∷ 2 ∷ 8 ∷ 3 ∷ [])) (λ d _. InScope d)
drawn_dict-Makes_example =
    drawn_dict-Makes scripted length scripted-Documented 9 (1 ∷ 2 ∷ 8 ∷ 3 ∷ []) (omega arith)

-- at the depth limit a list is still drawn, and a list inside it
nested_at_the_limit :
    Values.rand_value scripted 8 4 (5 ∷ 1 ∷ 5 ∷ 1 ∷ [])
    ≡ some (array (item (array (item (integer (pos 0)) no_items)) no_items), [])
unfolding Values.rand_value Values.rand_branch scripted_int many
nested_at_the_limit = refl

key_at-4 : key_at 4 ≢ some post_processor
unfolding key_at
key_at-4 h = cc

one_byte-one_member_example :
    get_member (key_name post_processor) (build_config (set (1 ∷ 130 ∷ 7 ∷ 7 ∷ 7 ∷ []) 4 255))
    ≡ get_member (key_name post_processor) (build_config (1 ∷ 130 ∷ 7 ∷ 7 ∷ 7 ∷ []))
one_byte-one_member_example =
    one_byte-one_member (1 ∷ 130 ∷ 7 ∷ 7 ∷ 7 ∷ []) 4 255 post_processor key_at-4

-- a Unigram model with a normalizer, no decoder and two special tokens
abbrev choice : Choice
choice = record {
  model = 2;
  vocab_class = 3;
  misc = 7;
  normalizer = some 4;
  pre_tokenizer = none;
  decoder = some 9;
  tokens = 2;
  special = true;
}

choice-InGrammar : InGrammar choice
choice-InGrammar = record {
  models = omega arith;
  vocab_classes = omega arith;
  misc_byte = omega arith;
  normalizers = omega arith;
  pre_tokenizers = tt;
  decoders = omega arith;
  token_counts = omega arith;
}

build_config-reaches_example :
    (input : List ℕ) × All IsByte input
    × (length input ≡ 8)
    × (build_config input ≡ configured choice)
build_config-reaches_example = build_config-reaches choice choice-InGrammar

abbrev takes_all : Json → Outcome
takes_all d = returned

config_selftest_iff_example :
    (config_selftest takes_all ≡ inr 0) ↔ (takes_all (object template) ≡ returned)
config_selftest_iff_example = config_selftest_iff takes_all

test_one_input-Fails_example :
    (d : Json) × InScope d
    × ((from_dict : Json → Outcome) (dumps : Json → ExcClass ⊎ Text)
          (loads : Text → ExcClass ⊎ Json) (e : ExcClass)
        → (Values.test_one_input scripted from_dict dumps loads 5 (8 ∷ 5 ∷ 1 ∷ []) ≡ raised e)
          ↔ Fails from_dict dumps loads d e)
test_one_input-Fails_example =
    test_one_input-Fails scripted length scripted-Documented 5 (8 ∷ 5 ∷ 1 ∷ []) (omega arith)
