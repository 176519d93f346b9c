-- ===== src/Targets/TokenizersConfig/Reach.antt =====
-- No part of the grammar of configurations is dead: every combination of components is generated.
use mapfuzz.Base.{
  ℕ, ◌+◌, ◌<◌, ◌%◌, ◌≡◌, refl, ◌∙◌, Text, Bool, true, false, Option, none, some, [], ◌∷◌, length,
  get_or, arith, All, List, IsByte, flag_byte, flag_byte-IsByte,
}
use mapfuzz.Json.{Json, null, array, Members}
use mapfuzz.Targets.TokenizersConfig.{
  Bytes, fixed, size_class, high_bit, low_bit, mk_model, mk_tagged, added, normalizers, pretoks,
  decoders, build_config,
}
use mapfuzz.Targets.TokenizersConfig.Layout.{chosen, config_of, config, build_config_lem}

-- a component that is absent, or one of a list
abbrev pub component : List Text → Option ℕ → Json
component names none = null
component names (some i) = mk_tagged (get_or names i [])

abbrev pub Below : ℕ → Option ℕ → Type 0
Below n none = Unit
Below n (some i) = i < n

-- the byte that selects a component: 132 is the least multiple of 12 with the high bit, and one of 11,
-- and 130 one of 10
abbrev pub select : ℕ → Option ℕ → ℕ
select base none = 0
select base (some i) = base + i

chosen-select :
    (names : List Text) (n base : ℕ) (o : Option ℕ)
    → ((i : ℕ) → i < n → (high_bit (base + i) ≡ true) × ((base + i) % n ≡ i))
    → Below n o
    → chosen (select base o) (get_or names (select base o % n) []) ≡ component names o
unfolding high_bit
chosen-select names n base none h b = refl
chosen-select names n base (some i) h b = let (t, e) = h i b in rw (t, e) refl

at_132_12 : (i : ℕ) → i < 12 → (high_bit (132 + i) ≡ true) × ((132 + i) % 12 ≡ i)
unfolding high_bit
at_132_12 i h = (ground arith, omega arith)

at_132_11 : (i : ℕ) → i < 11 → (high_bit (132 + i) ≡ true) × ((132 + i) % 11 ≡ i)
unfolding high_bit
at_132_11 i h = (ground arith, omega arith)

at_130_10 : (i : ℕ) → i < 10 → (high_bit (130 + i) ≡ true) × ((130 + i) % 10 ≡ i)
unfolding high_bit
at_130_10 i h = (ground arith, omega arith)

select-IsByte : (n base : ℕ) (o : Option ℕ) → base + n < 256 → Below n o → IsByte (select base o)
select-IsByte n base none h b = omega arith
select-IsByte n base (some i) h b = omega arith

low_bit-flag_byte : (t : Bool) → low_bit (flag_byte t) ≡ t
unfolding low_bit flag_byte
low_bit-flag_byte true = refl
low_bit-flag_byte false = refl

-- what the bytes choose: a model, the number of its vocabulary's size class, the byte of its flags, the
-- three components, the number of added tokens, and whether these are special
pub record Choice : Type 0 where
  pub model : ℕ
  pub vocab_class : ℕ
  pub misc : ℕ
  pub normalizer : Option ℕ
  pub pre_tokenizer : Option ℕ
  pub decoder : Option ℕ
  pub tokens : ℕ
  pub special : Bool

pub record InGrammar (c : Choice) : Type 0 where
  pub models : c.model < 4
  pub vocab_classes : c.vocab_class < 7
  pub misc_byte : IsByte c.misc
  pub normalizers : Below 12 c.normalizer
  pub pre_tokenizers : Below 11 c.pre_tokenizer
  pub decoders : Below 10 c.decoder
  pub token_counts : c.tokens < 5

-- the configuration of a choice
abbrev pub configured : Choice → Members
configured c =
    config_of (array (added c.tokens 0 c.special)) (component normalizers c.normalizer)
      (component pretoks c.pre_tokenizer) (component decoders c.decoder)
      (mk_model c.model (size_class c.vocab_class) c.misc)

abbrev pub input_of : Choice → Bytes
input_of c =
    c.model
    ∷ select 132 c.normalizer
    ∷ select 132 c.pre_tokenizer
    ∷ select 130 c.decoder
    ∷ flag_byte c.special
    ∷ c.tokens
    ∷ c.vocab_class
    ∷ c.misc
    ∷ []

input_of-configured : (c : Choice) → InGrammar c → config (fixed (input_of c)) ≡ configured c
unfolding fixed
input_of-configured c g =
    let count : c.tokens % 5 ≡ c.tokens = let few = g.token_counts in omega arith in
    rw
      (
        chosen-select normalizers 12 132 c.normalizer at_132_12 g.normalizers,
        chosen-select pretoks 11 132 c.pre_tokenizer at_132_11 g.pre_tokenizers,
        chosen-select decoders 10 130 c.decoder at_130_10 g.decoders,
        count,
        low_bit-flag_byte c.special,
      )
      refl

-- Every choice is generated, from eight bytes.
pub build_config-reaches :
    (c : Choice)
    → InGrammar c
    → (input : Bytes) × All IsByte input × (length input ≡ 8) × (build_config input ≡ configured c)
build_config-reaches c g =
    (input_of c, input_of-IsByte, refl, build_config_lem (input_of c) ∙ input_of-configured c g)
  where
    input_of-IsByte : All IsByte (input_of c)
    input_of-IsByte =
        let few = g.models in
        let some_tokens = g.token_counts in
        let classes = g.vocab_classes in
        (
          omega arith,
          (
            select-IsByte 12 132 c.normalizer (omega arith) g.normalizers,
            (
              select-IsByte 11 132 c.pre_tokenizer (omega arith) g.pre_tokenizers,
              (
                select-IsByte 10 130 c.decoder (omega arith) g.decoders,
                (flag_byte-IsByte c.special, (omega arith, (omega arith, (g.misc_byte, tt)))),
              ),
            ),
          ),
        )
