-- ===== src/Targets/Differential/Vocabulary.antt =====
-- `_make_pair`: the vocabulary file from which both tokenizers are made. The two constructors, of
-- transformers, are parameters, on the text of the file.
use mapfuzz.Base.{ℕ, ◌≡◌, refl, Text, codes, List, [], ◌∷◌, ◌++◌, join, splitlines, ◌⊎◌, inl, inr}
use mapfuzz.Exceptions.{ExcClass}

-- `vocab`
abbrev pub vocab : List Text
vocab =
    codes "[PAD]"
    ∷ codes "[UNK]"
    ∷ codes "[CLS]"
    ∷ codes "[SEP]"
    ∷ codes "[MASK]"
    ∷ codes "hello"
    ∷ codes "world"
    ∷ codes "foo"
    ∷ codes "bar"
    ∷ codes "play"
    ∷ codes "test"
    ∷ codes "the"
    ∷ codes "a"
    ∷ codes "an"
    ∷ codes "##ing"
    ∷ codes "##s"
    ∷ codes "##ed"
    ∷ codes "##able"
    ∷ codes "##ly"
    ∷ codes "##er"
    ∷ codes "##est"
    ∷ codes "##ness"
    ∷ codes "un"
    ∷ codes "re"
    ∷ codes "pre"
    ∷ codes "##tion"
    ∷ codes "##ment"
    ∷ codes "##ful"
    ∷ codes "co"
    ∷ codes "##operate"
    ∷ codes "#"
    ∷ codes "##"
    ∷ codes "@"
    ∷ codes "."
    ∷ codes ","
    ∷ codes "!"
    ∷ codes "?"
    ∷ []

unfoldable pub vocab_text : Text
vocab_text = join (codes "\n") vocab ++ codes "\n"

abbrev pub Tokenizer : Type 0
Tokenizer = Text → ExcClass ⊎ List ℕ

module _ (bert_tokenizer bert_tokenizer_fast : Text → ExcClass ⊎ Tokenizer) where
  unfoldable pub with_fast : Tokenizer → ExcClass ⊎ Tokenizer → ExcClass ⊎ (Tokenizer × Tokenizer)
  with_fast slow (inl e) = inl e
  with_fast slow (inr fast) = inr (slow, fast)

  unfoldable pub with_slow : ExcClass ⊎ Tokenizer → ExcClass ⊎ (Tokenizer × Tokenizer)
  unfolding with_fast
  with_slow (inl e) = inl e
  with_slow (inr slow) = with_fast slow (bert_tokenizer_fast vocab_text)

  -- `_make_pair`
  unfoldable pub make_pair : ExcClass ⊎ (Tokenizer × Tokenizer)
  unfolding with_slow
  make_pair = with_slow (bert_tokenizer vocab_text)

-- The lines of the file are the vocabulary: a reader of lines gets each entry back, at its number.
pub vocab_text-lines : splitlines vocab_text ≡ vocab
unfolding vocab_text splitlines join
vocab_text-lines = refl
