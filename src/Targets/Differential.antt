-- ===== src/Targets/Differential.antt =====
-- targets/tokenizers_differential/harness/fuzz_fast_slow_divergence.py: two tokenizers are run on one
-- text, and what they make of it is compared. The tokenizers `slow` and `fast`, of transformers, and
-- the decoding of bytes are parameters.
pub mod Divergence
pub mod Selftest
pub mod Vocabulary
use mapfuzz.Base.{
  ℕ, Text, Bool, true, false, not, List, [], ◌∷◌, text_eq, ◌⊎◌, inl, inr, if◌then◌else◌,
}
use mapfuzz.Exceptions.{
  ExcClass, builtin, exception, assertion_error, Outcome, returned, raised, is_one_of,
}

-- the token ids, or `("EXC",)`
pub data Encoding : Type 0 where
  ids : List ℕ → Encoding
  exc : Encoding

-- `s != f`; lists of numbers are compared as texts are
unfoldable pub differ : Encoding → Encoding → Bool
differ (ids a) (ids b) = not (text_eq a b)
differ (ids a) exc = true
differ exc (ids b) = true
differ exc exc = false

-- one of the two `try` statements of `_encode_both`
unfoldable pub encoded : ExcClass ⊎ List ℕ → ExcClass ⊎ Encoding
encoded (inl e) = if is_one_of e (builtin exception ∷ []) then inr exc else inl e
encoded (inr a) = inr (ids a)

unfoldable pub both : ExcClass ⊎ Encoding → ExcClass ⊎ Encoding → ExcClass ⊎ (Encoding × Encoding)
both (inl e) f = inl e
both (inr s) (inl e) = inl e
both (inr s) (inr f) = inr (s, f)

-- the comparison in `TestOneInput`
unfoldable pub compared : ExcClass ⊎ (Encoding × Encoding) → Outcome
compared (inl e) = raised e
compared (inr (s, f)) = if differ s f then raised (builtin assertion_error) else returned

module _ (slow fast : Text → ExcClass ⊎ List ℕ) where
  -- `_encode_both`
  unfoldable pub encode_both : Text → ExcClass ⊎ (Encoding × Encoding)
  unfolding encoded both
  encode_both text = both (encoded (slow text)) (encoded (fast text))

  -- `TestOneInput`, on the decoded bytes
  unfoldable pub test_decoded : ExcClass ⊎ Text → Outcome
  unfolding encode_both compared
  test_decoded (inl e) = if is_one_of e (builtin exception ∷ []) then returned else raised e
  test_decoded (inr []) = returned
  test_decoded (inr (c ∷ text)) = compared (encode_both (c ∷ text))

  -- `TestOneInput`
  unfoldable pub test_one_input : (List ℕ → ExcClass ⊎ Text) → List ℕ → Outcome
  unfolding test_decoded
  test_one_input decode input = test_decoded (decode input)
