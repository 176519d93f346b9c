-- ===== src/Targets/TokenizersConfig/Selftest.antt =====
-- `_selftest` of the harness: a plain configuration must load, and of 256 generated ones it is counted
-- how many load. The sample that is printed first is left out but for the run of `json.dumps` on it.
use mapfuzz.Base.{
  ℕ, range_from, zero, suc, ◌+◌, ◌≡◌, refl, codes, Text, true, List, [], ◌∷◌, ◌⊎◌, inl, inr, length,
  arith, if◌then◌else◌, pos,
}
use mapfuzz.Json.{Json, null, integer, string, array, object, no_items, no_members, member}
use mapfuzz.Exceptions.{ExcClass, builtin, exception, Outcome, returned, raised, is_one_of}
use mapfuzz.Targets.TokenizersConfig.{Bytes, build_config, layout_len}

-- `bytes(range(_LAYOUT_LEN))`
abbrev pub base : Bytes
base = range_from 0 layout_len

-- `bytes([i]) + base` for the numbers from `i` on
abbrev pub variants : ℕ → ℕ → List Bytes
variants zero i = []
variants (suc n) i = (i ∷ base) ∷ variants n (suc i)

-- `good`
abbrev pub good : Json
good = object (
    member (codes "version") (string (codes "1.0")) (
      member (codes "truncation") null (
        member (codes "padding") null (
          member (codes "added_tokens") (array no_items) (
            member (codes "normalizer") null (
              member (codes "pre_tokenizer") null (
                member (codes "post_processor") null (
                  member (codes "decoder") null (
                    member (codes "model")
                      (object (
                        member (codes "type") (string (codes "WordLevel")) (
                          member (codes "vocab")
                            (object (member (codes "[UNK]") (integer (pos 0)) no_members))
                            (member (codes "unk_token") (string (codes "[UNK]")) no_members))))
                      no_members)))))))))

unfoldable pub variant_counted : Outcome → ExcClass ⊎ (ℕ × ℕ) → ExcClass ⊎ (ℕ × ℕ)
variant_counted returned (inl f) = inl f
variant_counted returned (inr (n, m)) = inr (n + 1, m)
variant_counted (raised e) (inl f) = if is_one_of e (builtin exception ∷ []) then inl f else inl e
variant_counted (raised e) (inr (n, m)) =
    if is_one_of e (builtin exception ∷ []) then inr (n, m + 1) else inl e

module _ (dumps : Json → ExcClass ⊎ Text) (from_str : Text → Outcome) where
  -- `Tokenizer.from_str(json.dumps(d))`
  unfoldable pub load_text : ExcClass ⊎ Text → Outcome
  load_text (inl e) = raised e
  load_text (inr text) = from_str text

  unfoldable pub load_config : Json → Outcome
  unfolding load_text
  load_config d = load_text (dumps d)

  -- the loop: `loaded` and `rejected`
  unfoldable pub variant_reach : List Bytes → ExcClass ⊎ (ℕ × ℕ)
  unfolding variant_counted load_config
  variant_reach [] = inr (0, 0)
  variant_reach (b ∷ bs) =
      variant_counted (load_config (object (build_config b))) (variant_reach bs)

  unfoldable pub after_loop : ExcClass ⊎ (ℕ × ℕ) → ExcClass ⊎ ℕ
  after_loop (inl e) = inl e
  after_loop (inr counts) = inr 0

  unfoldable pub after_good : Outcome → ExcClass ⊎ ℕ
  unfolding after_loop variant_reach
  after_good returned = after_loop (variant_reach (variants 256 0))
  after_good (raised e) = if is_one_of e (builtin exception ∷ []) then inr 1 else inl e

  unfoldable pub after_sample : ExcClass ⊎ Text → ExcClass ⊎ ℕ
  unfolding after_good
  after_sample (inl e) = inl e
  after_sample (inr text) = after_good (load_config good)

  -- `_selftest`: the status
  unfoldable pub tokenizers_selftest : ExcClass ⊎ ℕ
  unfolding after_sample
  tokenizers_selftest = after_sample (dumps (object (build_config base)))

  -- loading a configuration raises nothing outside `Exception`, as a panic would be
  abbrev pub NoPanic : Type 0
  NoPanic =
      (d : Json) (e : ExcClass)
      → load_config d ≡ raised e
      → is_one_of e (builtin exception ∷ []) ≡ true

  -- Every configuration is counted once.
  pub variant_reach-total :
      NoPanic
      → (bs : List Bytes)
      → (n : ℕ) × (m : ℕ) × (variant_reach bs ≡ inr (n, m)) × (n + m ≡ length bs)
  unfolding variant_reach variant_counted
  variant_reach-total only [] = (0, 0, refl, refl)
  variant_reach-total only (b ∷ bs) =
      let (n, m, e, q) = variant_reach-total only bs in
      let d = object (build_config b) in rw e (counted n m (length bs) q (load_config d) (only d))
    where
      counted :
          (n m k : ℕ)
          → n + m ≡ k
          → (o : Outcome)
          → ((e : ExcClass) → o ≡ raised e → is_one_of e (builtin exception ∷ []) ≡ true)
          → (n' : ℕ) × (m' : ℕ) × (variant_counted o (inr (n, m)) ≡ inr (n', m'))
            × (n' + m' ≡ suc k)
      counted n m k q returned h = (n + 1, m, refl, omega (arith, q))
      counted n m k q (raised e) h = rw (h e refl) (n, m + 1, refl, omega (arith, q))
