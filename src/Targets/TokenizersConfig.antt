-- ===== src/Targets/TokenizersConfig.antt =====
-- targets/tokenizers/harness/fuzz_config_stable.py: tokenizer configurations built from bytes at fixed
-- places, and which exceptions of the loader are recorded. `Tokenizer.from_str`, of tokenizers, and
-- Python's `json.dumps` are parameters. Bytes are numbers below 256.
pub mod Layout
pub mod Selftest
pub mod Reach
use mapfuzz.Base.{
  ℕ, zero, suc, ◌+◌, ◌-◌, ◌/◌, ◌%◌, Text, codes, Bool, true, false, List, [], ◌∷◌, ◌++◌, get_or,
  take, replicate, length, leb, ◌==◌, min, max, show_nat, text_eq, ◌⊎◌, inl, inr, ℤ, pos,
  if◌then◌else◌,
}
use mapfuzz.Json.{
  Json, null, boolean, integer, float, string, array, object, Items, no_items, item, Members,
  no_members, member, set_member,
}
use mapfuzz.Exceptions.{
  ExcClass, builtin, exception, recursion_error, Outcome, returned, raised, is_instance, is_one_of,
}

abbrev pub Bytes : Type 0
Bytes = List ℕ

-- `_MODELS`, `_DECODERS`, `_NORMALIZERS` and `_PRETOKS`
abbrev pub models : List Text
models = codes "BPE" ∷ codes "WordPiece" ∷ codes "WordLevel" ∷ codes "Unigram" ∷ []

abbrev pub decoders : List Text
decoders =
    codes "BPEDecoder"
    ∷ codes "ByteLevel"
    ∷ codes "WordPiece"
    ∷ codes "Metaspace"
    ∷ codes "CTC"
    ∷ codes "Sequence"
    ∷ codes "Replace"
    ∷ codes "Fuse"
    ∷ codes "Strip"
    ∷ codes "ByteFallback"
    ∷ []

abbrev pub normalizers : List Text
normalizers =
    codes "BertNormalizer"
    ∷ codes "Strip"
    ∷ codes "StripAccents"
    ∷ codes "NFC"
    ∷ codes "NFD"
    ∷ codes "NFKC"
    ∷ codes "NFKD"
    ∷ codes "Sequence"
    ∷ codes "Lowercase"
    ∷ codes "Nmt"
    ∷ codes "Precompiled"
    ∷ codes "Replace"
    ∷ []

abbrev pub pretoks : List Text
pretoks =
    codes "BertPreTokenizer"
    ∷ codes "ByteLevel"
    ∷ codes "Delimiter"
    ∷ codes "Metaspace"
    ∷ codes "Whitespace"
    ∷ codes "Sequence"
    ∷ codes "Split"
    ∷ codes "Punctuation"
    ∷ codes "WhitespaceSplit"
    ∷ codes "Digits"
    ∷ codes "UnicodeScripts"
    ∷ []

abbrev pub layout_len : ℕ
layout_len = 32

-- `_fixed`
unfoldable pub fixed : Bytes → Bytes
fixed input =
    if leb layout_len (length input)
    then take layout_len input
    else input ++ replicate (layout_len - length input) 0

-- `_size_class`
unfoldable pub size_class : ℕ → ℕ
size_class b = get_or (0 ∷ 1 ∷ 2 ∷ 8 ∷ 255 ∷ 4096 ∷ 65536 ∷ []) (b % 7) 0

-- the bits 0, 1 and 7 of a byte
unfoldable pub low_bit : ℕ → Bool
low_bit b = b % 2 == 1

unfoldable pub second_bit : ℕ → Bool
second_bit b = b / 2 % 2 == 1

unfoldable pub high_bit : ℕ → Bool
high_bit b = b / 128 % 2 == 1

-- `{str(i): i for i in range(…)}`, for `n` numbers from `i` on
unfoldable pub numbered : ℕ → ℕ → Members
numbered zero i = no_members
numbered (suc n) i = member (show_nat i) (integer (pos i)) (numbered n (suc i))

-- `-float(i)`, as it is written
unfoldable pub negated : ℕ → Text
negated i = b'-' ∷ (show_nat i ++ codes ".0")

-- `[[str(i), -float(i)] for i in range(…)]`
unfoldable pub scored : ℕ → ℕ → Items
unfolding negated
scored zero i = no_items
scored (suc n) i =
    item (array (item (string (show_nat i)) (item (float (negated i)) no_items))) (scored n (suc i))

unfoldable pub unk_id : ℕ → ℕ → Json
unk_id misc vsize = if vsize == 0 then null else integer (pos (misc % max vsize 1))

-- `_mk_model`
unfoldable pub mk_model : ℕ → ℕ → ℕ → Json
unfolding numbered scored unk_id size_class low_bit second_bit
mk_model sel vsize misc =
    let name = get_or models (sel % 4) [] in
    let vocab = object (numbered (min vsize 64) 0) in
    if text_eq name (codes "BPE")
    then object (
        member (codes "type") (string (codes "BPE")) (
          member (codes "vocab") vocab (
            member (codes "merges") (array no_items) (
              member (codes "dropout") null (
                member (codes "unk_token") null (
                  member (codes "continuing_subword_prefix") null (
                    member (codes "end_of_word_suffix") null (
                      member (codes "fuse_unk") (boolean (low_bit misc)) (
                        member (codes "byte_fallback") (boolean (second_bit misc))
                          no_members)))))))))
    else if text_eq name (codes "WordPiece")
    then object (
        member (codes "type") (string (codes "WordPiece")) (
          member (codes "vocab") vocab (
            member (codes "unk_token") (string (codes "[UNK]")) (
              member (codes "continuing_subword_prefix") (string (codes "##")) (
                member (codes "max_input_chars_per_word") (integer (pos (size_class misc)))
                  no_members)))))
    else if text_eq name (codes "WordLevel")
    then object (
        member (codes "type") (string (codes "WordLevel")) (
          member (codes "vocab") vocab
            (member (codes "unk_token") (string (codes "[UNK]")) no_members)))
    else object (
        member (codes "type") (string (codes "Unigram")) (
          member (codes "vocab") (array (scored (min vsize 32) 0)) (
            member (codes "unk_id") (unk_id misc vsize)
              (member (codes "byte_fallback") (boolean (low_bit misc)) no_members))))

-- `_mk_tagged`
unfoldable pub mk_tagged : Text → Json
mk_tagged name =
    let d = member (codes "type") (string name) no_members in
    object (
      if text_eq name (codes "Sequence")
      then set_member (codes "normalizers") (array no_items) d
      else d)

-- the added tokens, for `n` of them from the number `i` on
unfoldable pub added : ℕ → ℕ → Bool → Items
added zero i special = no_items
added (suc n) i special =
    item
      (object (
        member (codes "id") (integer (pos i)) (
          member (codes "content") (string (codes "[T" ++ (show_nat i ++ codes "]"))) (
            member (codes "special") (boolean special) (
              member (codes "single_word") (boolean false) (
                member (codes "lstrip") (boolean false) (
                  member (codes "rstrip") (boolean false)
                    (member (codes "normalized") (boolean false) no_members))))))))
      (added n (suc i) special)

-- the dictionary that `_build_config` starts with
abbrev pub initial : Json → Members
initial model = member (codes "version") (string (codes "1.0")) (
    member (codes "truncation") null (
      member (codes "padding") null (
        member (codes "added_tokens") (array no_items) (
          member (codes "normalizer") null (
            member (codes "pre_tokenizer") null (
              member (codes "post_processor") null
                (member (codes "decoder") null (member (codes "model") model no_members))))))))

-- `if b[…] & 0x80: cfg[k] = _mk_tagged(…)`
unfoldable pub when_high : ℕ → Text → Text → Members → Members
when_high b k name cfg = if high_bit b then set_member k (mk_tagged name) cfg else cfg

-- `_build_config`
unfoldable pub build_config : Bytes → Members
unfolding when_high mk_model added
build_config input =
    let b = fixed input in
    let b1 = get_or b 1 0 in
    let b2 = get_or b 2 0 in
    let b3 = get_or b 3 0 in
    let cfg = initial (mk_model (get_or b 0 0) (size_class (get_or b 6 0)) (get_or b 7 0)) in
    let cfg1 = when_high b1 (codes "normalizer") (get_or normalizers (b1 % 12) []) cfg in
    let cfg2 = when_high b2 (codes "pre_tokenizer") (get_or pretoks (b2 % 11) []) cfg1 in
    let cfg3 = when_high b3 (codes "decoder") (get_or decoders (b3 % 10) []) cfg2 in
    set_member (codes "added_tokens") (array (added (get_or b 5 0 % 5) 0 (low_bit (get_or b 4 0))))
      cfg3

module _ (dumps : Json → ExcClass ⊎ Text) (from_str : Text → Outcome) where
  -- the second `try`
  unfoldable pub loaded : Outcome → Outcome
  loaded returned = returned
  loaded (raised e) =
      if is_one_of e (builtin exception ∷ [])
      then (if is_instance e (builtin recursion_error) then raised e else returned)
      else raised e

  -- the first `try`, and what follows it
  unfoldable pub dumped : ExcClass ⊎ Text → Outcome
  unfolding loaded
  dumped (inl e) = if is_one_of e (builtin exception ∷ []) then returned else raised e
  dumped (inr text) = loaded (from_str text)

  -- `TestOneInput`
  unfoldable pub test_one_input : Bytes → Outcome
  unfolding dumped
  test_one_input input = dumped (dumps (object (build_config input)))
