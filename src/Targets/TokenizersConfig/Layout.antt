-- ===== src/Targets/TokenizersConfig/Layout.antt =====
-- The layout is stable: each member of the configuration is read from bytes of its own.
use mapfuzz.Base.{
  ℕ, ◌<◌, ◌%◌, ◌≡◌, ◌≢◌, refl, sym, ap, ◌∙◌, Text, codes, text_eq, Option, none, some, [], length,
  get_or, set, get_or-set_ne, get_or-take, get_or-pad, leb, ◌==◌, ◌||◌, if◌then◌else◌, arith,
  Bool-cases, inl, inr,
}
use mapfuzz.Json.{Json, null, string, array, Members, no_members, member, set_member, get_member}
use mapfuzz.Targets.TokenizersConfig.{
  Bytes, layout_len, fixed, size_class, high_bit, low_bit, mk_model, mk_tagged, added, when_high,
  normalizers, pretoks, decoders, build_config,
}

-- what the byte for a component selects
abbrev pub chosen : ℕ → Text → Json
chosen b name = if high_bit b then mk_tagged name else null

-- the configuration, written out
abbrev pub config_of : Json → Json → Json → Json → Json → Members
config_of tokens normalizer pre_tokenizer decoder model =
    member (codes "version") (string (codes "1.0")) (
      member (codes "truncation") null (
        member (codes "padding") null (
          member (codes "added_tokens") tokens (
            member (codes "normalizer") normalizer (
              member (codes "pre_tokenizer") pre_tokenizer (
                member (codes "post_processor") null
                  (member (codes "decoder") decoder (member (codes "model") model no_members))))))))

with_normalizer :
    (b : ℕ) (name : Text) (t p d m : Json)
    → when_high b (codes "normalizer") name (config_of t null p d m)
      ≡ config_of t (chosen b name) p d m
unfolding when_high set_member text_eq
with_normalizer b name t p d m = elim (Bool-cases (high_bit b)) [
  | inl h ↦ rw h refl
  | inr h ↦ rw h refl
]

with_pre_tokenizer :
    (b : ℕ) (name : Text) (t n d m : Json)
    → when_high b (codes "pre_tokenizer") name (config_of t n null d m)
      ≡ config_of t n (chosen b name) d m
unfolding when_high set_member text_eq
with_pre_tokenizer b name t n d m = elim (Bool-cases (high_bit b)) [
  | inl h ↦ rw h refl
  | inr h ↦ rw h refl
]

with_decoder :
    (b : ℕ) (name : Text) (t n p m : Json)
    → when_high b (codes "decoder") name (config_of t n p null m)
      ≡ config_of t n p (chosen b name) m
unfolding when_high set_member text_eq
with_decoder b name t n p m = elim (Bool-cases (high_bit b)) [
  | inl h ↦ rw h refl
  | inr h ↦ rw h refl
]

with_tokens :
    (x t n p d m : Json)
    → set_member (codes "added_tokens") x (config_of t n p d m) ≡ config_of x n p d m
unfolding set_member text_eq
with_tokens x t n p d m = refl

-- the configuration of the padded bytes
abbrev pub config : Bytes → Members
config b =
    config_of (array (added (get_or b 5 0 % 5) 0 (low_bit (get_or b 4 0))))
      (chosen (get_or b 1 0) (get_or normalizers (get_or b 1 0 % 12) []))
      (chosen (get_or b 2 0) (get_or pretoks (get_or b 2 0 % 11) []))
      (chosen (get_or b 3 0) (get_or decoders (get_or b 3 0 % 10) []))
      (mk_model (get_or b 0 0) (size_class (get_or b 6 0)) (get_or b 7 0))

-- Whatever the bytes, the configuration has its nine members in one order, each read from the padded
-- bytes by a formula of its own.
pub build_config_lem : (input : Bytes) → build_config input ≡ config (fixed input)
unfolding build_config
build_config_lem input =
    rw (with_normalizer _ _ _ _ _ _, with_pre_tokenizer _ _ _ _ _ _, with_decoder _ _ _ _ _ _)
      (with_tokens _ _ _ _ _ _)

pub data Key : Type 0 where
  added_tokens normalizer pre_tokenizer post_processor decoder model : Key

abbrev pub key_name : Key → Text
key_name added_tokens = codes "added_tokens"
key_name normalizer = codes "normalizer"
key_name pre_tokenizer = codes "pre_tokenizer"
key_name post_processor = codes "post_processor"
key_name decoder = codes "decoder"
key_name model = codes "model"

-- the member that the byte at a place belongs to
unfoldable pub key_at : ℕ → Option Key
key_at i =
    if (i == 0) || (i == 6) || (i == 7)
    then some model
    else if i == 1
    then some normalizer
    else if i == 2
    then some pre_tokenizer
    else if i == 3
    then some decoder
    else if (i == 4) || (i == 5)
    then some added_tokens
    else none

fixed_get : (input : Bytes) (j : ℕ) → j < 32 → get_or (fixed input) j 0 ≡ get_or input j 0
unfolding fixed
fixed_get input j h = elim (Bool-cases (leb layout_len (length input))) [
  | inl e ↦ rw e (get_or-take 0 32 input j h)
  | inr e ↦ rw e (get_or-pad 0 input _ j)
]

-- Two byte strings agree at the places of a member.
abbrev AgreeOn : Key → Bytes → Bytes → Type 0
AgreeOn k b c = (j : ℕ) → j < 8 → key_at j ≡ some k → get_or b j 0 ≡ get_or c j 0

AgreeOn-member :
    (k : Key) (b c : Bytes)
    → AgreeOn k b c
    → get_member (key_name k) (config b) ≡ get_member (key_name k) (config c)
unfolding get_member text_eq key_at
AgreeOn-member added_tokens b c h = rw (h 4 (omega arith) refl, h 5 (omega arith) refl) refl
AgreeOn-member normalizer b c h = rw (h 1 (omega arith) refl) refl
AgreeOn-member pre_tokenizer b c h = rw (h 2 (omega arith) refl) refl
AgreeOn-member post_processor b c h = refl
AgreeOn-member decoder b c h = rw (h 3 (omega arith) refl) refl
AgreeOn-member model b c h =
    rw (h 0 (omega arith) refl, h 6 (omega arith) refl, h 7 (omega arith) refl) refl

-- Changing one byte leaves every member of the configuration alone but the one that the byte belongs
-- to. The bytes of the value pool and those behind the layout belong to none, and no byte belongs to
-- the post-processor.
pub one_byte-one_member :
    (input : Bytes) (i v : ℕ) (k : Key)
    → key_at i ≢ some k
    → get_member (key_name k) (build_config (set input i v))
      ≡ get_member (key_name k) (build_config input)
one_byte-one_member input i v k other =
    rw (build_config_lem (set input i v), build_config_lem input)
      (AgreeOn-member k (fixed (set input i v)) (fixed input) λ j low mine.
        fixed_get (set input i v) j (omega arith)
        ∙ get_or-set_ne 0 input i j v (λ e. other (ap key_at e ∙ mine))
        ∙ sym (fixed_get input j (omega arith)))
