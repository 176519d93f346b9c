-- ===== src/Triage/Parsers/Classes.antt =====
-- What a parsed fault class is made of.
use mapfuzz.Base.{
  ℕ, Text, codes, Bool, true, ◌≡◌, refl, Option, none, some, List, [], ◌∷◌, ◌++◌, leb, ◌==◌, ◌||◌,
  ◌&&◌, arith, all, all-append, all-map, lower, lower_char, is_letter, is_digit, is_upper, subst,
}
use mapfuzz.Regex.{Regex, Match, group_of, search_in}
use mapfuzz.Regex.Captures.{GroupOnly, group_of-only}
use mapfuzz.Regex.Search.{search_in-FoundIn}
use mapfuzz.Triage.Signature.{Signature}
use mapfuzz.Triage.Parsers

-- small letters, digits, `-`, `_` and `.`
abbrev pub is_class_char : ℕ → Bool
is_class_char c =
    (leb b'a' c && leb c b'z')
    || (leb b'0' c && leb c b'9')
    || (c == b'-')
    || (c == b'_')
    || (c == b'.')

abbrev pub IsClassName : Text → Type 0
IsClassName t = all is_class_char t ≡ true

ubsan_class-IsClassName : (msg : Text) → IsClassName (Parsers.ubsan_class msg)
unfolding Parsers.ubsan_class all
ubsan_class-IsClassName msg = ground arith

rust_class-IsClassName : (low : Text) → IsClassName (Parsers.rust_class low)
unfolding Parsers.rust_class all
rust_class-IsClassName low = ground arith

lower_kind : (c : ℕ) → Parsers.is_kind_char c ≡ true → is_class_char (lower_char c) ≡ true
unfolding Parsers.is_kind_char lower_char is_letter is_digit is_upper
lower_kind c h = ground arith

lower_name : (c : ℕ) → Parsers.is_name_char c ≡ true → is_class_char (lower_char c) ≡ true
unfolding Parsers.is_name_char lower_char is_letter is_digit is_upper
lower_name c h = ground arith

prefixed-IsClassName :
    (ok : ℕ → Bool) (w t : Text)
    → ((c : ℕ) → ok c ≡ true → is_class_char (lower_char c) ≡ true)
    → IsClassName w
    → all ok t ≡ true
    → IsClassName (w ++ lower t)
unfolding lower
prefixed-IsClassName ok w t k h a =
    all-append is_class_char w (lower t) h (all-map is_class_char ok lower_char t k a)

asan_kind-only : GroupOnly Parsers.is_kind_char 1 Parsers.asan_kind
asan_kind-only = (tt, (tt, (λ _. (λ c h. h, λ c h. h), (tt, tt))))

-- a signature that carries a class name
abbrev HasClassName : Option Signature → Type 0
HasClassName none = Unit
HasClassName (some sig) = IsClassName sig.fault_class

ubsan-HasClassName : (o : Option Match) → HasClassName (Parsers.ubsan_signature o)
unfolding Parsers.ubsan_signature
ubsan-HasClassName none = tt
ubsan-HasClassName (some m) = ubsan_class-IsClassName (group_of 2 m)

asan_class-IsClassName :
    (r : Regex) (text : Text) (m : Match)
    → GroupOnly Parsers.is_kind_char 1 r
    → search_in r text ≡ some m
    → IsClassName (codes "asan-" ++ lower (group_of 1 m))
unfolding all
asan_class-IsClassName r text m o e =
    prefixed-IsClassName Parsers.is_kind_char (codes "asan-") (group_of 1 m) lower_kind refl
      (group_of-only Parsers.is_kind_char 1 (search_in-FoundIn r text m e).denotes o)

asan_pattern-only : GroupOnly Parsers.is_kind_char 1 Parsers.asan_pattern
asan_pattern-only = (
  asan_kind-only,
  (
    (tt, tt),
    (
      (λ e. absurd (omega arith), ((tt, tt), (tt, (tt, tt)))),
      ((tt, (tt, tt)), ((tt, tt), (tt, ((tt, tt), (λ e. absurd (omega arith), (tt, tt)))))),
    ),
  ),
)

asan_unlocated-HasClassName :
    (text : Text) (o : Option Match)
    → search_in Parsers.asan_kind text ≡ o
    → HasClassName (Parsers.asan_unlocated o)
unfolding Parsers.asan_unlocated
asan_unlocated-HasClassName text none e = tt
asan_unlocated-HasClassName text (some m) e =
    asan_class-IsClassName Parsers.asan_kind text m asan_kind-only e

asan-HasClassName :
    (text : Text) (o : Option Match)
    → search_in Parsers.asan_pattern text ≡ o
    → HasClassName (Parsers.asan_signature text o)
unfolding Parsers.asan_signature
asan-HasClassName text none e = asan_unlocated-HasClassName text _ refl
asan-HasClassName text (some m) e =
    asan_class-IsClassName Parsers.asan_pattern text m asan_pattern-only e

assert-HasClassName : (o : Option Match) → HasClassName (Parsers.assert_signature o)
unfolding Parsers.assert_signature all
assert-HasClassName none = tt
assert-HasClassName (some m) = refl

panic-HasClassName :
    (text : Text) (o : Option Match) → HasClassName (Parsers.panic_signature text o)
unfolding Parsers.panic_signature
panic-HasClassName text none = tt
panic-HasClassName text (some m) = rust_class-IsClassName _

signal-HasClassName : (o : Option Match) → HasClassName (Parsers.signal_signature o)
unfolding Parsers.signal_signature all
signal-HasClassName none = tt
signal-HasClassName (some m) = refl

name_start : (c : ℕ) → Parsers.is_name_start c ≡ true → Parsers.is_name_char c ≡ true
unfolding Parsers.is_name_start Parsers.is_name_char
name_start c h = ground arith

exception_pattern-only : GroupOnly Parsers.is_name_char 1 Parsers.exception_pattern
unfolding all Parsers.is_name_char is_letter is_digit is_upper
exception_pattern-only = (
  tt,
  (
    (λ _. ((λ c h. name_start c h, (λ c h. h, refl)), (refl, refl)), ((tt, (tt, tt)), (tt, tt))),
    (tt, ((λ e. absurd (omega arith), tt), tt)),
  ),
)

python_class-IsClassName :
    (text : Text) (o : Option Match)
    → search_in Parsers.exception_pattern text ≡ o
    → IsClassName (Parsers.python_class o)
unfolding Parsers.python_class all
python_class-IsClassName text none e = refl
python_class-IsClassName text (some m) e =
    let named =
      prefixed-IsClassName Parsers.is_name_char (codes "py-") (group_of 1 m) lower_name refl (
        group_of-only Parsers.is_name_char 1
          (search_in-FoundIn Parsers.exception_pattern text m e).denotes exception_pattern-only) in
    ground (arith, named)

python-HasClassName :
    (text : Text) (frame o : Option Match)
    → search_in Parsers.exception_pattern text ≡ o
    → HasClassName (Parsers.python_signature frame o)
unfolding Parsers.python_signature
python-HasClassName text none none e = tt
python-HasClassName text (some f) none e = python_class-IsClassName text none e
python-HasClassName text none (some m) e = python_class-IsClassName text (some m) e
python-HasClassName text (some f) (some m) e = python_class-IsClassName text (some m) e

-- one step of the loop of `parse_report`
first-HasClassName :
    (p : Text → Option Signature) (ps : List (Text → Option Signature)) (text : Text)
    → HasClassName (p text)
    → HasClassName (Parsers.first_of_parsers ps text)
    → HasClassName (Parsers.first_of_parsers (p ∷ ps) text)
unfolding Parsers.first_of_parsers
first-HasClassName p ps text h k = go (p text) h
  where
    go :
        (o : Option Signature)
        → HasClassName o
        → HasClassName (elim o [ some sig ↦ some sig | none ↦ Parsers.first_of_parsers ps text ])
    go none _ = k
    go (some sig) h = h

nothing_left : (text : Text) → HasClassName (Parsers.first_of_parsers [] text)
unfolding Parsers.first_of_parsers
nothing_left text = tt

parse_report-HasClassName : (text : Text) → HasClassName (Parsers.parse_report text)
unfolding Parsers.parse_report Parsers.parsers Parsers.parse_ubsan Parsers.parse_asan
    Parsers.parse_ggml_assert Parsers.parse_rust_panic Parsers.parse_python_traceback
    Parsers.parse_bare_signal
parse_report-HasClassName text = first-HasClassName _ _ text (ubsan-HasClassName _) (
    first-HasClassName _ _ text (asan-HasClassName text _ refl) (
      first-HasClassName _ _ text (assert-HasClassName _) (
        first-HasClassName _ _ text (panic-HasClassName text _) (
          first-HasClassName _ _ text (python-HasClassName text _ _ refl)
            (first-HasClassName _ _ text (signal-HasClassName _) (nothing_left text))))))

-- Whatever the report says, a parsed fault class holds small letters, digits, `-`, `_` and `.` only.
pub parse_report-IsClassName :
    (text : Text) (sig : Signature)
    → Parsers.parse_report text ≡ some sig
    → IsClassName sig.fault_class
parse_report-IsClassName text sig e = subst HasClassName e (parse_report-HasClassName text)
