-- ===== src/Triage/Parsers.antt =====
-- chassis/triage.py: the parsers of fault reports, and `parse_report`, which takes the first that
-- recognises the text.
pub mod Classes
pub mod Recognised
pub mod Asan
pub mod Kinds
pub mod Runtime
pub mod Stuck
pub mod Ubsan
pub mod Located
pub mod Samples
use mapfuzz.Base.{
  ℕ, Text, codes, Bool, true, false, Option, none, some, List, [], ◌∷◌, ◌++◌, leb, ◌==◌, ◌||◌, ◌&&◌,
  not, is_space, is_digit, is_letter, strip, lower, contains, text_eq, splitlines, if◌then◌else◌,
}
use mapfuzz.Regex.{
  Regex, set, literal, alt, optional, repeat, group, line_start, line_end, greedy, lazy, ◌⨾◌, plus,
  Match, group_of, search_in, find_all,
}
use mapfuzz.Triage.Signature.{
  Signature, basename_line, scrub, path_name, is_solid, one_digit, digits, colon,
}

-- `.`
unfoldable pub is_inline : ℕ → Bool
is_inline c = not (c == 10)

abbrev pub non_space : Regex
non_space = set is_solid

-- `[^\s]+:\d+`
abbrev pub place : Regex
place = plus greedy non_space ⨾ literal (codes ":") ⨾ digits

-- `(?::\d+)?`
abbrev pub column : Regex
column = optional (literal (codes ":") ⨾ digits)

abbrev pub spaces : Regex
spaces = repeat greedy (set is_space)

abbrev pub ubsan_pattern : Regex
ubsan_pattern =
    group 1 place
    ⨾ literal (codes ":")
    ⨾ digits
    ⨾ literal (codes ": runtime error: ")
    ⨾ group 2 (plus greedy (set is_inline))

pub ubsan_class : Text → Text
ubsan_class msg =
    if contains msg (codes "not a valid value for type")
    then codes "ubsan-invalid-enum"
    else if contains msg (codes "signed integer overflow")
        || contains msg (codes "cannot be represented")
    then codes "ubsan-int-overflow"
    else if contains msg (codes "division by zero")
    then codes "ubsan-div-zero"
    else if contains msg (codes "out of bounds") || contains msg (codes "index")
    then codes "ubsan-oob-index"
    else codes "ubsan-other"

abbrev pub unknown : Text
unknown = codes "unknown"

-- what each parser makes of its match
ubsan_signature : Option Match → Option Signature
ubsan_signature none = none
ubsan_signature (some m) = some (record {
  fault_class = ubsan_class (group_of 2 m);
  location = basename_line (group_of 1 m);
  function = [];
  detail = scrub (group_of 2 m);
})

-- `_parse_ubsan`
pub parse_ubsan : Text → Option Signature
parse_ubsan text = ubsan_signature (search_in ubsan_pattern text)

-- `[a-zA-Z0-9\-]`
unfoldable pub is_kind_char : ℕ → Bool
is_kind_char c = is_letter c || is_digit c || (c == b'-')

-- `[^\s(]`
unfoldable pub is_function_char : ℕ → Bool
is_function_char c = not (is_space c || (c == b'('))

abbrev pub asan_kind : Regex
asan_kind = literal (codes "AddressSanitizer:") ⨾ spaces ⨾ group 1 (plus greedy (set is_kind_char))

abbrev pub asan_pattern : Regex
asan_pattern =
    asan_kind
    ⨾ plus greedy (set is_space)
    ⨾ group 2 place
    ⨾ column
    ⨾ plus greedy (set is_space)
    ⨾ literal (codes "in")
    ⨾ plus greedy (set is_space)
    ⨾ group 3 (plus greedy (set is_function_char))

abbrev asan_class : Match → Text
asan_class m = codes "asan-" ++ lower (group_of 1 m)

asan_unlocated : Option Match → Option Signature
asan_unlocated none = none
asan_unlocated (some m) =
    some (record { fault_class = asan_class m; location = unknown; function = []; detail = [] })

asan_signature : Text → Option Match → Option Signature
asan_signature text none = asan_unlocated (search_in asan_kind text)
asan_signature text (some m) = some (record {
  fault_class = asan_class m;
  location = basename_line (group_of 2 m);
  function = group_of 3 m;
  detail = [];
})

-- `_parse_asan`
pub parse_asan : Text → Option Signature
parse_asan text = asan_signature text (search_in asan_pattern text)

abbrev pub assert_pattern : Regex
assert_pattern =
    group 1 place
    ⨾ literal (codes ":")
    ⨾ spaces
    ⨾ literal (codes "GGML_ASSERT(")
    ⨾ group 2 (plus lazy (set is_inline))
    ⨾ literal (codes ")")
    ⨾ spaces
    ⨾ literal (codes "failed")

assert_signature : Option Match → Option Signature
assert_signature none = none
assert_signature (some m) = some (record {
  fault_class = codes "assertion-abort";
  location = basename_line (group_of 1 m);
  function = [];
  detail = scrub (group_of 2 m);
})

-- `_parse_ggml_assert`
pub parse_ggml_assert : Text → Option Signature
parse_ggml_assert text = assert_signature (search_in assert_pattern text)

abbrev pub panic_pattern : Regex
panic_pattern = literal (codes "panicked at ") ⨾ group 1 place ⨾ column

-- the loop over the lines behind the match
panic_message : List Text → Text
panic_message [] = []
panic_message (line ∷ tail) = if text_eq (strip line) [] then panic_message tail else scrub line

rust_class : Text → Text
rust_class low =
    if contains low (codes "unwrap")
      || contains low (codes "expect")
      || contains low (codes "called `option::unwrap`")
    then codes "rust-panic-unwrap"
    else if contains low (codes "index out of bounds") || contains low (codes "slice")
    then codes "rust-panic-index"
    else if contains low (codes "overflow")
    then codes "rust-panic-overflow"
    else codes "rust-panic"

panic_signature : Text → Option Match → Option Signature
panic_signature text none = none
panic_signature text (some m) =
    let detail = panic_message (splitlines m.rest) in
    some (record {
      fault_class = rust_class (lower (detail ++ text));
      location = basename_line (group_of 1 m);
      function = [];
      detail = detail;
    })

-- `_parse_rust_panic`
pub parse_rust_panic : Text → Option Signature
parse_rust_panic text = panic_signature text (search_in panic_pattern text)

unfoldable pub not_quote : ℕ → Bool
not_quote c = not (c == 34)

abbrev pub frame_pattern : Regex
frame_pattern =
    literal (codes "File \"")
    ⨾ group 1 (plus greedy (set not_quote))
    ⨾ literal (codes "\", line ")
    ⨾ group 2 digits
    ⨾ literal (codes ", in ")
    ⨾ group 3 (plus greedy non_space)

-- `[A-Za-z_]` and `[A-Za-z0-9_.]`
unfoldable pub is_name_start : ℕ → Bool
is_name_start c = is_letter c || (c == b'_')

unfoldable pub is_name_char : ℕ → Bool
is_name_char c = is_letter c || is_digit c || (c == b'_') || (c == b'.')

abbrev pub exception_pattern : Regex
exception_pattern =
    line_start
    ⨾ group 1 (
        alt (set is_name_start ⨾ repeat greedy (set is_name_char) ⨾ literal (codes "Error"))
          (alt (literal (codes "Exception")) (literal (codes "RecursionError"))))
    ⨾ literal (codes ":")
    ⨾ group 2 (repeat greedy (set is_inline))
    ⨾ line_end

unfoldable pub last_match : List Match → Option Match
last_match [] = none
last_match (m ∷ []) = some m
last_match (_ ∷ m ∷ ms) = last_match (m ∷ ms)

frame_location : Option Match → Text
frame_location none = unknown
frame_location (some m) = path_name (group_of 1 m) ++ colon ∷ group_of 2 m

frame_function : Option Match → Text
frame_function none = []
frame_function (some m) = group_of 3 m

python_class : Option Match → Text
python_class none = codes "py-exception"
python_class (some m) =
    if text_eq (group_of 1 m) (codes "RecursionError")
    then codes "py-recursion"
    else if text_eq (group_of 1 m) (codes "MemoryError")
    then codes "py-memory"
    else codes "py-" ++ lower (group_of 1 m)

exception_detail : Option Match → Text
exception_detail none = []
exception_detail (some m) = scrub (group_of 2 m)

python_signature : Option Match → Option Match → Option Signature
python_signature none none = none
python_signature frame exc = some (record {
  fault_class = python_class exc;
  location = frame_location frame;
  function = frame_function frame;
  detail = exception_detail exc;
})

-- `_parse_python_traceback`
pub parse_python_traceback : Text → Option Signature
parse_python_traceback text =
    python_signature (last_match (find_all frame_pattern text)) (search_in exception_pattern text)

abbrev pub signal_pattern : Regex
signal_pattern = alt (literal (codes "SIGSEGV")) (
    alt (literal (codes "Segmentation fault"))
      (alt (literal (codes "deadly signal")) (literal (codes "SIGABRT"))))

signal_signature : Option Match → Option Signature
signal_signature none = none
signal_signature (some m) =
    some (record {
      fault_class = codes "native-signal";
      location = unknown;
      function = [];
      detail = [];
    })

-- `_parse_bare_signal`
pub parse_bare_signal : Text → Option Signature
parse_bare_signal text = signal_signature (search_in signal_pattern text)

-- `_PARSERS`
parsers : List (Text → Option Signature)
parsers =
    parse_ubsan ∷ parse_asan ∷ parse_ggml_assert ∷ parse_rust_panic ∷ parse_python_traceback
    ∷ parse_bare_signal ∷ []

-- the loop of `parse_report`
first_of_parsers : List (Text → Option Signature) → Text → Option Signature
first_of_parsers [] text = none
first_of_parsers (p ∷ ps) text =
    let later = first_of_parsers ps text in elim (p text) [ some sig ↦ some sig | none ↦ later ]

pub parse_report : Text → Option Signature
parse_report = first_of_parsers parsers
