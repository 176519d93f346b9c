-- ===== src/Triage/Parsers/Samples.antt =====
-- The reports under chassis/tests/fixtures, parsed.
use mapfuzz.Base.{
  Text, codes, ◌≡◌, refl, Option, some, ◌++◌, ◌∷◌, [], strip, lower, splitlines, contains, text_eq,
  is_space, is_letter, is_digit,
}
use mapfuzz.Regex.{search_in, find_all, group_of}
use mapfuzz.Triage.Signature.{Signature, basename_line, scrub, path_name, is_solid}
use mapfuzz.Triage.Parsers

-- `parse_report`, open for evaluation
unfoldable pub parsed : Text → Option Signature
unfolding Parsers.parse_report Parsers.first_of_parsers Parsers.parsers Parsers.parse_ubsan
    Parsers.parse_asan Parsers.ubsan_signature Parsers.asan_signature Parsers.asan_unlocated
    Parsers.assert_signature Parsers.panic_signature Parsers.signal_signature
    Parsers.parse_ggml_assert Parsers.parse_rust_panic Parsers.parse_python_traceback
    Parsers.parse_bare_signal Parsers.ubsan_class Parsers.rust_class Parsers.panic_message
    Parsers.python_signature Parsers.frame_location Parsers.frame_function Parsers.python_class
    Parsers.exception_detail Parsers.last_match search_in find_all group_of basename_line scrub
    path_name strip lower splitlines contains text_eq is_solid is_digit Parsers.is_inline
    Parsers.is_kind_char Parsers.is_function_char is_space is_letter Parsers.not_quote
    Parsers.is_name_start Parsers.is_name_char
parsed = Parsers.parse_report

abbrev pub fpe_report : Text
fpe_report =
    codes "==2517==ERROR: AddressSanitizer: FPE on unknown address 0x5d17cb1e2ab4"
    ++ 10
      ∷ codes
          "SUMMARY: AddressSanitizer: FPE /a/ggml/src/gguf.cpp:685:34 in gguf_init(gguf_reader const&)"

fpe_report-parsed :
    parsed fpe_report
    ≡ some (record {
      fault_class = codes "asan-fpe";
      location = codes "gguf.cpp:685";
      function = codes "gguf_init";
      detail = [];
    })
unfolding parsed
fpe_report-parsed = refl
