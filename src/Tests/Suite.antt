-- ===== src/Tests/Suite.antt =====
-- chassis/tests/test_triage.py: the assertions about the reports of chassis/tests/fixtures.
use mapfuzz.Triage.Parsers.Located.{file_path, ubsan_report, parse_report-ubsan}
use mapfuzz.Triage.Parsers.{ubsan_class, is_inline, parse_report}
use mapfuzz.Triage.Signature.{scrub, is_path_char}
use mapfuzz.Base.{is_digit}
use mapfuzz.Base.{
  all, is_space, is_letter, contains, starts_with, any, lower, join, lstrip, Elem, ◌++◌, ◌≡◌, inl,
  inr,
}
use mapfuzz.Triage.Parsers.{is_kind_char, parse_asan}
use mapfuzz.Triage.Parsers.Samples.{parsed}
use mapfuzz.Triage.Parsers.Kinds.{named_kinds, parse_asan-named_kinds}
use mapfuzz.Triage.Inputs.Listing.{IsInput}
use mapfuzz.Triage.Main.{run_main}
use mapfuzz.Triage.Main.Corruption.{run_main-corruption}
use mapfuzz.Base.{
  ℕ, Text, codes, ◌≡◌, refl, some, List, [], ◌∷◌, text_eq, starts_with, true, if◌then◌else◌, any,
}
use mapfuzz.Base.Sorting.{sort_by, text_lt}
use mapfuzz.Triage.Signature.{Signature, key}
use mapfuzz.Triage.Classify.{real, shallow, review, classify}
use mapfuzz.Triage.Dedup.{
  Bucket, Report, Seen, dedup, collect, add_parsed, change, set_default, note, empty_seen,
}
use mapfuzz.Triage.Inputs.{Node, directory, iter_inputs}
use mapfuzz.Tests.Fixtures.{
  gguf_assert_194, gguf_assert_194_sig, gguf_assert_194-parsed, gguf_fpe_1, gguf_fpe_1_sig,
  gguf_fpe_1-parsed, gguf_fpe_2, gguf_fpe_2_sig, gguf_fpe_2-parsed, gguf_ubsan_enum_575_a,
  gguf_ubsan_enum_575_a_sig, gguf_ubsan_enum_575_a-parsed, gguf_ubsan_enum_575_b,
  gguf_ubsan_enum_575_b_sig, gguf_ubsan_enum_575_b-parsed, gguf_ubsan_enum_705,
  gguf_ubsan_enum_705_sig, gguf_ubsan_enum_705-parsed, pytorch_segfault, pytorch_segfault_sig,
  pytorch_segfault-parsed, synthetic_heap_overflow, synthetic_heap_overflow_sig,
  synthetic_heap_overflow-parsed, tokenizers_panic_90, tokenizers_panic_90_sig,
  tokenizers_panic_90-parsed,
}

abbrev fixtures : Text → Node
fixtures p = directory (
    (codes "tokenizers_panic_90.txt", some tokenizers_panic_90)
    ∷ (codes "synthetic_heap_overflow.txt", some synthetic_heap_overflow)
    ∷ (codes "pytorch_segfault.txt", some pytorch_segfault)
    ∷ (codes "gguf_ubsan_enum_705.txt", some gguf_ubsan_enum_705)
    ∷ (codes "gguf_ubsan_enum_575_b.txt", some gguf_ubsan_enum_575_b)
    ∷ (codes "gguf_ubsan_enum_575_a.txt", some gguf_ubsan_enum_575_a)
    ∷ (codes "gguf_fpe_2.txt", some gguf_fpe_2)
    ∷ (codes "gguf_fpe_1.txt", some gguf_fpe_1)
    ∷ (codes "gguf_assert_194.txt", some gguf_assert_194)
    ∷ [])

abbrev reports : List Report
reports =
    (codes "gguf_assert_194.txt", gguf_assert_194)
    ∷ (codes "gguf_fpe_1.txt", gguf_fpe_1)
    ∷ (codes "gguf_fpe_2.txt", gguf_fpe_2)
    ∷ (codes "gguf_ubsan_enum_575_a.txt", gguf_ubsan_enum_575_a)
    ∷ (codes "gguf_ubsan_enum_575_b.txt", gguf_ubsan_enum_575_b)
    ∷ (codes "gguf_ubsan_enum_705.txt", gguf_ubsan_enum_705)
    ∷ (codes "pytorch_segfault.txt", pytorch_segfault)
    ∷ (codes "synthetic_heap_overflow.txt", synthetic_heap_overflow)
    ∷ (codes "tokenizers_panic_90.txt", tokenizers_panic_90)
    ∷ []

listed : iter_inputs fixtures [] (codes "fixtures" ∷ []) ≡ reports
unfolding iter_inputs starts_with sort_by text_lt
listed = refl

-- what `dedup` sees of the reports
abbrev found : List (Text × Signature)
found =
    (codes "gguf_assert_194.txt", gguf_assert_194_sig)
    ∷ (codes "gguf_fpe_1.txt", gguf_fpe_1_sig)
    ∷ (codes "gguf_fpe_2.txt", gguf_fpe_2_sig)
    ∷ (codes "gguf_ubsan_enum_575_a.txt", gguf_ubsan_enum_575_a_sig)
    ∷ (codes "gguf_ubsan_enum_575_b.txt", gguf_ubsan_enum_575_b_sig)
    ∷ (codes "gguf_ubsan_enum_705.txt", gguf_ubsan_enum_705_sig)
    ∷ (codes "pytorch_segfault.txt", pytorch_segfault_sig)
    ∷ (codes "synthetic_heap_overflow.txt", synthetic_heap_overflow_sig)
    ∷ (codes "tokenizers_panic_90.txt", tokenizers_panic_90_sig)
    ∷ []

abbrev add_all : List (Text × Signature) → Seen → Seen
unfolding add_parsed
add_all [] s = s
add_all ((source, sig) ∷ rest) s = add_all rest (add_parsed source (some sig) s)

seen : collect reports empty_seen ≡ add_all found empty_seen
unfolding collect add_all
seen =
    rw
      (
        gguf_assert_194-parsed, gguf_fpe_1-parsed, gguf_fpe_2-parsed, gguf_ubsan_enum_575_a-parsed,
        gguf_ubsan_enum_575_b-parsed, gguf_ubsan_enum_705-parsed, pytorch_segfault-parsed,
        synthetic_heap_overflow-parsed, tokenizers_panic_90-parsed,
      )
      refl

abbrev count_of : Text → List Bucket → ℕ
unfolding text_eq
count_of k [] = 0
count_of k (b ∷ bs) = if text_eq (key b.signature) k then b.count else count_of k bs

-- `test_dedup_collapses_by_location`
dedup_collapses :
    (count_of (codes "asan-fpe@gguf.cpp:685") (dedup reports).0 ≡ 2)
    × (count_of (codes "ubsan-invalid-enum@gguf.cpp:575") (dedup reports).0 ≡ 2)
    × ((dedup reports).1 ≡ [])
unfolding dedup count_of add_all change set_default key note
dedup_collapses = rw seen (refl, refl, refl)

-- `test_classification_matches_session_judgments`; the class and the location of the panic stand in
-- the signatures above
classified :
    ((classify gguf_ubsan_enum_705_sig).0 ≡ shallow)
    × ((classify gguf_assert_194_sig).0 ≡ shallow)
    × ((classify tokenizers_panic_90_sig).0 ≡ real)
    × ((classify synthetic_heap_overflow_sig).0 ≡ real)
    × ((classify pytorch_segfault_sig).0 ≡ real)
    × ((classify gguf_fpe_1_sig).0 ≡ review)
unfolding classify any starts_with text_eq
classified = (refl, refl, refl, refl, refl, refl)

-- `test_location_and_class_extraction`, as far as the signatures do not say it
function_prefix : starts_with gguf_fpe_1_sig.function (codes "gguf_init_from_reader") ≡ true
unfolding starts_with
function_prefix = refl

overflow-IsInput :
    IsInput fixtures []
      (codes "fixtures" ∷ [])
      (codes "synthetic_heap_overflow.txt", synthetic_heap_overflow)
unfolding starts_with
overflow-IsInput = inl (codes "fixtures", inl refl, (λ h. cc), inr (inl refl))

run_main-corruption_example :
    (run_main (join (codes ", ")) fixtures [] (codes "fixtures" ∷ [])).1 ≡ 1
unfolding all is_space is_kind_char is_letter contains starts_with any named_kinds lower lstrip
run_main-corruption_example =
    run_main-corruption (join (codes ", ")) fixtures [] (codes "fixtures" ∷ [])
      (codes "synthetic_heap_overflow.txt", synthetic_heap_overflow) (codes "==999==ERROR: ")
      (codes " ")
      (codes "eap-buffer-overflow on address 0xdeadbeef"
        ++ 10
          ∷ (codes
                "SUMMARY: AddressSanitizer: heap-buffer-overflow /src/parser.c:412:9 in parse_header"
              ++ 10 ∷ []))
      b'h' overflow-IsInput refl refl refl refl (refl, (refl, tt))

gguf_fpe_1-asan : parse_asan gguf_fpe_1 ≡ some gguf_fpe_1_sig
unfolding parsed
gguf_fpe_1-asan = refl

parse_asan-named_kinds_example :
    (k : Text) × Elem k (named_kinds gguf_fpe_1)
    × (gguf_fpe_1_sig.fault_class ≡ codes "asan-" ++ lower k)
parse_asan-named_kinds_example = parse_asan-named_kinds gguf_fpe_1 gguf_fpe_1_sig gguf_fpe_1-asan

parse_report-ubsan_example :
    parse_report (
      ubsan_report
        (file_path b'x' (codes "/ggml/src") b'g' (codes "guf.cpp"))
        (codes "575")
        (codes "17")
        (codes "load of value 4294967295, which is not a valid value for type 'gguf_type'"
          ++ 10 ∷ []))
    ≡ some (record {
      fault_class =
          ubsan_class
            (codes "load of value 4294967295, which is not a valid value for type 'gguf_type'");
      location = codes "gguf.cpp:575";
      function = [];
      detail =
          scrub (codes "load of value 4294967295, which is not a valid value for type 'gguf_type'");
    })
unfolding all is_path_char is_digit is_inline
parse_report-ubsan_example =
    parse_report-ubsan b'x' (codes "/ggml/src") b'g' (codes "guf.cpp") b'5' (codes "75") b'1'
      (codes "7") b'l'
      (codes "oad of value 4294967295, which is not a valid value for type 'gguf_type'") (10 ∷ [])
      refl refl refl refl refl refl refl
