-- ===== src/Tests/Fixtures.antt =====
-- The reports of chassis/tests/fixtures, and what is parsed of them.
use mapfuzz.Base.{Text, codes, ◌≡◌, refl, some, [], ◌∷◌, ◌++◌}
use mapfuzz.Triage.Signature.{Signature}
use mapfuzz.Triage.Parsers.{parse_report}
use mapfuzz.Triage.Parsers.Samples.{parsed}

abbrev pub gguf_assert_194 : Text
gguf_assert_194 =
    (codes
        "/home/stratomarco/mapfuzz/targets/gguf/.build/llama.cpp/ggml/src/gguf.cpp:194: GGML_ASSERT(type_to_gguf_type<T>::value == type) failed"
      ++ 10 ∷ (codes "==115512== ERROR: libFuzzer: deadly signal" ++ 10 ∷ []))

abbrev pub gguf_assert_194_sig : Signature
gguf_assert_194_sig = record {
  fault_class = codes "assertion-abort";
  location = codes "gguf.cpp:194";
  function = [];
  detail = codes "type_to_gguf_type<T>::value == type";
}

pub gguf_assert_194-parsed : parse_report gguf_assert_194 ≡ some gguf_assert_194_sig
unfolding parsed
gguf_assert_194-parsed = opened
  where
    opened : parsed gguf_assert_194 ≡ some gguf_assert_194_sig
    opened = refl

abbrev pub gguf_fpe_1 : Text
gguf_fpe_1 =
    (codes "==2517==ERROR: AddressSanitizer: FPE on unknown address 0x5d17cb1e2ab4"
      ++ 10
        ∷ (codes
              "SUMMARY: AddressSanitizer: FPE /home/stratomarco/mapfuzz/targets/gguf/.build/llama.cpp/ggml/src/gguf.cpp:685:34 in gguf_init_from_reader(gguf_reader const&, gguf_init_params)"
            ++ 10 ∷ []))

abbrev pub gguf_fpe_1_sig : Signature
gguf_fpe_1_sig = record {
  fault_class = codes "asan-fpe";
  location = codes "gguf.cpp:685";
  function = codes "gguf_init_from_reader";
  detail = [];
}

pub gguf_fpe_1-parsed : parse_report gguf_fpe_1 ≡ some gguf_fpe_1_sig
unfolding parsed
gguf_fpe_1-parsed = opened
  where
    opened : parsed gguf_fpe_1 ≡ some gguf_fpe_1_sig
    opened = refl

abbrev pub gguf_fpe_2 : Text
gguf_fpe_2 =
    (codes
        "SUMMARY: AddressSanitizer: FPE /a/b/ggml/src/gguf.cpp:685:34 in gguf_init_from_reader(gguf_reader const&, gguf_init_params)"
      ++ 10 ∷ [])

abbrev pub gguf_fpe_2_sig : Signature
gguf_fpe_2_sig = record {
  fault_class = codes "asan-fpe";
  location = codes "gguf.cpp:685";
  function = codes "gguf_init_from_reader";
  detail = [];
}

pub gguf_fpe_2-parsed : parse_report gguf_fpe_2 ≡ some gguf_fpe_2_sig
unfolding parsed
gguf_fpe_2-parsed = opened
  where
    opened : parsed gguf_fpe_2 ≡ some gguf_fpe_2_sig
    opened = refl

abbrev pub gguf_ubsan_enum_575_a : Text
gguf_ubsan_enum_575_a =
    (codes
        "/home/stratomarco/mapfuzz/targets/gguf/.build/llama.cpp/ggml/src/gguf.cpp:575:17: runtime error: load of value 249, which is not a valid value for type 'gguf_type'"
      ++ 10 ∷ [])

abbrev pub gguf_ubsan_enum_575_a_sig : Signature
gguf_ubsan_enum_575_a_sig = record {
  fault_class = codes "ubsan-invalid-enum";
  location = codes "gguf.cpp:575";
  function = [];
  detail = codes "load of value N, which is not a valid value for type 'gguf_type'";
}

pub gguf_ubsan_enum_575_a-parsed :
    parse_report gguf_ubsan_enum_575_a ≡ some gguf_ubsan_enum_575_a_sig
unfolding parsed
gguf_ubsan_enum_575_a-parsed = opened
  where
    opened : parsed gguf_ubsan_enum_575_a ≡ some gguf_ubsan_enum_575_a_sig
    opened = refl

abbrev pub gguf_ubsan_enum_575_b : Text
gguf_ubsan_enum_575_b =
    (codes
        "/x/ggml/src/gguf.cpp:575:17: runtime error: load of value 4294967295, which is not a valid value for type 'gguf_type'"
      ++ 10 ∷ [])

abbrev pub gguf_ubsan_enum_575_b_sig : Signature
gguf_ubsan_enum_575_b_sig = record {
  fault_class = codes "ubsan-invalid-enum";
  location = codes "gguf.cpp:575";
  function = [];
  detail = codes "load of value N, which is not a valid value for type 'gguf_type'";
}

pub gguf_ubsan_enum_575_b-parsed :
    parse_report gguf_ubsan_enum_575_b ≡ some gguf_ubsan_enum_575_b_sig
unfolding parsed
gguf_ubsan_enum_575_b-parsed = opened
  where
    opened : parsed gguf_ubsan_enum_575_b ≡ some gguf_ubsan_enum_575_b_sig
    opened = refl

abbrev pub gguf_ubsan_enum_705 : Text
gguf_ubsan_enum_705 =
    (codes
        "/x/ggml/src/gguf.cpp:705:24: runtime error: load of value 671088640, which is not a valid value for type 'enum ggml_type'"
      ++ 10 ∷ [])

abbrev pub gguf_ubsan_enum_705_sig : Signature
gguf_ubsan_enum_705_sig = record {
  fault_class = codes "ubsan-invalid-enum";
  location = codes "gguf.cpp:705";
  function = [];
  detail = codes "load of value N, which is not a valid value for type 'enum ggml_type'";
}

pub gguf_ubsan_enum_705-parsed : parse_report gguf_ubsan_enum_705 ≡ some gguf_ubsan_enum_705_sig
unfolding parsed
gguf_ubsan_enum_705-parsed = opened
  where
    opened : parsed gguf_ubsan_enum_705 ≡ some gguf_ubsan_enum_705_sig
    opened = refl

abbrev pub pytorch_segfault : Text
pytorch_segfault =
    (codes "==123== ERROR: libFuzzer: deadly signal"
      ++ 10 ∷ (codes "Segmentation fault (core dumped)" ++ 10 ∷ []))

abbrev pub pytorch_segfault_sig : Signature
pytorch_segfault_sig = record {
  fault_class = codes "native-signal";
  location = codes "unknown";
  function = [];
  detail = [];
}

pub pytorch_segfault-parsed : parse_report pytorch_segfault ≡ some pytorch_segfault_sig
unfolding parsed
pytorch_segfault-parsed = opened
  where
    opened : parsed pytorch_segfault ≡ some pytorch_segfault_sig
    opened = refl

abbrev pub synthetic_heap_overflow : Text
synthetic_heap_overflow =
    (codes "==999==ERROR: AddressSanitizer: heap-buffer-overflow on address 0xdeadbeef"
      ++ 10
        ∷ (codes
              "SUMMARY: AddressSanitizer: heap-buffer-overflow /src/parser.c:412:9 in parse_header"
            ++ 10 ∷ []))

abbrev pub synthetic_heap_overflow_sig : Signature
synthetic_heap_overflow_sig = record {
  fault_class = codes "asan-heap-buffer-overflow";
  location = codes "parser.c:412";
  function = codes "parse_header";
  detail = [];
}

pub synthetic_heap_overflow-parsed :
    parse_report synthetic_heap_overflow ≡ some synthetic_heap_overflow_sig
unfolding parsed
synthetic_heap_overflow-parsed = opened
  where
    opened : parsed synthetic_heap_overflow ≡ some synthetic_heap_overflow_sig
    opened = refl

abbrev pub tokenizers_panic_90 : Text
tokenizers_panic_90 =
    (codes
        "thread '<unnamed>' (136819) panicked at /home/stratomarco/.cargo/registry/src/index.crates.io-1949cf8c6b5b557f/tokenizers-0.21.4/src/decoders/mod.rs:90:63:"
      ++ 10 ∷ (codes "called `Result::expect()` on an `Err` value: Error(\"Helper\")" ++ 10 ∷ []))

abbrev pub tokenizers_panic_90_sig : Signature
tokenizers_panic_90_sig = record {
  fault_class = codes "rust-panic-unwrap";
  location = codes "mod.rs:90";
  function = [];
  detail = codes ":";
}

pub tokenizers_panic_90-parsed : parse_report tokenizers_panic_90 ≡ some tokenizers_panic_90_sig
unfolding parsed
tokenizers_panic_90-parsed = opened
  where
    opened : parsed tokenizers_panic_90 ≡ some tokenizers_panic_90_sig
    opened = refl
