-- ===== src/Tests/TriageCases.antt =====
-- chassis/triage.py on reports like those of chassis/tests/fixtures.
use mapfuzz.Triage.Signature.{basename_line}
use mapfuzz.Base.{ℕ, Text, codes, ◌≡◌, refl, some, List, [], ◌∷◌, ◌++◌, ◌↔◌, length, Elem, ◌+◌}
use mapfuzz.Triage.Signature.{Signature, key}
use mapfuzz.Triage.Parsers.{parse_report, parse_python_traceback}
use mapfuzz.Triage.Parsers.Samples.{parsed}
use mapfuzz.Triage.Parsers.Classes.{IsClassName, parse_report-IsClassName}
use mapfuzz.Triage.Parsers.Recognised.{python_traceback-review}
use mapfuzz.Triage.Classify.{review, classify, is_real}
use mapfuzz.Triage.Dedup.{Bucket, Report, dedup, collect, empty_seen, change, set_default, note}
use mapfuzz.Triage.Dedup.Spec.{bucket_of, with_key, unrecognised, collect-unrecognised}
use mapfuzz.Triage.Dedup.Keys.{dedup_iff}
use mapfuzz.Triage.Dedup.Opened.{opened}
use mapfuzz.Triage.Dedup.Order.{Descending, with_count, total_count, dedup-total, dedup-order}
use mapfuzz.Triage.Main.{exit_status}
use mathlib.Core.List.{Perm}

abbrev enum_a : Text
enum_a =
    codes
      "/x/gguf.cpp:575:17: runtime error: load of value 249, which is not a valid value for type 'gguf_type'"

abbrev enum_b : Text
enum_b =
    codes
      "/y/z/gguf.cpp:575:17: runtime error: load of value 42949, which is not a valid value for type 'gguf_type'"

abbrev segfault : Text
segfault = codes "Segmentation fault"

abbrev reports : List Report
reports =
    (codes "a", enum_a)
    ∷ (codes "b", segfault)
    ∷ (codes "c", codes "all is well")
    ∷ (codes "d", enum_b)
    ∷ []

abbrev enum_signature : Signature
enum_signature = record {
  fault_class = codes "ubsan-invalid-enum";
  location = codes "gguf.cpp:575";
  function = [];
  detail = codes "load of value N, which is not a valid value for type 'gguf_type'";
}

enum_a-parsed : parsed enum_a ≡ some enum_signature
unfolding parsed
enum_a-parsed = refl

enum_a-report : parse_report enum_a ≡ some enum_signature
enum_a-report = unfold parsed in enum_a-parsed

reports-exit : exit_status reports ≡ 1
unfolding exit_status is_real classify parsed key change set_default note
reports-exit = refl

abbrev enum_bucket : Bucket
enum_bucket = record { signature = enum_signature; count = 2; sources = codes "a" ∷ codes "d" ∷ [] }

dedup_iff_example :
    Elem enum_bucket (dedup reports).0
    ↔ (bucket_of (with_key (key enum_signature) reports) ≡ some enum_bucket)
dedup_iff_example = dedup_iff reports enum_bucket

dedup-total_example : total_count (dedup reports).0 + length (dedup reports).1 ≡ length reports
dedup-total_example = dedup-total reports

dedup-order_example :
    Descending (dedup reports).0
    × ((n : ℕ) → with_count n (dedup reports).0 ≡ with_count n (opened reports))
    × Perm (dedup reports).0 (opened reports)
dedup-order_example = dedup-order reports

collect-unrecognised_example : (collect reports empty_seen).unparsed ≡ unrecognised reports
collect-unrecognised_example = collect-unrecognised reports

parse_report-IsClassName_example : IsClassName (codes "ubsan-invalid-enum")
parse_report-IsClassName_example = parse_report-IsClassName enum_a enum_signature enum_a-report

abbrev traceback : Text
traceback = codes "File \"/a/b.py\", line 7, in load" ++ 10 ∷ codes "ValueError: bad magic 123"

abbrev traceback_signature : Signature
traceback_signature = record {
  fault_class = codes "py-valueerror";
  location = codes "b.py:7";
  function = codes "load";
  detail = codes "bad magic N";
}

traceback-parsed : parse_python_traceback traceback ≡ some traceback_signature
unfolding parsed
traceback-parsed = refl

python_traceback-review_example : (classify traceback_signature).0 ≡ review
python_traceback-review_example =
    python_traceback-review traceback traceback_signature traceback-parsed

-- a directory that does not begin with a `/` is glued to the name
relative-glued : basename_line (codes "ggml/src/gguf.cpp:5:1") ≡ codes "ggmlgguf.cpp:5"
unfolding basename_line
relative-glued = refl
