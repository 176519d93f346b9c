-- ===== src/Triage/Classify.antt =====
-- chassis/triage.py: `classify`, `_VERDICT` and `_ASAN_REAL_PREFIXES`.
pub mod Laws
use mapfuzz.Base.{
  Text, codes, Bool, true, false, Option, none, some, List, [], ◌∷◌, ◌&&◌, not, any, starts_with,
  text_eq, if◌then◌else◌,
}
use mapfuzz.Triage.Signature.{Signature}

pub data Verdict : Type 0 where
  real shallow review : Verdict

abbrev pub Judgement : Type 0
Judgement = Verdict × Text

-- `_VERDICT`
abbrev pub verdicts : List (Text × Judgement)
verdicts =
    (codes "ubsan-invalid-enum", (shallow, codes "unvalidated enum cast; guard at the reader"))
    ∷ (
      codes "assertion-abort",
      (shallow, codes "assertion reachable from input; DoS, often intended"),
    )
    ∷ (codes "ubsan-div-zero", (review, codes "div-by-zero: real DoS but frequently already known"))
    ∷ (
      codes "asan-fpe",
      (review, codes "arithmetic fault (div-by-zero); real DoS, check prior art"),
    )
    ∷ (
      codes "ubsan-int-overflow",
      (review, codes "integer overflow; may or may not be exploitable"),
    )
    ∷ (codes "rust-panic-unwrap", (real, codes "unwrap/expect on untrusted input; DoS finding"))
    ∷ (codes "rust-panic-index", (real, codes "index/slice panic on untrusted input; DoS finding"))
    ∷ (codes "rust-panic-overflow", (review, codes "arithmetic panic; check whether input-driven"))
    ∷ (codes "rust-panic", (review, codes "panic on untrusted input; inspect message"))
    ∷ (codes "py-recursion", (review, codes "recursion/stack exhaustion; DoS"))
    ∷ (codes "native-signal", (real, codes "native crash (possible memory corruption); inspect"))
    ∷ []

-- `_ASAN_REAL_PREFIXES`
abbrev pub asan_real_prefixes : List Text
asan_real_prefixes =
    codes "asan-heap"
    ∷ codes "asan-stack"
    ∷ codes "asan-global"
    ∷ codes "asan-use-after"
    ∷ codes "asan-double-free"
    ∷ []

find_verdict : Text → List (Text × Judgement) → Option Judgement
find_verdict fc [] = none
find_verdict fc ((k, j) ∷ rest) = if text_eq fc k then some j else find_verdict fc rest

-- the last two `return`s
not_listed : Text → Judgement
not_listed fc =
    if starts_with fc (codes "py-") && not (text_eq fc (codes "py-recursion"))
    then (review, codes "python exception; distinguish clean rejection from bug")
    else (review, codes "unclassified; inspect manually")

listed_or : Option Judgement → Judgement → Judgement
listed_or none j = j
listed_or (some i) j = i

is_asan_real : Text → Bool
is_asan_real fc = any (starts_with fc) asan_real_prefixes

-- `classify`, of a fault class
unfoldable pub classify_class : Text → Judgement
unfolding find_verdict not_listed listed_or is_asan_real
classify_class fc =
    if is_asan_real fc
    then (real, codes "AddressSanitizer memory-safety violation")
    else listed_or (find_verdict fc verdicts) (not_listed fc)

-- `classify`; it reads nothing of the signature but the fault class
unfoldable pub classify : Signature → Judgement
unfolding classify_class
classify sig = classify_class sig.fault_class

abbrev pub is_real_verdict : Verdict → Bool
is_real_verdict real = true
is_real_verdict _ = false

-- `classify(sig)[0] == "real"`
unfoldable pub is_real : Signature → Bool
is_real sig = is_real_verdict (classify sig).0
