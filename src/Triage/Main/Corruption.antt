-- ===== src/Triage/Main/Corruption.antt =====
-- The gate fires on memory corruption that AddressSanitizer reports.
use mapfuzz.Base.{
  ℕ, Text, codes, Bool, true, false, ◌≡◌, ◌≢◌, refl, sym, ap, ◌∙◌, subst, Option, none, some, List,
  ◌∷◌, ◌++◌, all, any, All, All-Elem, lower, is_space, contains, starts_with,
}
use mapfuzz.Triage.Signature.{Signature}
use mapfuzz.Triage.Parsers
use mapfuzz.Triage.Parsers.Recognised.{asan_mark, parse_asan-parsed}
use mapfuzz.Triage.Parsers.Kinds.{named_kinds, parse_asan-named_kinds}
use mapfuzz.Triage.Parsers.Runtime.{runtime_error, parse_ubsan-none, second_parser}
use mapfuzz.Triage.Classify.{asan_real_prefixes, classify_class, classify, is_real, is_real_verdict}
use mapfuzz.Triage.Classify.Laws.{real_iff}
use mapfuzz.Triage.Dedup.{Report}
use mapfuzz.Triage.Inputs.{Node}
use mapfuzz.Triage.Inputs.Listing.{IsInput}
use mapfuzz.Triage.Main.{run_main}
use mapfuzz.Triage.Main.Status.{run_main_iff}

-- a kind of the memory corruption family
abbrev pub is_corruption : Text → Bool
is_corruption k = any (starts_with (codes "asan-" ++ lower k)) asan_real_prefixes

corruption-real :
    (sig : Signature) (k : Text)
    → is_corruption k ≡ true
    → sig.fault_class ≡ codes "asan-" ++ lower k
    → is_real sig ≡ true
unfolding is_real classify
corruption-real sig k h e =
    let judged = (real_iff (codes "asan-" ++ lower k)).1 (rw h refl) in
    ap is_real_verdict (ap (λ fc. (classify_class fc).0) e ∙ judged)

parsed : (o : Option Signature) → o ≢ none → (sig : Signature) × (o ≡ some sig)
parsed none h = absurd (h refl)
parsed (some sig) h = (sig, refl)

-- Where a regular file under the given paths, or the standard input where no path is given, holds a
-- report of AddressSanitizer, every kind of fault that it names there is of the memory corruption
-- family, and the report has no runtime error of the undefined behaviour sanitizer, main returns 1.
pub run_main-corruption :
    (shown : List Text → Text) (node : Text → Node) (stdin : Text) (argv : List Text) (r : Report)
    (a gap b : Text) (c : ℕ)
    → IsInput node stdin argv r
    → r.1 ≡ a ++ (asan_mark ++ (gap ++ c ∷ b))
    → all is_space gap ≡ true
    → Parsers.is_kind_char c ≡ true
    → contains r.1 runtime_error ≡ false
    → All (λ k. is_corruption k ≡ true) (named_kinds r.1)
    → (run_main shown node stdin argv).1 ≡ 1
run_main-corruption shown node stdin argv r a gap b c given text white first quiet family =
    let (sig, found) = parsed (Parsers.parse_asan r.1) (
      subst (λ t. Parsers.parse_asan t ≢ none) (sym text)
        (parse_asan-parsed a gap b c white first)) in
    let (k, named, class) = parse_asan-named_kinds r.1 sig found in
    (run_main_iff shown node stdin argv).1 (
      r,
      given,
      (
        sig,
        second_parser r.1 sig (parse_ubsan-none r.1 quiet) found,
        corruption-real sig k
            (All-Elem (λ k. is_corruption k ≡ true) k (named_kinds r.1) family named) class,
      ),
    )
