-- ===== src/Triage/Parsers/Recognised.antt =====
-- Reports that no parser may miss, and the verdict on Python tracebacks.
use mapfuzz.Base.{
  ℕ, Text, codes, true, ◌≡◌, ◌≢◌, refl, Option, none, some, List, [], ◌∷◌, ◌++◌, arith, All, Elem,
  inl, inr, lower, is_space, all, text_eq, Bool-cases,
}
use mapfuzz.Regex.{Match, greedy, set, repeat, is_empty, search_in, last_or, group_of}
use mapfuzz.Regex.Denotes.{Denotes, word, left, right, both, grouped, one_of, stop, again}
use mapfuzz.Regex.Search.{search_in-none, FoundIn}
use mapfuzz.Triage.Signature.{Signature}
use mapfuzz.Triage.Classify.{review, classify}
use mapfuzz.Triage.Classify.Laws.{python_review}
use mapfuzz.Triage.Parsers

-- an unparsed report is one that every parser refuses
refused :
    (ps : List (Text → Option Signature)) (text : Text)
    → Parsers.first_of_parsers ps text ≡ none
    → All (λ p. p text ≡ none) ps
unfolding Parsers.first_of_parsers
refused [] text h = tt
refused (p ∷ ps) text h = (ground arith, refused ps text (ground arith))

each_refused :
    (text : Text) → Parsers.parse_report text ≡ none → All (λ p. p text ≡ none) Parsers.parsers
unfolding Parsers.parse_report
each_refused text h = refused Parsers.parsers text h

abbrev pub signal_words : List Text
signal_words =
    codes "SIGSEGV" ∷ codes "Segmentation fault" ∷ codes "deadly signal" ∷ codes "SIGABRT" ∷ []

signal-Denotes :
    (w b : Text) (p : Option ℕ)
    → Elem w signal_words
    → Denotes Parsers.signal_pattern p (w ++ b) (record { matched = w; rest = b; groups = [] })
signal-Denotes w b p (inl e) = rw e (left (word _ p b _ refl))
signal-Denotes w b p (inr (inl e)) = rw e (right (left (word _ p b _ refl)))
signal-Denotes w b p (inr (inr (inl e))) = rw e (right (right (left (word _ p b _ refl))))
signal-Denotes w b p (inr (inr (inr (inl e)))) = rw e (right (right (right (word _ p b _ refl))))
signal-Denotes w b p (inr (inr (inr (inr e)))) = absurd e

signal_unmatched : (o : Option Match) → Parsers.signal_signature o ≡ none → o ≡ none
unfolding Parsers.signal_signature
signal_unmatched none h = refl
signal_unmatched (some m) h = cc

-- A report with one of the four signal texts anywhere in it is parsed.
signal-parsed : (a w b : Text) → Elem w signal_words → Parsers.parse_report (a ++ (w ++ b)) ≢ none
unfolding Parsers.parsers Parsers.parse_bare_signal
signal-parsed a w b m h =
    let (_, (_, (_, (_, (_, (last, _)))))) = each_refused (a ++ (w ++ b)) h in
    search_in-none Parsers.signal_pattern (a ++ (w ++ b)) _ (signal_unmatched _ last) (record {
      before = a;
      from = w ++ b;
      splits = refl;
      denotes = signal-Denotes w b (last_or none a) m;
    })

asan_unmatched :
    (text : Text) (o : Option Match)
    → Parsers.asan_signature text o ≡ none
    → search_in Parsers.asan_kind text ≡ none
unfolding Parsers.asan_signature
asan_unmatched text none h = go (search_in Parsers.asan_kind text) h
  where
    go : (o : Option Match) → Parsers.asan_unlocated o ≡ none → o ≡ none
    go none h = refl
    go (some m) h = unfold Parsers.asan_unlocated in cc
asan_unmatched text (some m) h = cc

abbrev pub asan_mark : Text
asan_mark = codes "AddressSanitizer:"

gap-Denotes :
    (p : Option ℕ) (gap t : Text)
    → all is_space gap ≡ true
    → Denotes
        (repeat greedy (set is_space))
        p
        (gap ++ t)
        (record { matched = gap; rest = t; groups = [] })
unfolding all is_empty last_or
gap-Denotes p [] t h = stop greedy (set is_space) p t
gap-Denotes p (c ∷ gap) t h =
    again (one_of is_space p c (gap ++ t) (ground arith)) refl
      (gap-Denotes (some c) gap t (ground arith))

abbrev found_kind : Text → ℕ → Text → Match
found_kind gap c b = record {
  matched = asan_mark ++ (gap ++ c ∷ []);
  rest = b;
  groups = (1, c ∷ []) ∷ [];
}

-- Some report names a kind of fault behind the mark and white space.
asan_kind-found :
    (a gap b : Text) (c : ℕ)
    → all is_space gap ≡ true
    → Parsers.is_kind_char c ≡ true
    → FoundIn Parsers.asan_kind none (a ++ (asan_mark ++ (gap ++ c ∷ b))) (found_kind gap c b)
asan_kind-found a gap b c h k = record {
  before = a;
  from = asan_mark ++ (gap ++ c ∷ b);
  splits = refl;
  denotes = both (word asan_mark _ (gap ++ c ∷ b) _ refl) (
      both (gap-Denotes _ gap (c ∷ b) h) (
        grouped (
          both (one_of Parsers.is_kind_char _ c b k)
            (stop greedy (set Parsers.is_kind_char) _ b))));
}

-- A report that names AddressSanitizer, and behind it and white space a kind of fault, is a report of
-- AddressSanitizer, whether or not it has a location.
pub parse_asan-parsed :
    (a gap b : Text) (c : ℕ)
    → all is_space gap ≡ true
    → Parsers.is_kind_char c ≡ true
    → Parsers.parse_asan (a ++ (asan_mark ++ (gap ++ c ∷ b))) ≢ none
unfolding Parsers.parse_asan
parse_asan-parsed a gap b c h k e =
    let text = a ++ (asan_mark ++ (gap ++ c ∷ b)) in
    search_in-none Parsers.asan_kind text _ (asan_unmatched text _ e)
      (asan_kind-found a gap b c h k)

-- It is parsed.
asan-parsed :
    (a gap b : Text) (c : ℕ)
    → all is_space gap ≡ true
    → Parsers.is_kind_char c ≡ true
    → Parsers.parse_report (a ++ (asan_mark ++ (gap ++ c ∷ b))) ≢ none
unfolding Parsers.parsers
asan-parsed a gap b c h k e =
    let (_, (refused_asan, _)) = each_refused (a ++ (asan_mark ++ (gap ++ c ∷ b))) e in
    parse_asan-parsed a gap b c h k refused_asan

py_prefixed : (o : Option Match) → (t : Text) × (Parsers.python_class o ≡ codes "py-" ++ t)
unfolding Parsers.python_class
py_prefixed none = (codes "exception", refl)
py_prefixed (some m) = elim (Bool-cases (text_eq (group_of 1 m) (codes "RecursionError"))) [
  | inl e ↦ (codes "recursion", rw e refl)
  | inr e ↦ elim (Bool-cases (text_eq (group_of 1 m) (codes "MemoryError"))) [
    | inl f ↦ (codes "memory", rw (e, f) refl)
    | inr f ↦ (lower (group_of 1 m), rw (e, f) refl)
  ]
]

python_signature-class :
    (frame exc : Option Match) (sig : Signature)
    → Parsers.python_signature frame exc ≡ some sig
    → sig.fault_class ≡ Parsers.python_class exc
unfolding Parsers.python_signature
python_signature-class none none sig h = cc
python_signature-class (some f) none sig h = ground arith
python_signature-class none (some m) sig h = ground arith
python_signature-class (some f) (some m) sig h = ground arith

-- Whatever traceback a report shows, its signature is judged to want review: a Python exception alone
-- never fires the gate.
pub python_traceback-review :
    (text : Text) (sig : Signature)
    → Parsers.parse_python_traceback text ≡ some sig
    → (classify sig).0 ≡ review
unfolding Parsers.parse_python_traceback classify
python_traceback-review text sig h =
    let exc = search_in Parsers.exception_pattern text in
    let (t, e) = py_prefixed exc in rw (python_signature-class _ exc sig h, e) (python_review t)
