-- ===== src/Triage/Parsers/Runtime.antt =====
-- A report without the words of a runtime error is none of the undefined behaviour sanitizer.
use mapfuzz.Base.{
  ℕ, Text, codes, true, false, false≢true, ◌≡◌, refl, sym, ap, ◌∙◌, subst, Option, none, some, List,
  [], ◌∷◌, ◌++◌, arith, starts_with, contains,
}
use mapfuzz.Regex.{Match, search_in}
use mapfuzz.Regex.Denotes.{Denotes, word, both}
use mapfuzz.Regex.Complete.{Denotes-splits}
use mapfuzz.Regex.Search.{search_in-FoundIn}
use mapfuzz.Triage.Signature.{Signature}
use mapfuzz.Triage.Parsers

abbrev pub runtime_error : Text
runtime_error = codes ": runtime error: "

starts_with-append : (w t : Text) → starts_with (w ++ t) w ≡ true
unfolding starts_with
starts_with-append [] t = refl
starts_with-append (c ∷ w) t = ground (arith, starts_with-append w t)

contains-append : (w t : Text) → contains (w ++ t) w ≡ true
unfolding contains
contains-append [] [] = starts_with-append [] []
contains-append [] (c ∷ t) = rw (starts_with-append [] (c ∷ t)) refl
contains-append (c ∷ w) t = rw (starts_with-append (c ∷ w) t) refl

contains-behind : (a s w : Text) → contains s w ≡ true → contains (a ++ s) w ≡ true
unfolding contains
contains-behind [] s w h = h
contains-behind (c ∷ a) s w h = ground (arith, contains-behind a s w h)

ubsan_pattern-contains :
    {p : Option ℕ} {s : Text} {m : Match}
    → Denotes Parsers.ubsan_pattern p s m
    → contains s runtime_error ≡ true
ubsan_pattern-contains
      (both {m = a} d (both {m = b} e (both {m = k} f (both (word w p s t q) g)))) =
    behind a (Denotes-splits d) (
      behind b (Denotes-splits e) (
        behind k (Denotes-splits f)
          (subst (λ x. contains x runtime_error ≡ true) q (contains-append runtime_error s))))
  where
    behind :
        {s : Text} (m : Match)
        → m.matched ++ m.rest ≡ s
        → contains m.rest runtime_error ≡ true
        → contains s runtime_error ≡ true
    behind m e h =
        subst (λ x. contains x runtime_error ≡ true) e
          (contains-behind m.matched m.rest runtime_error h)

-- A text without `: runtime error: ` is no report of it.
pub parse_ubsan-none :
    (text : Text) → contains text runtime_error ≡ false → Parsers.parse_ubsan text ≡ none
unfolding Parsers.parse_ubsan
parse_ubsan-none text h = go (search_in Parsers.ubsan_pattern text) refl
  where
    go :
        (o : Option Match)
        → search_in Parsers.ubsan_pattern text ≡ o
        → Parsers.ubsan_signature o ≡ none
    go none e = unfold Parsers.ubsan_signature in refl
    go (some m) e =
        let f = search_in-FoundIn Parsers.ubsan_pattern text m e in
        let there =
          contains-behind f.before f.from runtime_error (ubsan_pattern-contains f.denotes) in
        absurd (false≢true (sym h ∙ subst (λ x. contains x runtime_error ≡ true) f.splits there))

-- the loop of `parse_report`, where the first parser refuses and where it does not
parser_tried :
    (p : Text → Option Signature) (ps : List (Text → Option Signature)) (text : Text)
    (o : Option Signature)
    → p text ≡ o
    → Parsers.first_of_parsers (p ∷ ps) text
      ≡ elim o [ some sig ↦ some sig | none ↦ Parsers.first_of_parsers ps text ]
unfolding Parsers.first_of_parsers
parser_tried p ps text o h =
    ap (λ o. elim o [ some sig ↦ some sig | none ↦ Parsers.first_of_parsers ps text ]) h

-- What the first parser makes of a report is the result.
pub first_parser :
    (text : Text) (sig : Signature)
    → Parsers.parse_ubsan text ≡ some sig
    → Parsers.parse_report text ≡ some sig
unfolding Parsers.parse_report Parsers.parsers
first_parser text sig u = parser_tried _ _ text (some sig) u

-- What the parser of AddressSanitizer makes of a report that the first parser refuses is the result.
pub second_parser :
    (text : Text) (sig : Signature)
    → Parsers.parse_ubsan text ≡ none
    → Parsers.parse_asan text ≡ some sig
    → Parsers.parse_report text ≡ some sig
unfolding Parsers.parse_report Parsers.parsers
second_parser text sig u a = parser_tried _ _ text none u ∙ parser_tried _ _ text (some sig) a
