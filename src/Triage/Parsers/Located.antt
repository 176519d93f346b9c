-- ===== src/Triage/Parsers/Located.antt =====
-- What is parsed of a report of the undefined behaviour sanitizer.
use mapfuzz.Base.{
  ℕ, Text, true, ◌≡◌, refl, sym, ap, ◌∙◌, some, [], ◌∷◌, ◌++◌, append_assoc, append-nil, all,
  all-append, is_digit,
}
use mapfuzz.Regex.{Match, group_of, find_group}
use mapfuzz.Regex.Greedy.{Ends}
use mapfuzz.Triage.Signature.{slash, colon, is_path_char, is_solid, basename_line, scrub}
use mapfuzz.Triage.Signature.Paths.{no_slash}
use mapfuzz.Triage.Signature.Location.{basename_line_lem, path_char-solid, slash_first, slash-solid}
use mapfuzz.Triage.Parsers
use mapfuzz.Triage.Parsers.Runtime.{runtime_error, first_parser}
use mapfuzz.Triage.Parsers.Ubsan.{search_in-ubsan}

-- a path from the root, with the file `a f` in it
abbrev pub file_path : ℕ → Text → ℕ → Text → Text
file_path b d a f = slash ∷ b ∷ (d ++ slash ∷ a ∷ f)

abbrev pub ubsan_report : Text → Text → Text → Text → Text
ubsan_report path line column behind =
    path ++ colon ∷ (line ++ colon ∷ (column ++ (runtime_error ++ behind)))

file_path-solid :
    (b : ℕ) (d : Text) (a : ℕ) (f : Text)
    → all is_path_char (b ∷ d) ≡ true
    → all is_path_char (a ∷ f) ≡ true
    → all is_solid (file_path b d a f) ≡ true
file_path-solid b d a f h k =
    all-append is_solid (slash ∷ b ∷ d) (slash ∷ a ∷ f)
      (slash_first is_solid (b ∷ d) slash-solid (path_char-solid (b ∷ d) h))
      (slash_first is_solid (a ∷ f) slash-solid (path_char-solid (a ∷ f) k))

basename_line-file_path :
    (b : ℕ) (d : Text) (a : ℕ) (f : Text) (l : ℕ) (ls : Text)
    → all is_path_char (b ∷ d) ≡ true
    → all is_path_char (a ∷ f) ≡ true
    → all no_slash (a ∷ f) ≡ true
    → all is_digit (l ∷ ls) ≡ true
    → basename_line (file_path b d a f ++ colon ∷ l ∷ ls) ≡ a ∷ (f ++ colon ∷ l ∷ ls)
unfolding all
basename_line-file_path b d a f l ls h k n i =
    ap (λ t. basename_line (slash ∷ b ∷ t))
      (append_assoc d (slash ∷ a ∷ f) (colon ∷ l ∷ ls)
        ∙ ap (λ t. d ++ slash ∷ a ∷ (f ++ colon ∷ l ∷ t)) (sym (append-nil ls)))
    ∙ basename_line_lem b d a f l ls [] h k n i tt refl refl

-- A report that begins `/directory/file:line:column: runtime error: message` is parsed: its fault
-- class is that of the message up to the end of the line, its location `file:line`, whatever the
-- directory and the column, and its detail the scrubbed message.
pub parse_report-ubsan :
    (b : ℕ) (d : Text) (a : ℕ) (f : Text) (l : ℕ) (ls : Text) (k : ℕ) (ks : Text) (e : ℕ)
    (es t : Text)
    → all is_path_char (b ∷ d) ≡ true
    → all is_path_char (a ∷ f) ≡ true
    → all no_slash (a ∷ f) ≡ true
    → all is_digit (l ∷ ls) ≡ true
    → all is_digit (k ∷ ks) ≡ true
    → all Parsers.is_inline (e ∷ es) ≡ true
    → Ends Parsers.is_inline t
    → Parsers.parse_report (ubsan_report (file_path b d a f) (l ∷ ls) (k ∷ ks) (e ∷ (es ++ t)))
      ≡ some (record {
        fault_class = Parsers.ubsan_class (e ∷ es);
        location = a ∷ (f ++ colon ∷ l ∷ ls);
        function = [];
        detail = scrub (e ∷ es);
      })
unfolding Parsers.parse_ubsan Parsers.ubsan_signature group_of
parse_report-ubsan b d a f l ls k ks e es t h n o i j w end =
    let (m, found, place, message) =
      search_in-ubsan slash (b ∷ (d ++ slash ∷ a ∷ f)) l ls k ks e es t
        (file_path-solid b d a f h n) i j w end in
    first_parser _ _ (ap Parsers.ubsan_signature found ∙ read m place message)
  where
    read :
        (m : Match)
        → find_group 1 m.groups ≡ file_path b d a f ++ colon ∷ l ∷ ls
        → find_group 2 m.groups ≡ e ∷ es
        → Parsers.ubsan_signature (some m)
          ≡ some (record {
            fault_class = Parsers.ubsan_class (e ∷ es);
            location = a ∷ (f ++ colon ∷ l ∷ ls);
            function = [];
            detail = scrub (e ∷ es);
          })
    read m place message = λ x. some (record {
      fault_class = Parsers.ubsan_class (message x);
      location = (ap basename_line place ∙ basename_line-file_path b d a f l ls h n o i) x;
      function = [];
      detail = scrub (message x);
    })
