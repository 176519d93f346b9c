-- ===== src/Triage/Signature/Location.antt =====
-- `_basename_line` takes the directory off an absolute path.
use mapfuzz.Base.{
  ℕ, Text, codes, ◌≡◌, refl, ap, ◌∙◌, Bool, true, none, some, [], ◌∷◌, ◌++◌, arith, all, all-append,
  all-weaken, strip, lstrip, reverse, is_space, is_digit,
}
use mathlib.Core.List.{reverse-reverse, reverse-cons}
use mapfuzz.Regex.{
  set, literal, plus, greedy, ◌⨾◌, Match, join_match, capture, nothing, match_literal, run, first,
  last_or, sub, match_at, group_of, find_group,
}
use mapfuzz.Regex.Greedy.{Ends, one, first-plus, first-followed_by, first-map}
use mapfuzz.Triage.Signature.{
  slash, colon, is_path_char, path_pattern, is_solid, base_pattern, digits, group_or, basename_line,
}
use mapfuzz.Triage.Signature.Paths.{no_slash, sub_directory}

all-reverse : (f : ℕ → Bool) (s : Text) → all f s ≡ true → all f (reverse s) ≡ true
unfolding all
all-reverse f [] h = refl
all-reverse f (c ∷ s) h =
    rw (reverse-cons c s)
      (all-append f (reverse s) (c ∷ []) (all-reverse f s (ground arith)) (ground arith))

lstrip_solid : (s : Text) → all is_solid s ≡ true → lstrip s ≡ s
unfolding lstrip all is_solid
lstrip_solid [] h = refl
lstrip_solid (c ∷ s) h = ground arith

-- A text without white space is not stripped.
strip_solid : (s : Text) → all is_solid s ≡ true → strip s ≡ s
unfolding strip
strip_solid s h =
    rw (lstrip_solid s h, lstrip_solid (reverse s) (all-reverse is_solid s h)) (reverse-reverse s)

pub path_char-solid : (s : Text) → all is_path_char s ≡ true → all is_solid s ≡ true
unfolding all is_path_char is_solid
path_char-solid [] h = refl
path_char-solid (c ∷ s) h = ground (arith, path_char-solid s)

-- `([^\s:]+:\d+)` at the name of a file with a line
first-base_pattern :
    (a : ℕ) (f : Text) (l : ℕ) (ls t : Text)
    → all is_path_char (a ∷ f) ≡ true
    → all is_digit (l ∷ ls) ≡ true
    → Ends is_digit t
    → (m : Match) × (match_at base_pattern (a ∷ (f ++ colon ∷ l ∷ (ls ++ t))) ≡ some m)
      × (group_of 1 m ≡ a ∷ (f ++ colon ∷ l ∷ ls))
unfolding match_at run match_literal
first-base_pattern a f l ls t h k e =
    let s = l ∷ (ls ++ t) in
    let file : Match = record { matched = a ∷ f; rest = colon ∷ s; groups = [] } in
    let line : Match = record { matched = l ∷ ls; rest = t; groups = [] } in
    let behind : Match = join_match (one colon s) (nothing s) in
    let stop : Ends is_path_char (colon ∷ s) = unfold is_path_char in ground arith in
    (
      capture 1 (join_match file (join_match behind line)),
      first-map (capture 1) _ _ (
          first-followed_by (run (plus greedy (set is_path_char)) none (a ∷ (f ++ colon ∷ s)))
            (λ m. run (literal (codes ":") ⨾ digits) (last_or none m.matched) m.rest) file
            (join_match behind line) (first-plus is_path_char none a f (colon ∷ s) h stop)
            (first-followed_by (run (literal (codes ":")) (last_or none (a ∷ f)) (colon ∷ s))
              (λ m. run digits (last_or (last_or none (a ∷ f)) m.matched) m.rest) behind line
              (unfold first in refl) (first-plus is_digit (some colon) l ls t k e))),
      unfold group_of find_group in refl,
    )

digit-no_slash : (c : ℕ) → is_digit c ≡ true → no_slash c ≡ true
unfolding is_digit
digit-no_slash c h = ground arith

digit-solid : (c : ℕ) → is_digit c ≡ true → is_solid c ≡ true
unfolding is_digit is_solid is_space
digit-solid c h = ground arith

pub slash-solid : is_solid slash ≡ true
unfolding is_solid
slash-solid = refl

colon-solid : is_solid colon ≡ true
unfolding is_solid
colon-solid = refl

pub slash_first :
    (f : ℕ → Bool) (s : Text) → f slash ≡ true → all f s ≡ true → all f (slash ∷ s) ≡ true
unfolding all
slash_first f s e h = rw (e, h) refl

colon_digits :
    (f : ℕ → Bool) (l : ℕ) (ls : Text)
    → f colon ≡ true
    → ((c : ℕ) → is_digit c ≡ true → f c ≡ true)
    → all is_digit (l ∷ ls) ≡ true
    → all f (colon ∷ l ∷ ls) ≡ true
unfolding all
colon_digits f l ls e k h = let rest = all-weaken is_digit f (l ∷ ls) k h in rw (e, rest) refl

basename_line-group :
    (s x : Text) (m : Match)
    → sub path_pattern [] (strip s) ≡ x
    → match_at base_pattern x ≡ some m
    → basename_line s ≡ group_of 1 m
unfolding basename_line group_or
basename_line-group s x m e q = rw (e, q) refl

-- `_basename_line` of a file in a directory, with a line and whatever follows it
pub basename_line_lem :
    (b : ℕ) (d : Text) (a : ℕ) (f : Text) (l : ℕ) (ls t : Text)
    → all is_path_char (b ∷ d) ≡ true
    → all is_path_char (a ∷ f) ≡ true
    → all no_slash (a ∷ f) ≡ true
    → all is_digit (l ∷ ls) ≡ true
    → Ends is_digit t
    → all is_solid t ≡ true
    → all no_slash t ≡ true
    → basename_line (slash ∷ b ∷ (d ++ slash ∷ a ∷ (f ++ colon ∷ l ∷ (ls ++ t))))
      ≡ a ∷ (f ++ colon ∷ l ∷ ls)
basename_line_lem b d a f l ls t h k n i e j q =
    let name = a ∷ (f ++ colon ∷ l ∷ (ls ++ t)) in
    let (m, found, location) = first-base_pattern a f l ls t k i e in
    let plain : all no_slash name ≡ true = all-append no_slash (a ∷ f) (colon ∷ l ∷ (ls ++ t)) n (
      all-append no_slash (colon ∷ l ∷ ls) t (colon_digits no_slash l ls refl digit-no_slash i)
        q) in
    let solid : all is_solid (slash ∷ b ∷ (d ++ slash ∷ name)) ≡ true =
      all-append is_solid (slash ∷ b ∷ d) (slash ∷ name)
        (slash_first is_solid (b ∷ d) slash-solid (path_char-solid (b ∷ d) h))
        (all-append is_solid (slash ∷ a ∷ f) (colon ∷ l ∷ (ls ++ t))
          (slash_first is_solid (a ∷ f) slash-solid (path_char-solid (a ∷ f) k))
          (all-append is_solid (colon ∷ l ∷ ls) t
            (colon_digits is_solid l ls colon-solid digit-solid i) j)) in
    basename_line-group (slash ∷ b ∷ (d ++ slash ∷ name)) name m
      (ap (sub path_pattern []) (strip_solid _ solid) ∙ sub_directory b d name h plain) found
    ∙ location
