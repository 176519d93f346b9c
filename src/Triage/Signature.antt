-- ===== src/Triage/Signature.antt =====
-- chassis/triage.py: `Signature` and the helpers that normalise what is read out of a report.
pub mod Paths
pub mod Location
use mapfuzz.Base.{
  ℕ, Text, codes, Bool, Option, none, some, List, [], ◌∷◌, ◌++◌, leb, ◌==◌, ◌||◌, ◌&&◌, not,
  is_space, is_digit, strip, text_eq, reverse, if◌then◌else◌,
}
use mapfuzz.Regex.{
  Regex, set, literal, group, word_edge, greedy, ◌⨾◌, plus, Match, group_of, match_at, sub,
}

pub record Signature : Type 0 where
  pub fault_class : Text
  pub location : Text
  pub function : Text
  pub detail : Text

abbrev pub at_sign : ℕ
at_sign = b'@'

-- `Signature.key`
unfoldable pub key : Signature → Text
key s = s.fault_class ++ at_sign ∷ s.location

abbrev pub colon : ℕ
colon = b':'

abbrev pub slash : ℕ
slash = b'/'

unfoldable pub is_hex : ℕ → Bool
is_hex c = (leb b'0' c && leb c b'9') || (leb b'a' c && leb c b'f') || (leb b'A' c && leb c b'F')

-- `[^\s:]`, `[^\s]` and `\d`
unfoldable pub is_path_char : ℕ → Bool
unfolding is_space
is_path_char c = not (is_space c || (c == colon))

unfoldable pub is_solid : ℕ → Bool
unfolding is_space
is_solid c = not (is_space c)

abbrev pub one_digit : Regex
one_digit = set is_digit

abbrev pub digits : Regex
digits = plus greedy one_digit

abbrev pub hex_pattern : Regex
hex_pattern = literal (codes "0x") ⨾ plus greedy (set is_hex)

-- `\d{2,}` is a digit and then `\d+`
abbrev pub num_pattern : Regex
num_pattern = word_edge ⨾ one_digit ⨾ digits ⨾ word_edge

abbrev pub path_pattern : Regex
path_pattern =
    plus greedy
      (group 1 (literal (codes "/") ⨾ plus greedy (set is_path_char) ⨾ literal (codes "/")))

abbrev pub base_pattern : Regex
base_pattern = group 1 (plus greedy (set is_path_char) ⨾ literal (codes ":") ⨾ digits)

-- `m.group(1) if m else s`
unfoldable pub group_or : Option Match → Text → Text
unfolding group_of
group_or none s = s
group_or (some m) s = group_of 1 m

-- `_basename_line`
unfoldable pub basename_line : Text → Text
unfolding sub match_at group_or strip is_path_char is_digit
basename_line path_line =
    let s = sub path_pattern [] (strip path_line) in group_or (match_at base_pattern s) s

-- `_scrub`
unfoldable pub scrub : Text → Text
unfolding sub strip is_hex is_digit
scrub msg = strip (sub num_pattern (codes "N") (sub hex_pattern (codes "0xADDR") msg))

-- `Path(f).name`: the last component, where empty components and `.` do not count
components : Text → Text → List Text
components part [] = reverse part ∷ []
components part (c ∷ s) =
    let next = reverse part ∷ components [] s in
    let more = components (c ∷ part) s in if c == slash then next else more

last_name : Text → List Text → Text
last_name name [] = name
last_name name (p ∷ ps) = last_name (if text_eq p [] || text_eq p (codes ".") then name else p) ps

unfoldable pub path_name : Text → Text
unfolding components last_name text_eq
path_name f = last_name [] (components [] f)
