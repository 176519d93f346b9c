-- ===== src/Regex.antt =====
-- The part of Python's `re` that chassis/triage.py uses, as a backtracking matcher over code points.
-- `run` lists all the ways in which a pattern matches at a place, in the order in which `re` tries
-- them, so that the first is the match that `re` returns. No pattern of the program is repeated
-- over an empty match; a round that would consume nothing ends the repetition.
pub mod Denotes
pub mod Sound
pub mod Complete
pub mod Captures
pub mod Search
pub mod Greedy
pub mod Runs
pub mod Backtrack
use mapfuzz.Base.{
  ℕ, zero, suc, Text, Bool, true, false, Option, none, some, List, [], ◌∷◌, ◌++◌, map, reverse,
  length, if◌then◌else◌, ◌==◌, ◌||◌, not, is_word,
}

pub data Greed : Type 0 where
  greedy lazy : Greed

pub data Regex : Type 0 where
  -- one character of a class
  set : (ℕ → Bool) → Regex
  literal : Text → Regex
  seq : Regex → Regex → Regex
  alt : Regex → Regex → Regex
  optional : Regex → Regex
  repeat : Greed → Regex → Regex
  group : ℕ → Regex → Regex
  -- `^` and `$` under MULTILINE, and `\b`
  line_start line_end word_edge : Regex

infixr 40 ◌⨾◌
abbrev pub ◌⨾◌ : Regex → Regex → Regex
r ⨾ q = seq r q

-- `r+` and `r+?`
abbrev pub plus : Greed → Regex → Regex
plus g r = seq r (repeat g r)

-- `matched` is the text consumed, `rest` what follows it, `groups` the captures, the latest first.
pub record Match : Type 0 where
  pub matched : Text
  pub rest : Text
  pub groups : List (ℕ × Text)

-- `m.group(n)`
unfoldable pub find_group : ℕ → List (ℕ × Text) → Text
find_group n [] = []
find_group n ((k, t) ∷ gs) = if k == n then t else find_group n gs

unfoldable pub group_of : ℕ → Match → Text
unfolding find_group
group_of n m = find_group n m.groups

-- the character before the place that is reached after `w` is consumed
unfoldable pub last_or : Option ℕ → Text → Option ℕ
last_or p [] = p
last_or p (c ∷ w) = last_or (some c) w

abbrev pub nothing : Text → Match
nothing s = record { matched = []; rest = s; groups = [] }

-- `m`, and then `n` from where `m` ended
abbrev pub join_match : Match → Match → Match
join_match m n = record {
  matched = m.matched ++ n.matched;
  rest = n.rest;
  groups = n.groups ++ m.groups;
}

abbrev pub Matcher : Type 0
Matcher = Option ℕ → Text → List Match

-- each way of `ms` followed by each way of `next`
unfoldable pub followed_by : List Match → (Match → List Match) → List Match
followed_by [] next = []
followed_by (m ∷ ms) next = map (join_match m) (next m) ++ followed_by ms next

unfoldable pub when : Bool → List Match → List Match
when true ms = ms
when false ms = []

unfoldable pub is_empty {ℓ} : {A : Type ℓ} → List A → Bool
is_empty [] = true
is_empty (_ ∷ _) = false

unfoldable pub in_order : Greed → List Match → List Match → List Match
in_order greedy more stop = more ++ stop
in_order lazy more stop = stop ++ more

-- at most `n` rounds
unfoldable pub rounds : Greed → Matcher → ℕ → Matcher
unfolding followed_by in_order is_empty
rounds g body zero p s = nothing s ∷ []
rounds g body (suc n) p s =
    let more = followed_by (body p s) (λ m. elim (is_empty m.matched) [
      | true ↦ []
      | false ↦ rounds g body n (last_or p m.matched) m.rest
    ]) in
    in_order g more (nothing s ∷ [])

unfoldable pub match_literal : Text → Text → List Match
match_literal [] s = nothing s ∷ []
match_literal (c ∷ w) [] = []
match_literal (c ∷ w) (d ∷ s) =
    let more =
      map (join_match (record { matched = d ∷ []; rest = s; groups = [] })) (match_literal w s) in
    if c == d then more else []

unfoldable pub match_set : (ℕ → Bool) → Text → List Match
match_set f [] = []
match_set f (c ∷ s) = if f c then record { matched = c ∷ []; rest = s; groups = [] } ∷ [] else []

abbrev pub capture : ℕ → Match → Match
capture n m = record m { groups = (n, m.matched) ∷ m.groups }

abbrev pub is_line_feed : ℕ → Bool
is_line_feed c = c == 10

unfoldable pub at_line_start : Option ℕ → Bool
at_line_start none = true
at_line_start (some c) = is_line_feed c

unfoldable pub at_line_end : Text → Bool
at_line_end [] = true
at_line_end (c ∷ s) = is_line_feed c

unfoldable pub word_before : Option ℕ → Bool
word_before none = false
word_before (some c) = is_word c

unfoldable pub word_after : Text → Bool
word_after [] = false
word_after (c ∷ s) = is_word c

unfoldable pub differ : Bool → Bool → Bool
differ true b = not b
differ false b = b

unfoldable pub run : Regex → Matcher
unfolding when followed_by rounds match_literal match_set at_line_start at_line_end word_before
    word_after differ last_or is_word
run (set f) p s = match_set f s
run (literal w) p s = match_literal w s
run (seq r q) p s = followed_by (run r p s) (λ m. run q (last_or p m.matched) m.rest)
run (alt r q) p s = run r p s ++ run q p s
run (optional r) p s = run r p s ++ nothing s ∷ []
run (repeat g r) p s = rounds g (run r) (length s) p s
run (group n r) p s = map (capture n) (run r p s)
run line_start p s = when (at_line_start p) (nothing s ∷ [])
run line_end p s = when (at_line_end s) (nothing s ∷ [])
run word_edge p s = when (differ (word_before p) (word_after s)) (nothing s ∷ [])

unfoldable pub first : List Match → Option Match
first [] = none
first (m ∷ _) = some m

-- `re.match`
unfoldable pub match_at : Regex → Text → Option Match
unfolding first run
match_at r s = first (run r none s)

-- the first place of a text, entered after the character `p`, at which there is a match
unfoldable pub search_from : Regex → Option ℕ → Text → Option Match
unfolding first run
search_from r p [] = first (run r p [])
search_from r p (c ∷ s) =
    let later = search_from r (some c) s in
    elim (first (run r p (c ∷ s))) [ some m ↦ some m | none ↦ later ]

-- `re.search`; `rest` of the result is `text[m.end():]`
unfoldable pub search_in : Regex → Text → Option Match
unfolding search_from
search_in r s = search_from r none s

-- A text cut into matches and the characters between them, as `re.sub` and `re.findall` go on
-- after each match. Each round consumes a character, so the length of the text is enough fuel.
pub data Piece : Type 0 where
  keep : ℕ → Piece
  hit : Match → Piece

unfoldable pub first_full : List Match → Option Match
unfolding is_empty
first_full [] = none
first_full (m ∷ ms) = if is_empty m.matched then none else some m

unfoldable pub pieces_from : ℕ → Regex → Option ℕ → Text → List Piece
unfolding first_full run last_or
pieces_from zero r p s = []
pieces_from (suc f) r p [] = []
pieces_from (suc f) r p (c ∷ s) = elim (first_full (run r p (c ∷ s))) [
  | some m ↦ hit m ∷ pieces_from f r (last_or p m.matched) m.rest
  | none ↦ keep c ∷ pieces_from f r (some c) s
]

unfoldable pub pieces : Regex → Text → List Piece
unfolding pieces_from
pieces r s = pieces_from (length s) r none s

-- `r.sub(by, s)` for a replacement with no group in it
unfoldable pub replaced : Text → List Piece → Text
replaced by [] = []
replaced by (keep c ∷ ps) = c ∷ replaced by ps
replaced by (hit m ∷ ps) = by ++ replaced by ps

unfoldable pub sub : Regex → Text → Text → Text
unfolding replaced pieces
sub r by s = replaced by (pieces r s)

unfoldable pub hits : List Piece → List Match
hits [] = []
hits (keep c ∷ ps) = hits ps
hits (hit m ∷ ps) = m ∷ hits ps

-- `re.findall`, as matches
unfoldable pub find_all : Regex → Text → List Match
unfolding hits pieces
find_all r s = hits (pieces r s)
