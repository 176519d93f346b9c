-- ===== src/Triage/Parsers/Stuck.antt =====
-- Texts behind which the pattern of the undefined behaviour sanitizer does not go on.
use mapfuzz.Base.{
  ℕ, Text, codes, true, false, ◌≡◌, refl, Option, some, [], ◌∷◌, ◌++◌, append-nil, arith, all, All,
  map, is_digit, is_space, ◌==◌,
}
use mapfuzz.Regex.{
  Regex, literal, set, seq, plus, greedy, group, ◌⨾◌, join_match, run, first, followed_by,
  match_literal, match_set, last_or,
}
use mapfuzz.Regex.Greedy.{one, Ends, first-plus, first-literal, first-seq}
use mapfuzz.Regex.Backtrack.{DeadIn}
use mapfuzz.Triage.Signature.{digits, colon, is_solid}
use mapfuzz.Triage.Parsers

abbrev pub colon_digits : Regex
colon_digits = literal (codes ":") ⨾ digits

abbrev pub message : Regex
message = literal (codes ": runtime error: ") ⨾ group 2 (plus greedy (set Parsers.is_inline))

-- what follows the place in the pattern
abbrev pub behind : Regex
behind = literal (codes ":") ⨾ (digits ⨾ message)

seq-none : (r q : Regex) (p : Option ℕ) (s : Text) → run r p s ≡ [] → run (seq r q) p s ≡ []
unfolding run followed_by
seq-none r q p s h = rw h refl

no_digit : (p : Option ℕ) (c : ℕ) (s : Text) → is_digit c ≡ false → run digits p (c ∷ s) ≡ []
unfolding run match_set followed_by
no_digit p c s h = rw h refl

no_colon :
    (r : Regex) (p : Option ℕ) (c : ℕ) (s : Text)
    → (colon == c) ≡ false
    → run (seq (literal (codes ":")) r) p (c ∷ s) ≡ []
unfolding run match_literal followed_by
no_colon r p c s h = rw h refl

colon_then :
    (r : Regex) (p : Option ℕ) (s : Text)
    → ((p : Option ℕ) → run r p s ≡ [])
    → run (seq (literal (codes ":")) r) p (colon ∷ s) ≡ []
unfolding run match_literal followed_by
colon_then r p s h = rw (h (some colon)) refl

pub run-colon :
    (r : Regex) (p : Option ℕ) (s : Text)
    → run (seq (literal (codes ":")) r) p (colon ∷ s)
      ≡ map (join_match (one colon s)) (run r (some colon) s)
unfolding run match_literal followed_by last_or
run-colon r p s = append-nil (map (join_match (one colon s)) (run r (some colon) s))

-- a text behind which the pattern does not go on, and one in which no place ends with such a text
abbrev pub Stuck : Text → Type 0
Stuck s = (p : Option ℕ) → run behind p s ≡ []

abbrev pub Loose : Text → Type 0
Loose s = (p : Option ℕ) → All (λ m. Stuck m.rest) (run colon_digits p s)

digit_no_colon : (c : ℕ) → is_digit c ≡ true → (colon == c) ≡ false
unfolding is_digit
digit_no_colon c h = ground arith

nothing-Loose : (s : Text) → ((p : Option ℕ) → run colon_digits p s ≡ []) → Loose s
nothing-Loose s h p = rw (h p) tt

digit-Stuck : (c : ℕ) (s : Text) → is_digit c ≡ true → Stuck (c ∷ s)
digit-Stuck c s h p = no_colon (digits ⨾ message) p c s (digit_no_colon c h)

digit-Loose : (c : ℕ) (s : Text) → is_digit c ≡ true → Loose (c ∷ s)
digit-Loose c s h = nothing-Loose (c ∷ s) (λ p. no_colon digits p c s (digit_no_colon c h))

-- the words behind the last colon
abbrev pub words : Text → Text
words s = codes " runtime error: " ++ s

pub words-Loose : (s : Text) → Loose (words s)
words-Loose s = nothing-Loose (words s) (λ p. no_colon digits p _ _ refl)

pub colon-Stuck : (s : Text) → Stuck (colon ∷ words s)
unfolding is_digit
colon-Stuck s p =
    colon_then (digits ⨾ message) p (words s)
      (λ q. seq-none digits message q (words s) (no_digit q _ _ refl))

pub colon-Loose : (s : Text) → Loose (colon ∷ words s)
unfolding is_digit
colon-Loose s =
    nothing-Loose (colon ∷ words s) (λ p. colon_then digits p (words s) (λ q. no_digit q _ _ refl))

-- No place ends in digits that another text follows.
pub digits-Loose :
    (ls v t : Text)
    → all is_digit ls ≡ true
    → DeadIn Loose v t
    → Loose (v ++ t)
    → DeadIn Loose (ls ++ v) t × Loose ((ls ++ v) ++ t)
unfolding all
digits-Loose [] v t h d e = (d, e)
digits-Loose (c ∷ ls) v t h d e =
    let (ds, f) = digits-Loose ls v t (ground arith) d e in
    ((f, ds), digit-Loose c ((ls ++ v) ++ t) (ground arith))

-- The same of what follows a place.
pub digits-Stuck :
    (ks t : Text) → all is_digit ks ≡ true → Stuck t → DeadIn Stuck ks t × Stuck (ks ++ t)
unfolding all
digits-Stuck [] t h e = (tt, e)
digits-Stuck (c ∷ ks) t h e =
    let (ds, f) = digits-Stuck ks t (ground arith) e in
    ((f, ds), digit-Stuck c (ks ++ t) (ground arith))

pub space_ends : is_solid b' ' ≡ false
unfolding is_solid is_space
space_ends = refl

pub first-colon_digits :
    (p : Option ℕ) (l : ℕ) (ls t : Text)
    → all is_digit (l ∷ ls) ≡ true
    → Ends is_digit t
    → first (run colon_digits p (colon ∷ l ∷ (ls ++ t)))
      ≡ some (record { matched = colon ∷ l ∷ ls; rest = t; groups = [] })
first-colon_digits p l ls t h e =
    first-seq (literal (codes ":")) digits p _ _ _ (first-literal (codes ":") p (l ∷ (ls ++ t)))
      (first-plus is_digit _ l ls t h e)
