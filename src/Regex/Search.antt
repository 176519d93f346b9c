-- ===== src/Regex/Search.antt =====
-- `search_in` returns a match that the pattern denotes somewhere in the text, and nothing only
-- where it denotes none anywhere.
use mapfuzz.Base.{
  ℕ, Text, ◌≡◌, refl, Option, none, some, List, [], ◌∷◌, ◌++◌, arith, All, Elem, subst, ap, ◌∙◌,
}
use mapfuzz.Regex.{Regex, Match, last_or, first, run, search_from, search_in}
use mapfuzz.Regex.Denotes.{Denotes}
use mapfuzz.Regex.Sound.{run-Denotes}
use mapfuzz.Regex.Complete.{Denotes-run}

-- `m` matches `r` somewhere in `s`, entered after the character `p`: behind the characters `w`.
pub record FoundIn (r : Regex) (p : Option ℕ) (s : Text) (m : Match) : Type 0 where
  pub before : Text
  pub from : Text
  pub splits : before ++ from ≡ s
  pub denotes : Denotes r (last_or p before) from m

first-All : (P : Match → Type 0) (ms : List Match) (m : Match) → All P ms → first ms ≡ some m → P m
unfolding first
first-All P [] m h e = cc
first-All P (x ∷ ms) m (h, _) e = subst P (cc) h

first-none : (ms : List Match) (m : Match) → first ms ≡ none → ¬ Elem m ms
unfolding first
first-none [] m e h = h
first-none (x ∷ ms) m e h = cc

-- the same, with the match as the one that is tried first at its place
pub record FirstIn (r : Regex) (p : Option ℕ) (s : Text) (m : Match) : Type 0 where
  pub before : Text
  pub from : Text
  pub splits : before ++ from ≡ s
  pub tried : first (run r (last_or p before) from) ≡ some m

search_from-FirstIn :
    (r : Regex) (p : Option ℕ) (s : Text) (m : Match) → search_from r p s ≡ some m → FirstIn r p s m
unfolding search_from last_or
search_from-FirstIn r p [] m e = record { before = []; from = []; splits = refl; tried = e }
search_from-FirstIn r p (c ∷ s) m e =
    here (first (run r p (c ∷ s))) refl e (search_from-FirstIn r (some c) s m)
  where
    here :
        (o : Option Match)
        → first (run r p (c ∷ s)) ≡ o
        → elim o [ some n ↦ some n | none ↦ search_from r (some c) s ] ≡ some m
        → (search_from r (some c) s ≡ some m → FirstIn r (some c) s m)
        → FirstIn r p (c ∷ s) m
    here none q e ih =
        let f = ih e in
        record {
          before = c ∷ f.before;
          from = f.from;
          splits = ap (◌∷◌ c) f.splits;
          tried = f.tried;
        }
    here (some n) q e ih = record { before = []; from = c ∷ s; splits = refl; tried = q ∙ e }

pub first-Denotes :
    (r : Regex) (p : Option ℕ) (s : Text) (m : Match) → first (run r p s) ≡ some m → Denotes r p s m
first-Denotes r p s m e = first-All _ _ m (run-Denotes r p s) e

FirstIn-FoundIn :
    (r : Regex) (p : Option ℕ) (s : Text) (m : Match) → FirstIn r p s m → FoundIn r p s m
FirstIn-FoundIn r p s m f = record {
  before = f.before;
  from = f.from;
  splits = f.splits;
  denotes = first-Denotes r (last_or p f.before) f.from m f.tried;
}

-- A search finds what matches at the front of the text.
pub search_in-here :
    (r : Regex) (s : Text) (m : Match) → first (run r none s) ≡ some m → search_in r s ≡ some m
unfolding search_in search_from
search_in-here r [] m h = h
search_in-here r (c ∷ s) m h =
    ap (λ o. elim o [ some n ↦ some n | none ↦ search_from r (some c) s ]) h

none_here :
    (r : Regex) (p : Option ℕ) (s : Text) → search_from r p s ≡ none → first (run r p s) ≡ none
unfolding search_from
none_here r p [] h = h
none_here r p (c ∷ s) h = ground arith

none_later :
    (r : Regex) (p : Option ℕ) (c : ℕ) (s : Text)
    → search_from r p (c ∷ s) ≡ none
    → search_from r (some c) s ≡ none
unfolding search_from
none_later r p c s h = ground arith

nowhere :
    (r : Regex) (m : Match) (w t : Text) (p : Option ℕ)
    → search_from r p (w ++ t) ≡ none
    → ¬ Denotes r (last_or p w) t m
unfolding last_or
nowhere r m [] t p h d = first-none (run r p t) m (none_here r p t h) (Denotes-run r p t m d)
nowhere r m (c ∷ w) t p h d = nowhere r m w t (some c) (none_later r p c (w ++ t) h) d

-- A search that returns nothing has a text in which the pattern matches nowhere.
search_from-none :
    (r : Regex) (p : Option ℕ) (s : Text) (m : Match) → search_from r p s ≡ none → ¬ FoundIn r p s m
search_from-none r p s m e f = nowhere r m f.before f.from p (rw f.splits e) f.denotes

-- The same of a search from the start of the text.
pub search_in-FoundIn :
    (r : Regex) (s : Text) (m : Match) → search_in r s ≡ some m → FoundIn r none s m
unfolding search_in
search_in-FoundIn r s m e = FirstIn-FoundIn r none s m (search_from-FirstIn r none s m e)

pub search_in-FirstIn :
    (r : Regex) (s : Text) (m : Match) → search_in r s ≡ some m → FirstIn r none s m
unfolding search_in
search_in-FirstIn r s m e = search_from-FirstIn r none s m e

pub search_in-none :
    (r : Regex) (s : Text) (m : Match) → search_in r s ≡ none → ¬ FoundIn r none s m
unfolding search_in
search_in-none r s m e = search_from-none r none s m e
