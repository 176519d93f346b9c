-- ===== src/Regex/Greedy.antt =====
-- What `re` finds first for a class that is repeated greedily: as much as it can, or as much as what
-- follows in the pattern leaves it.
use mapfuzz.Base.{
  ==_iff, ℕ, zero, suc, ◌≤◌, Text, ◌≡◌, refl, Bool, true, false, Option, some, List, [], ◌∷◌, ◌++◌,
  map, length, length-append, append-nil, append_assoc, arith, All, all,
}
use mapfuzz.Regex.{
  Regex, set, plus, greedy, Match, join_match, nothing, followed_by, in_order, is_empty, rounds,
  match_set, match_literal, literal, seq, repeat, group, capture, run, first, last_or, first_full,
  pieces_from, keep, hit,
}

-- the text does not begin with a character of the class
abbrev pub Ends : (ℕ → Bool) → Text → Type 0
Ends f [] = Unit
Ends f (c ∷ s) = f c ≡ false

abbrev pub one : ℕ → Text → Match
one c s = record { matched = c ∷ []; rest = s; groups = [] }

pub first-map :
    (f : Match → Match) (ms : List Match) (m : Match)
    → first ms ≡ some m
    → first (map f ms) ≡ some (f m)
unfolding first
first-map f [] m h = cc
first-map f (x ∷ ms) m h = cc

pub first-append : (ms ns : List Match) (m : Match) → first ms ≡ some m → first (ms ++ ns) ≡ some m
unfolding first
first-append [] ns m h = cc
first-append (x ∷ ms) ns m h = h

pub first-followed_by :
    (ms : List Match) (next : Match → List Match) (m n : Match)
    → first ms ≡ some m
    → first (next m) ≡ some n
    → first (followed_by ms next) ≡ some (join_match m n)
unfolding first followed_by
first-followed_by [] next m n h k = cc
first-followed_by (x ∷ ms) next m n h k =
    let same : x ≡ m = cc in
    first-append (map (join_match x) (next x)) (followed_by ms next) (join_match m n)
      (rw same (first-map (join_match m) (next m) n k))

pub followed_by-none :
    (ms : List Match) (next : Match → List Match)
    → All (λ m. next m ≡ []) ms
    → followed_by ms next ≡ []
unfolding followed_by
followed_by-none [] next h = refl
followed_by-none (m ∷ ms) next (e, h) = rw (e, followed_by-none ms next h) refl

pub followed_by-append :
    (ms ns : List Match) (next : Match → List Match)
    → followed_by (ms ++ ns) next ≡ followed_by ms next ++ followed_by ns next
unfolding followed_by
followed_by-append [] ns next = refl
followed_by-append (m ∷ ms) ns next =
    rw
      (
        followed_by-append ms ns next,
        append_assoc (map (join_match m) (next m)) (followed_by ms next) (followed_by ns next),
      )
      refl

module _ (f : ℕ → Bool) where
  pub rounds_stop :
      (n : ℕ) (p : Option ℕ) (s : Text)
      → Ends f s
      → rounds greedy (run (set f)) n p s ≡ nothing s ∷ []
  unfolding rounds run match_set followed_by in_order
  rounds_stop zero p s h = refl
  rounds_stop (suc n) p [] h = refl
  rounds_stop (suc n) p (c ∷ s) h = rw h refl

  -- one more round, or none
  pub rounds_more :
      (n : ℕ) (p : Option ℕ) (c : ℕ) (s : Text)
      → f c ≡ true
      → rounds greedy (run (set f)) (suc n) p (c ∷ s)
        ≡ map (join_match (one c s)) (rounds greedy (run (set f)) n (some c) s)
          ++ nothing (c ∷ s) ∷ []
  unfolding rounds run match_set followed_by in_order is_empty last_or
  rounds_more n p c s h = rw (h, append-nil) refl

  -- The class takes all that it can.
  first-rounds :
      (n : ℕ) (p : Option ℕ) (u t : Text)
      → all f u ≡ true
      → Ends f t
      → length u ≤ n
      → first (rounds greedy (run (set f)) n p (u ++ t))
        ≡ some (record { matched = u; rest = t; groups = [] })
  unfolding all
  first-rounds n p [] t h e le = rw (rounds_stop n p t e) (unfold first in refl)
  first-rounds (suc n) p (c ∷ u) t h e le = rw (rounds_more n p c (u ++ t) (ground arith)) (
      first-append _ _ _
        (first-map _ _ _ (first-rounds n (some c) u t (ground arith) e (omega arith))))
  first-rounds zero p (c ∷ u) t h e le = absurd (omega arith)

-- A class with `+` takes all that it can.
pub first-plus :
    (f : ℕ → Bool) (p : Option ℕ) (c : ℕ) (u t : Text)
    → all f (c ∷ u) ≡ true
    → Ends f t
    → first (run (plus greedy (set f)) p (c ∷ (u ++ t)))
      ≡ some (record { matched = c ∷ u; rest = t; groups = [] })
unfolding run all match_set followed_by
first-plus f p c u t h e =
    let here : f c ≡ true = ground arith in
    let le : length u ≤ length (u ++ t) = rw (length-append u t) (omega arith) in
    rw (here, append-nil)
      (first-map (join_match (one c (u ++ t))) _ _
        (first-rounds f (length (u ++ t)) (last_or p (c ∷ [])) u t (ground arith) e le))

-- A class with `*` takes all that it can.
pub first-star :
    (f : ℕ → Bool) (p : Option ℕ) (u t : Text)
    → all f u ≡ true
    → Ends f t
    → first (run (repeat greedy (set f)) p (u ++ t))
      ≡ some (record { matched = u; rest = t; groups = [] })
unfolding run
first-star f p u t h e =
    first-rounds f (length (u ++ t)) p u t h e (rw (length-append u t) (omega arith))

first-match_literal :
    (w s : Text)
    → first (match_literal w (w ++ s)) ≡ some (record { matched = w; rest = s; groups = [] })
unfolding match_literal first
first-match_literal [] s = refl
first-match_literal (c ∷ w) s =
    rw ((==_iff c c).1 refl) (first-map _ (match_literal w (w ++ s)) _ (first-match_literal w s))

-- What is found first of a pattern in parts.
pub first-literal :
    (w : Text) (p : Option ℕ) (s : Text)
    → first (run (literal w) p (w ++ s)) ≡ some (record { matched = w; rest = s; groups = [] })
unfolding run
first-literal w p s = first-match_literal w s

pub first-seq :
    (r q : Regex) (p : Option ℕ) (s : Text) (m n : Match)
    → first (run r p s) ≡ some m
    → first (run q (last_or p m.matched) m.rest) ≡ some n
    → first (run (seq r q) p s) ≡ some (join_match m n)
unfolding run
first-seq r q p s m n h k = first-followed_by (run r p s) _ m n h k

pub first-group :
    (k : ℕ) (r : Regex) (p : Option ℕ) (s : Text) (m : Match)
    → first (run r p s) ≡ some m
    → first (run (group k r) p s) ≡ some (capture k m)
unfolding run
first-group k r p s m h = first-map (capture k) (run r p s) m h

-- A character at which there is no match is kept, and a match that consumes something is taken.
pub pieces_from-keep :
    (r : Regex) (n : ℕ) (p : Option ℕ) (c : ℕ) (s : Text)
    → run r p (c ∷ s) ≡ []
    → pieces_from (suc n) r p (c ∷ s) ≡ keep c ∷ pieces_from n r (some c) s
unfolding pieces_from first_full
pieces_from-keep r n p c s h = rw (h, pieces_from) refl

first-first_full :
    (ms : List Match) (m : Match)
    → first ms ≡ some m
    → is_empty m.matched ≡ false
    → first_full ms ≡ some m
unfolding first first_full
first-first_full [] m h e = cc
first-first_full (x ∷ ms) m h e = let same : x ≡ m = cc in rw (same, e) refl

pub pieces_from-hit :
    (r : Regex) (n : ℕ) (p : Option ℕ) (c : ℕ) (s : Text) (m : Match)
    → first (run r p (c ∷ s)) ≡ some m
    → is_empty m.matched ≡ false
    → pieces_from (suc n) r p (c ∷ s) ≡ hit m ∷ pieces_from n r (last_or p m.matched) m.rest
unfolding pieces_from
pieces_from-hit r n p c s m h e = rw (first-first_full (run r p (c ∷ s)) m h e, pieces_from) refl
