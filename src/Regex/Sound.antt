-- ===== src/Regex/Sound.antt =====
-- Every way of matching that `run` lists is one.
use mapfuzz.Base.{
  ℕ, zero, suc, Text, ◌≡◌, refl, ap, Bool, true, false, Option, List, [], ◌∷◌, map, All, All-append,
  All-map, All-weaken, length, ==_iff, ◌==◌, if◌then◌else◌,
}
use mapfuzz.Regex.{
  Greed, greedy, lazy, Regex, set, literal, seq, alt, optional, repeat, group, line_start, line_end,
  word_edge, Match, nothing, join_match, followed_by, when, in_order, rounds, is_empty, last_or,
  match_literal, match_set, capture, run, at_line_start, at_line_end, word_before, word_after,
  differ,
}
use mapfuzz.Regex.Denotes.{
  Denotes, one_of, word, both, left, right, present, absent, stop, again, grouped, starts_line,
  ends_line, at_edge,
}

followed_by-All :
    (Q R : Match → Type 0) (ms : List Match) (next : Match → List Match)
    → All Q ms
    → ((m : Match) → Q m → All (λ n. R (join_match m n)) (next m))
    → All R (followed_by ms next)
unfolding followed_by
followed_by-All Q R [] next h k = tt
followed_by-All Q R (m ∷ ms) next (h, hs) k =
    All-append R (map (join_match m) (next m)) (followed_by ms next)
      (All-map R (join_match m) (next m) (k m h)) (followed_by-All Q R ms next hs k)

in_order-All :
    (Q : Match → Type 0) (g : Greed) (a b : List Match) → All Q a → All Q b → All Q (in_order g a b)
unfolding in_order
in_order-All Q greedy a b h k = All-append Q a b h k
in_order-All Q lazy a b h k = All-append Q b a k h

when-All : (Q : Match → Type 0) (b : Bool) (m : Match) → (b ≡ true → Q m) → All Q (when b (m ∷ []))
unfolding when
when-All Q true m h = (h refl, tt)
when-All Q false m h = tt

longer_word :
    (c : ℕ) (w : Text) (p : Option ℕ) (s : Text) (m : Match)
    → Denotes (literal w) p s m
    → Denotes
        (literal (c ∷ w))
        p
        (c ∷ s)
        (join_match (record { matched = c ∷ []; rest = s; groups = [] }) m)
longer_word c w p s m (word _ _ t _ e) = word (c ∷ w) p t (c ∷ s) (ap (◌∷◌ c) e)

match_literal-Denotes :
    (w : Text) (p : Option ℕ) (s : Text) → All (Denotes (literal w) p s) (match_literal w s)
unfolding match_literal
match_literal-Denotes [] p s = (word [] p s s refl, tt)
match_literal-Denotes (c ∷ w) p [] = tt
match_literal-Denotes (c ∷ w) p (d ∷ s) = tested (match_literal-Denotes w p s) (c == d) refl
  where
    more : List Match
    more = map (join_match (record { matched = d ∷ []; rest = s; groups = [] })) (match_literal w s)

    tested :
        All (Denotes (literal w) p s) (match_literal w s)
        → (b : Bool) → (c == d) ≡ b
        → All (Denotes (literal (c ∷ w)) p (d ∷ s)) (if b then more else [])
    tested ih false e = tt
    tested ih true e = rw ((==_iff c d).0 e) (
        All-map (Denotes (literal (d ∷ w)) p (d ∷ s)) _ (match_literal w s)
          (All-weaken _ _ (match_literal w s) (longer_word d w p s) ih))

match_set-Denotes :
    (f : ℕ → Bool) (p : Option ℕ) (s : Text) → All (Denotes (set f) p s) (match_set f s)
unfolding match_set
match_set-Denotes f p [] = tt
match_set-Denotes f p (c ∷ s) = tested (f c) refl
  where
    tested :
        (b : Bool)
        → f c ≡ b
        → All
            (Denotes (set f) p (c ∷ s))
            (if b then record { matched = c ∷ []; rest = s; groups = [] } ∷ [] else [])
    tested false e = tt
    tested true e = (one_of f p c s e, tt)

rounds-Denotes :
    (g : Greed) (r : Regex)
    → ((p : Option ℕ) (s : Text) → All (Denotes r p s) (run r p s))
    → (n : ℕ) (p : Option ℕ) (s : Text) → All (Denotes (repeat g r) p s) (rounds g (run r) n p s)
unfolding rounds
rounds-Denotes g r k zero p s = (stop g r p s, tt)
rounds-Denotes g r k (suc n) p s =
    in_order-All _ g _ _
      (followed_by-All (Denotes r p s) _ (run r p s) _ (k p s)
        λ m d. after (rounds-Denotes g r k n) m d (is_empty m.matched) refl)
      (stop g r p s, tt)
  where
    after :
        ((p' : Option ℕ) (s' : Text) → All (Denotes (repeat g r) p' s') (rounds g (run r) n p' s'))
        → (m : Match) → Denotes r p s m
        → (b : Bool) → is_empty m.matched ≡ b
        → All
            (λ m'. Denotes (repeat g r) p s (join_match m m'))
            (elim b [ true ↦ [] | false ↦ rounds g (run r) n (last_or p m.matched) m.rest ])
    after ih m d true e = tt
    after ih m d false e =
        All-weaken _ _ _ (λ m' d'. again d e d') (ih (last_or p m.matched) m.rest)

-- Each way of matching that `run` lists consumes a text that the pattern denotes there.
pub run-Denotes : (r : Regex) (p : Option ℕ) (s : Text) → All (Denotes r p s) (run r p s)
unfolding run
run-Denotes (set f) p s = match_set-Denotes f p s
run-Denotes (literal w) p s = match_literal-Denotes w p s
run-Denotes (seq r q) p s =
    followed_by-All (Denotes r p s) _ (run r p s) _ (run-Denotes r p s)
      λ m d. All-weaken _ _ _ (λ n e. both d e) (run-Denotes q (last_or p m.matched) m.rest)
run-Denotes (alt r q) p s =
    All-append _ (run r p s) (run q p s) (All-weaken _ _ _ (λ m d. left d) (run-Denotes r p s))
      (All-weaken _ _ _ (λ m d. right d) (run-Denotes q p s))
run-Denotes (optional r) p s =
    All-append _ (run r p s) (nothing s ∷ [])
      (All-weaken _ _ _ (λ m d. present d) (run-Denotes r p s)) (absent r p s, tt)
run-Denotes (repeat g r) p s = rounds-Denotes g r (run-Denotes r) (length s) p s
run-Denotes (group n r) p s =
    All-map _ (capture n) (run r p s) (All-weaken _ _ _ (λ m d. grouped d) (run-Denotes r p s))
run-Denotes line_start p s = when-All _ (at_line_start p) _ (starts_line p s)
run-Denotes line_end p s = when-All _ (at_line_end s) _ (ends_line p s)
run-Denotes word_edge p s = when-All _ (differ (word_before p) (word_after s)) _ (at_edge p s)
