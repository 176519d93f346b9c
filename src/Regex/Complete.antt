-- ===== src/Regex/Complete.antt =====
-- `run` misses no way of matching, so `search_in` returns nothing only where nothing matches.
use mapfuzz.Base.{
  ℕ, zero, suc, ◌≤◌, Text, ◌≡◌, refl, ap, ◌∙◌, Bool, true, false, Option, List, [], ◌∷◌, ◌++◌,
  arith, Elem, Elem-append_left, Elem-append_right, Elem-map, All-Elem, length, length-append,
  append_assoc, inl, inr, ==_iff, ◌↔◌, map, subst,
}
use mapfuzz.Regex.{
  Greed, greedy, lazy, Regex, set, literal, seq, alt, optional, repeat, group, line_start, line_end,
  word_edge, Match, nothing, join_match, followed_by, when, in_order, rounds, is_empty, last_or,
  match_literal, match_set, capture, run, at_line_start, at_line_end, word_before, word_after,
  differ,
}
use mapfuzz.Regex.Denotes.{
  Denotes, one_of, word, both, left, right, present, absent, stop, again, grouped, starts_line,
  ends_line, at_edge,
}
use mapfuzz.Regex.Sound.{run-Denotes}

-- What a match consumed and what it left make up the text that it was tried on.
pub Denotes-splits :
    {r : Regex} {p : Option ℕ} {s : Text} {m : Match} → Denotes r p s m → m.matched ++ m.rest ≡ s
Denotes-splits (one_of f p c s h) = refl
Denotes-splits (word w p s t e) = e
Denotes-splits (both {m = m} {n = n} d e) =
    append_assoc m.matched n.matched n.rest
    ∙ ap (λ t. m.matched ++ t) (Denotes-splits e)
    ∙ Denotes-splits d
Denotes-splits (left d) = Denotes-splits d
Denotes-splits (right d) = Denotes-splits d
Denotes-splits (present d) = Denotes-splits d
Denotes-splits (absent r p s) = refl
Denotes-splits (stop g r p s) = refl
Denotes-splits (again {m = m} {n = n} d h e) =
    append_assoc m.matched n.matched n.rest
    ∙ ap (λ t. m.matched ++ t) (Denotes-splits e)
    ∙ Denotes-splits d
Denotes-splits (grouped d) = Denotes-splits d
Denotes-splits (starts_line p s h) = refl
Denotes-splits (ends_line p s h) = refl
Denotes-splits (at_edge p s h) = refl

Elem-followed_by :
    (m n : Match) (ms : List Match) (next : Match → List Match)
    → Elem m ms
    → Elem n (next m)
    → Elem (join_match m n) (followed_by ms next)
unfolding followed_by
Elem-followed_by m n [] next h k = absurd h
Elem-followed_by m n (x ∷ ms) next (inl e) k = Elem-append_left _ (map (join_match x) (next x)) _ (
    subst (λ y. Elem (join_match m n) (map (join_match y) (next y))) e
      (Elem-map (join_match m) n (next m) k))
Elem-followed_by m n (x ∷ ms) next (inr h) k =
    Elem-append_right _ (map (join_match x) (next x)) _ (Elem-followed_by m n ms next h k)

Elem-in_order_more : (m : Match) (g : Greed) (a b : List Match) → Elem m a → Elem m (in_order g a b)
unfolding in_order
Elem-in_order_more m greedy a b h = Elem-append_left m a b h
Elem-in_order_more m lazy a b h = Elem-append_right m b a h

Elem-in_order_stop : (m : Match) (g : Greed) (a b : List Match) → Elem m b → Elem m (in_order g a b)
unfolding in_order
Elem-in_order_stop m greedy a b h = Elem-append_right m a b h
Elem-in_order_stop m lazy a b h = Elem-append_left m b a h

Elem-when : (b : Bool) (m : Match) → b ≡ true → Elem m (when b (m ∷ []))
unfolding when
Elem-when true m h = inl refl
Elem-when false m h = cc

Elem-match_literal :
    (w s t : Text)
    → w ++ s ≡ t
    → Elem (record { matched = w; rest = s; groups = [] }) (match_literal w t)
unfolding match_literal
Elem-match_literal w s t e =
    subst (λ u. Elem (record { matched = w; rest = s; groups = [] }) (match_literal w u)) e
      (at_front w)
  where
    at_front :
        (w : Text) → Elem (record { matched = w; rest = s; groups = [] }) (match_literal w (w ++ s))
    at_front [] = inl refl
    at_front (c ∷ w) = rw ((==_iff c c).1 refl) (
        Elem-map (join_match (record { matched = c ∷ []; rest = w ++ s; groups = [] })) _
          (match_literal w (w ++ s)) (at_front w))

Elem-match_set :
    (f : ℕ → Bool) (c : ℕ) (s : Text)
    → f c ≡ true
    → Elem (record { matched = c ∷ []; rest = s; groups = [] }) (match_set f (c ∷ s))
unfolding match_set
Elem-match_set f c s h = rw h (inl refl)

shorter :
    (m : Match) (s : Text)
    → m.matched ++ m.rest ≡ s
    → is_empty m.matched ≡ false
    → suc (length m.rest) ≤ length s
unfolding is_empty
shorter m s e h = go m.matched e h
  where
    go : (w : Text) → w ++ m.rest ≡ s → is_empty w ≡ false → suc (length m.rest) ≤ length s
    go [] e h = cc
    go (c ∷ w) e h = omega (arith, ap length e, length-append w m.rest)

Elem-rounds :
    (g : Greed) (r : Regex)
    → ((p : Option ℕ) (s : Text) (m : Match) → Denotes r p s m → Elem m (run r p s))
    → (f : ℕ) (p : Option ℕ) (s : Text) (m : Match) → length s ≤ f
    → Denotes (repeat g r) p s m
    → Elem m (rounds g (run r) f p s)
unfolding rounds
Elem-rounds g r k zero p s m le (stop _ _ _ _) = inl refl
Elem-rounds g r k zero p s m le (again {m = a} d h e) =
    absurd (omega (arith, shorter a s (Denotes-splits d) h))
Elem-rounds g r k (suc f) p s m le (stop _ _ _ _) =
    Elem-in_order_stop (nothing s) g _ (nothing s ∷ []) (inl refl)
Elem-rounds g r k (suc f) p s m le (again {m = a} {n = n} d h e) =
    Elem-in_order_more (join_match a n) g _ (nothing s ∷ []) (
      Elem-followed_by a n (run r p s) _ (k p s a d) (
        rw h (
          Elem-rounds g r k f (last_or p a.matched) a.rest n
            (omega (arith, shorter a s (Denotes-splits d) h)) e)))

-- Every match that a pattern denotes at a place is among those that `run` lists.
pub Denotes-run :
    (r : Regex) (p : Option ℕ) (s : Text) (m : Match) → Denotes r p s m → Elem m (run r p s)
unfolding run
Denotes-run (set f) p s m (one_of _ _ c t h) = Elem-match_set f c t h
Denotes-run (literal w) p s m (word _ _ t _ e) = Elem-match_literal w t s e
Denotes-run (seq r q) p s m (both {m = a} {n = n} d e) =
    Elem-followed_by a n (run r p s) _ (Denotes-run r p s a d)
      (Denotes-run q (last_or p a.matched) a.rest n e)
Denotes-run (alt r q) p s m (left d) = Elem-append_left m (run r p s) _ (Denotes-run r p s m d)
Denotes-run (alt r q) p s m (right d) = Elem-append_right m (run r p s) _ (Denotes-run q p s m d)
Denotes-run (optional r) p s m (present d) =
    Elem-append_left m (run r p s) _ (Denotes-run r p s m d)
Denotes-run (optional r) p s m (absent _ _ _) = Elem-append_right m (run r p s) _ (inl refl)
Denotes-run (repeat g r) p s m d = Elem-rounds g r (Denotes-run r) (length s) p s m (omega arith) d
Denotes-run (group n r) p s m (grouped {m = a} d) =
    Elem-map (capture n) a (run r p s) (Denotes-run r p s a d)
Denotes-run line_start p s m (starts_line _ _ h) = Elem-when (at_line_start p) _ h
Denotes-run line_end p s m (ends_line _ _ h) = Elem-when (at_line_end s) _ h
Denotes-run word_edge p s m (at_edge _ _ h) = Elem-when (differ (word_before p) (word_after s)) _ h

-- `run` lists exactly the matches that the pattern denotes at the place.
pub run_iff :
    (r : Regex) (p : Option ℕ) (s : Text) (m : Match) → Elem m (run r p s) ↔ Denotes r p s m
run_iff r p s m = (All-Elem (Denotes r p s) m (run r p s) (run-Denotes r p s), Denotes-run r p s m)
