-- ===== src/Regex/Denotes.antt =====
-- What it means for a pattern to match at a place, with no order of search in it.
use mapfuzz.Base.{ℕ, Text, ◌≡◌, Bool, true, false, Option, [], ◌∷◌, ◌++◌}
use mapfuzz.Regex.{
  Greed, Regex, set, literal, seq, alt, optional, repeat, group, line_start, line_end, word_edge,
  Match, nothing, join_match, capture, is_empty, last_or, at_line_start, at_line_end, word_before,
  word_after, differ,
}

pub data Denotes : Regex → Option ℕ → Text → Match → Type 0 where
  one_of :
      (f : ℕ → Bool) (p : Option ℕ) (c : ℕ) (s : Text)
      → f c ≡ true
      → Denotes (set f) p (c ∷ s) (record { matched = c ∷ []; rest = s; groups = [] })
  word :
      (w : Text) (p : Option ℕ) (s t : Text)
      → w ++ s ≡ t
      → Denotes (literal w) p t (record { matched = w; rest = s; groups = [] })
  both :
      {r q : Regex} {p : Option ℕ} {s : Text} {m n : Match}
      → Denotes r p s m
      → Denotes q (last_or p m.matched) m.rest n
      → Denotes (seq r q) p s (join_match m n)
  left :
      {r q : Regex} {p : Option ℕ} {s : Text} {m : Match}
      → Denotes r p s m
      → Denotes (alt r q) p s m
  right :
      {r q : Regex} {p : Option ℕ} {s : Text} {m : Match}
      → Denotes q p s m
      → Denotes (alt r q) p s m
  present :
      {r : Regex} {p : Option ℕ} {s : Text} {m : Match}
      → Denotes r p s m
      → Denotes (optional r) p s m
  absent : (r : Regex) (p : Option ℕ) (s : Text) → Denotes (optional r) p s (nothing s)
  stop : (g : Greed) (r : Regex) (p : Option ℕ) (s : Text) → Denotes (repeat g r) p s (nothing s)
  again :
      {g : Greed} {r : Regex} {p : Option ℕ} {s : Text} {m n : Match}
      → Denotes r p s m
      → is_empty m.matched ≡ false
      → Denotes (repeat g r) (last_or p m.matched) m.rest n
      → Denotes (repeat g r) p s (join_match m n)
  grouped :
      {k : ℕ} {r : Regex} {p : Option ℕ} {s : Text} {m : Match}
      → Denotes r p s m
      → Denotes (group k r) p s (capture k m)
  starts_line :
      (p : Option ℕ) (s : Text) → at_line_start p ≡ true → Denotes line_start p s (nothing s)
  ends_line : (p : Option ℕ) (s : Text) → at_line_end s ≡ true → Denotes line_end p s (nothing s)
  at_edge :
      (p : Option ℕ) (s : Text)
      → differ (word_before p) (word_after s) ≡ true
      → Denotes word_edge p s (nothing s)
