-- ===== src/Regex/Runs.antt =====
-- What a repeated class matches, and captures that a pattern cannot make.
use mapfuzz.Base.{
  ℕ, Text, ◌≡◌, refl, ap, Bool, true, false, Option, List, [], ◌∷◌, ◌++◌, arith, all, All,
  All-append, ◌==◌,
}
use mapfuzz.Regex.{Regex, set, seq, alt, optional, repeat, group, plus, Greed, Match, find_group}
use mapfuzz.Regex.Denotes.{
  Denotes, one_of, word, both, left, right, present, absent, stop, again, grouped, starts_line,
  ends_line, at_edge,
}

-- `m` takes characters of the class off the front of the text, and captures nothing.
pub record Taken (f : ℕ → Bool) (s : Text) (m : Match) : Type 0 where
  pub splits : m.matched ++ m.rest ≡ s
  pub class : all f m.matched ≡ true
  pub quiet : m.groups ≡ []

pub repeat-Taken :
    {g : Greed} {f : ℕ → Bool} {p : Option ℕ} {s : Text} {m : Match}
    → Denotes (repeat g (set f)) p s m
    → Taken f s m
unfolding all
repeat-Taken (stop g r p s) = record { splits = refl; class = refl; quiet = refl }
repeat-Taken (again (one_of f p c s h) e d) =
    let t = repeat-Taken d in
    record {
      splits = ap (◌∷◌ c) t.splits;
      class = ground (arith, t.class);
      quiet = rw t.quiet refl;
    }

-- With `+` there is one at least.
pub plus-Taken :
    {g : Greed} {f : ℕ → Bool} {p : Option ℕ} {s : Text} {m : Match}
    → Denotes (plus g (set f)) p s m
    → (c : ℕ) × (u : Text) × (m.matched ≡ c ∷ u) × Taken f s m
unfolding all
plus-Taken (both (one_of f p c s h) d) =
    let t = repeat-Taken d in
    (
      c,
      _,
      refl,
      record {
        splits = ap (◌∷◌ c) t.splits;
        class = ground (arith, t.class);
        quiet = rw t.quiet refl;
      },
    )

-- the pattern does not capture group `n`
abbrev pub NoGroup : ℕ → Regex → Type 0
NoGroup n (seq r q) = NoGroup n r × NoGroup n q
NoGroup n (alt r q) = NoGroup n r × NoGroup n q
NoGroup n (optional r) = NoGroup n r
NoGroup n (repeat g r) = NoGroup n r
NoGroup n (group k r) = ((k == n) ≡ false) × NoGroup n r
NoGroup n _ = Unit

abbrev Other : ℕ → ℕ × Text → Type 0
Other n (k, t) = (k == n) ≡ false

module _ (n : ℕ) where
  others :
      {r : Regex} {p : Option ℕ} {s : Text} {m : Match}
      → Denotes r p s m
      → NoGroup n r
      → All (Other n) m.groups
  others (one_of f p c s h) o = tt
  others (word w p s t e) o = tt
  others (both {m = m} {n = k} d e) (o, u) =
      All-append (Other n) k.groups m.groups (others e u) (others d o)
  others (left d) (o, u) = others d o
  others (right d) (o, u) = others d u
  others (present d) o = others d o
  others (absent r p s) o = tt
  others (stop g r p s) o = tt
  others (again {m = m} {n = k} d h e) o =
      All-append (Other n) k.groups m.groups (others e o) (others d o)
  others (grouped d) (here, o) = (here, others d o)
  others (starts_line p s h) o = tt
  others (ends_line p s h) o = tt
  others (at_edge p s h) o = tt

  find_group-append :
      (gs hs : List (ℕ × Text)) → All (Other n) gs → find_group n (gs ++ hs) ≡ find_group n hs
  unfolding find_group
  find_group-append [] hs h = refl
  find_group-append ((k, t) ∷ gs) hs (h, rest) = rw h (find_group-append gs hs rest)

  -- What a later part of the pattern captures does not hide the group.
  pub find_group-both :
      {q : Regex} {p : Option ℕ} {s : Text} {k : Match} (gs : List (ℕ × Text))
      → Denotes q p s k
      → NoGroup n q
      → find_group n (k.groups ++ gs) ≡ find_group n gs
  find_group-both {k = k} gs d o = find_group-append k.groups gs (others d o)
