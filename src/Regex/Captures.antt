-- ===== src/Regex/Captures.antt =====
-- Which characters a match and its groups can hold, read off the pattern.
use mapfuzz.Base.{
  ℕ, Text, ◌≡◌, refl, Bool, true, Option, List, [], ◌∷◌, arith, all, all-append, All, All-append,
  Bool-cases, inl, inr, ==_iff, ◌==◌,
}
use mapfuzz.Regex.{
  Regex, set, literal, seq, alt, optional, repeat, group, Match, find_group, group_of,
}
use mapfuzz.Regex.Denotes.{
  Denotes, one_of, word, both, left, right, present, absent, stop, again, grouped, starts_line,
  ends_line, at_edge,
}

-- every character that `r` can consume passes `P`
abbrev pub Only : (ℕ → Bool) → Regex → Type 0
Only P (set f) = (c : ℕ) → f c ≡ true → P c ≡ true
Only P (literal w) = all P w ≡ true
Only P (seq r q) = Only P r × Only P q
Only P (alt r q) = Only P r × Only P q
Only P (optional r) = Only P r
Only P (repeat g r) = Only P r
Only P (group n r) = Only P r
Only P _ = Unit

-- the same of the parts of `r` that group `n` captures
abbrev pub GroupOnly : (ℕ → Bool) → ℕ → Regex → Type 0
GroupOnly P n (seq r q) = GroupOnly P n r × GroupOnly P n q
GroupOnly P n (alt r q) = GroupOnly P n r × GroupOnly P n q
GroupOnly P n (optional r) = GroupOnly P n r
GroupOnly P n (repeat g r) = GroupOnly P n r
GroupOnly P n (group k r) = (k ≡ n → Only P r) × GroupOnly P n r
GroupOnly P n _ = Unit

-- what a capture of group `n` holds passes `P`
abbrev CaptureOnly : (ℕ → Bool) → ℕ → ℕ × Text → Type 0
CaptureOnly P n (k, t) = k ≡ n → all P t ≡ true

module _ (P : ℕ → Bool) where
  pub Only-matched :
      {r : Regex} {p : Option ℕ} {s : Text} {m : Match}
      → Denotes r p s m
      → Only P r
      → all P m.matched ≡ true
  unfolding all
  Only-matched (one_of f p c s h) o = ground (arith, o c h)
  Only-matched (word w p s t e) o = o
  Only-matched (both {m = m} {n = n} d e) (o, u) =
      all-append P m.matched n.matched (Only-matched d o) (Only-matched e u)
  Only-matched (left d) (o, u) = Only-matched d o
  Only-matched (right d) (o, u) = Only-matched d u
  Only-matched (present d) o = Only-matched d o
  Only-matched (absent r p s) o = refl
  Only-matched (stop g r p s) o = refl
  Only-matched (again {m = m} {n = n} d h e) o =
      all-append P m.matched n.matched (Only-matched d o) (Only-matched e o)
  Only-matched (grouped d) o = Only-matched d o
  Only-matched (starts_line p s h) o = refl
  Only-matched (ends_line p s h) o = refl
  Only-matched (at_edge p s h) o = refl

  module _ (k : ℕ) where
    captures_only :
        {r : Regex} {p : Option ℕ} {s : Text} {m : Match}
        → Denotes r p s m
        → GroupOnly P k r
        → All (CaptureOnly P k) m.groups
    captures_only (one_of f p c s h) o = tt
    captures_only (word w p s t e) o = tt
    captures_only (both {m = m} {n = n} d e) (o, u) =
        All-append (CaptureOnly P k) n.groups m.groups (captures_only e u) (captures_only d o)
    captures_only (left d) (o, u) = captures_only d o
    captures_only (right d) (o, u) = captures_only d u
    captures_only (present d) o = captures_only d o
    captures_only (absent r p s) o = tt
    captures_only (stop g r p s) o = tt
    captures_only (again {m = m} {n = n} d h e) o =
        All-append (CaptureOnly P k) n.groups m.groups (captures_only e o) (captures_only d o)
    captures_only (grouped d) (here, o) = (λ e. Only-matched d (here e), captures_only d o)
    captures_only (starts_line p s h) o = tt
    captures_only (ends_line p s h) o = tt
    captures_only (at_edge p s h) o = tt

  find_group-only :
      (k : ℕ) (gs : List (ℕ × Text)) → All (CaptureOnly P k) gs → all P (find_group k gs) ≡ true
  unfolding find_group all
  find_group-only k [] h = refl
  find_group-only k ((j, t) ∷ gs) (h, hs) = elim (Bool-cases (j == k)) [
    | inl e ↦ rw e (h ((==_iff j k).0 e))
    | inr e ↦ rw e (find_group-only k gs hs)
  ]

  -- What `m.group(k)` returns holds only characters that the group's pattern admits.
  pub group_of-only :
      (k : ℕ) {r : Regex} {p : Option ℕ} {s : Text} {m : Match}
      → Denotes r p s m
      → GroupOnly P k r
      → all P (group_of k m) ≡ true
  unfolding group_of
  group_of-only k {m = m} d o = find_group-only k m.groups (captures_only k d o)
