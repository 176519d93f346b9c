-- ===== src/Triage/Parsers/Asan.antt =====
-- The fault class of a report of AddressSanitizer is a kind that the report names.
use mapfuzz.Base.{
  ℕ, zero, suc, Text, codes, Bool, true, false, ◌≡◌, refl, sym, ap, ◌∙◌, subst, Option, none, some,
  List, [], ◌∷◌, ◌++◌, arith, all, lower, is_space, is_letter, is_digit, Bool-cases, false≢true,
  inl, inr, ◌==◌, append_assoc, length, length-append,
}
use mapfuzz.Regex.{
  Match, greedy, set, plus, repeat, literal, join_match, capture, run, first, last_or, search_in,
  group_of, find_group, is_empty,
}
use mapfuzz.Regex.Denotes.{Denotes, word, both, grouped}
use mapfuzz.Regex.Search.{first-Denotes, search_in-FoundIn, search_in-FirstIn}
use mapfuzz.Regex.Greedy.{Ends, first-plus, first-star, first-literal, first-seq, first-group}
use mapfuzz.Regex.Runs.{repeat-Taken, plus-Taken, find_group-both}
use mapfuzz.Triage.Signature.{Signature}
use mapfuzz.Triage.Parsers
use mapfuzz.Triage.Parsers.Recognised.{asan_mark}

-- The text names the kind `k` of a fault: behind the mark and white space, as far as letters,
-- digits and `-` go.
pub record Names (text k : Text) : Type 0 where
  pub before : Text
  pub gap : Text
  pub after : Text
  pub splits : before ++ (asan_mark ++ (gap ++ (k ++ after))) ≡ text
  pub blank : all is_space gap ≡ true
  pub kind : all Parsers.is_kind_char k ≡ true
  pub not_empty : is_empty k ≡ false
  pub maximal : Ends Parsers.is_kind_char after

-- what a match of the pattern of the kind is made of
record Parts (s : Text) (m : Match) : Type 0 where
  pub gap : Text
  pub head : ℕ
  pub tail : Text
  pub splits : asan_mark ++ (gap ++ (head ∷ (tail ++ m.rest))) ≡ s
  pub blank : all is_space gap ≡ true
  pub kind : all Parsers.is_kind_char (head ∷ tail) ≡ true
  pub captured : find_group 1 m.groups ≡ head ∷ tail

asan_kind-Parts :
    {p : Option ℕ} {s : Text} {m : Match} → Denotes Parsers.asan_kind p s m → Parts s m
unfolding find_group
asan_kind-Parts (both (word w p s t e) (both {m = g} d (grouped {m = k} d'))) =
    let gap = repeat-Taken d in
    let (c, u, q, kind) = plus-Taken d' in
    record {
      gap = g.matched;
      head = c;
      tail = u;
      splits =
          ap (λ x. asan_mark ++ (g.matched ++ (x ++ k.rest))) (sym q)
          ∙ ap (λ x. asan_mark ++ (g.matched ++ x)) kind.splits
          ∙ ap (λ x. asan_mark ++ x) gap.splits
          ∙ e;
      blank = gap.class;
      kind = ap (all Parsers.is_kind_char) (sym q) ∙ kind.class;
      captured = q;
    }

space_no_kind : (c : ℕ) → is_space c ≡ true → Parsers.is_kind_char c ≡ false
unfolding is_space Parsers.is_kind_char is_letter is_digit mapfuzz.Base.is_upper
space_no_kind c h = ground arith

pub kind_no_space : (c : ℕ) → Parsers.is_kind_char c ≡ true → is_space c ≡ false
kind_no_space c h = elim (Bool-cases (is_space c)) [
  | inr f ↦ f
  | inl t ↦ absurd (false≢true (sym (space_no_kind c t) ∙ h))
]

-- A match of the long pattern has white space behind the kind.
located-Ends :
    {p : Option ℕ} {s : Text} {m : Match}
    → Denotes Parsers.asan_pattern p s m
    → (n : Match) × Denotes Parsers.asan_kind p s n
      × Ends Parsers.is_kind_char n.rest
      × (find_group 1 m.groups ≡ find_group 1 n.groups)
unfolding all
located-Ends (both {m = n} d (both {m = g} sp d')) =
    let (c, u, q, t) = plus-Taken sp in
    let white : all is_space (c ∷ u) ≡ true = ap (all is_space) (sym q) ∙ t.class in
    let space : is_space c ≡ true = ground arith in
    (
      n,
      d,
      subst (Ends Parsers.is_kind_char) (ap (λ x. x ++ g.rest) (sym q) ∙ t.splits)
          (space_no_kind c space),
      find_group-both 1 n.groups (both sp d') (
        (tt, tt),
        (
          (refl, ((tt, tt), (tt, (tt, tt)))),
          ((tt, (tt, tt)), ((tt, tt), (tt, ((tt, tt), (refl, (tt, tt)))))),
        ),
      ),
    )

-- The parts around the mark name the kind, if it ends there.
named :
    {s : Text} {m : Match} (before text : Text)
    → before ++ s ≡ text
    → (x : Parts s m) → Ends Parsers.is_kind_char m.rest
    → Names text (find_group 1 m.groups)
unfolding is_empty
named {m = m} before text e x h = record {
  before = before;
  gap = x.gap;
  after = m.rest;
  splits =
      ap (λ k. before ++ (asan_mark ++ (x.gap ++ (k ++ m.rest)))) x.captured
      ∙ ap (λ t. before ++ t) x.splits
      ∙ e;
  blank = x.blank;
  kind = ap (all Parsers.is_kind_char) x.captured ∙ x.kind;
  not_empty = ap is_empty x.captured;
  maximal = h;
}

-- A text is characters of a class, and what does not begin with one.
spanned :
    (f : ℕ → Bool) (s : Text) → (u : Text) × (b : Text) × (u ++ b ≡ s) × (all f u ≡ true) × Ends f b
unfolding all
spanned f [] = ([], [], refl, refl, tt)
spanned f (c ∷ s) = elim (Bool-cases (f c)) [
  | inr n ↦ ([], c ∷ s, refl, refl, n)
  | inl y ↦ let (u, b, e, h, n) = spanned f s in (c ∷ u, b, ap (◌∷◌ c) e, ground arith, n)
]

-- What is found first where the mark stands takes the kind as far as it goes.
first-asan_kind :
    (p : Option ℕ) (gap : Text) (c : ℕ) (u b : Text)
    → all is_space gap ≡ true
    → all Parsers.is_kind_char (c ∷ u) ≡ true
    → Ends Parsers.is_kind_char b
    → (m : Match) × (first (run Parsers.asan_kind p (asan_mark ++ (gap ++ (c ∷ (u ++ b)))))
        ≡ some m)
      × (m.rest ≡ b)
      × (find_group 1 m.groups ≡ c ∷ u)
unfolding find_group
first-asan_kind p gap c u b h k e =
    let solid : is_space c ≡ false = kind_no_space c (unfold all in ground arith) in
    (
      join_match mark (join_match white (capture 1 named_kind)),
      first-seq (literal asan_mark) _ p _ mark _ (first-literal asan_mark p (gap ++ (c ∷ (u ++ b))))
          (first-seq (repeat greedy (set is_space)) _ _ _ white _
            (first-star is_space _ gap (c ∷ (u ++ b)) h solid)
            (first-group 1 (plus greedy (set Parsers.is_kind_char)) _ _ named_kind
              (first-plus Parsers.is_kind_char _ c u b k e))),
      refl,
      refl,
    )
  where
    mark : Match
    mark = record { matched = asan_mark; rest = gap ++ (c ∷ (u ++ b)); groups = [] }

    white : Match
    white = record { matched = gap; rest = c ∷ (u ++ b); groups = [] }

    named_kind : Match
    named_kind = record { matched = c ∷ u; rest = b; groups = [] }

-- What a search for the kind finds is named by the text.
asan_kind-Names :
    (text : Text) (m : Match)
    → search_in Parsers.asan_kind text ≡ some m
    → Names text (find_group 1 m.groups)
asan_kind-Names text m h =
    let f = search_in-FirstIn Parsers.asan_kind text m h in
    let p = last_or none f.before in
    let x = asan_kind-Parts (first-Denotes Parsers.asan_kind p f.from m f.tried) in
    let (u, b, q, kind, end) = spanned Parsers.is_kind_char (x.tail ++ m.rest) in
    let whole : all Parsers.is_kind_char (x.head ∷ u) ≡ true =
      unfold all in ground (arith, x.kind) in
    let (n, tried, rest, _) = first-asan_kind p x.gap x.head u b x.blank whole end in
    let place : asan_mark ++ (x.gap ++ (x.head ∷ (u ++ b))) ≡ f.from =
      ap (λ w. asan_mark ++ (x.gap ++ (x.head ∷ w))) q ∙ x.splits in
    let same : n ≡ m =
      some_inj (sym tried ∙ ap (λ s. first (run Parsers.asan_kind p s)) place ∙ f.tried) in
    named f.before text f.splits x
      (subst (Ends Parsers.is_kind_char) (sym rest ∙ ap (λ o. o.rest) same) end)
  where
    some_inj : {a b : Match} → some a ≡ some b → a ≡ b
    some_inj h = cc

abbrev NamesKind : Text → Signature → Type 0
NamesKind text sig = (k : Text) × Names text k × (sig.fault_class ≡ codes "asan-" ++ lower k)

unlocated-NamesKind :
    (text : Text) (o : Option Match) (sig : Signature)
    → search_in Parsers.asan_kind text ≡ o
    → Parsers.asan_unlocated o ≡ some sig
    → NamesKind text sig
unfolding Parsers.asan_unlocated group_of
unlocated-NamesKind text none sig h e = cc
unlocated-NamesKind text (some m) sig h e =
    (find_group 1 m.groups, asan_kind-Names text m h, ap (λ s. s.fault_class) (sym (some_inj e)))
  where
    some_inj : {a b : Signature} → some a ≡ some b → a ≡ b
    some_inj h = cc

signature-NamesKind :
    (text : Text) (o : Option Match) (sig : Signature)
    → search_in Parsers.asan_pattern text ≡ o
    → Parsers.asan_signature text o ≡ some sig
    → NamesKind text sig
unfolding Parsers.asan_signature group_of
signature-NamesKind text none sig h e = unlocated-NamesKind text _ sig refl e
signature-NamesKind text (some m) sig h e =
    let f = search_in-FoundIn Parsers.asan_pattern text m h in
    let (n, d, end, same) = located-Ends f.denotes in
    (
      find_group 1 n.groups,
      named f.before text f.splits (asan_kind-Parts d) end,
      ap (λ s. s.fault_class) (sym (some_inj e)) ∙ ap (λ k. codes "asan-" ++ lower k) same,
    )
  where
    some_inj : {a b : Signature} → some a ≡ some b → a ≡ b
    some_inj h = cc

-- The fault class that is parsed of a report of AddressSanitizer is `asan-` and, in small letters, a
-- kind that the report names: the whole run of letters, digits and `-` behind the mark.
pub parse_asan-Names :
    (text : Text) (sig : Signature)
    → Parsers.parse_asan text ≡ some sig
    → (k : Text) × Names text k × (sig.fault_class ≡ codes "asan-" ++ lower k)
unfolding Parsers.parse_asan
parse_asan-Names text sig h = signature-NamesKind text _ sig refl h
