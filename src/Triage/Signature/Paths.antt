-- ===== src/Triage/Signature/Paths.antt =====
-- What `_PATH.sub` makes of an absolute path.
use mapfuzz.Base.{
  ℕ, zero, suc, ◌≤◌, Text, codes, ◌≡◌, refl, ap, ◌∙◌, Bool, true, false, not, Option, none, some,
  List, [], ◌∷◌, ◌++◌, map, length, append-nil, append_assoc, All-append, All-map, arith, All, all,
  ◌==◌, Bool-cases, inl, inr, length-append,
}
use mathlib.Core.List.{map-append}
use mapfuzz.Regex.{
  Regex, set, literal, group, plus, greedy, ◌⨾◌, Match, join_match, capture, nothing, followed_by,
  in_order, is_empty, rounds, match_literal, match_set, run, first, last_or, keep, pieces_from,
  pieces, replaced, sub,
}
use mapfuzz.Regex.Greedy.{
  one, first-followed_by, followed_by-none, followed_by-append, rounds_stop, rounds_more,
  first-append, first-map, pieces_from-keep, pieces_from-hit,
}
use mapfuzz.Triage.Signature.{slash, is_path_char, path_pattern}

abbrev pub is_slash : ℕ → Bool
is_slash c = c == slash

abbrev pub no_slash : ℕ → Bool
no_slash c = not (is_slash c)

-- a `/`, and what follows it
abbrev slash_next : Match → List Match
slash_next m = match_literal (codes "/") m.rest

no_slash-stop : (s : Text) → all no_slash s ≡ true → match_literal (codes "/") s ≡ []
unfolding match_literal all
no_slash-stop [] h = refl
no_slash-stop (c ∷ s) h = ground arith

-- what is behind the name of a file has no `/` to stop at
no_stop :
    (f : ℕ → Bool) (n : ℕ) (p : Option ℕ) (s : Text)
    → all no_slash s ≡ true
    → All (λ m. slash_next m ≡ []) (rounds greedy (run (set f)) n p s)
no_stop f zero p s h = unfold rounds in (no_slash-stop s h, tt)
no_stop f (suc n) p [] h = rw (rounds_stop f (suc n) p [] tt) (no_slash-stop [] h, tt)
no_stop f (suc n) p (c ∷ s) h = elim (Bool-cases (f c)) [
  | inr e ↦ rw (rounds_stop f (suc n) p (c ∷ s) e) (no_slash-stop (c ∷ s) h, tt)
  | inl e ↦
      let rest = no_stop f n (some c) s (unfold all in ground arith) in
      rw (rounds_more f n p c s e) (
        All-append _ _ _ (All-map (λ m. slash_next m ≡ []) (join_match (one c s)) _ rest)
          (no_slash-stop (c ∷ s) h, tt))
]

join_join :
    (x m : Match) (ks : List Match)
    → map (join_match (join_match x m)) ks ≡ map (join_match x) (map (join_match m) ks)
join_join x m [] = refl
join_join x m (k ∷ ks) =
    rw
      (
        join_join x m ks,
        append_assoc x.matched m.matched k.matched,
        append_assoc k.groups m.groups x.groups,
      )
      refl

-- joined to the front
followed_by-join :
    (x : Match) (ms : List Match)
    → followed_by (map (join_match x) ms) slash_next
      ≡ map (join_match x) (followed_by ms slash_next)
unfolding followed_by
followed_by-join x [] = refl
followed_by-join x (m ∷ ms) =
    rw
      (
        followed_by-join x ms,
        join_join x m (slash_next m),
        map-append (join_match x) (map (join_match m) (slash_next m)) (followed_by ms slash_next),
      )
      refl

stop_here :
    (name : Text)
    → first (followed_by (nothing (slash ∷ name) ∷ []) slash_next)
      ≡ some (record { matched = slash ∷ []; rest = name; groups = [] })
unfolding first followed_by match_literal
stop_here name = refl

-- The last `/` of the directory is where the class gives way.
first_stop :
    (n : ℕ) (p : Option ℕ) (d name : Text)
    → all is_path_char d ≡ true
    → all no_slash name ≡ true
    → length d ≤ n
    → first
        (followed_by (rounds greedy (run (set is_path_char)) n p (d ++ slash ∷ name)) slash_next)
      ≡ some (record { matched = d ++ slash ∷ []; rest = name; groups = [] })
unfolding all
first_stop zero p [] name h k le = unfold rounds in stop_here name
first_stop (suc n) p [] name h k le =
    rw
      (
        rounds_more is_path_char n p slash name (unfold is_path_char in refl),
        followed_by-append
            (map (join_match (one slash name))
              (rounds greedy (run (set is_path_char)) n (some slash) name))
            (nothing (slash ∷ name) ∷ []) slash_next,
        followed_by-join (one slash name)
            (rounds greedy (run (set is_path_char)) n (some slash) name),
        followed_by-none (rounds greedy (run (set is_path_char)) n (some slash) name) slash_next
            (no_stop is_path_char n (some slash) name k),
      )
      (stop_here name)
first_stop (suc n) p (c ∷ d) name h k le =
    let s = d ++ slash ∷ name in
    let later = rounds greedy (run (set is_path_char)) n (some c) s in
    rw
      (
        rounds_more is_path_char n p c s (ground arith),
        followed_by-append (map (join_match (one c s)) later) (nothing (c ∷ s) ∷ []) slash_next,
        followed_by-join (one c s) later,
      )
      (first-append (map (join_match (one c s)) (followed_by later slash_next)) _ _ (
        first-map (join_match (one c s)) (followed_by later slash_next) _
          (first_stop n (some c) d name (ground arith) k (omega arith))))
first_stop zero p (c ∷ d) name h k le = absurd (omega arith)

abbrev to_stop : Regex
to_stop = plus greedy (set is_path_char) ⨾ literal (codes "/")

abbrev one_directory : Regex
one_directory = group 1 (literal (codes "/") ⨾ to_stop)

first-to_stop :
    (p : Option ℕ) (c : ℕ) (d name : Text)
    → all is_path_char (c ∷ d) ≡ true
    → all no_slash name ≡ true
    → first (run to_stop p (c ∷ (d ++ slash ∷ name)))
      ≡ some (record { matched = c ∷ (d ++ slash ∷ []); rest = name; groups = [] })
unfolding run all match_set followed_by
first-to_stop p c d name h k =
    let s = d ++ slash ∷ name in
    let e : is_path_char c ≡ true = ground arith in
    let le : length d ≤ length s = rw (length-append d (slash ∷ name)) (omega arith) in
    let later = rounds greedy (run (set is_path_char)) (length s) (last_or p (c ∷ [])) s in
    rw (e, append-nil, followed_by-join (one c s) later)
      (first-map (join_match (one c s)) (followed_by later slash_next) _
        (first_stop (length s) _ d name (ground arith) k le))

no_directory :
    (p : Option ℕ) (name : Text) → all no_slash name ≡ true → run one_directory p name ≡ []
unfolding run followed_by
no_directory p name k = rw (no_slash-stop name k) refl

no_more :
    (n : ℕ) (p : Option ℕ) (name : Text)
    → all no_slash name ≡ true
    → rounds greedy (run one_directory) n p name ≡ nothing name ∷ []
unfolding rounds in_order followed_by
no_more zero p name k = refl
no_more (suc n) p name k = rw (no_directory p name k) refl

first-one_directory :
    (p : Option ℕ) (c : ℕ) (d name : Text)
    → all is_path_char (c ∷ d) ≡ true
    → all no_slash name ≡ true
    → first (run one_directory p (slash ∷ c ∷ (d ++ slash ∷ name)))
      ≡ some
          (capture 1 (record { matched = slash ∷ c ∷ (d ++ slash ∷ []); rest = name; groups = [] }))
unfolding run match_literal first
first-one_directory p c d name h k =
    let s = slash ∷ c ∷ (d ++ slash ∷ name) in
    first-map (capture 1) _ _ (
      first-followed_by (run (literal (codes "/")) p s)
        (λ m. run to_stop (last_or p m.matched) m.rest)
        (join_match (one slash (c ∷ (d ++ slash ∷ name))) (nothing (c ∷ (d ++ slash ∷ name)))) _
        refl (first-to_stop (some slash) c d name h k))

-- `(/[^\s:]+/)+` at a directory: the whole of it
first-path_pattern :
    (p : Option ℕ) (c : ℕ) (d name : Text)
    → all is_path_char (c ∷ d) ≡ true
    → all no_slash name ≡ true
    → (m : Match) × (first (run path_pattern p (slash ∷ c ∷ (d ++ slash ∷ name))) ≡ some m)
      × (m.rest ≡ name)
      × (is_empty m.matched ≡ false)
unfolding run is_empty
first-path_pattern p c d name h k =
    let m : Match =
      capture 1 (record { matched = slash ∷ c ∷ (d ++ slash ∷ []); rest = name; groups = [] }) in
    (
      join_match m (nothing name),
      first-followed_by (run one_directory p (slash ∷ c ∷ (d ++ slash ∷ name))) _ m (nothing name)
          (first-one_directory p c d name h k)
          (rw (no_more (length name) (last_or p m.matched) name k) (unfold first in refl)),
      refl,
      refl,
    )

no_path : (p : Option ℕ) (name : Text) → all no_slash name ≡ true → run path_pattern p name ≡ []
unfolding run followed_by
no_path p name k = rw (no_directory p name k) refl

all_kept :
    (n : ℕ) (p : Option ℕ) (name : Text)
    → all no_slash name ≡ true
    → length name ≤ n
    → pieces_from n path_pattern p name ≡ map keep name
unfolding pieces_from
all_kept zero p [] k le = refl
all_kept (suc n) p [] k le = refl
all_kept zero p (c ∷ name) k le = absurd (omega arith)
all_kept (suc n) p (c ∷ name) k le =
    pieces_from-keep path_pattern n p c name (no_path p (c ∷ name) k)
    ∙ ap (λ ps. keep c ∷ ps) (all_kept n (some c) name (unfold all in ground arith) (omega arith))

replaced-keep : (s : Text) → replaced [] (map keep s) ≡ s
unfolding replaced
replaced-keep [] = refl
replaced-keep (c ∷ s) = rw (replaced-keep s) refl

sub_name : (name : Text) → all no_slash name ≡ true → sub path_pattern [] name ≡ name
unfolding sub pieces
sub_name name k = rw (all_kept (length name) none name k (omega arith)) (replaced-keep name)

pub sub_directory :
    (c : ℕ) (d name : Text)
    → all is_path_char (c ∷ d) ≡ true
    → all no_slash name ≡ true
    → sub path_pattern [] (slash ∷ c ∷ (d ++ slash ∷ name)) ≡ name
unfolding sub pieces replaced
sub_directory c d name h k =
    let s = slash ∷ c ∷ (d ++ slash ∷ name) in
    let (m, found, rest, full) = first-path_pattern none c d name h k in
    let le : length name ≤ length (c ∷ (d ++ slash ∷ name)) =
      rw (length-append d (slash ∷ name)) (omega arith) in
    rw
      (
        pieces_from-hit path_pattern (length (c ∷ (d ++ slash ∷ name))) none slash
            (c ∷ (d ++ slash ∷ name)) m found full,
        rest,
        all_kept (length (c ∷ (d ++ slash ∷ name))) (last_or none m.matched) name k le,
      )
      (replaced-keep name)
