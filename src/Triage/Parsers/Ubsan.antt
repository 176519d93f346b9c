-- ===== src/Triage/Parsers/Ubsan.antt =====
-- The first match of the pattern of the undefined behaviour sanitizer in a report of its shape.
use mapfuzz.Base.{
  ℕ, Text, codes, true, ◌≡◌, refl, sym, ap, ◌∙◌, subst, Option, none, some, [], ◌∷◌, ◌++◌,
  append_assoc, arith, all, all-append, all-weaken, All-map, is_digit, is_space,
}
use mapfuzz.Regex.{
  Match, literal, set, plus, greedy, group, ◌⨾◌, join_match, capture, run, first, last_or,
  find_group, search_in,
}
use mapfuzz.Regex.Search.{search_in-here}
use mapfuzz.Regex.Greedy.{one, Ends, first-plus, first-literal, first-seq, first-group}
use mapfuzz.Regex.Backtrack.{
  Reaches, DeadIn, plus-Reaches, plus-dead, seq-Reaches, group-Reaches, first-Reaches,
  first-Reaches_it,
}
use mapfuzz.Triage.Signature.{digits, colon, is_solid}
use mapfuzz.Triage.Parsers
use mapfuzz.Triage.Parsers.Runtime.{runtime_error}
use mapfuzz.Triage.Parsers.Stuck.{
  colon_digits, message, behind, run-colon, Stuck, Loose, words, words-Loose, colon-Stuck,
  colon-Loose, digits-Loose, digits-Stuck, space_ends, first-colon_digits,
}

module _ (k : ℕ) (ks msg : Text) (h : all is_digit (k ∷ ks) ≡ true) where
  -- A place that ends in the column is followed by no other number.
  column-Loose : Loose (colon ∷ k ∷ (ks ++ colon ∷ words msg))
  unfolding is_digit
  column-Loose p =
      let (ds, e) =
        digits-Stuck ks (colon ∷ words msg) (unfold all in ground arith) (colon-Stuck msg) in
      rw (run-colon digits p (k ∷ (ks ++ colon ∷ words msg))) (
        All-map (λ m. Stuck m.rest) (join_match (one colon (k ∷ (ks ++ colon ∷ words msg)))) _
          (plus-dead Stuck is_digit (colon ∷ words msg) refl (some colon) k ks h e ds))

  abbrev column : Text
  column = colon ∷ k ∷ (ks ++ colon ∷ [])

  column-split : column ++ words msg ≡ colon ∷ k ∷ (ks ++ colon ∷ words msg)
  column-split = ap (λ t. colon ∷ k ∷ t) (append_assoc ks (colon ∷ []) (words msg))

  column-dead : DeadIn Loose column (words msg) × Loose (column ++ words msg)
  column-dead =
      let (ds, e) =
        digits-Loose (k ∷ ks) (colon ∷ []) (words msg) h (words-Loose msg, tt) (colon-Loose msg) in
      ((e, ds), subst Loose (sym column-split) column-Loose)

  module _ (l : ℕ) (ls : Text) (h' : all is_digit (l ∷ ls) ≡ true) where
    abbrev line_column : Text
    line_column = colon ∷ l ∷ (ls ++ column)

    line_column-dead : DeadIn Loose line_column (words msg)
    line_column-dead =
        let (d, e) = column-dead in
        let (ds, f) = digits-Loose (l ∷ ls) column (words msg) h' d e in (f, ds)

    line_column-split : line_column ++ words msg ≡ colon ∷ l ∷ (ls ++ (column ++ words msg))
    line_column-split = ap (λ t. colon ∷ l ∷ t) (append_assoc ls column (words msg))

    -- The place takes the path and the line.
    place-Reaches :
        (c : ℕ) (u : Text)
        → all is_solid (c ∷ u) ≡ true
        → all is_solid line_column ≡ true
        → Ends is_digit (column ++ words msg)
        → Reaches Stuck (run Parsers.place none (c ∷ (u ++ (line_column ++ words msg)))) (record {
          matched = c ∷ (u ++ colon ∷ l ∷ ls);
          rest = column ++ words msg;
          groups = [];
        })
    place-Reaches c u s v e =
        seq-Reaches Loose Stuck colon_digits (plus greedy (set is_solid)) none _ _ _ (λ p s h. h p)
          (plus-Reaches Loose is_solid (words msg) space_ends none c u line_column s v
            line_column-dead)
          (subst
            (λ t.
              Reaches Stuck (run colon_digits (last_or none (c ∷ u)) t)
                (record { matched = colon ∷ l ∷ ls; rest = column ++ words msg; groups = [] }))
            (sym line_column-split)
            (first-Reaches_it Stuck _ _ (first-colon_digits _ l ls (column ++ words msg) h' e)))

    first-behind :
        (p : Option ℕ) (e : ℕ) (es t : Text)
        → msg ≡ e ∷ (es ++ t)
        → all Parsers.is_inline (e ∷ es) ≡ true
        → Ends Parsers.is_inline t
        → (w : Text) × (first (run behind p (column ++ words msg))
            ≡ some (record { matched = w; rest = t; groups = (2, e ∷ es) ∷ [] }))
    first-behind p e es t m i end =
        let inline = plus greedy (set Parsers.is_inline) in
        let text : column ++ words msg ≡ colon ∷ k ∷ (ks ++ (runtime_error ++ e ∷ (es ++ t))) =
          column-split ∙ ap (λ x. colon ∷ k ∷ (ks ++ (runtime_error ++ x))) m in
        (
          _,
          ap (λ x. first (run behind p x)) text
              ∙ first-seq (literal (codes ":")) (digits ⨾ message) p _ _ _
                  (first-literal (codes ":") p (k ∷ (ks ++ (runtime_error ++ e ∷ (es ++ t)))))
                  (first-seq digits message _ _ _ _
                    (first-plus is_digit _ k ks (runtime_error ++ e ∷ (es ++ t)) h
                      (unfold is_digit in refl))
                    (first-seq (literal runtime_error) (group 2 inline) _ _ _ _
                      (first-literal runtime_error _ (e ∷ (es ++ t)))
                      (first-group 2 inline _ _ _ (first-plus Parsers.is_inline _ e es t i end)))),
        )

digit_solid : (c : ℕ) → is_digit c ≡ true → is_solid c ≡ true
unfolding is_digit is_solid is_space
digit_solid c h = ground arith

colon_solid : all is_solid (colon ∷ []) ≡ true
unfolding all is_solid is_space
colon_solid = refl

colon_digits_solid :
    (l : ℕ) (ls t : Text)
    → all is_digit (l ∷ ls) ≡ true
    → all is_solid t ≡ true
    → all is_solid (colon ∷ l ∷ (ls ++ t)) ≡ true
colon_digits_solid l ls t h e =
    all-append is_solid (colon ∷ []) (l ∷ (ls ++ t)) colon_solid
      (all-append is_solid (l ∷ ls) t (all-weaken is_digit is_solid (l ∷ ls) digit_solid h) e)

-- The first match in a report of the shape `path:line:column: runtime error: message`.
pub search_in-ubsan :
    (c : ℕ) (u : Text) (l : ℕ) (ls : Text) (k : ℕ) (ks : Text) (e : ℕ) (es t : Text)
    → all is_solid (c ∷ u) ≡ true
    → all is_digit (l ∷ ls) ≡ true
    → all is_digit (k ∷ ks) ≡ true
    → all Parsers.is_inline (e ∷ es) ≡ true
    → Ends Parsers.is_inline t
    → (m : Match) × (search_in Parsers.ubsan_pattern
          (c ∷ (u ++ (colon ∷ l ∷ (ls ++ (colon ∷ k ∷ (ks ++ (runtime_error ++ e ∷ (es ++ t))))))))
        ≡ some m)
      × (find_group 1 m.groups ≡ c ∷ (u ++ colon ∷ l ∷ ls))
      × (find_group 2 m.groups ≡ e ∷ es)
unfolding find_group
search_in-ubsan c u l ls k ks e es t s d d' i end =
    let msg : Text = e ∷ (es ++ t) in
    let place : Match = record {
      matched = c ∷ (u ++ colon ∷ l ∷ ls);
      rest = column k ks msg d' ++ words msg;
      groups = [];
    } in
    let text =
      ap (λ x. c ∷ (u ++ x))
        (line_column-split k ks msg d' l ls d
          ∙ ap (λ x. colon ∷ l ∷ (ls ++ x)) (column-split k ks msg d')) in
    let (w, found) = first-behind k ks msg d' l ls d _ e es t refl i end in
    let solid =
      colon_digits_solid l ls (column k ks msg d') d
        (colon_digits_solid k ks (colon ∷ []) d' colon_solid) in
    let whole =
      first-Reaches Stuck (group 1 Parsers.place) behind none _ (capture 1 place) _ (λ p s h. h p)
        (group-Reaches Stuck 1 Parsers.place none _ place
          (place-Reaches k ks msg d' l ls d c u s solid (unfold is_digit in refl)))
        found in
    (
      _,
      search_in-here Parsers.ubsan_pattern _ _
          (ap (λ x. first (run Parsers.ubsan_pattern none x)) (sym text) ∙ whole),
      refl,
      refl,
    )
