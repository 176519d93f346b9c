-- ===== src/Evidence/Duplicates.antt =====
-- The search for duplicate ids.
use mapfuzz.Base.{
  ◌≤◌, ◌<◌, ◌≡◌, refl, sym, ◌∙◌, Text, text_eq, text_eq→eq, text_eq_refl, false, false≢true, List,
  [], ◌∷◌, ltb, arith, ◌↔◌, inl, inr, Bool-cases, Elem,
}
use mapfuzz.Evidence.{occurrences, without, distinct, repeated, dupes}

without-Elem :
    (i j : Text) (is : List Text) → text_eq j i ≡ false → Elem j is → Elem j (without i is)
unfolding without
without-Elem i j [] h m = m
without-Elem i j (k ∷ is) h (inl e) = rw (← e, h) (inl refl)
without-Elem i j (k ∷ is) h (inr m) = elim (Bool-cases (text_eq k i)) [
  | inl t ↦ rw t (without-Elem i j is h m)
  | inr f ↦ rw f (inr (without-Elem i j is h m))
]

text_ne_sym : (s t : Text) → text_eq s t ≡ false → text_eq t s ≡ false
text_ne_sym s t h = elim (Bool-cases (text_eq t s)) [
  | inl e ↦ absurd (false≢true (sym h ∙ rw (text_eq→eq t s e) (text_eq_refl s)))
  | inr f ↦ f
]

distinct-Elem : (i : Text) (ids : List Text) → 0 < occurrences i ids → Elem i (distinct ids)
unfolding occurrences distinct
distinct-Elem i [] h = absurd (omega arith)
distinct-Elem i (j ∷ ids) h = elim (Bool-cases (text_eq j i)) [
  | inl t ↦ inl (sym (text_eq→eq j i t))
  | inr f ↦
      inr (without-Elem j i (distinct ids) (text_ne_sym j i f) (distinct-Elem i ids (ground arith)))
]

repeated_nil :
    (ids is : List Text) → repeated ids is ≡ [] → (i : Text) → Elem i is → occurrences i ids ≤ 1
unfolding repeated
repeated_nil ids [] h i m = absurd m
repeated_nil ids (j ∷ is) h i m = elim (Bool-cases (ltb 1 (occurrences j ids))) [
  | inl t ↦ absurd (ground arith)
  | inr f ↦ elim m [ inl e ↦ rw e (ground arith) | inr n ↦ repeated_nil ids is (ground arith) i n ]
]

nil_repeated : (ids is : List Text) → ((i : Text) → occurrences i ids ≤ 1) → repeated ids is ≡ []
unfolding repeated
nil_repeated ids [] h = refl
nil_repeated ids (j ∷ is) h = ground (arith, h j, nil_repeated ids is h)

-- There are no duplicates exactly when every id occurs at most once.
pub dupes_iff : (ids : List Text) → (dupes ids ≡ []) ↔ ((i : Text) → occurrences i ids ≤ 1)
unfolding dupes
dupes_iff ids = (to, nil_repeated ids (distinct ids))
  where
    to : repeated ids (distinct ids) ≡ [] → (i : Text) → occurrences i ids ≤ 1
    to h i = elim (Bool-cases (ltb 0 (occurrences i ids))) [
      | inl t ↦ repeated_nil ids (distinct ids) h i (distinct-Elem i ids (ground arith))
      | inr f ↦ ground arith
    ]
