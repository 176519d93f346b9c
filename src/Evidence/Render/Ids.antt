-- ===== src/Evidence/Render/Ids.antt =====
-- The order of ids.
use mapfuzz.Base.{
  ◌≡◌, refl, sym, ◌∙◌, subst, Text, text_eq, text_eq_iff, true, false, List, [], ◌∷◌, inl, inr,
  Bool-cases, arith,
}
use mapfuzz.Base.Sorting.{Strict, text_lt, text_lt-Strict}
use mapfuzz.Evidence.{Value, text, texts}
use mapfuzz.Evidence.Render.{texts_lt, value_lt, id_lt}

eq-irreflexive : (a b : Text) → text_eq a b ≡ true → text_lt a b ≡ false
eq-irreflexive a b h =
    subst (λ x. text_lt a x ≡ false) ((text_eq_iff a b).0 h)
      (elim (Bool-cases (text_lt a a)) [ inl t ↦ text_lt-Strict.asym a a t | inr f ↦ f ])

eq_swap : (a b : Text) → text_eq a b ≡ text_eq b a
eq_swap a b = elim (Bool-cases (text_eq a b)) [
  | inl t ↦ let e = (text_eq_iff a b).0 t in rw e refl
  | inr f ↦ elim (Bool-cases (text_eq b a)) [
    | inl u ↦ let e = (text_eq_iff b a).0 u in rw e refl
    | inr g ↦ f ∙ sym g
  ]
]

texts_lt_asym : (s t : List Text) → texts_lt s t ≡ true → texts_lt t s ≡ false
unfolding texts_lt
texts_lt_asym [] [] h = cc
texts_lt_asym (a ∷ s) [] h = cc
texts_lt_asym [] (b ∷ t) h = refl
texts_lt_asym (a ∷ s) (b ∷ t) h = ground (
  arith,
  text_lt-Strict.asym a b,
  eq-irreflexive a b,
  eq-irreflexive b a,
  eq_swap a b,
  texts_lt_asym s t,
)

eq-lt :
    (a b c : Text) → text_eq a b ≡ true → (text_lt b c ≡ text_lt a c) × (text_eq b c ≡ text_eq a c)
eq-lt a b c h = let e = (text_eq_iff a b).0 h in (rw e refl, rw e refl)

lt-eq : (a b c : Text) → text_eq b c ≡ true → text_lt a b ≡ text_lt a c
lt-eq a b c h = let e = (text_eq_iff b c).0 h in rw e refl

texts_lt_trans :
    (s t u : List Text) → texts_lt s t ≡ true → texts_lt t u ≡ true → texts_lt s u ≡ true
unfolding texts_lt
texts_lt_trans s t [] h k = absurd (ground arith)
texts_lt_trans [] t (c ∷ u) h k = refl
texts_lt_trans (a ∷ s) [] (c ∷ u) h k = cc
texts_lt_trans (a ∷ s) (b ∷ t) (c ∷ u) h k =
    ground (arith, text_lt-Strict.trans a b c, eq-lt a b c, lt-eq a b c, texts_lt_trans s t u)

value_lt_asym : (v w : Value) → value_lt v w ≡ true → value_lt w v ≡ false
unfolding value_lt
value_lt_asym (text s) (text t) h = text_lt-Strict.asym s t h
value_lt_asym (texts s) (texts t) h = texts_lt_asym s t h
value_lt_asym (text s) (texts t) h = refl
value_lt_asym (texts s) (text t) h = refl

value_lt_trans : (v w x : Value) → value_lt v w ≡ true → value_lt w x ≡ true → value_lt v x ≡ true
unfolding value_lt
value_lt_trans (text s) (text t) (text u) h k = text_lt-Strict.trans s t u h k
value_lt_trans (texts s) (texts t) (texts u) h k = texts_lt_trans s t u h k
value_lt_trans (text s) (text t) (texts u) h k = cc
value_lt_trans (texts s) (texts t) (text u) h k = cc
value_lt_trans (text s) (texts t) x h k = cc
value_lt_trans (texts s) (text t) x h k = cc

pub id_lt-Strict : Strict id_lt
id_lt-Strict = record {
  asym = λ a b. value_lt_asym a.0 b.0;
  trans = λ a b c. value_lt_trans a.0 b.0 c.0;
}
