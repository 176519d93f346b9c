-- ===== src/Triage/Classify/Laws.antt =====
-- Which fault classes get which verdict.
use mapfuzz.Base.{
  Text, codes, ◌≡◌, refl, true, List, [], ◌∷◌, ◌||◌, ◌↔◌, arith, any, text_in, starts_with, text_eq,
  text_eq→eq, Elem, any-Elem, or_split, subst, sym, inl, inr, ◌⊎◌, ◌++◌,
}
use mapfuzz.Triage.Classify.{
  real, shallow, review, classify_class, asan_real_prefixes, find_verdict, not_listed, listed_or,
  is_asan_real,
}

abbrev pub real_classes : List Text
real_classes = codes "rust-panic-unwrap" ∷ codes "rust-panic-index" ∷ codes "native-signal" ∷ []

abbrev pub shallow_classes : List Text
shallow_classes = codes "ubsan-invalid-enum" ∷ codes "assertion-abort" ∷ []

judged_real :
    (fc : Text)
    → (classify_class fc).0 ≡ real
    → any (starts_with fc) asan_real_prefixes || text_in fc real_classes ≡ true
unfolding classify_class find_verdict not_listed listed_or is_asan_real any
judged_real fc h = ground arith

real_class :
    (fc k : Text) → Elem k real_classes → text_eq fc k ≡ true → (classify_class fc).0 ≡ real
unfolding classify_class find_verdict not_listed listed_or is_asan_real any starts_with text_eq
real_class fc k m e = subst (λ t. (classify_class t).0 ≡ real) (sym (text_eq→eq fc k e)) (listed m)
  where
    listed : Elem k real_classes → (classify_class k).0 ≡ real
    listed (inl p) = subst (λ t. (classify_class t).0 ≡ real) (sym p) refl
    listed (inr (inl p)) = subst (λ t. (classify_class t).0 ≡ real) (sym p) refl
    listed (inr (inr (inl p))) = subst (λ t. (classify_class t).0 ≡ real) (sym p) refl
    listed (inr (inr (inr p))) = absurd p

asan_real :
    (fc : Text) → any (starts_with fc) asan_real_prefixes ≡ true → (classify_class fc).0 ≡ real
unfolding classify_class is_asan_real
asan_real fc h = rw h refl

-- A fault class is judged real exactly when it begins with one of the five prefixes of the memory
-- corruption family, or is an unwrap panic, an index panic or a bare native signal.
pub real_iff :
    (fc : Text)
    → ((classify_class fc).0 ≡ real)
      ↔ (any (starts_with fc) asan_real_prefixes || text_in fc real_classes ≡ true)
real_iff fc = (judged_real fc, λ h. go (or_split _ _ h))
  where
    go :
        (any (starts_with fc) asan_real_prefixes ≡ true) ⊎ (text_in fc real_classes ≡ true)
        → (classify_class fc).0 ≡ real
    go (inl h) = asan_real fc h
    go (inr h) = let (k, m, e) = any-Elem (text_eq fc) real_classes h in real_class fc k m e

-- Whatever follows `py-`, the verdict is review.
pub python_review : (t : Text) → (classify_class (codes "py-" ++ t)).0 ≡ review
unfolding classify_class find_verdict not_listed listed_or is_asan_real any starts_with text_eq
python_review t = ground arith

judged_shallow : (fc : Text) → (classify_class fc).0 ≡ shallow → text_in fc shallow_classes ≡ true
unfolding classify_class find_verdict not_listed listed_or is_asan_real any
judged_shallow fc h = ground arith

shallow_class :
    (fc k : Text) → Elem k shallow_classes → text_eq fc k ≡ true → (classify_class fc).0 ≡ shallow
unfolding classify_class find_verdict not_listed listed_or is_asan_real any starts_with text_eq
shallow_class fc k m e =
    subst (λ t. (classify_class t).0 ≡ shallow) (sym (text_eq→eq fc k e)) (listed m)
  where
    listed : Elem k shallow_classes → (classify_class k).0 ≡ shallow
    listed (inl p) = subst (λ t. (classify_class t).0 ≡ shallow) (sym p) refl
    listed (inr (inl p)) = subst (λ t. (classify_class t).0 ≡ shallow) (sym p) refl
    listed (inr (inr p)) = absurd p

-- A fault class is judged shallow exactly when it is an invalid enum or a failed assertion.
shallow_iff : (fc : Text) → ((classify_class fc).0 ≡ shallow) ↔ (text_in fc shallow_classes ≡ true)
shallow_iff fc = (judged_shallow fc, from)
  where
    from : text_in fc shallow_classes ≡ true → (classify_class fc).0 ≡ shallow
    from h = let (k, m, e) = any-Elem (text_eq fc) shallow_classes h in shallow_class fc k m e
