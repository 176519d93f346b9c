-- ===== src/Targets/Differential/Divergence.antt =====
-- What is recorded is a divergence, and every divergence is recorded.
use mapfuzz.Base.{
  ap, ℕ, ◌≡◌, refl, sym, ◌∙◌, subst, Text, text_eq, text_eq→eq, text_eq_refl, true, false≢true,
  List, [], ◌∷◌, ◌⊎◌, inl, inr, ◌↔◌, Bool-cases,
}
use mapfuzz.Exceptions.{
  ExcClass, builtin, exception, assertion_error, Outcome, returned, raised, is_one_of,
}
use mapfuzz.Targets.Differential.{
  differ, encoded, both, compared, encode_both, test_decoded, test_one_input,
}

-- a result that `except Exception` takes, if it is an exception at all
abbrev pub Caught : ExcClass ⊎ List ℕ → Type 0
Caught (inl e) = is_one_of e (builtin exception ∷ []) ≡ true
Caught (inr a) = Unit

-- Both tokenizers raise, or both give the same ids.
abbrev pub Agree : ExcClass ⊎ List ℕ → ExcClass ⊎ List ℕ → Type 0
Agree (inl e) (inl f) = Unit
Agree (inl e) (inr b) = ⊥
Agree (inr a) (inl f) = ⊥
Agree (inr a) (inr b) = a ≡ b

compared_iff :
    (s f : ExcClass ⊎ List ℕ)
    → Caught s
    → Caught f
    → (compared (both (encoded s) (encoded f)) ≡ returned) ↔ Agree s f
unfolding compared both encoded differ
compared_iff (inl e) (inl f) c d = rw (c, d) (λ _. tt, λ _. refl)
compared_iff (inl e) (inr b) c d = rw c (λ h. cc, λ h. absurd h)
compared_iff (inr a) (inl f) c d = rw d (λ h. cc, λ h. absurd h)
compared_iff (inr a) (inr b) c d = elim (Bool-cases (text_eq a b)) [
  | inl t ↦ rw t (λ _. text_eq→eq a b t, λ _. refl)
  | inr f ↦ rw f (
    λ h. cc,
    λ h. absurd (false≢true (sym f ∙ subst (λ x. text_eq a x ≡ true) h (text_eq_refl a))),
  )
]

compared_cases :
    (s f : ExcClass ⊎ List ℕ)
    → Caught s
    → Caught f
    → (compared (both (encoded s) (encoded f)) ≡ returned)
      ⊎ (compared (both (encoded s) (encoded f)) ≡ raised (builtin assertion_error))
unfolding compared both encoded differ
compared_cases (inl e) (inl f) c d = rw (c, d) (inl refl)
compared_cases (inl e) (inr b) c d = rw c (inr refl)
compared_cases (inr a) (inl f) c d = rw d (inr refl)
compared_cases (inr a) (inr b) c d = elim (Bool-cases (text_eq a b)) [
  | inl t ↦ rw t (inl refl)
  | inr f ↦ rw f (inr refl)
]

-- Where the bytes decode to a text and the tokenizers raise nothing outside `Exception`, the run is
-- recorded as an `AssertionError` exactly when one tokenizer raises and the other does not, or both
-- give ids and these differ.
divergence_iff :
    (slow fast : Text → ExcClass ⊎ List ℕ) (decode : List ℕ → ExcClass ⊎ Text) (input : List ℕ)
    (c : ℕ) (text : Text)
    → decode input ≡ inr (c ∷ text)
    → Caught (slow (c ∷ text))
    → Caught (fast (c ∷ text))
    → (test_one_input slow fast decode input ≡ raised (builtin assertion_error))
      ↔ (¬ Agree (slow (c ∷ text)) (fast (c ∷ text)))
unfolding test_one_input test_decoded encode_both
divergence_iff slow fast decode input c text d s f = rw d (to, from)
  where
    o : Outcome
    o = compared (both (encoded (slow (c ∷ text))) (encoded (fast (c ∷ text))))

    agreed : (o ≡ returned) ↔ Agree (slow (c ∷ text)) (fast (c ∷ text))
    agreed = compared_iff _ _ s f

    clash : (returned ≡ raised (builtin assertion_error)) → ⊥
    clash h = cc

    to : o ≡ raised (builtin assertion_error) → ¬ Agree (slow (c ∷ text)) (fast (c ∷ text))
    to h a = clash (sym (agreed.1 a) ∙ h)

    from : (¬ Agree (slow (c ∷ text)) (fast (c ∷ text))) → o ≡ raised (builtin assertion_error)
    from n = elim (compared_cases (slow (c ∷ text)) (fast (c ∷ text)) s f) [
      | inl r ↦ absurd (n (agreed.0 r))
      | inr r ↦ r
    ]

-- The input decodes to a text that is not empty, on which the tokenizers do not agree.
abbrev pub Diverges :
    (Text → ExcClass ⊎ List ℕ)
    → (Text → ExcClass ⊎ List ℕ)
    → (List ℕ → ExcClass ⊎ Text)
    → List ℕ
    → ExcClass
    → Type 0
Diverges slow fast decode input e =
    (e ≡ builtin assertion_error)
    × ((c : ℕ) × (text : Text) × (decode input ≡ inr (c ∷ text))
        × (¬ Agree (slow (c ∷ text)) (fast (c ∷ text))))

module _ (slow fast : Text → ExcClass ⊎ List ℕ) where
  test_decoded-raised : (x : ExcClass) → Caught (inl x) → test_decoded slow fast (inl x) ≡ returned
  unfolding test_decoded
  test_decoded-raised x c = rw c refl

  test_decoded-empty : test_decoded slow fast (inr []) ≡ returned
  unfolding test_decoded
  test_decoded-empty = refl

  test_decoded-text :
      (c : ℕ) (text : Text)
      → test_decoded slow fast (inr (c ∷ text))
        ≡ compared (both (encoded (slow (c ∷ text))) (encoded (fast (c ∷ text))))
  unfolding test_decoded encode_both
  test_decoded-text c text = refl

  -- Where decoding and the tokenizers raise nothing outside `Exception`, a run is recorded exactly when
  -- the input diverges, with an `AssertionError`.
  pub test_one_input-Diverges :
      (decode : List ℕ → ExcClass ⊎ Text) (input : List ℕ) (e : ExcClass)
      → ((text : Text) → Caught (slow text) × Caught (fast text))
      → Caught (decode input)
      → (test_one_input slow fast decode input ≡ raised e) ↔ Diverges slow fast decode input e
  unfolding test_one_input
  test_one_input-Diverges decode input e caught d = (to (decode input) refl d, from)
    where
      divergence :
          (c : ℕ) (text : Text)
          → decode input ≡ inr (c ∷ text)
          → (test_one_input slow fast decode input ≡ raised (builtin assertion_error))
            ↔ (¬ Agree (slow (c ∷ text)) (fast (c ∷ text)))
      divergence c text q =
          let (s, f) = caught (c ∷ text) in divergence_iff slow fast decode input c text q s f

      from : Diverges slow fast decode input e → test_one_input slow fast decode input ≡ raised e
      from (q, (c, text, dec, n)) = (divergence c text dec).1 n ∙ ap raised (sym q)

      clash : (returned ≡ raised e) → ⊥
      clash h = cc

      raised_inj : (a : ExcClass) → raised a ≡ raised e → e ≡ a
      raised_inj a h = cc

      to :
          (x : ExcClass ⊎ Text)
          → decode input ≡ x
          → Caught x
          → test_decoded slow fast (decode input) ≡ raised e
          → Diverges slow fast decode input e
      to (inl x) q c h =
          absurd (clash (sym (test_decoded-raised x c) ∙ ap (test_decoded slow fast) (sym q) ∙ h))
      to (inr []) q c h =
          absurd (clash (sym test_decoded-empty ∙ ap (test_decoded slow fast) (sym q) ∙ h))
      to (inr (x ∷ text)) q c h =
          let run = ap (test_decoded slow fast) q ∙ test_decoded-text x text in
          elim (compared_cases (slow (x ∷ text)) (fast (x ∷ text)) (caught (x ∷ text)).0
            (caught (x ∷ text)).1) [
              | inl r ↦ absurd (clash (sym r ∙ sym run ∙ h))
              | inr r ↦
                  let got = run ∙ r in
                  (raised_inj _ (sym got ∙ h), (x, text, q, (divergence x text q).0 got))
            ]
