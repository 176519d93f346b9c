-- ===== src/Targets/TransformersConfig/Recorded.antt =====
-- Which runs of the fuzzer of `from_dict` are recorded.
use mapfuzz.Base.{
  ℕ, ◌<◌, ◌≡◌, refl, sym, ap, ◌∙◌, Bool, Text, true, false, [], ◌∷◌, ◌⊎◌, inl, inr, ◌↔◌, Bool-cases,
}
use mapfuzz.Json.{Json}
use mapfuzz.Exceptions.{
  ExcClass, builtin, type_error, value_error, Outcome, returned, raised, is_one_of, handle,
}
use mapfuzz.Exceptions.Laws.{handle_iff, handle_first}
use mapfuzz.Provider.{Provider, Documented}
use mapfuzz.Targets.TransformersConfig.{
  expected, recorded_clauses, tried, and_then, reload, through_text, test_dict,
}
use mapfuzz.Targets.TransformersConfig.Scrub.{InScope}
use mapfuzz.Targets.TransformersConfig.Values.{with_dict, test_one_input}
use mapfuzz.Targets.TransformersConfig.Values.Ends.{drawn_dict-Makes}

returned_not_raised : (e : ExcClass) → (returned ≡ raised e) → ⊥
returned_not_raised e h = cc

raised_inj : (x e : ExcClass) → raised x ≡ raised e → x ≡ e
raised_inj x e h = cc

true_not_false : (true ≡ false) → ⊥
true_not_false h = cc

abbrev pub Unexpected : ExcClass → Type 0
Unexpected e = is_one_of e expected ≡ false

-- the call returns, or raises something of an expected class
abbrev pub Passes : Outcome → Type 0
Passes returned = Unit
Passes (raised x) = is_one_of x expected ≡ true

tried_iff : (o : Outcome) (e : ExcClass) → (tried o ≡ raised e) ↔ ((o ≡ raised e) × Unexpected e)
tried_iff o e = handle_iff expected recorded_clauses o e (refl, tt)

module _ (from_dict : Json → Outcome) (dumps : Json → ExcClass ⊎ Text)
    (loads : Text → ExcClass ⊎ Json) where
  -- Reading the text back raises, or `from_dict` on what is read does.
  abbrev pub LoadFails : ExcClass ⊎ Json → ExcClass → Type 0
  LoadFails (inl x) e = (x ≡ e) × Unexpected e
  LoadFails (inr d) e = (from_dict d ≡ raised e) × Unexpected e

  -- Writing the text raises, but for the two classes that end the run, or reading it back fails.
  abbrev pub TextFails : ExcClass ⊎ Text → ExcClass → Type 0
  TextFails (inl x) e =
      (x ≡ e) × (is_one_of e (builtin type_error ∷ builtin value_error ∷ []) ≡ false)
  TextFails (inr text) e = LoadFails (loads text) e

  -- The first call raises something of no expected class; or it raises nothing of another, and the
  -- round trip through JSON fails.
  abbrev pub Fails : Json → ExcClass → Type 0
  Fails d e =
      ((from_dict d ≡ raised e) × Unexpected e) ⊎ (Passes (from_dict d) × TextFails (dumps d) e)

  reload_iff :
      (l : ExcClass ⊎ Json) (e : ExcClass)
      → (tried (reload from_dict dumps loads l) ≡ raised e) ↔ LoadFails l e
  unfolding reload
  reload_iff (inl x) e =
      let same = tried_iff (raised x) e in
      (λ h. (raised_inj x e (same.0 h).0, (same.0 h).1), λ (q, n). same.1 (ap raised q, n))
  reload_iff (inr d) e = tried_iff (from_dict d) e

  through_text_iff :
      (t : ExcClass ⊎ Text) (e : ExcClass)
      → (through_text from_dict dumps loads t ≡ raised e) ↔ TextFails t e
  unfolding through_text
  through_text_iff (inl x) e =
      elim (Bool-cases (is_one_of x (builtin type_error ∷ builtin value_error ∷ []))) [
        | inl t ↦ rw t (
          λ h. absurd (returned_not_raised e h),
          λ (q, n). absurd (true_not_false (sym t ∙ ap json_errors q ∙ n)),
        )
        | inr f ↦ rw f (
          λ h. let q = raised_inj x e h in (q, sym (ap json_errors q) ∙ f),
          λ (q, n). ap raised q,
        )
      ]
    where
      json_errors : ExcClass → Bool
      json_errors y = is_one_of y (builtin type_error ∷ builtin value_error ∷ [])
  through_text_iff (inr text) e = reload_iff (loads text) e

  after_first :
      (o rest : Outcome) (e : ExcClass) (Rest : Type 0)
      → (rest ≡ raised e) ↔ Rest
      → (and_then (tried o) rest ≡ raised e) ↔ (((o ≡ raised e) × Unexpected e) ⊎ (Passes o × Rest))
  unfolding and_then handle
  after_first returned rest e Rest same = (
    λ h. inr (tt, same.0 h),
    λ h. elim h [ inl (q, _) ↦ absurd (returned_not_raised e q) | inr (_, r) ↦ same.1 r ],
  )
  after_first (raised x) rest e Rest same =
      let first = handle_first expected recorded_clauses x (refl, tt) in
      elim (Bool-cases (is_one_of x expected)) [
        | inl t ↦
            rw (first, t)
              (
                λ h. inr (refl, same.0 h),
                λ h. elim h [
                  | inl (q, n) ↦ absurd (
                      true_not_false
                        (sym t ∙ ap (λ y. is_one_of y expected) (raised_inj x e q) ∙ n))
                  | inr (_, r) ↦ same.1 r
                ],
              )
        | inr f ↦
            rw (first, f)
              (
                λ q. inl (q, sym (ap (λ y. is_one_of y expected) (raised_inj x e q)) ∙ f),
                λ h. elim h [ inl (q, _) ↦ q | inr (p, _) ↦ absurd (true_not_false (sym p)) ],
              )
      ]

  test_dict_iff :
      (d : Json) (e : ExcClass) → (test_dict from_dict dumps loads d ≡ raised e) ↔ Fails d e
  unfolding test_dict
  test_dict_iff d e =
      after_first (from_dict d) (through_text from_dict dumps loads (dumps d)) e
        (TextFails (dumps d) e) (through_text_iff (dumps d) e)

-- On all data, under a recursion limit above the number of bytes, a configuration without a forbidden
-- key at any depth is drawn; and whatever `from_dict` and `json` do, a run is recorded exactly when
-- `from_dict` raises on it something of no expected class, or raises nothing of another and then the
-- round trip fails: `dumps` raises something but TypeError and ValueError, or `loads`, or `from_dict` on
-- what is read back, raises something of no expected class.
pub test_one_input-Fails :
    {S : Type 0} (fdp : Provider S) (remaining : S → ℕ) (doc : Documented fdp remaining) (limit : ℕ)
    (s : S)
    → remaining s < limit
    → (d : Json) × InScope d
      × ((from_dict : Json → Outcome) (dumps : Json → ExcClass ⊎ Text)
            (loads : Text → ExcClass ⊎ Json) (e : ExcClass)
          → (test_one_input fdp from_dict dumps loads limit s ≡ raised e)
            ↔ Fails from_dict dumps loads d e)
unfolding test_one_input with_dict
test_one_input-Fails fdp remaining doc limit s h =
    let (d, t, made, clean) = drawn_dict-Makes fdp remaining doc limit s h in
    (d, clean, λ from_dict dumps loads e. rw made (test_dict_iff from_dict dumps loads d e))
