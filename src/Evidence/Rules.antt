-- ===== src/Evidence/Rules.antt =====
-- What each test on a claim asks for.
use mapfuzz.Base.{
  ◌≡◌, ◌≢◌, refl, sym, ap, ◌∙◌, subst, Text, text_eq, text_eq→eq, text_eq_refl, text_in, Bool, true,
  false, false≢true, not, Option, none, some, List, [], ◌∷◌, ◌++◌, drop, drop-append, length,
  starts_with, arith, ◌↔◌, ◌⊎◌, inl, inr, Bool-cases, All, append-nil_iff, if◌then◌else◌,
}
use mapfuzz.Exceptions.{ExcClass}
use mapfuzz.Evidence.{
  Value, text, texts, Claim, get, Problem, unknown_claim, when, is_missing, missing, some_of,
  unlisted, equals, claim_prefix, unresolved,
}

-- The field is a text of the list.
abbrev pub Listed : List Text → Option Value → Type 0
Listed ks o = (t : Text) × (o ≡ some (text t)) × (text_in t ks ≡ true)

-- An entry of the provenance is no reference to a claim, or one to a claim with a known id.
abbrev pub Resolves : List Text → Text → Type 0
Resolves ids p =
    (starts_with p claim_prefix ≡ false)
    ⊎ ((ref : Text) × (p ≡ claim_prefix ++ ref) × (text_in ref ids ≡ true))

pub when_iff : (b : Bool) (p : Problem) → (when b p ≡ []) ↔ (b ≡ false)
unfolding when
when_iff true p = (λ h. cc, λ h. cc)
when_iff false p = (λ _. refl, λ _. refl)

pub when-not_iff : (b : Bool) (p : Problem) → (when (not b) p ≡ []) ↔ (b ≡ true)
unfolding when
when-not_iff true p = (λ _. refl, λ _. refl)
when-not_iff false p = (λ h. cc, λ h. cc)

pub when-some_of_iff : (ks : List Text) (p : Problem) → (when (some_of ks) p ≡ []) ↔ (ks ≡ [])
unfolding when some_of
when-some_of_iff [] p = (λ _. refl, λ _. refl)
when-some_of_iff (k ∷ ks) p = (λ h. cc, λ h. cc)

pub missing_iff : (c : Claim) (ks : List Text) → (missing c ks ≡ []) ↔ All (λ k. get k c ≢ none) ks
unfolding missing
missing_iff c [] = (λ _. tt, λ _. refl)
missing_iff c (k ∷ ks) = go (get k c) refl (missing_iff c ks)
  where
    go :
        (o : Option Value)
        → get k c ≡ o
        → (missing c ks ≡ []) ↔ All (λ l. get l c ≢ none) ks
        → (missing c (k ∷ ks) ≡ []) ↔ All (λ l. get l c ≢ none) (k ∷ ks)
    go none e ih = unfold is_missing in rw e (λ h. cc, λ (h, _). absurd (h refl))
    go (some v) e ih = unfold is_missing in rw e (λ h. (λ q. cc, ih.0 h), λ (_, h). ih.1 h)

text_inj : (s t : Text) → ◌≡◌ {A = Option Value} (some (text s)) (some (text t)) → s ≡ t
text_inj s t h = cc

not_iff : (b : Bool) → (◌≡◌ {A = ExcClass ⊎ Bool} (inr (not b)) (inr false)) ↔ (b ≡ true)
not_iff true = (λ _. refl, λ _. refl)
not_iff false = (λ h. cc, λ h. cc)

pub unlisted_iff : (ks : List Text) (o : Option Value) → (unlisted ks o ≡ inr false) ↔ Listed ks o
unfolding unlisted
unlisted_iff ks none = (λ h. cc, λ (t, e, m). cc)
unlisted_iff ks (some (texts ts)) = (λ h. cc, λ (t, e, m). cc)
unlisted_iff ks (some (text t)) = (
  λ h. (t, refl, (not_iff (text_in t ks)).0 h),
  λ (x, e, m).
      (not_iff (text_in t ks)).1 (subst (λ y. text_in y ks ≡ true) (sym (text_inj t x e)) m),
)

equals_iff : (k : Text) (o : Option Value) → (equals k o ≡ true) ↔ (o ≡ some (text k))
unfolding equals
equals_iff k none = (λ h. cc, λ h. cc)
equals_iff k (some (texts ts)) = (λ h. cc, λ h. cc)
equals_iff k (some (text t)) = (
  λ h. rw (text_eq→eq t k h) refl,
  λ h. subst (λ y. text_eq t y ≡ true) (text_inj t k h) (text_eq_refl t),
)

-- a test that is made of the claims of one kind only
pub guarded_iff :
    (k : Text) (o : Option Value) (b : Bool) (p : Problem)
    → ((if equals k o then when (not b) p else []) ≡ []) ↔ ((o ≢ some (text k)) ⊎ (b ≡ true))
guarded_iff k o b p = elim (Bool-cases (equals k o)) [
  | inl t ↦ rw t (
    λ h. inr ((when-not_iff b p).0 h),
    λ h. elim h [ inl n ↦ absurd (n ((equals_iff k o).0 t)) | inr q ↦ (when-not_iff b p).1 q ],
  )
  | inr f ↦ rw f (λ h. inl (λ e. false≢true (sym f ∙ (equals_iff k o).1 e)), λ h. refl)
]

starts_with-drop : (p q : Text) → starts_with p q ≡ true → p ≡ q ++ drop (length q) p
unfolding starts_with
starts_with-drop p [] h = refl
starts_with-drop [] (d ∷ q) h = cc
starts_with-drop (c ∷ p) (d ∷ q) h =
    let same : c ≡ d = ground arith in rw (same, ← starts_with-drop p q (ground arith)) refl

starts_with-append : (q r : Text) → starts_with (q ++ r) q ≡ true
unfolding starts_with
starts_with-append [] r = refl
starts_with-append (d ∷ q) r = ground (arith, starts_with-append q r)

entry-Resolves :
    (ids : List Text) (cid p : Text)
    → ((if starts_with p claim_prefix
          then when (not (text_in (drop 6 p) ids)) (unknown_claim cid (drop 6 p))
          else [])
        ≡ [])
      ↔ Resolves ids p
entry-Resolves ids cid p = elim (Bool-cases (starts_with p claim_prefix)) [
  | inl t ↦ rw t (
    λ h. inr (drop 6 p, starts_with-drop p claim_prefix t, known.0 h),
    λ h. elim h [
      | inl f ↦ absurd (false≢true (sym f))
      | inr (ref, e, m) ↦ known.1 (subst (λ x. text_in x ids ≡ true) (cut ref e) m)
    ],
  )
  | inr f ↦ rw f (λ _. inl refl, λ _. refl)
]
  where
    known :
        (when (not (text_in (drop 6 p) ids)) (unknown_claim cid (drop 6 p)) ≡ [])
        ↔ (text_in (drop 6 p) ids ≡ true)
    known = when-not_iff (text_in (drop 6 p) ids) (unknown_claim cid (drop 6 p))

    cut : (ref : Text) → p ≡ claim_prefix ++ ref → ref ≡ drop 6 p
    cut ref e = sym (drop-append claim_prefix ref) ∙ ap (drop 6) (sym e)

pub unresolved_iff :
    (ids : List Text) (cid : Text) (ps : List Text)
    → (unresolved ids cid ps ≡ []) ↔ All (Resolves ids) ps
unfolding unresolved
unresolved_iff ids cid [] = (λ _. tt, λ _. refl)
unresolved_iff ids cid (p ∷ ps) =
    let both = append-nil_iff _ (unresolved ids cid ps) in
    (
      λ h. ((entry-Resolves ids cid p).0 (both.0 h).0, (unresolved_iff ids cid ps).0 (both.0 h).1),
      λ (r, rs). both.1 ((entry-Resolves ids cid p).1 r, (unresolved_iff ids cid ps).1 rs),
    )
