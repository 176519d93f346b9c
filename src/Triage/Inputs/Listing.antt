-- ===== src/Triage/Inputs/Listing.antt =====
-- Which reports `_iter_inputs` yields.
use mapfuzz.Base.{
  ◌≡◌, ◌≢◌, refl, sym, ap, subst, Text, codes, Bool, true, false, Option, none, some, List, [], ◌∷◌,
  ◌++◌, starts_with, ◌↔◌, ◌⊎◌, inl, inr, arith, Bool-cases, Elem, Elem-append_iff,
}
use mapfuzz.Base.Sorting.{sort_by, sort_by-Elem}
use mapfuzz.Triage.Signature.{path_name}
use mapfuzz.Triage.Dedup.{Report}
use mapfuzz.Triage.Inputs.{
  Node, directory, file, missing, paths_of, before, regular, inputs_at, inputs_under, from_paths,
  iter_inputs,
}

-- a report that a path stands for
abbrev pub Holds : Text → Node → Report → Type 0
Holds p (directory es) r = Elem (r.0, some r.1) es
Holds p (file t) r = r ≡ (path_name p, t)
Holds p missing r = ⊥

abbrev pub IsOption : Text → Type 0
IsOption a = starts_with a (codes "-") ≡ true

-- A report is an input: it stands under an argument that is no option, or, where there is none, it is
-- the standard input.
abbrev pub IsInput : (Text → Node) → Text → List Text → Report → Type 0
IsInput node stdin argv r =
    ((p : Text) × Elem p argv × (¬ IsOption p) × Holds p (node p) r)
    ⊎ (((p : Text) → Elem p argv → IsOption p) × (r ≡ (codes "<stdin>", stdin)))

unfoldable text_of : Option Text → Text
text_of none = []
text_of (some t) = t

unread : (r : Report) (name : Text) → ◌≢◌ {A = Text × Option Text} (r.0, some r.1) (name, none)
unread r name e = none_some (ap (λ (q : Text × Option Text). q.1) e)
  where
    none_some : ◌≢◌ {A = Option Text} (some r.1) none
    none_some h = cc

regular_iff :
    (r : Report) (es : List (Text × Option Text)) → Elem r (regular es) ↔ Elem (r.0, some r.1) es
unfolding regular text_of
regular_iff r [] = (λ h. h, λ h. h)
regular_iff r ((name, none) ∷ es) =
    let rest = regular_iff r es in
    (λ h. inr (rest.0 h), λ h. elim h [ inl e ↦ absurd (unread r name e) | inr m ↦ rest.1 m ])
regular_iff r ((name, some t) ∷ es) =
    let rest = regular_iff r es in
    (
      λ h. elim h [ inl e ↦ inl (ap (λ (q : Report). (q.0, some q.1)) e) | inr m ↦ inr (rest.0 m) ],
      λ h. elim h [
        | inl e ↦ inl (ap (λ (q : Text × Option Text). (q.0, text_of q.1)) e)
        | inr m ↦ inr (rest.1 m)
      ],
    )

inputs_at_iff : (p : Text) (n : Node) (r : Report) → Elem r (inputs_at p n) ↔ Holds p n r
unfolding inputs_at
inputs_at_iff p (directory es) r =
    let listed = regular_iff r (sort_by before es) in
    let sorted = sort_by-Elem before (r.0, some r.1) es in
    (λ h. sorted.0 (listed.0 h), λ h. listed.1 (sorted.1 h))
inputs_at_iff p (file t) r = (λ h. elim h [ inl e ↦ e | inr m ↦ absurd m ], λ e. inl e)
inputs_at_iff p missing r = (λ h. h, λ h. h)

module _ (node : Text → Node) where
  abbrev Under : List Text → Report → Type 0
  Under ps r = (p : Text) × Elem p ps × Holds p (node p) r

  inputs_under_iff : (ps : List Text) (r : Report) → Elem r (inputs_under node ps) ↔ Under ps r
  unfolding inputs_under
  inputs_under_iff [] r = (λ h. absurd h, λ h. h.1)
  inputs_under_iff (p ∷ ps) r = (to (inputs_under_iff ps r).0, from (inputs_under_iff ps r).1)
    where
      joined :
          Elem r (inputs_at p (node p) ++ inputs_under node ps)
          ↔ (Elem r (inputs_at p (node p)) ⊎ Elem r (inputs_under node ps))
      joined = Elem-append_iff r (inputs_at p (node p)) (inputs_under node ps)

      later : Under ps r → Under (p ∷ ps) r
      later (q, m, h) = (q, inr m, h)

      to :
          (Elem r (inputs_under node ps) → Under ps r)
          → Elem r (inputs_at p (node p) ++ inputs_under node ps)
          → Under (p ∷ ps) r
      to ih h = elim (joined.0 h) [
        | inl m ↦ (p, inl refl, (inputs_at_iff p (node p) r).0 m)
        | inr m ↦ later (ih m)
      ]

      from :
          (Under ps r → Elem r (inputs_under node ps))
          → Under (p ∷ ps) r
          → Elem r (inputs_at p (node p) ++ inputs_under node ps)
      from ih (q, inl e, h) =
          joined.1 (inl ((inputs_at_iff p (node p) r).1 (subst (λ q. Holds q (node q) r) e h)))
      from ih (q, inr m, h) = joined.1 (inr (ih (q, m, h)))

both_ways : {t : Bool} → t ≡ true → t ≡ false → ⊥
both_ways p q = ground arith

paths_of_iff :
    (a : Text) (argv : List Text) → Elem a (paths_of argv) ↔ (Elem a argv × (¬ IsOption a))
unfolding paths_of
paths_of_iff a [] = (λ h. absurd h, λ h. h.0)
paths_of_iff a (b ∷ argv) = elim (Bool-cases (starts_with b (codes "-"))) [
  | inl t ↦ rw t (drop_to (paths_of_iff a argv).0, drop_from t (paths_of_iff a argv).1)
  | inr f ↦ rw f (keep_to f (paths_of_iff a argv).0, keep_from (paths_of_iff a argv).1)
]
  where
    Kept : Type 0
    Kept = Elem a argv × (¬ IsOption a)

    Given : Type 0
    Given = (a ≡ b ⊎ Elem a argv) × (¬ IsOption a)

    drop_to : (Elem a (paths_of argv) → Kept) → Elem a (paths_of argv) → Given
    drop_to ih h = (inr (ih h).0, (ih h).1)

    drop_from : IsOption b → (Kept → Elem a (paths_of argv)) → Given → Elem a (paths_of argv)
    drop_from t ih (inl e, n) = absurd (n (subst IsOption (sym e) t))
    drop_from t ih (inr m, n) = ih (m, n)

    keep_to :
        starts_with b (codes "-") ≡ false
        → (Elem a (paths_of argv) → Kept)
        → (a ≡ b ⊎ Elem a (paths_of argv))
        → Given
    keep_to f ih (inl e) = (inl e, λ o. both_ways (subst IsOption e o) f)
    keep_to f ih (inr m) = (inr (ih m).0, (ih m).1)

    keep_from : (Kept → Elem a (paths_of argv)) → Given → (a ≡ b ⊎ Elem a (paths_of argv))
    keep_from ih (inl e, n) = inl e
    keep_from ih (inr m, n) = inr (ih (m, n))

paths_of_nil : (argv : List Text) → paths_of argv ≡ [] ↔ ((p : Text) → Elem p argv → IsOption p)
paths_of_nil argv = (all_options, none_left)
  where
    all_options : paths_of argv ≡ [] → (p : Text) → Elem p argv → IsOption p
    all_options e p m = elim (Bool-cases (starts_with p (codes "-"))) [
      | inl t ↦ t
      | inr f ↦ absurd (subst (Elem p) e ((paths_of_iff p argv).1 (m, λ t. both_ways t f)))
    ]

    none_left : ((p : Text) → Elem p argv → IsOption p) → paths_of argv ≡ []
    none_left h =
        empty (paths_of argv)
          (λ p m. ((paths_of_iff p argv).0 m).1 (h p ((paths_of_iff p argv).0 m).0))
      where
        empty : (ps : List Text) → ((p : Text) → ¬ Elem p ps) → ps ≡ []
        empty [] n = refl
        empty (p ∷ ps) n = absurd (n p (inl refl))

-- What `_iter_inputs` yields are the inputs, and all of them.
pub iter_inputs_iff :
    (node : Text → Node) (stdin : Text) (argv : List Text) (r : Report)
    → Elem r (iter_inputs node stdin argv) ↔ IsInput node stdin argv r
unfolding iter_inputs from_paths
iter_inputs_iff node stdin argv r = go (paths_of argv) refl
  where
    Yielded : List Text → Type 0
    Yielded ps = Elem r (from_paths node stdin ps) ↔ IsInput node stdin argv r

    from_stdin : paths_of argv ≡ [] → IsInput node stdin argv r → r ≡ (codes "<stdin>", stdin)
    from_stdin e (inl (p, m, n, h)) = absurd (n ((paths_of_nil argv).0 e p m))
    from_stdin e (inr (h, q)) = q

    from_paths_given :
        (p : Text) (ps : List Text)
        → paths_of argv ≡ p ∷ ps
        → IsInput node stdin argv r
        → Elem r (inputs_under node (p ∷ ps))
    from_paths_given p ps e (inl (q, m, n, h)) =
        (inputs_under_iff node (p ∷ ps) r).1
          (q, subst (Elem q) e ((paths_of_iff q argv).1 (m, n)), h)
    from_paths_given p ps e (inr (h, q)) =
        let m = (paths_of_iff p argv).0 (subst (Elem p) (sym e) (inl refl)) in
        absurd (m.1 (h p m.0))

    to_input :
        (p : Text) (ps : List Text)
        → paths_of argv ≡ p ∷ ps
        → Elem r (inputs_under node (p ∷ ps))
        → IsInput node stdin argv r
    to_input p ps e m =
        let (q, k, h) = (inputs_under_iff node (p ∷ ps) r).0 m in
        let (given, plain) = (paths_of_iff q argv).0 (subst (Elem q) (sym e) k) in
        inl (q, given, plain, h)

    go : (ps : List Text) → paths_of argv ≡ ps → Yielded ps
    go [] e = (
      λ m. inr ((paths_of_nil argv).0 e, elim m [ inl q ↦ q | inr k ↦ absurd k ]),
      λ i. inl (from_stdin e i),
    )
    go (p ∷ ps) e = (to_input p ps e, from_paths_given p ps e)
