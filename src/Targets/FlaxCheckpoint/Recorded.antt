-- ===== src/Targets/FlaxCheckpoint/Recorded.antt =====
-- Which exceptions of flax are recorded, and on which inputs flax is called.
use mapfuzz.Base.{
  get_or, get_or-Elem, Elem, ℕ, ◌≡◌, refl, sym, ap, ◌∙◌, Text, true, false, List, [], ◌∷◌, ◌⊎◌, inl,
  inr, ◌↔◌, arith, Bool-cases, ℤ,
}
use mapfuzz.Exceptions.{
  ExcClass, builtin, recursion_error, exception, Outcome, returned, raised, is_instance, is_one_of,
}
use mapfuzz.Exceptions.Laws.{handle_iff}
use mapfuzz.Provider.{Provider, Documented}
use mapfuzz.Targets.FlaxCheckpoint.{
  is_expected, state_outcome, state_fuel, state_input, with_state, test_state, expected,
  recorded_clauses, restored, packed, packed_again, given_up, with_value, test_restore, value_fuel,
}
use mapfuzz.Targets.FlaxCheckpoint.Values.{PyTree}
use mapfuzz.Targets.FlaxCheckpoint.Templates.{Target, targets, first_target}
use mapfuzz.Targets.FlaxCheckpoint.Values.Shape.{Within}
use mapfuzz.Targets.FlaxCheckpoint.Values.State.{make_state-Makes}
use mapfuzz.Targets.FlaxCheckpoint.Values.Blob.{make_value-Makes}

returned_not_raised : (e : ExcClass) → (returned ≡ raised e) → ⊥
returned_not_raised e h = cc

raised_inj : (x e : ExcClass) → raised x ≡ raised e → x ≡ e
raised_inj x e h = cc

-- a `RecursionError`, or no `Exception`, or not expected
abbrev pub Reported : ExcClass → Type 0
Reported e =
    (is_instance e (builtin recursion_error) ≡ true)
    ⊎ ((is_instance e (builtin exception) ≡ false) ⊎ (is_expected e ≡ false))

state_outcome_raised_iff : (e : ExcClass) → (state_outcome (raised e) ≡ raised e) ↔ Reported e
unfolding state_outcome is_one_of
state_outcome_raised_iff e = elim (Bool-cases (is_instance e (builtin recursion_error))) [
  | inl r ↦ rw r (λ _. inl refl, λ _. refl)
  | inr r ↦ elim (Bool-cases (is_instance e (builtin exception))) [
    | inr x ↦ rw (r, x) (λ _. inr (inl refl), λ _. refl)
    | inl x ↦ elim (Bool-cases (is_expected e)) [
      | inr p ↦ rw (r, x, p) (λ _. inr (inr refl), λ _. refl)
      | inl p ↦
          rw (r, x, p)
            (
              λ q. absurd (returned_not_raised e q),
              λ q. elim q [ inl a ↦ cc | inr b ↦ elim b [ inl a ↦ cc | inr a ↦ cc ] ],
            )
    ]
  ]
]

state_outcome_same : (x e : ExcClass) → state_outcome (raised x) ≡ raised e → x ≡ e
unfolding state_outcome
state_outcome_same x e h = ground arith

state_outcome_iff :
    (o : Outcome) (e : ExcClass) → (state_outcome o ≡ raised e) ↔ ((o ≡ raised e) × Reported e)
state_outcome_iff returned e = (
  λ h. absurd (returned_not_raised e (unfold state_outcome in h)),
  λ (h, _). absurd (returned_not_raised e h),
)
state_outcome_iff (raised x) e = (to, λ (h, r). rw h ((state_outcome_raised_iff e).1 r))
  where
    to : state_outcome (raised x) ≡ raised e → (raised x ≡ raised e) × Reported e
    to h =
        let same = state_outcome_same x e h in
        (
          ap raised same,
          (state_outcome_raised_iff e).0 (ap (λ y. state_outcome (raised y)) (sym same) ∙ h),
        )

-- On all data one of the six targets and a state of at most six nested containers with at most five
-- members each are drawn; and whatever flax does, a run is recorded exactly when flax, called on these
-- two, raises a `RecursionError`, or no `Exception`, or one that is not expected.
pub test_state_iff :
    {S : Type 0} (fdp : Provider S) (remaining : S → ℕ) (doc : Documented fdp remaining) (s : S)
    → (target : Target) × (state : PyTree) × Elem target targets
      × Within 5 6 state
      × ((from_state_dict : Target → PyTree → Outcome) (e : ExcClass)
          → (test_state fdp from_state_dict s ≡ raised e)
            ↔ ((from_state_dict target state ≡ raised e) × Reported e))
unfolding test_state with_state state_input
test_state_iff fdp remaining doc s =
    let t = fdp.int_in_range 0 5 s in
    let (state, u, made, within) =
      make_state-Makes fdp remaining doc state_fuel 0 t.1 (omega arith) (omega arith) in
    (
      get_or targets t.0 first_target,
      state,
      get_or-Elem targets t.0 first_target (omega (arith, doc.below 0 5 s (omega arith))),
      within,
      λ from e. rw made (state_outcome_iff (from (get_or targets t.0 first_target) state) e),
    )

-- whatever is raised is an `Exception`
abbrev pub OnlyExceptions : ExcClass ⊎ List ℕ → Type 0
OnlyExceptions (inl e) = is_one_of e (builtin exception ∷ []) ≡ true
OnlyExceptions (inr blob) = Unit

-- The first attempt to pack gives the blob, or it raises and the second one does.
abbrev pub Packs : ExcClass ⊎ List ℕ → ExcClass ⊎ List ℕ → List ℕ → Type 0
Packs (inl e) second blob = second ≡ inr blob
Packs (inr first) second blob = first ≡ blob

given_up_returns :
    (e : ExcClass) → is_one_of e (builtin exception ∷ []) ≡ true → given_up e ≡ returned
unfolding given_up
given_up_returns e h = rw h refl

module _ {S : Type 0} (fdp : Provider S) (u x : ExcClass) (packb : List ℤ → Text → List ℕ → List ℕ)
    (pack_default pack : PyTree → ExcClass ⊎ List ℕ) (restore : List ℕ → Outcome) where
  -- what a run lets through of a tree
  abbrev pub LetsThrough : ExcClass ⊎ List ℕ → ExcClass ⊎ List ℕ → ExcClass → Type 0
  LetsThrough first second e =
      (blob : List ℕ) × Packs first second blob
      × (restore blob ≡ raised e)
      × (is_one_of e (expected u x) ≡ false)

  packed_iff :
      (tree : PyTree) (first second : ExcClass ⊎ List ℕ) (e : ExcClass)
      → pack tree ≡ second
      → OnlyExceptions first
      → OnlyExceptions second
      → (packed fdp u x packb pack_default pack restore tree first ≡ raised e)
        ↔ LetsThrough first second e
  unfolding packed packed_again restored
  packed_iff tree (inr blob) second e q c d =
      let f = handle_iff (expected u x) recorded_clauses (restore blob) e (refl, (refl, tt)) in
      (λ h. (blob, refl, (f.0 h).0, (f.0 h).1), λ (b, p, r, n). f.1 (ap restore p ∙ r, n))
  packed_iff tree (inl y) (inr blob) e q c d =
      let f = handle_iff (expected u x) recorded_clauses (restore blob) e (refl, (refl, tt)) in
      rw (c, q)
        (
          λ h. (blob, refl, (f.0 h).0, (f.0 h).1),
          λ (b, p, r, n). f.1 (ap restore (blob_inj blob b p) ∙ r, n),
        )
    where
      blob_inj : (a b : List ℕ) → ◌≡◌ {A = ExcClass ⊎ List ℕ} (inr a) (inr b) → a ≡ b
      blob_inj a b h = cc
  packed_iff tree (inl y) (inl z) e q c d =
      rw (c, q, given_up_returns z d)
        (λ h. absurd (returned_not_raised e h), λ (b, p, r, n). absurd (no_blob b p))
    where
      no_blob : (b : List ℕ) → ◌≡◌ {A = ExcClass ⊎ List ℕ} (inl z) (inr b) → ⊥
      no_blob b h = cc

  -- On all data a value of at most four nested containers with at most four members each is made; and
  -- where packing raises nothing but `Exception`s, a run is recorded exactly when the first attempt
  -- to pack the value that succeeds gives a blob on whose restore flax raises something of no expected
  -- class, whatever classes msgpack has.
  pub test_restore_iff :
      (remaining : S → ℕ) (doc : Documented fdp remaining) (s : S) (e : ExcClass)
      → ((tree : PyTree) → OnlyExceptions (pack_default tree))
      → ((tree : PyTree) → OnlyExceptions (pack tree))
      → (tree : PyTree) × Within 4 4 tree
        × ((test_restore fdp u x packb pack_default pack restore s ≡ raised e)
            ↔ LetsThrough (pack_default tree) (pack tree) e)
  unfolding test_restore with_value
  test_restore_iff remaining doc s e c d =
      let (tree, t, made, within) =
        make_value-Makes fdp remaining doc packb value_fuel 0 s (omega arith) (omega arith) in
      (
        tree,
        within,
        rw made (packed_iff tree (pack_default tree) (pack tree) e refl (c tree) (d tree)),
      )
