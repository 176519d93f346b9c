-- ===== src/Tests/HarnessCases.antt =====
-- The differential and the flax harnesses on small inputs.
use mapfuzz.Base.{
  All, ◌+◌, refl, Elem, ◌∷◌, length, ℤ, ℕ, ◌≡◌, Text, codes, List, [], ◌⊎◌, inl, inr, ◌↔◌,
}
use mapfuzz.Exceptions.{
  ExcClass, builtin, derived, exception, value_error, assertion_error, recursion_error, is_one_of,
  is_instance, Outcome, raised, returned,
}
use mapfuzz.Targets.Differential
use mapfuzz.Targets.Differential.Divergence.{Diverges, test_one_input-Diverges}
use mapfuzz.Targets.Differential.Divergence.{Agree}
use mapfuzz.Targets.Differential.Selftest.{divergences, divergences_iff}
use mapfuzz.Targets.FlaxCheckpoint.Selftest.{Tally, state_reach, state_reach-total}
use mapfuzz.Targets.FlaxCheckpoint
use mapfuzz.Provider.Scripted.{scripted, scripted-Documented}
use mapfuzz.Targets.FlaxCheckpoint.Values.{PyTree}
use mapfuzz.Targets.FlaxCheckpoint.Templates.{Target, targets}
use mapfuzz.Targets.FlaxCheckpoint.Values.Shape.{Within}
use mapfuzz.Targets.FlaxCheckpoint.Recorded.{
  Reported, test_state_iff, LetsThrough, test_restore_iff,
}

abbrev slow : Text → ExcClass ⊎ List ℕ
slow text = inr text

abbrev fast : Text → ExcClass ⊎ List ℕ
fast text = inl (builtin value_error)

abbrev decode : List ℕ → ExcClass ⊎ Text
decode input = inr input

test_state_iff_example :
    (target : Target) × (state : PyTree) × Elem target targets
    × Within 5 6 state
    × ((from_state_dict : Target → PyTree → Outcome) (e : ExcClass)
        → (FlaxCheckpoint.test_state scripted from_state_dict (0 ∷ 5 ∷ 2 ∷ []) ≡ raised e)
          ↔ ((from_state_dict target state ≡ raised e) × Reported e))
test_state_iff_example = test_state_iff scripted length scripted-Documented (0 ∷ 5 ∷ 2 ∷ [])

test_one_input-Diverges_example :
    (Differential.test_one_input slow fast decode (codes "a") ≡ raised (builtin assertion_error))
    ↔ Diverges slow fast decode (codes "a") (builtin assertion_error)
unfolding is_one_of is_instance
test_one_input-Diverges_example =
    test_one_input-Diverges slow fast decode (codes "a") (builtin assertion_error)
      (λ text. (tt, refl)) tt

abbrev unpack_exception : ExcClass
unpack_exception = derived (codes "UnpackException") (builtin exception)

abbrev extra_data : ExcClass
extra_data = derived (codes "ExtraData") (builtin value_error)

abbrev pack : PyTree → ExcClass ⊎ List ℕ
pack tree = inr (codes "blob")

abbrev packb : List ℤ → Text → List ℕ → List ℕ
packb shape dtype buf = buf

abbrev too_deep : List ℕ → Outcome
too_deep blob = raised (builtin recursion_error)

test_restore_iff_example :
    (tree : PyTree) × Within 4 4 tree
    × ((FlaxCheckpoint.test_restore scripted unpack_exception extra_data packb pack pack too_deep
            (6 ∷ 1 ∷ [])
          ≡ raised (builtin recursion_error))
        ↔ LetsThrough scripted unpack_exception extra_data packb pack pack too_deep
            (pack tree)
            (pack tree)
            (builtin recursion_error))
test_restore_iff_example =
    test_restore_iff scripted unpack_exception extra_data packb pack pack too_deep length
      scripted-Documented (6 ∷ 1 ∷ []) (builtin recursion_error) (λ _. tt) (λ _. tt)

divergences_iff_example :
    (n : ℕ) × (divergences slow fast (codes "a" ∷ []) ≡ inr n)
    × ((n ≡ 0) ↔ All (λ p. Agree (slow p) (fast p)) (codes "a" ∷ []))
unfolding is_one_of is_instance
divergences_iff_example = divergences_iff slow fast (codes "a" ∷ []) ((tt, refl), tt)

abbrev accepts : Target → PyTree → Outcome
accepts target state = returned

state_reach-total_example :
    (t : Tally) × (state_reach scripted accepts ((0 ∷ 5 ∷ 2 ∷ []) ∷ []) ≡ inr t)
    × (t.accepted + t.rejected + t.flagged ≡ 1)
state_reach-total_example =
    state_reach-total scripted accepts length scripted-Documented (λ target state e h. cc)
      ((0 ∷ 5 ∷ 2 ∷ []) ∷ [])
