-- ===== src/Targets/FlaxCheckpoint/Selftest.antt =====
-- `_selftest` of the flax harnesses: the loops that measure what becomes of generated values. The
-- random data are the parameter `seeds`, each the state of a provider over it. What is printed of the
-- restored checkpoints is left out.
use mapfuzz.Base.{
  ℕ, suc, ◌+◌, ◌≤◌, ◌≡◌, refl, codes, true, Option, none, some, List, [], ◌∷◌, ◌⊎◌, inl, inr,
  length, arith, if◌then◌else◌, Bool-cases, ℤ, pos, Text, get_or,
}
use mapfuzz.Exceptions.{ExcClass, builtin, exception, Outcome, returned, raised, is_one_of}
use mapfuzz.Provider.{Provider, Documented}
use mapfuzz.Targets.FlaxCheckpoint.{is_expected, state_input, state_fuel, value_fuel}
use mapfuzz.Targets.FlaxCheckpoint.Values.{
  PyTree, make_value, dict, integer, string, entry, no_entries, name,
}
use mapfuzz.Targets.FlaxCheckpoint.Templates.{Target, targets, first_target}
use mapfuzz.Targets.FlaxCheckpoint.Values.State.{make_state-Makes}

-- `ok`, `rej` and `flg`
pub record Tally : Type 0 where
  pub accepted : ℕ
  pub rejected : ℕ
  pub flagged : ℕ

abbrev pub zero_tally : Tally
zero_tally = record { accepted = 0; rejected = 0; flagged = 0 }

-- one round's run, on the counts of the rounds behind it
unfoldable pub tallied : Outcome → ExcClass ⊎ Tally → ExcClass ⊎ Tally
tallied returned (inl e) = inl e
tallied returned (inr t) =
    inr (record { accepted = t.accepted + 1; rejected = t.rejected; flagged = t.flagged })
tallied (raised e) (inl f) = if is_one_of e (builtin exception ∷ []) then inl f else inl e
tallied (raised e) (inr t) =
    if is_one_of e (builtin exception ∷ [])
    then (if is_expected e
        then inr (record { accepted = t.accepted; rejected = t.rejected + 1; flagged = t.flagged })
        else inr (record { accepted = t.accepted; rejected = t.rejected; flagged = t.flagged + 1 }))
    else inl e

module _ {S : Type 0} (fdp : Provider S) (from_state_dict : Target → PyTree → Outcome) where
  unfoldable pub state_round : Option ((Target × PyTree) × S) → ExcClass ⊎ Tally → ExcClass ⊎ Tally
  unfolding tallied
  state_round none rest = rest
  state_round (some ((target, state), s)) rest = tallied (from_state_dict target state) rest

  -- the loop
  unfoldable pub state_reach : List S → ExcClass ⊎ Tally
  unfolding state_round state_input
  state_reach [] = inr zero_tally
  state_reach (s ∷ seeds) = state_round (state_input fdp from_state_dict s) (state_reach seeds)

  abbrev pub matching_state : PyTree
  matching_state = dict (
      entry (name (codes "params"))
        (dict (
          entry (name (codes "w")) (integer (pos 1))
            (entry (name (codes "b")) (integer (pos 2)) no_entries)))
        (entry (name (codes "step")) (integer (pos 5)) no_entries))

  unfoldable pub after_text : Outcome → List S → ExcClass ⊎ Tally
  unfolding state_reach
  after_text returned seeds = state_reach seeds
  after_text (raised e) seeds =
      if is_one_of e (builtin exception ∷ []) then state_reach seeds else inl e

  unfoldable pub after_match : Outcome → List S → ExcClass ⊎ Tally
  unfolding after_text
  after_match (raised e) seeds = inl e
  after_match returned seeds =
      after_text (from_state_dict first_target (string (codes "notadict"))) seeds

  -- `_selftest` of fuzz_from_state_dict.py: the counts that it prints; its status is 0
  unfoldable pub state_selftest : List S → ExcClass ⊎ Tally
  unfolding after_match
  state_selftest seeds = after_match (from_state_dict first_target matching_state) seeds

  -- flax raises nothing outside `Exception`
  abbrev pub FlaxRaisesExceptions : Type 0
  FlaxRaisesExceptions =
      (target : Target) (state : PyTree) (e : ExcClass)
      → from_state_dict target state ≡ raised e
      → is_one_of e (builtin exception ∷ []) ≡ true

  -- Every seed is counted once: the generator gives up on none.
  pub state_reach-total :
      (remaining : S → ℕ)
      → Documented fdp remaining
      → FlaxRaisesExceptions
      → (seeds : List S)
      → (t : Tally) × (state_reach seeds ≡ inr t)
        × (t.accepted + t.rejected + t.flagged ≡ length seeds)
  unfolding state_reach state_input state_round tallied
  state_reach-total remaining doc only [] = (zero_tally, refl, refl)
  state_reach-total remaining doc only (s ∷ seeds) =
      let (t, e, n) = state_reach-total remaining doc only seeds in
      let d = fdp.int_in_range 0 5 s in
      let (state, u, made, within) =
        make_state-Makes fdp remaining doc state_fuel 0 d.1 (omega arith) (omega arith) in
      rw (made, e)
        (counted (from_state_dict (get_or targets d.0 first_target) state)
          (only (get_or targets d.0 first_target) state) t (length seeds) n)
    where
      counted :
          (o : Outcome)
          → ((e : ExcClass) → o ≡ raised e → is_one_of e (builtin exception ∷ []) ≡ true)
          → (t : Tally) (n : ℕ) → t.accepted + t.rejected + t.flagged ≡ n
          → (u : Tally) × (tallied o (inr t) ≡ inr u)
            × (u.accepted + u.rejected + u.flagged ≡ suc n)
      counted returned h t n e = (_, refl, omega (arith, e))
      counted (raised x) h t n e = elim (Bool-cases (is_expected x)) [
        | inl p ↦ rw (h x refl, p) (_, refl, omega (arith, e))
        | inr p ↦ rw (h x refl, p) (_, refl, omega (arith, e))
      ]

module _ {S : Type 0} (fdp : Provider S) (packb : List ℤ → Text → List ℕ → List ℕ)
    (pack : PyTree → ExcClass ⊎ List ℕ) (restore : List ℕ → Outcome) where
  -- the counts `ok` and `rej`
  unfoldable pub restore_tallied : Outcome → ExcClass ⊎ (ℕ × ℕ) → ExcClass ⊎ (ℕ × ℕ)
  restore_tallied (raised e) (inl f) = if is_one_of e (builtin exception ∷ []) then inl f else inl e
  restore_tallied returned (inl f) = inl f
  restore_tallied returned (inr (ok, rej)) = inr (ok + 1, rej)
  restore_tallied (raised e) (inr (ok, rej)) =
      if is_one_of e (builtin exception ∷ []) then inr (ok, rej + 1) else inl e

  unfoldable pub packed_round : ExcClass ⊎ List ℕ → ExcClass ⊎ (ℕ × ℕ) → ExcClass ⊎ (ℕ × ℕ)
  unfolding restore_tallied
  packed_round (inl e) rest = if is_one_of e (builtin exception ∷ []) then rest else inl e
  packed_round (inr blob) rest = restore_tallied (restore blob) rest

  unfoldable pub restore_round : Option (PyTree × S) → ExcClass ⊎ (ℕ × ℕ) → ExcClass ⊎ (ℕ × ℕ)
  unfolding packed_round
  restore_round none rest = rest
  restore_round (some (tree, s)) rest = packed_round (pack tree) rest

  -- the loop of `_selftest` of fuzz_msgpack_restore.py
  unfoldable pub restore_reach : List S → ExcClass ⊎ (ℕ × ℕ)
  unfolding restore_round
  restore_reach [] = inr (0, 0)
  restore_reach (s ∷ seeds) =
      restore_round (make_value fdp packb value_fuel 0 s) (restore_reach seeds)

  -- The real checkpoint: `serialized` is what packing it ends in, and `step_of` what restoring a blob
  -- and reading the key `step` of it ends in.
  module _ (serialized : ExcClass ⊎ List ℕ) (step_of : List ℕ → Outcome) where
    unfoldable pub after_checkpoint : Outcome → List S → ExcClass ⊎ (ℕ × ℕ)
    unfolding restore_reach
    after_checkpoint returned seeds = restore_reach seeds
    after_checkpoint (raised e) seeds = inl e

    unfoldable pub after_serialized : ExcClass ⊎ List ℕ → List S → ExcClass ⊎ (ℕ × ℕ)
    unfolding after_checkpoint
    after_serialized (inl e) seeds = inl e
    after_serialized (inr blob) seeds = after_checkpoint (step_of blob) seeds

    -- `_selftest` of fuzz_msgpack_restore.py: the counts that it prints; its status is 0
    unfoldable pub restore_selftest : List S → ExcClass ⊎ (ℕ × ℕ)
    unfolding after_serialized
    restore_selftest seeds = after_serialized serialized seeds

  abbrev pub Counted : ℕ → ExcClass ⊎ (ℕ × ℕ) → Type 0
  Counted n r = (ok : ℕ) × (rej : ℕ) × (r ≡ inr (ok, rej)) × (ok + rej ≤ n)

  -- what packing and flax raise are `Exception`s
  abbrev pub OnlyRaisesExceptions : Type 0
  OnlyRaisesExceptions =
      ((tree : PyTree) (e : ExcClass)
        → pack tree ≡ inl e
        → is_one_of e (builtin exception ∷ []) ≡ true)
      × ((blob : List ℕ) (e : ExcClass)
          → restore blob ≡ raised e
          → is_one_of e (builtin exception ∷ []) ≡ true)

  -- The loop ends, with at most one count for each seed.
  pub restore_reach-bounded :
      OnlyRaisesExceptions → (seeds : List S) → Counted (length seeds) (restore_reach seeds)
  unfolding restore_reach restore_round packed_round restore_tallied
  restore_reach-bounded only [] = (0, 0, refl, omega arith)
  restore_reach-bounded only (s ∷ seeds) =
      let (ok, rej, e, le) = restore_reach-bounded only seeds in
      rw e (round ok rej (length seeds) le (make_value fdp packb value_fuel 0 s))
    where
      opened :
          (ok rej n : ℕ)
          → ok + rej ≤ n
          → (o : Outcome)
          → ((e : ExcClass) → o ≡ raised e → is_one_of e (builtin exception ∷ []) ≡ true)
          → Counted (suc n) (restore_tallied o (inr (ok, rej)))
      opened ok rej n le returned h = (ok + 1, rej, refl, omega (arith, le))
      opened ok rej n le (raised e) h = rw (h e refl) (ok, rej + 1, refl, omega (arith, le))

      with_blob :
          (ok rej n : ℕ)
          → ok + rej ≤ n
          → (p : ExcClass ⊎ List ℕ)
          → ((e : ExcClass) → p ≡ inl e → is_one_of e (builtin exception ∷ []) ≡ true)
          → Counted (suc n) (packed_round p (inr (ok, rej)))
      with_blob ok rej n le (inl e) h = rw (h e refl) (ok, rej, refl, omega (arith, le))
      with_blob ok rej n le (inr blob) h = opened ok rej n le (restore blob) (only.1 blob)

      round :
          (ok rej n : ℕ)
          → ok + rej ≤ n
          → (o : Option (PyTree × S)) → Counted (suc n) (restore_round o (inr (ok, rej)))
      round ok rej n le none = (ok, rej, refl, omega (arith, le))
      round ok rej n le (some (tree, t)) = with_blob ok rej n le (pack tree) (only.0 tree)
