-- ===== src/Targets/FlaxCheckpoint/Values/State.antt =====
-- `_make_state` ends on all data, and nests at most six containers.
use mapfuzz.Base.{ℕ, zero, suc, ◌+◌, ◌-◌, ◌≤◌, ◌<◌, ◌≡◌, refl, arith, Bool-cases, inl, inr, ltb}
use mapfuzz.Provider.{Provider, Documented, Gen}
use mapfuzz.Provider.Draws.{Makes}
use mapfuzz.Targets.FlaxCheckpoint.Values.{
  PyTree, bytes, some_text, some_bytes, free_entry, known_entry, state_branch, make_state,
}
use mapfuzz.Targets.FlaxCheckpoint.Values.Shape.{
  Within, Deep, list_of-Makes, dict_of-Makes, numbered_dict-Makes, free_entry-Makes,
  known_entry-Makes,
}

module _ {S : Type 0} (fdp : Provider S) (remaining : S → ℕ) (doc : Documented fdp remaining) where
  state_branch-leaf :
      (pick : ℕ) (deeper : Gen S PyTree) (l : ℕ) (s : S)
      → pick ≤ 4
      → Makes (state_branch fdp pick deeper s) (λ t _. Within 5 l t)
  unfolding state_branch some_text
  state_branch-leaf zero deeper l s h = (_, _, refl, tt)
  state_branch-leaf (suc zero) deeper l s h = (_, _, refl, tt)
  state_branch-leaf (suc (suc zero)) deeper l s h = (_, _, refl, tt)
  state_branch-leaf (suc (suc (suc zero))) deeper l s h = (_, _, refl, tt)
  state_branch-leaf (suc (suc (suc (suc zero)))) deeper l s h = (_, _, refl, tt)
  state_branch-leaf (suc (suc (suc (suc (suc n))))) deeper l s h = absurd (omega arith)

  state_branch-Deep :
      (pick : ℕ) (deeper : Gen S PyTree) (l : ℕ) (s : S)
      → Deep fdp remaining doc 5 l deeper
      → Makes (state_branch fdp pick deeper s) (λ t _. Within 5 (suc l) t)
  unfolding state_branch some_bytes
  state_branch-Deep zero deeper l s deep = (_, _, refl, tt)
  state_branch-Deep (suc zero) deeper l s deep = (_, _, refl, tt)
  state_branch-Deep (suc (suc zero)) deeper l s deep = (_, _, refl, tt)
  state_branch-Deep (suc (suc (suc zero))) deeper l s deep = (_, _, refl, tt)
  state_branch-Deep (suc (suc (suc (suc zero)))) deeper l s deep = (_, _, refl, tt)
  state_branch-Deep (suc (suc (suc (suc (suc zero))))) deeper l s deep =
      list_of-Makes fdp remaining doc 5 l 5 deeper s (omega arith) deep
  state_branch-Deep (suc (suc (suc (suc (suc (suc zero)))))) deeper l s deep =
      dict_of-Makes fdp remaining doc 5 l 5 (free_entry fdp deeper) s (omega arith)
        (λ t. free_entry-Makes fdp remaining doc 5 l deeper t deep)
  state_branch-Deep (suc (suc (suc (suc (suc (suc (suc zero))))))) deeper l s deep =
      dict_of-Makes fdp remaining doc 5 l 5 (known_entry fdp deeper) s (omega arith)
        (λ t. known_entry-Makes fdp remaining doc 5 l deeper t deep)
  state_branch-Deep (suc (suc (suc (suc (suc (suc (suc (suc zero)))))))) deeper l s deep =
      numbered_dict-Makes fdp remaining doc 5 l 5 deeper s (omega arith) deep
  state_branch-Deep (suc (suc (suc (suc (suc (suc (suc (suc (suc n))))))))) deeper l s deep =
      let k = fdp.int_in_range 0 8 s in
      let b = fdp.consume_bytes k.0 k.1 in (bytes b.0, b.1, ground arith, tt)

  -- `_make_state` returns a value from every depth up to six, with fuel for the levels that are left:
  -- so many containers stand in one another at most, each with at most five members.
  pub make_state-Makes :
      (fuel depth : ℕ) (s : S)
      → depth ≤ 6
      → 6 < fuel + depth
      → Makes (make_state fdp fuel depth s) (λ t _. Within 5 (6 - depth) t)
  unfolding make_state
  make_state-Makes zero depth s d h = absurd (omega arith)
  make_state-Makes (suc f) depth s d h = elim (Bool-cases (ltb depth 6)) [
    | inl e ↦
        let pick = fdp.int_in_range 0 9 s in
        let level : 6 - depth ≡ suc (6 - suc depth) = ground arith in
        rw (e, level)
          (state_branch-Deep pick.0 (make_state fdp f (suc depth)) (6 - suc depth) pick.1
            (λ t. make_state-Makes f (suc depth) t (ground arith) (ground arith)))
    | inr e ↦
        let pick = fdp.int_in_range 0 4 s in
        rw e (
          state_branch-leaf pick.0 (make_state fdp f (suc depth)) (6 - depth) pick.1
            (doc.below 0 4 s (omega arith)))
  ]
