-- ===== src/Targets/FlaxCheckpoint/Values/Blob.antt =====
-- `_make_value` ends on all data, and nests at most four containers.
use mapfuzz.Base.{
  ℕ, zero, suc, ◌+◌, ◌-◌, ◌≤◌, ◌<◌, ◌≡◌, refl, Text, List, [], arith, Bool-cases, inl, inr, ltb,
  get_or, ◌^◌, ℤ,
}
use mapfuzz.Provider.{Provider, Documented, Gen, draw}
use mapfuzz.Provider.Draws.{Makes, many-Makes}
use mapfuzz.Targets.FlaxCheckpoint.Values.{
  PyTree, dict, ext, entry, no_entries, number, dtypes, make_array_ext, some_text, some_bytes,
  free_entry, value_branch, make_value,
}
use mapfuzz.Targets.FlaxCheckpoint.Values.Shape.{
  Within, Deep, list_of-Makes, dict_of-Makes, free_entry-Makes,
}

module _ {S : Type 0} (fdp : Provider S) (remaining : S → ℕ) (doc : Documented fdp remaining)
    (packb : List ℤ → Text → List ℕ → List ℕ) where
  array_ext-Makes : (l : ℕ) (s : S) → Makes (make_array_ext fdp packb s) (λ t _. Within 4 l t)
  unfolding make_array_ext some_bytes
  array_ext-Makes l s =
      let n = fdp.int_in_range 0 4 s in
      let (shape, t, e, _) =
        many-Makes (λ _. 0) (λ _. Unit {0}) (draw (fdp.signed_in_range 2 (2 ^ 20))) 0
          (λ u _. (_, _, refl, (tt, omega arith))) n.0 n.1 (omega arith) in
      let d = fdp.int_in_range 0 12 t in
      let k = fdp.int_in_range 0 256 d.1 in
      let buf = fdp.consume_bytes k.0 k.1 in
      let code = fdp.int_in_range 1 3 buf.1 in
      (ext code.0 (packb shape (get_or dtypes d.0 []) buf.0), code.1, rw e refl, tt)

  value_branch-leaf :
      (pick : ℕ) (deeper : Gen S PyTree) (l : ℕ) (s : S)
      → pick ≤ 5
      → Makes (value_branch fdp packb pick deeper s) (λ t _. Within 4 l t)
  unfolding value_branch some_text
  value_branch-leaf zero deeper l s h = (_, _, refl, tt)
  value_branch-leaf (suc zero) deeper l s h = (_, _, refl, tt)
  value_branch-leaf (suc (suc zero)) deeper l s h = (_, _, refl, tt)
  value_branch-leaf (suc (suc (suc zero))) deeper l s h = (_, _, refl, tt)
  value_branch-leaf (suc (suc (suc (suc zero)))) deeper l s h = (_, _, refl, tt)
  value_branch-leaf (suc (suc (suc (suc (suc zero))))) deeper l s h = array_ext-Makes l s
  value_branch-leaf (suc (suc (suc (suc (suc (suc n)))))) deeper l s h = absurd (omega arith)

  value_branch-Deep :
      (pick : ℕ) (deeper : Gen S PyTree) (l : ℕ) (s : S)
      → Deep fdp remaining doc 4 l deeper
      → Makes (value_branch fdp packb pick deeper s) (λ t _. Within 4 (suc l) t)
  unfolding value_branch some_bytes
  value_branch-Deep zero deeper l s deep = (_, _, refl, tt)
  value_branch-Deep (suc zero) deeper l s deep = (_, _, refl, tt)
  value_branch-Deep (suc (suc zero)) deeper l s deep = (_, _, refl, tt)
  value_branch-Deep (suc (suc (suc zero))) deeper l s deep = (_, _, refl, tt)
  value_branch-Deep (suc (suc (suc (suc zero)))) deeper l s deep = (_, _, refl, tt)
  value_branch-Deep (suc (suc (suc (suc (suc zero))))) deeper l s deep = array_ext-Makes (suc l) s
  value_branch-Deep (suc (suc (suc (suc (suc (suc zero)))))) deeper l s deep =
      list_of-Makes fdp remaining doc 4 l 4 deeper s (omega arith) deep
  value_branch-Deep (suc (suc (suc (suc (suc (suc (suc zero))))))) deeper l s deep =
      dict_of-Makes fdp remaining doc 4 l 4 (free_entry fdp deeper) s (omega arith)
        (λ t. free_entry-Makes fdp remaining doc 4 l deeper t deep)
  value_branch-Deep (suc (suc (suc (suc (suc (suc (suc (suc zero)))))))) deeper l s deep =
      let k = fdp.int_in_range 0 999 s in
      let (v, t, e, p) = deep k.1 in
      (dict (entry (number k.0) v no_entries), t, rw e refl, (omega arith, omega arith, (p, tt)))
  value_branch-Deep (suc (suc (suc (suc (suc (suc (suc (suc (suc n))))))))) deeper l s deep =
      let c = fdp.int_in_range 0 127 s in
      let k = fdp.int_in_range 0 32 c.1 in
      let b = fdp.consume_bytes k.0 k.1 in (ext c.0 b.0, b.1, ground arith, tt)

  -- `_make_value` returns a value from every depth up to four, with fuel for the levels that are left:
  -- so many containers stand in one another at most, each with at most four members.
  pub make_value-Makes :
      (fuel depth : ℕ) (s : S)
      → depth ≤ 4
      → 4 < fuel + depth
      → Makes (make_value fdp packb fuel depth s) (λ t _. Within 4 (4 - depth) t)
  unfolding make_value
  make_value-Makes zero depth s d h = absurd (omega arith)
  make_value-Makes (suc f) depth s d h = elim (Bool-cases (ltb depth 4)) [
    | inl e ↦
        let pick = fdp.int_in_range 0 9 s in
        let level : 4 - depth ≡ suc (4 - suc depth) = ground arith in
        rw (e, level)
          (value_branch-Deep pick.0 (make_value fdp packb f (suc depth)) (4 - suc depth) pick.1
            (λ t. make_value-Makes f (suc depth) t (ground arith) (ground arith)))
    | inr e ↦
        let pick = fdp.int_in_range 0 5 s in
        rw e (
          value_branch-leaf pick.0 (make_value fdp packb f (suc depth)) (4 - depth) pick.1
            (doc.below 0 5 s (omega arith)))
  ]
