-- ===== src/Targets/TransformersConfig/Values/Ends.antt =====
-- `_rand_value` and `_build_dict` end on all data.
use mapfuzz.Base.{
  ℕ, zero, suc, ◌≤◌, ◌<◌, refl, codes, arith, Bool-cases, inl, inr, ltb, if◌then◌else◌,
}
use mapfuzz.Json.{Json, integer, array, object, no_members, member}
use mapfuzz.Provider.{Provider, Documented, Gen}
use mapfuzz.Provider.Draws.{Makes, many-Makes}
use mapfuzz.Targets.TransformersConfig.{build_dict}
use mapfuzz.Targets.TransformersConfig.Scrub.{InScope, build_dict-InScope}
use mapfuzz.Targets.TransformersConfig.Values.{
  items_of, numbered, rand_branch, rand_value, drawn_member, drawn_dict,
}

module _ {S : Type 0} (fdp : Provider S) (remaining : S → ℕ) (doc : Documented fdp remaining) where
  -- it makes a value from no more data than `k`, and gives none back
  abbrev Ends : {A : Type 0} → ℕ → Gen S A → Type 0
  Ends k m = (s : S) → remaining s ≤ k → Makes (m s) (λ a t. Unit {0} × (remaining t ≤ remaining s))

  rand_branch-Ends :
      (pick k : ℕ) (deeper : Gen S Json) → Ends k deeper → Ends k (rand_branch fdp pick deeper)
  unfolding rand_branch
  rand_branch-Ends zero k deeper ends s h = (_, _, refl, (tt, doc.any_int_spends 8 s))
  rand_branch-Ends (suc zero) k deeper ends s h = (_, _, refl, (tt, doc.float_spends s))
  rand_branch-Ends (suc (suc zero)) k deeper ends s h = (_, _, refl, (tt, doc.bool_spends s))
  rand_branch-Ends (suc (suc (suc zero))) k deeper ends s h = (_, _, refl, (tt, omega arith))
  rand_branch-Ends (suc (suc (suc (suc zero)))) k deeper ends s h =
      let k = fdp.int_in_range 0 40 s in
      (_, _, refl, (tt, omega (arith, doc.int_spends 0 40 s, doc.unicode_spends k.0 k.1)))
  rand_branch-Ends (suc (suc (suc (suc (suc zero))))) k deeper ends s h =
      let n = fdp.int_in_range 0 5 s in
      let less = doc.int_spends 0 5 s in
      let (xs, t, e, (_, _, le)) =
        many-Makes remaining (λ _. Unit {0}) deeper k ends n.0 n.1 (omega arith) in
      (array (items_of xs), t, rw e refl, (tt, omega arith))
  rand_branch-Ends (suc (suc (suc (suc (suc (suc zero)))))) k deeper ends s h =
      let n = fdp.int_in_range 0 5 s in
      let less = doc.int_spends 0 5 s in
      let (xs, t, e, (_, _, le)) =
        many-Makes remaining (λ _. Unit {0}) deeper k ends n.0 n.1 (omega arith) in
      (object (numbered 0 xs), t, rw e refl, (tt, omega arith))
  rand_branch-Ends (suc (suc (suc (suc (suc (suc (suc zero))))))) k deeper ends s h =
      (_, _, refl, (tt, doc.int_spends 1 12 s))
  rand_branch-Ends (suc (suc (suc (suc (suc (suc (suc (suc n)))))))) k deeper ends s h =
      let (v, u, e, p) = ends s h in
      (object (member (codes "n") v no_members), u, ground (arith, e), p)

  abbrev Ended : S → Json → S → Type 0
  Ended s v t = Unit {0} × (remaining t ≤ remaining s)

  -- a draw of the branch, and the branch, where the recursive call ends on less data
  drawn_branch-Makes :
      (hi : ℕ) (deeper : Gen S Json) (s : S)
      → 0 < hi
      → ((t : S) → remaining t < remaining s → Makes (deeper t) (Ended t))
      → Makes
          (rand_branch fdp (fdp.int_in_range 0 hi s).0 deeper (fdp.int_in_range 0 hi s).1)
          (Ended s)
  unfolding rand_branch
  drawn_branch-Makes hi deeper s up ends = elim (Bool-cases (ltb 0 (remaining s))) [
    | inl more ↦
        let p = fdp.int_in_range 0 hi s in
        let less = doc.uses 0 hi s up (ground arith) in
        let (v, u, e, (_, le)) =
          rand_branch-Ends p.0 (remaining p.1) deeper (λ t h. ends t (omega arith)) p.1
            (omega arith) in
        (v, u, e, (tt, omega arith))
    | inr end ↦
        let p = fdp.int_in_range 0 hi s in
        let least = doc.used_up 0 hi s (omega arith) (ground arith) in
        let n = fdp.consume_int 8 p.1 in
        (
          integer n.0,
          n.1,
          rw least refl,
          (tt, omega (arith, doc.any_int_spends 8 p.1, doc.int_spends 0 hi s)),
        )
  ]

  -- `_rand_value` returns a value on all data, with fuel for as many calls as there are bytes left,
  -- and one more.
  rand_value-Makes :
      (fuel depth : ℕ) (s : S) → remaining s < fuel → Makes (rand_value fdp fuel depth s) (Ended s)
  unfolding rand_value
  rand_value-Makes zero depth s h = absurd (omega arith)
  rand_value-Makes (suc f) depth s h =
      drawn_branch-Makes (if ltb depth 4 then 8 else 5) (rand_value fdp f (suc depth)) s
        (ground arith) (λ t less. rand_value-Makes f (suc depth) t (omega arith))

  drawn_member-Ends :
      (fuel : ℕ) (s : S)
      → remaining s < fuel
      → Makes (drawn_member fdp fuel s) (λ kv t. Unit {0} × (remaining t ≤ remaining s))
  unfolding drawn_member
  drawn_member-Ends fuel s h =
      let n = fdp.int_in_range 1 24 s in
      let k = fdp.consume_unicode n.0 n.1 in
      let less : remaining k.1 ≤ remaining s =
        omega (arith, doc.int_spends 1 24 s, doc.unicode_spends n.0 n.1) in
      let (v, t, e, (_, le)) = rand_value-Makes fuel 0 k.1 (omega arith) in
      ((k.0, v), t, rw e refl, (tt, omega arith))

  -- `_build_dict` returns on all data, with fuel for one more call than there are bytes, and what it
  -- returns has no forbidden key at any depth.
  pub drawn_dict-Makes :
      (fuel : ℕ) (s : S) → remaining s < fuel → Makes (drawn_dict fdp fuel s) (λ d t. InScope d)
  unfolding drawn_dict
  drawn_dict-Makes fuel s h =
      let n = fdp.int_in_range 0 8 s in
      let less = doc.int_spends 0 8 s in
      let (draws, t, e, _) =
        many-Makes remaining (λ _. Unit {0}) (drawn_member fdp fuel) (remaining s)
          (λ u le. drawn_member-Ends fuel u (omega arith)) n.0 n.1 (omega arith) in
      (build_dict draws, t, rw e refl, build_dict-InScope draws)
