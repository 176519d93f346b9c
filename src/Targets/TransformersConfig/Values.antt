-- ===== src/Targets/TransformersConfig/Values.antt =====
-- targets/transformers_config/harness/fuzz_config_from_dict.py: `_rand_value` and `_build_dict`, over
-- the fuzzer's data.
pub mod Ends
use mapfuzz.Base.{
  ℕ, zero, suc, ◌^◌, Text, codes, Bool, true, false, Option, none, some, List, [], ◌∷◌, ltb, ◌==◌,
  show_nat, ◌⊎◌, ℤ, pos, if◌then◌else◌,
}
use mapfuzz.Json.{
  Json, null, boolean, integer, float, string, array, object, Items, no_items, item, Members,
  no_members, member,
}
use mapfuzz.Exceptions.{
  ExcClass, builtin, exception, recursion_error, Outcome, raised, swallow, handle,
}
use mapfuzz.Provider.{Provider, Gen, pure, draw, ◌>>=◌, many}
use mapfuzz.Targets.TransformersConfig.{build_dict, test_dict}

unfoldable pub items_of : List Json → Items
items_of [] = no_items
items_of (x ∷ xs) = item x (items_of xs)

-- `{str(i): … for i in range(n)}`: no two of its keys are equal
unfoldable pub numbered : ℕ → List Json → Members
numbered i [] = no_members
numbered i (x ∷ xs) = member (show_nat i) x (numbered (suc i) xs)

module _ {S : Type 0} (fdp : Provider S) where
  -- the branches of `_rand_value`
  unfoldable pub rand_branch : ℕ → Gen S Json → Gen S Json
  unfolding items_of numbered
  rand_branch pick deeper =
      if pick == 0
      then (draw (fdp.consume_int 8) >>= λ n. pure (integer n))
      else if pick == 1
      then (draw fdp.consume_float >>= λ t. pure (float t))
      else if pick == 2
      then (draw fdp.consume_bool >>= λ b. pure (boolean b))
      else if pick == 3
      then pure null
      else if pick == 4
      then (draw (fdp.int_in_range 0 40) >>= λ k.
          draw (fdp.consume_unicode k) >>= λ t. pure (string t))
      else if pick == 5
      then (draw (fdp.int_in_range 0 5) >>= λ n. many n deeper >>= λ xs. pure (array (items_of xs)))
      else if pick == 6
      then (draw (fdp.int_in_range 0 5) >>= λ n.
          many n deeper >>= λ xs. pure (object (numbered 0 xs)))
      else if pick == 7
      then (draw (fdp.int_in_range 1 12) >>= λ e. pure (integer (pos (10 ^ e))))
      else (deeper >>= λ v. pure (object (member (codes "n") v no_members)))

  -- `_rand_value`, on fuel
  unfoldable pub rand_value : ℕ → ℕ → Gen S Json
  unfolding rand_branch
  rand_value zero depth s = none
  rand_value (suc f) depth s =
      (draw (fdp.int_in_range 0 (if ltb depth 4 then 8 else 5)) >>= λ pick.
      rand_branch pick (rand_value f (suc depth)))
        s

  -- the key and the value of one round of the loop of `_build_dict`
  unfoldable pub drawn_member : ℕ → Gen S (Text × Json)
  drawn_member fuel = draw (fdp.int_in_range 1 24) >>= λ n.
      draw (fdp.consume_unicode n) >>= λ k. rand_value fuel 0 >>= λ v. pure (k, v)

  -- `_build_dict`
  unfoldable pub drawn_dict : ℕ → Gen S Json
  unfolding drawn_member
  drawn_dict fuel = draw (fdp.int_in_range 0 8) >>= λ n.
      many n (drawn_member fuel) >>= λ draws. pure (build_dict draws)

module _ {S : Type 0} (fdp : Provider S) (from_dict : Json → Outcome)
    (dumps : Json → ExcClass ⊎ Text) (loads : Text → ExcClass ⊎ Json) where
  -- the `try` around `_build_dict`; too little fuel is a `RecursionError` of the generator
  unfoldable pub with_dict : Option (Json × S) → Outcome
  unfolding test_dict handle
  with_dict none =
      handle ((builtin exception ∷ [], swallow) ∷ []) (raised (builtin recursion_error))
  with_dict (some (d, s)) = test_dict from_dict dumps loads d

  -- `TestOneInput`, under a limit on the recursion of `_rand_value`
  unfoldable pub test_one_input : ℕ → S → Outcome
  unfolding with_dict
  test_one_input limit s = with_dict (drawn_dict fdp limit s)
