-- ===== src/Evidence/Main.antt =====
-- evidence/tool.py: `main`, from the claims that `load` reads.
pub mod Gate
use mapfuzz.Base.{
  ℕ, Text, Bool, true, false, Option, none, some, List, [], ◌∷◌, ◌++◌, length, ◌⊎◌, inl, inr,
}
use mapfuzz.Exceptions.{ExcClass}
use mapfuzz.Evidence.{Claim, Problem, check}
use mapfuzz.Evidence.Render.{Attempt, render}

-- what `main` prints: the problems, or a count of claims
pub data Printed : Type 0 where
  base_invalid : List Problem → Printed
  base_ok rendered : ℕ → Printed

-- how `main` ends: what was printed, the text that claims.md holds now, if it was written, and the
-- exit status, or the exception that ended it
pub record MainResult : Type 0 where
  pub printed : List Printed
  pub written : Option Text
  pub status : Attempt ℕ

module _ (shown : List Text → Text) where
  unfoldable pub after_render : List Printed → Attempt (Text × ℕ) → MainResult
  after_render lines (inl e) = record { printed = lines; written = none; status = inl e }
  after_render lines (inr (t, n)) = record {
    printed = lines ++ (rendered n ∷ []);
    written = some t;
    status = inr 0;
  }

  -- `if args.render`
  unfoldable pub when_render : Bool → List Printed → List Claim → MainResult
  unfolding after_render
  when_render true lines claims = after_render lines (render shown claims)
  when_render false lines claims = record { printed = lines; written = none; status = inr 0 }

  unfoldable pub after_check : Bool → List Claim → Attempt (List Problem) → MainResult
  unfolding when_render
  after_check r claims (inl e) = record { printed = []; written = none; status = inl e }
  after_check r claims (inr (p ∷ ps)) = record {
    printed = base_invalid (p ∷ ps) ∷ [];
    written = none;
    status = inr 1;
  }
  after_check r claims (inr []) = when_render r (base_ok (length claims) ∷ []) claims

  -- `if args.check`
  unfoldable pub when_check : Bool → Bool → List Claim → MainResult
  unfolding after_check when_render
  when_check true r claims = after_check r claims (check shown claims)
  when_check false r claims = when_render r [] claims

  -- `main`, with the flags that are given; without any, both are set
  unfoldable pub tool_main : Bool → Bool → List Claim → MainResult
  unfolding when_check
  tool_main false false claims = when_check true true claims
  tool_main false true claims = when_check false true claims
  tool_main true r claims = when_check true r claims
