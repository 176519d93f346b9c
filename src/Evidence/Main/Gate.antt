-- ===== src/Evidence/Main/Gate.antt =====
-- What `main` writes, where it checks the base.
use mapfuzz.Base.{
  ℕ, ◌≡◌, refl, ap, Text, Bool, true, false, not, Option, some, List, [], ◌∷◌, length, ◌↔◌, inl,
  inr, ◌||◌,
}
use mapfuzz.Evidence.{Claim, Problem, check}
use mapfuzz.Evidence.Check.{check_iff}
use mapfuzz.Evidence.Valid.{ValidBase}
use mapfuzz.Evidence.Render.{Attempt, render}
use mapfuzz.Evidence.Main.{
  Printed, base_ok, after_render, when_render, after_check, when_check, tool_main,
}

-- The flags make `main` check, and make it render.
abbrev pub checks : Bool → Bool → Bool
checks c r = c || not r

abbrev pub renders : Bool → Bool → Bool
renders c r = r || not c

module _ (shown : List Text → Text) where
  tool_main_flags :
      (c r : Bool) (claims : List Claim)
      → tool_main shown c r claims ≡ when_check shown (checks c r) (renders c r) claims
  unfolding tool_main
  tool_main_flags true true claims = refl
  tool_main_flags true false claims = refl
  tool_main_flags false true claims = refl
  tool_main_flags false false claims = refl

  text_inj : (s t : Text) → ◌≡◌ {A = Option Text} (some s) (some t) → s ≡ t
  text_inj s t h = cc

  pair_inj : (s t : Text) (n m : ℕ) → ◌≡◌ {A = Attempt (Text × ℕ)} (inr (s, n)) (inr (t, m)) → s ≡ t
  pair_inj s t n m h = cc

  render_result :
      (lines : List Printed) (o : Attempt (Text × ℕ)) (t : Text)
      → ((after_render shown lines o).written ≡ some t) ↔ ((n : ℕ) × (o ≡ inr (t, n)))
  unfolding after_render
  render_result lines (inl e) t = (λ h. cc, λ (n, h). cc)
  render_result lines (inr (s, n)) t =
      (λ h. (n, ap (λ u. inr (u, n)) (text_inj s t h)), λ (m, h). ap some (pair_inj s t n m h))

  check_result :
      (r : Bool) (claims : List Claim) (o : Attempt (List Problem)) (t : Text)
      → ((after_check shown r claims o).written ≡ some t)
        ↔ ((o ≡ inr []) × (r ≡ true) × ((n : ℕ) × (render shown claims ≡ inr (t, n))))
  unfolding after_check when_render
  check_result r claims (inl e) t = (λ h. cc, λ (h, _, _). cc)
  check_result r claims (inr (p ∷ ps)) t = (λ h. cc, λ (h, _, _). cc)
  check_result true claims (inr []) t =
      let made = render_result (base_ok (length claims) ∷ []) (render shown claims) t in
      (λ h. (refl, refl, made.0 h), λ (_, _, h). made.1 h)
  check_result false claims (inr []) t = (λ h. cc, λ (_, h, _). cc)

  -- Where `main` checks the base, it writes a text exactly when the base is valid, rendering is asked
  -- for, and the text is what `render` makes of the base.
  pub tool_main-written :
      (c r : Bool) (claims : List Claim) (t : Text)
      → checks c r ≡ true
      → ((tool_main shown c r claims).written ≡ some t) ↔ (
          ValidBase shown claims
          × (renders c r ≡ true)
          × ((n : ℕ) × (render shown claims ≡ inr (t, n))))
  unfolding when_check
  tool_main-written c r claims t h =
      let result = check_result (renders c r) claims (check shown claims) t in
      let valid = check_iff shown claims in
      rw (tool_main_flags c r claims, h)
        (
          λ w. let (e, q, m) = result.0 w in (valid.0 e, q, m),
          λ (b, q, m). result.1 (valid.1 b, q, m),
        )
