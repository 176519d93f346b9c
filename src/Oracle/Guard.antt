-- ===== src/Oracle/Guard.antt =====
-- When the guard passes.
use mapfuzz.Base.{append-nil_iff, ℕ, ◌*◌, ◌≡◌, ◌≢◌, refl, sym, ◌∙◌, subst, [], ◌↔◌, inl, inr}
use mapfuzz.Exceptions.{ExcClass, returned, raised}
use mapfuzz.Targets.MetaTensor.{Bytes}
use mapfuzz.Oracle.{
  Code, ok, rejected, exhausted, timeout, nocap, Work, ended, Host, run_capped, bomb_failures,
  benign_failures, assert_guards_class,
}
use mapfuzz.Oracle.Run.{
  Clean, Accepted, code_of_iff, code_of-ok, ending, run_capped-capped, run_capped-uncapped,
}

bomb_failures_iff : (c : Code) → (bomb_failures c ≡ []) ↔ Accepted c
unfolding bomb_failures
bomb_failures_iff ok = (λ _. inl refl, λ _. refl)
bomb_failures_iff rejected = (λ _. inr refl, λ _. refl)
bomb_failures_iff exhausted = (λ h. cc, λ h. elim h [ inl p ↦ cc | inr p ↦ cc ])
bomb_failures_iff timeout = (λ h. cc, λ h. elim h [ inl p ↦ cc | inr p ↦ cc ])
bomb_failures_iff nocap = (λ h. cc, λ h. elim h [ inl p ↦ cc | inr p ↦ cc ])

benign_failures_iff : (c : Code) → (benign_failures c ≡ []) ↔ (c ≡ ok)
unfolding benign_failures
benign_failures_iff ok = (λ _. refl, λ _. refl)
benign_failures_iff rejected = (λ h. cc, λ h. cc)
benign_failures_iff exhausted = (λ h. cc, λ h. cc)
benign_failures_iff timeout = (λ h. cc, λ h. cc)
benign_failures_iff nocap = (λ h. cc, λ h. cc)

module _ (host : Host) (mem_mb seconds : ℕ) where
  guard_iff :
      (loader : Bytes → Work) (bomb benign : Bytes)
      → (assert_guards_class host mem_mb seconds loader bomb benign ≡ []) ↔ (
          Accepted (run_capped host mem_mb seconds (loader bomb))
          × (run_capped host mem_mb seconds (loader benign) ≡ ok))
  unfolding assert_guards_class
  guard_iff loader bomb benign =
      let both =
        append-nil_iff (bomb_failures (run_capped host mem_mb seconds (loader bomb)))
          (benign_failures (run_capped host mem_mb seconds (loader benign))) in
      let b = bomb_failures_iff (run_capped host mem_mb seconds (loader bomb)) in
      let g = benign_failures_iff (run_capped host mem_mb seconds (loader benign)) in
      (λ h. (b.0 (both.0 h).0, g.0 (both.0 h).1), λ (x, y). both.1 (b.1 x, g.1 y))

  -- With the memory cap in force, the guard passes exactly when the loader's run on the bomb ends of
  -- itself, in a return or in an exception other than for want of memory, and its run on the benign
  -- input returns.
  pub assert_guards_class_iff :
      (loader : Bytes → Work) (bomb benign : Bytes)
      → host.set_limit (mem_mb * 1024 * 1024) ≡ returned
      → (assert_guards_class host mem_mb seconds loader bomb benign ≡ []) ↔ (
          Clean (ending host mem_mb seconds (loader bomb))
          × (ending host mem_mb seconds (loader benign) ≡ ended returned))
  assert_guards_class_iff loader bomb benign h =
      let on_bomb = run_capped-capped host mem_mb seconds h (loader bomb) in
      let on_benign = run_capped-capped host mem_mb seconds h (loader benign) in
      let b = code_of_iff (ending host mem_mb seconds (loader bomb)) in
      let g = code_of-ok (ending host mem_mb seconds (loader benign)) in
      let guard = guard_iff loader bomb benign in
      (
        λ e. (b.0 (subst Accepted on_bomb (guard.0 e).0), g.0 (sym on_benign ∙ (guard.0 e).1)),
        λ (x, y). guard.1 (subst Accepted (sym on_bomb) (b.1 x), on_benign ∙ g.1 y),
      )

  -- Where the memory cap cannot be set, the guard never passes, whatever the loader does.
  uncapped-refused :
      (loader : Bytes → Work) (bomb benign : Bytes) (e : ExcClass)
      → host.set_limit (mem_mb * 1024 * 1024) ≡ raised e
      → assert_guards_class host mem_mb seconds loader bomb benign ≢ []
  uncapped-refused loader bomb benign e h pass =
      run_capped-uncapped host mem_mb seconds e h (loader bomb)
        ((guard_iff loader bomb benign).0 pass).0
