-- ===== src/Oracle/Run.antt =====
-- What the code that the parent sees says about the loader's run.
use mapfuzz.Base.{
  ℕ, ◌≡◌, refl, ◌*◌, Bool, true, false, [], ◌∷◌, arith, ◌↔◌, ◌⊎◌, inl, inr, Bool-cases,
}
use mapfuzz.Exceptions.{
  ExcClass, builtin, value_error, os_error, memory_error, recursion_error, exception, Outcome,
  returned, raised, is_one_of,
}
use mapfuzz.Exceptions.Laws.{recursion_error-is_exception}
use mapfuzz.Oracle.{
  Code, ok, rejected, exhausted, timeout, nocap, Work, Ending, ended, killed, still_running, Host,
  gone, reported, child_of, capped, code_of, child, run_capped,
}

-- The run used its resources up: it is still going, it was killed, or its memory was refused.
abbrev pub Exhausts : Ending → Type 0
Exhausts still_running = Unit
Exhausts killed = Unit
Exhausts (ended returned) = ⊥
Exhausts (ended (raised e)) = is_one_of e (builtin memory_error ∷ []) ≡ true

-- The run ended of itself, and not for want of memory.
abbrev pub Clean : Ending → Type 0
Clean still_running = ⊥
Clean killed = ⊥
Clean (ended returned) = Unit
Clean (ended (raised e)) =
    (is_one_of e (builtin memory_error ∷ []) ≡ false)
    × (is_one_of e (builtin exception ∷ []) ≡ true)

abbrev pub Accepted : Code → Type 0
Accepted c = (c ≡ ok) ⊎ (c ≡ rejected)

abbrev memory : ExcClass → Bool
memory e = is_one_of e (builtin memory_error ∷ [])

abbrev recursion : ExcClass → Bool
recursion e = is_one_of e (builtin recursion_error ∷ [])

abbrev any_exception : ExcClass → Bool
any_exception e = is_one_of e (builtin exception ∷ [])

recursion-any_exception : (e : ExcClass) → recursion e ≡ true → any_exception e ≡ true
unfolding is_one_of
recursion-any_exception e h = rw (recursion_error-is_exception e (ground arith)) refl

pub exhausted_refused : Accepted exhausted ↔ ⊥
exhausted_refused = (λ h. elim h [ inl p ↦ cc | inr p ↦ cc ], λ h. absurd h)

reported_iff : (o : Outcome) → Accepted (code_of (gone (reported o))) ↔ Clean (ended o)
unfolding reported code_of
reported_iff returned = (λ _. tt, λ _. inl refl)
reported_iff (raised e) = elim (Bool-cases (memory e)) [
  | inl m ↦ rw m (λ h. absurd (exhausted_refused.0 h), λ (h, _). cc)
  | inr m ↦ elim (Bool-cases (recursion e)) [
    | inl r ↦ rw (m, r) (λ _. (refl, recursion-any_exception e r), λ _. inr refl)
    | inr r ↦ elim (Bool-cases (any_exception e)) [
      | inl x ↦ rw (m, r, x) (λ _. (refl, refl), λ _. inr refl)
      | inr x ↦ rw (m, r, x) (λ h. absurd (exhausted_refused.0 h), λ (_, h). cc)
    ]
  ]
]

timeout_refused : Accepted timeout → ⊥
timeout_refused (inl p) = cc
timeout_refused (inr p) = cc

nocap_refused : Accepted nocap → ⊥
nocap_refused (inl p) = cc
nocap_refused (inr p) = cc

pub code_of_iff : (e : Ending) → Accepted (code_of (child_of e)) ↔ Clean e
unfolding child_of code_of
code_of_iff (ended o) = reported_iff o
code_of_iff killed = exhausted_refused
code_of_iff still_running = (timeout_refused, λ h. absurd h)

reported-ok : (o : Outcome) → code_of (gone (reported o)) ≡ ok → ended o ≡ ended returned
unfolding reported code_of
reported-ok returned h = refl
reported-ok (raised e) h = elim (Bool-cases (memory e)) [
  | inl m ↦ absurd (ground arith)
  | inr m ↦ elim (Bool-cases (recursion e)) [
    | inl r ↦ absurd (ground arith)
    | inr r ↦ absurd (ground arith)
  ]
]

pub code_of-ok : (e : Ending) → (code_of (child_of e) ≡ ok) ↔ (e ≡ ended returned)
unfolding child_of code_of reported
code_of-ok e = (to e, λ h. rw h refl)
  where
    to : (e : Ending) → code_of (child_of e) ≡ ok → e ≡ ended returned
    to (ended o) h = reported-ok o h
    to killed h = cc
    to still_running h = cc

module _ (host : Host) (mem_mb seconds : ℕ) where
  -- what becomes of some work under the caps
  abbrev pub ending : Work → Ending
  ending w = host.execute (mem_mb * 1024 * 1024) seconds w

  pub run_capped-capped :
      host.set_limit (mem_mb * 1024 * 1024) ≡ returned
      → (w : Work) → run_capped host mem_mb seconds w ≡ code_of (child_of (ending w))
  unfolding run_capped child capped
  run_capped-capped h w = rw h refl

  pub run_capped-uncapped :
      (e : ExcClass)
      → host.set_limit (mem_mb * 1024 * 1024) ≡ raised e
      → (w : Work) → ¬ Accepted (run_capped host mem_mb seconds w)
  unfolding run_capped child capped code_of
  run_capped-uncapped e h w =
      elim (Bool-cases (is_one_of e (builtin value_error ∷ builtin os_error ∷ []))) [
        | inl t ↦ rw (h, t) nocap_refused
        | inr f ↦ rw (h, f) exhausted_refused.0
      ]
