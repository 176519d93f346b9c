-- ===== src/Exceptions/Laws.antt =====
-- What a `try` statement lets through when only its first clause swallows.
use mapfuzz.Base.{
  ◌≡◌, refl, sym, ◌∙◌, subst, false, false≢true, Bool-cases, ◌↔◌, true, List, [], ◌∷◌, arith,
  if◌then◌else◌, inl, inr, any, Elem,
}
use mapfuzz.Exceptions.{
  ExcClass, builtin, derived, exception, value_error, unicode_decode_error, runtime_error,
  recursion_error, bases, tag, same_class, mro, is_instance, is_one_of, Outcome, returned, raised,
  swallow, reraise, Clauses, handle_raised, handle,
}

-- every clause has a bare `raise`
abbrev pub AllReraise : Clauses → Type 0
AllReraise [] = Unit
AllReraise ((cs, h) ∷ rest) = (h ≡ reraise) × AllReraise rest

reraised : (rest : Clauses) (e : ExcClass) → AllReraise rest → handle_raised rest e ≡ raised e
unfolding handle_raised
reraised [] e h = refl
reraised ((cs, swallow) ∷ rest) e (h, hs) = absurd (cc)
reraised ((cs, reraise) ∷ rest) e (h, hs) = ground (arith, reraised rest e hs)

-- With clauses that re-raise behind the first, the first alone decides what gets out.
pub handle_first :
    (expected : List ExcClass) (rest : Clauses) (e : ExcClass)
    → AllReraise rest
    → handle ((expected, swallow) ∷ rest) (raised e)
      ≡ (if is_one_of e expected then returned else raised e)
unfolding handle handle_raised
handle_first expected rest e h = rw (reraised rest e h) refl

-- Every class under `UnicodeDecodeError` is under `ValueError`, and every class under
-- `RecursionError` is under `RuntimeError`.
pub unicode_decode_error-is_value_error :
    (e : ExcClass)
    → is_instance e (builtin unicode_decode_error) ≡ true
    → is_instance e (builtin value_error) ≡ true
unfolding is_instance mro bases same_class tag any
unicode_decode_error-is_value_error (builtin unicode_decode_error) h = refl
unicode_decode_error-is_value_error (builtin _) h = ground arith
unicode_decode_error-is_value_error (derived n c) h = unicode_decode_error-is_value_error c h

pub recursion_error-is_runtime_error :
    (e : ExcClass)
    → is_instance e (builtin recursion_error) ≡ true
    → is_instance e (builtin runtime_error) ≡ true
unfolding is_instance mro bases same_class tag any
recursion_error-is_runtime_error (builtin recursion_error) h = refl
recursion_error-is_runtime_error (builtin _) h = ground arith
recursion_error-is_runtime_error (derived n c) h = recursion_error-is_runtime_error c h

pub recursion_error-is_exception :
    (e : ExcClass)
    → is_instance e (builtin recursion_error) ≡ true
    → is_instance e (builtin exception) ≡ true
unfolding is_instance mro bases same_class tag any
recursion_error-is_exception (builtin recursion_error) h = refl
recursion_error-is_exception (builtin _) h = ground arith
recursion_error-is_exception (derived n c) h = recursion_error-is_exception c h

-- An exception of a listed class is one of the list.
pub is_one_of-Elem :
    (e c : ExcClass) (cs : List ExcClass)
    → Elem c cs
    → is_instance e c ≡ true
    → is_one_of e cs ≡ true
unfolding is_one_of
is_one_of-Elem e c [] m h = absurd m
is_one_of-Elem e c (d ∷ cs) (inl q) h = rw (← q, h) refl
is_one_of-Elem e c (d ∷ cs) (inr m) h = ground (arith, is_one_of-Elem e c cs m h)

returned_not_raised : (e : ExcClass) → (returned ≡ raised e) → ⊥
returned_not_raised e h = cc

raised_inj : (x e : ExcClass) → raised x ≡ raised e → x ≡ e
raised_inj x e h = cc

-- What such a statement lets through is what its body raises of no expected class.
pub handle_iff :
    (expected : List ExcClass) (rest : Clauses) (o : Outcome) (e : ExcClass)
    → AllReraise rest
    → (handle ((expected, swallow) ∷ rest) o ≡ raised e)
      ↔ ((o ≡ raised e) × (is_one_of e expected ≡ false))
unfolding handle
handle_iff expected rest returned e a =
    (λ h. absurd (returned_not_raised e h), λ (h, _). absurd (returned_not_raised e h))
handle_iff expected rest (raised y) e a =
    let first = handle_first expected rest y a in
    elim (Bool-cases (is_one_of y expected)) [
      | inl t ↦
          rw (first, t)
            (
              λ h. absurd (returned_not_raised e h),
              λ (h, f). absurd (
                  false≢true
                    (sym f ∙ subst (λ z. is_one_of z expected ≡ true) (raised_inj y e h) t)),
            )
      | inr f ↦
          rw (first, f)
            (λ h. (h, subst (λ z. is_one_of z expected ≡ false) (raised_inj y e h) f), λ (h, _). h)
    ]
