-- ===== src/Base/Sorting.antt =====
-- A stable sort by a test `lt`, as Python's `sorted` makes it, and the order of texts.
use mathlib.Core.List.{Perm}
use mathlib.Core.List.Perm
use mathlib.Core.List.Permᴰ
use mathlib.Core.List.{Permᴰ, Pairwise, Pairwise-cons, mem-cons_self}
use mathlib.Core.List.Pairwise
use Prim.Native.Nat.{ℕ}
use mathlib.Core.Path.{◌≡◌, refl, sym, ◌∙◌}
use mathlib.Core.Bool.{Bool, true, false, ◌&&◌, ◌||◌}
use mathlib.Core.Logic.{◌≢◌, ◌↔◌, inl, inr}
use mathlib.Core.List.{List, [], ◌∷◌}
use native.Mathlib.Omega.{arith}
use mapfuzz.Base.Lists.{Elem}
use mapfuzz.Base.Tests.{Bool-cases, ltb, ◌==◌, if◌then◌else◌}

module _ {A : Type 0} (lt : A → A → Bool) where
  -- `a` goes before the first element that is not less
  unfoldable pub insert_by : A → List A → List A
  insert_by a [] = a ∷ []
  insert_by a (b ∷ bs) = if lt b a then b ∷ insert_by a bs else a ∷ b ∷ bs

  unfoldable pub sort_by : List A → List A
  unfolding insert_by
  sort_by [] = []
  sort_by (a ∷ as_) = insert_by a (sort_by as_)

  insert_by-perm : (a : A) (bs : List A) → Perm (insert_by a bs) (a ∷ bs)
  unfolding insert_by
  insert_by-perm a [] = Perm.rfl
  insert_by-perm a (b ∷ bs) = elim (Bool-cases (lt b a)) [
    | inl e ↦ rw e (Perm.trans (Perm.cons b (insert_by-perm a bs)) (Perm.swap a b bs))
    | inr e ↦ rw e Perm.rfl
  ]

  pub sort_by-perm : (as_ : List A) → Perm (sort_by as_) as_
  unfolding sort_by
  sort_by-perm [] = Perm.rfl
  sort_by-perm (a ∷ as_) =
      Perm.trans (insert_by-perm a (sort_by as_)) (Perm.cons a (sort_by-perm as_))

  insert_by-Elem : (x a : A) (bs : List A) → Elem x (insert_by a bs) ↔ Elem x (a ∷ bs)
  unfolding insert_by
  insert_by-Elem x a [] = (λ h. h, λ h. h)
  insert_by-Elem x a (b ∷ bs) = elim (Bool-cases (lt b a)) [
    | inl e ↦ rw e (to (insert_by-Elem x a bs).0, from (insert_by-Elem x a bs).1)
    | inr e ↦ rw e (λ h. h, λ h. h)
  ]
    where
      to :
          (Elem x (insert_by a bs) → Elem x (a ∷ bs))
          → Elem x (b ∷ insert_by a bs)
          → Elem x (a ∷ b ∷ bs)
      to ih (inl e) = inr (inl e)
      to ih (inr m) = elim (ih m) [ inl e ↦ inl e | inr k ↦ inr (inr k) ]

      from :
          (Elem x (a ∷ bs) → Elem x (insert_by a bs))
          → Elem x (a ∷ b ∷ bs)
          → Elem x (b ∷ insert_by a bs)
      from ih (inl e) = inr (ih (inl e))
      from ih (inr (inl e)) = inl e
      from ih (inr (inr m)) = inr (ih (inr m))

  pub sort_by-Elem : (x : A) (as_ : List A) → Elem x (sort_by as_) ↔ Elem x as_
  unfolding sort_by
  sort_by-Elem x [] = (λ h. h, λ h. h)
  sort_by-Elem x (a ∷ as_) =
      let here = insert_by-Elem x a (sort_by as_) in
      let rest = sort_by-Elem x as_ in
      (
        λ h. elim (here.0 h) [ inl e ↦ inl e | inr m ↦ inr (rest.0 m) ],
        λ h. here.1 (elim h [ inl e ↦ inl e | inr m ↦ inr (rest.1 m) ]),
      )

-- a test that orders things in a line, where it holds of different keys
pub record Strict {A : Type 0} (lt : A → A → Bool) : Type 0 where
  pub asym : (a b : A) → lt a b ≡ true → lt b a ≡ false
  pub trans : (a b c : A) → lt a b ≡ true → lt b c ≡ true → lt a c ≡ true

module _ {A : Type 0} (lt : A → A → Bool) (strict : Strict lt) where
  -- Two things of which one is less than the other may be inserted in either order.
  insert_by-swap :
      (a b : A) (cs : List A)
      → lt a b ≡ true
      → insert_by lt a (insert_by lt b cs) ≡ insert_by lt b (insert_by lt a cs)
  unfolding insert_by
  insert_by-swap a b [] h = rw (h, strict.asym a b h) refl
  insert_by-swap a b (c ∷ cs) h = ground (
    arith,
    strict.asym a b h,
    (λ (e : lt c a ≡ true). strict.trans c a b e h),
    insert_by-swap a b cs h,
  )

  -- of two things one is less
  abbrev pub Apart : A → A → Type 0
  Apart a b = (lt a b || lt b a) ≡ true

  Apart-sym : (a b : A) → Apart a b → Apart b a
  Apart-sym a b h = elim (Bool-cases (lt b a)) [ inl t ↦ rw t refl | inr f ↦ ground arith ]

  insert_by-insert_by :
      (a b : A) (cs : List A)
      → Apart a b
      → insert_by lt a (insert_by lt b cs) ≡ insert_by lt b (insert_by lt a cs)
  insert_by-insert_by a b cs h = elim (Bool-cases (lt a b)) [
    | inl t ↦ insert_by-swap a b cs t
    | inr f ↦ sym (insert_by-swap b a cs (ground arith))
  ]

  Apart-prop : (a b : A) → IsProp (Apart a b)
  Apart-prop a b = hlevel

  -- The order in which things come to be sorted does not matter, where of any two one is less.
  pub sort_by-permute :
      {as_ bs : List A} → Permᴰ as_ bs → Pairwise Apart as_ → sort_by lt as_ ≡ sort_by lt bs
  unfolding sort_by
  sort_by-permute Permᴰ.nil h = refl
  sort_by-permute (Permᴰ.cons e p) h = rw (e, sort_by-permute p (Pairwise.of_cons h)) refl
  sort_by-permute (Permᴰ.swap {a} {b} {a'} {b'} {l} e f) h =
      rw (← e, ← f) (insert_by-insert_by a b (sort_by lt l) ((Pairwise-cons.0 h).0 b mem-cons_self))
  sort_by-permute (Permᴰ.trans p q) h =
      sort_by-permute p h ∙ sort_by-permute q (Permᴰ.pairwise Apart-prop Apart-sym p h)

-- `s < t` for texts
unfoldable pub text_lt : List ℕ → List ℕ → Bool
text_lt s [] = false
text_lt [] (b ∷ t) = true
text_lt (a ∷ s) (b ∷ t) = ltb a b || ((a == b) && text_lt s t)

text_lt_asym : (s t : List ℕ) → text_lt s t ≡ true → text_lt t s ≡ false
unfolding text_lt
text_lt_asym [] [] h = cc
text_lt_asym (a ∷ s) [] h = cc
text_lt_asym [] (b ∷ t) h = refl
text_lt_asym (a ∷ s) (b ∷ t) h = ground (arith, text_lt_asym s t)

text_lt_trans : (s t u : List ℕ) → text_lt s t ≡ true → text_lt t u ≡ true → text_lt s u ≡ true
unfolding text_lt
text_lt_trans s t [] h k = absurd (ground arith)
text_lt_trans [] t (c ∷ u) h k = refl
text_lt_trans (a ∷ s) [] (c ∷ u) h k = cc
text_lt_trans (a ∷ s) (b ∷ t) (c ∷ u) h k = ground (arith, text_lt_trans s t u)

pub text_lt_total : (s t : List ℕ) → s ≢ t → (text_lt s t || text_lt t s) ≡ true
unfolding text_lt
text_lt_total [] [] n = absurd (n refl)
text_lt_total (a ∷ s) [] n = refl
text_lt_total [] (b ∷ t) n = refl
text_lt_total (a ∷ s) (b ∷ t) n = ground (arith, text_lt_total s t)

pub text_lt-Strict : Strict text_lt
text_lt-Strict = record { asym = text_lt_asym; trans = text_lt_trans }
