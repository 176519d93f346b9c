-- ===== src/Base/Lists.antt =====
-- Lists measured and indexed by native numbers, under the library's names, and membership as a
-- relation that is taken apart by cases.
use Prim.Native.Nat.{ℕ, zero, suc, ◌+◌, ◌-◌, min, ◌≤◌, ◌<◌}
use mathlib.Core.Path.{◌≡◌, refl, ap, sym, subst, ◌∙◌}
use mathlib.Core.Logic.{◌⊎◌, inl, inr, ◌≢◌, ◌↔◌}
use mathlib.Core.Bool.{Bool, true, false, ◌&&◌, ◌||◌}
use mathlib.Core.List.{List, [], ◌∷◌, ◌++◌, map}
use native.Mathlib.Omega.{arith}
use mapfuzz.Base.Tests.{Bool-cases}

module _ {ℓ} {A : Type ℓ} where
  abbrev pub length : List A → ℕ
  length [] = 0
  length (x ∷ xs) = suc (length xs)

  -- `l[i]`, with a value for an index out of range
  abbrev pub get_or : List A → ℕ → A → A
  get_or [] i d = d
  get_or (x ∷ xs) zero d = x
  get_or (x ∷ xs) (suc i) d = get_or xs i d

  -- `l[:n]`
  abbrev pub take : ℕ → List A → List A
  take zero xs = []
  take (suc n) [] = []
  take (suc n) (x ∷ xs) = x ∷ take n xs

  -- `l[n:]`
  abbrev pub drop : ℕ → List A → List A
  drop zero xs = xs
  drop (suc n) [] = []
  drop (suc n) (x ∷ xs) = drop n xs

  -- a write out of bounds changes nothing
  abbrev pub set : List A → ℕ → A → List A
  set [] i v = []
  set (x ∷ xs) zero v = v ∷ xs
  set (x ∷ xs) (suc i) v = x ∷ set xs i v

  abbrev pub replicate : ℕ → A → List A
  replicate zero a = []
  replicate (suc n) a = a ∷ replicate n a

  pub length-append : (xs ys : List A) → length (xs ++ ys) ≡ length xs + length ys
  length-append [] ys = omega arith
  length-append (x ∷ xs) ys = omega (arith, length-append xs ys)

  pub length-take : (n : ℕ) (xs : List A) → length (take n xs) ≡ min n (length xs)
  length-take zero xs = omega arith
  length-take (suc n) [] = omega arith
  length-take (suc n) (x ∷ xs) = omega (arith, length-take n xs)

  pub length-drop : (n : ℕ) (xs : List A) → length (drop n xs) ≡ length xs - n
  length-drop zero xs = omega arith
  length-drop (suc n) [] = omega arith
  length-drop (suc n) (x ∷ xs) = omega (arith, length-drop n xs)

  pub length-replicate : (n : ℕ) (a : A) → length (replicate n a) ≡ n
  length-replicate zero a = refl
  length-replicate (suc n) a = ap suc (length-replicate n a)

module _ {A : Type 0} (d : A) where
  pub get_or-set_ne :
      (xs : List A) (i j : ℕ) (v : A) → i ≢ j → get_or (set xs i v) j d ≡ get_or xs j d
  get_or-set_ne [] i j v h = refl
  get_or-set_ne (x ∷ xs) zero zero v h = absurd (h refl)
  get_or-set_ne (x ∷ xs) zero (suc j) v h = refl
  get_or-set_ne (x ∷ xs) (suc i) zero v h = refl
  get_or-set_ne (x ∷ xs) (suc i) (suc j) v h = get_or-set_ne xs i j v (λ e. h (ap suc e))

  pub get_or-take : (n : ℕ) (xs : List A) (j : ℕ) → j < n → get_or (take n xs) j d ≡ get_or xs j d
  get_or-take zero xs j h = absurd (omega arith)
  get_or-take (suc n) [] j h = refl
  get_or-take (suc n) (x ∷ xs) zero h = refl
  get_or-take (suc n) (x ∷ xs) (suc j) h = get_or-take n xs j (omega arith)

  pub get_or-take_past : (n : ℕ) (xs : List A) (j : ℕ) → n ≤ j → get_or (take n xs) j d ≡ d
  get_or-take_past zero xs j h = refl
  get_or-take_past (suc n) [] j h = refl
  get_or-take_past (suc n) (x ∷ xs) zero h = absurd (omega arith)
  get_or-take_past (suc n) (x ∷ xs) (suc j) h = get_or-take_past n xs j (omega arith)

  pub get_or-drop : (n : ℕ) (xs : List A) (j : ℕ) → get_or (drop n xs) j d ≡ get_or xs (n + j) d
  get_or-drop zero xs j = ap (λ i. get_or xs i d) (omega arith)
  get_or-drop (suc n) [] j = refl
  get_or-drop (suc n) (x ∷ xs) j = get_or-drop n xs j ∙ ap (λ i. get_or (x ∷ xs) i d) (shift n j)
    where
      shift : (n j : ℕ) → suc (n + j) ≡ suc n + j
      shift n j = omega arith

  pub get_or-replicate : (n j : ℕ) → get_or (replicate n d) j d ≡ d
  get_or-replicate zero j = refl
  get_or-replicate (suc n) zero = refl
  get_or-replicate (suc n) (suc j) = get_or-replicate n j

  pub get_or-pad : (xs : List A) (n j : ℕ) → get_or (xs ++ replicate n d) j d ≡ get_or xs j d
  get_or-pad [] n j = get_or-replicate n j
  get_or-pad (x ∷ xs) n zero = refl
  get_or-pad (x ∷ xs) n (suc j) = get_or-pad xs n j

module _ {A : Type 0} where
  pub take-append : (xs ys : List A) → take (length xs) (xs ++ ys) ≡ xs
  take-append [] ys = refl
  take-append (x ∷ xs) ys = rw (take-append xs ys) refl

  pub drop-append : (xs ys : List A) → drop (length xs) (xs ++ ys) ≡ ys
  drop-append [] ys = refl
  drop-append (x ∷ xs) ys = drop-append xs ys

-- `all(p(x) for x in l)` and `any(p(x) for x in l)`
module _ {ℓ} {A : Type ℓ} where
  unfoldable pub all : (A → Bool) → List A → Bool
  all p [] = true
  all p (x ∷ xs) = p x && all p xs

  unfoldable pub any : (A → Bool) → List A → Bool
  any p [] = false
  any p (x ∷ xs) = p x || any p xs

  pub all-append :
      (p : A → Bool) (xs ys : List A) → all p xs ≡ true → all p ys ≡ true → all p (xs ++ ys) ≡ true
  unfolding all
  all-append p [] ys h k = k
  all-append p (x ∷ xs) ys h k = ground (arith, all-append p xs ys)

  pub all-weaken :
      (p q : A → Bool) (xs : List A)
      → ((a : A) → p a ≡ true → q a ≡ true)
      → all p xs ≡ true
      → all q xs ≡ true
  unfolding all
  all-weaken p q [] k h = refl
  all-weaken p q (x ∷ xs) k h = ground (arith, k x, all-weaken p q xs k)

-- `Elem a l`: `a` stands somewhere in `l`. `All P l`: `P` holds of every element.
module _ {A : Type 0} where
  abbrev pub Elem : A → List A → Type 0
  Elem a [] = ⊥
  Elem a (x ∷ xs) = (a ≡ x) ⊎ Elem a xs

  abbrev pub All : (A → Type 0) → List A → Type 0
  All P [] = Unit
  All P (x ∷ xs) = P x × All P xs

  pub All-append : (P : A → Type 0) (xs ys : List A) → All P xs → All P ys → All P (xs ++ ys)
  All-append P [] ys h k = k
  All-append P (x ∷ xs) ys (p, h) k = (p, All-append P xs ys h k)

  pub All-weaken : (P Q : A → Type 0) (xs : List A) → ((a : A) → P a → Q a) → All P xs → All Q xs
  All-weaken P Q [] w h = tt
  All-weaken P Q (x ∷ xs) w (p, h) = (w x p, All-weaken P Q xs w h)

  pub get_or-Elem : (xs : List A) (i : ℕ) (d : A) → i < length xs → Elem (get_or xs i d) xs
  get_or-Elem [] i d h = absurd (omega arith)
  get_or-Elem (x ∷ xs) zero d h = inl refl
  get_or-Elem (x ∷ xs) (suc i) d h = inr (get_or-Elem xs i d (omega arith))

  pub Elem-All : (P : A → Type 0) (xs : List A) → ((a : A) → Elem a xs → P a) → All P xs
  Elem-All P [] h = tt
  Elem-All P (x ∷ xs) h = (h x (inl refl), Elem-All P xs (λ a m. h a (inr m)))

  pub All-Elem : (P : A → Type 0) (a : A) (xs : List A) → All P xs → Elem a xs → P a
  All-Elem P a [] h m = absurd m
  All-Elem P a (x ∷ xs) h (inl e) = subst P (sym e) h.0
  All-Elem P a (x ∷ xs) h (inr m) = All-Elem P a xs h.1 m

  pub Elem-append_left : (a : A) (xs ys : List A) → Elem a xs → Elem a (xs ++ ys)
  Elem-append_left a [] ys m = absurd m
  Elem-append_left a (x ∷ xs) ys (inl e) = inl e
  Elem-append_left a (x ∷ xs) ys (inr m) = inr (Elem-append_left a xs ys m)

  pub Elem-append_right : (a : A) (xs ys : List A) → Elem a ys → Elem a (xs ++ ys)
  Elem-append_right a [] ys m = m
  Elem-append_right a (x ∷ xs) ys m = inr (Elem-append_right a xs ys m)

  pub Elem-append_iff : (a : A) (xs ys : List A) → Elem a (xs ++ ys) ↔ (Elem a xs ⊎ Elem a ys)
  Elem-append_iff a xs ys = (
    split xs,
    λ h. elim h [ inl m ↦ Elem-append_left a xs ys m | inr m ↦ Elem-append_right a xs ys m ],
  )
    where
      split : (xs : List A) → Elem a (xs ++ ys) → Elem a xs ⊎ Elem a ys
      split [] m = inr m
      split (x ∷ xs) (inl e) = inl (inl e)
      split (x ∷ xs) (inr m) = elim (split xs m) [ inl k ↦ inl (inr k) | inr k ↦ inr k ]

  pub any-Elem : (p : A → Bool) (xs : List A) → any p xs ≡ true → (a : A) × Elem a xs × (p a ≡ true)
  unfolding any
  any-Elem p [] h = cc
  any-Elem p (x ∷ xs) h = elim (Bool-cases (p x)) [
    | inl t ↦ (x, inl refl, t)
    | inr f ↦ let (a, m, t) = any-Elem p xs (ground arith) in (a, inr m, t)
  ]

  pub Elem-any : (p : A → Bool) (a : A) (xs : List A) → Elem a xs → p a ≡ true → any p xs ≡ true
  unfolding any
  Elem-any p a [] m h = absurd m
  Elem-any p a (x ∷ xs) (inl e) h = rw (← e, h)
  Elem-any p a (x ∷ xs) (inr m) h = ground (arith, Elem-any p a xs m h)

module _ {A B : Type 0} where
  pub All-map :
      (P : B → Type 0) (f : A → B) (xs : List A) → All (λ a. P (f a)) xs → All P (map f xs)
  All-map P f [] h = tt
  All-map P f (x ∷ xs) (p, h) = (p, All-map P f xs h)

  pub map-Elem :
      (f : A → B) (b : B) (xs : List A) → Elem b (map f xs) → (a : A) × Elem a xs × (b ≡ f a)
  map-Elem f b [] m = absurd m
  map-Elem f b (x ∷ xs) (inl e) = (x, inl refl, e)
  map-Elem f b (x ∷ xs) (inr m) = let (a, k, e) = map-Elem f b xs m in (a, inr k, e)

  pub Elem-map : (f : A → B) (a : A) (xs : List A) → Elem a xs → Elem (f a) (map f xs)
  Elem-map f a [] m = absurd m
  Elem-map f a (x ∷ xs) (inl e) = inl (ap f e)
  Elem-map f a (x ∷ xs) (inr m) = inr (Elem-map f a xs m)

module _ {A B : Type 0} where
  pub all-map :
      (p : B → Bool) (q : A → Bool) (f : A → B) (xs : List A)
      → ((a : A) → q a ≡ true → p (f a) ≡ true)
      → all q xs ≡ true
      → all p (map f xs) ≡ true
  unfolding all
  all-map p q f [] k h = refl
  all-map p q f (x ∷ xs) k h = ground (arith, k x, all-map p q f xs k)

-- `range(i, i + n)`
abbrev pub range_from : ℕ → ℕ → List ℕ
range_from i zero = []
range_from i (suc n) = i ∷ range_from (suc i) n

pub append-nil_iff : {A : Type 0} (xs ys : List A) → (xs ++ ys ≡ []) ↔ ((xs ≡ []) × (ys ≡ []))
append-nil_iff [] ys = (λ h. (refl, h), λ (_, h). h)
append-nil_iff (x ∷ xs) ys = (λ h. cc, λ (h, _). cc)
