-- ===== src/Provider/Draws.antt =====
-- What a generator is sure to make.
use mapfuzz.Base.{ℕ, zero, suc, ◌≤◌, ◌≡◌, refl, Option, some, [], ◌∷◌, length, arith, All}
use mapfuzz.Provider.{Gen, and_then, many}

module _ {S : Type 0} where
  -- The generator has enough fuel, and what it makes fulfils `P`, with the state that is left.
  abbrev pub Makes : {A : Type 0} → Option (A × S) → (A → S → Type 0) → Type 0
  Makes {A} o P = (a : A) × (s : S) × (o ≡ some (a, s)) × P a s

  pub bind-Makes :
      {A B : Type 0} (P : A → S → Type 0) (Q : B → S → Type 0) (o : Option (A × S))
      (f : A → Gen S B)
      → Makes o P
      → ((a : A) (s : S) → P a s → Makes (f a s) Q)
      → Makes (and_then o f) Q
  bind-Makes P Q o f (a, s, e, p) next = rw e (next a s p)

  -- A generator that needs no more than the data that is left, and gives none back, makes a list.
  pub many-Makes :
      {A : Type 0} (remaining : S → ℕ) (P : A → Type 0) (m : Gen S A) (k : ℕ)
      → ((s : S) → remaining s ≤ k → Makes (m s) (λ a t. P a × (remaining t ≤ remaining s)))
      → (n : ℕ) (s : S) → remaining s ≤ k
      → Makes (many n m s) (λ as_ t. All P as_ × (length as_ ≡ n) × (remaining t ≤ remaining s))
  unfolding many
  many-Makes remaining P m k one zero s h = ([], s, refl, (tt, refl, omega arith))
  many-Makes remaining P m k one (suc n) s h =
      let (a, t, e, (p, le)) = one s h in
      let (rest, u, e', (ps, len, le')) = many-Makes remaining P m k one n t (omega arith) in
      (a ∷ rest, u, rw (e, e') refl, ((p, ps), omega (arith, len), omega arith))
