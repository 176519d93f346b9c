-- ===== src/Provider.antt =====
-- atheris' FuzzedDataProvider, which turns the fuzzer's data into values: a parameter of the
-- generators, given by its methods on a state. What the generators rely on is `Documented`.
pub mod Draws
pub mod Scripted
use mapfuzz.Base.{
  ℕ, zero, suc, ◌+◌, ◌≤◌, ◌<◌, ◌≡◌, Text, Bool, Option, none, some, List, [], ◌∷◌, length, ℤ,
}

pub record Provider (S : Type 0) : Type 0 where
  -- `ConsumeIntInRange` with bounds that are not negative, and with a lower bound that is `-lo`
  pub int_in_range : ℕ → ℕ → S → ℕ × S
  pub signed_in_range : ℕ → ℕ → S → ℤ × S
  -- `ConsumeInt`, `ConsumeFloat` as it is written, `ConsumeBool`
  pub consume_int : ℕ → S → ℤ × S
  pub consume_float : S → Text × S
  pub consume_bool : S → Bool × S
  -- `ConsumeUnicodeNoSurrogates` and `ConsumeBytes` of at most so many
  pub consume_unicode : ℕ → S → Text × S
  pub consume_bytes : ℕ → S → List ℕ × S

-- A number is drawn from its range, and is the least one when the data is used up; while there is
-- data, a draw from more than one number uses some. Nothing gives data back.
pub record Documented {S : Type 0} (fdp : Provider S) (remaining : S → ℕ) : Type 0 where
  pub above : (lo hi : ℕ) (s : S) → lo ≤ hi → lo ≤ (fdp.int_in_range lo hi s).0
  pub below : (lo hi : ℕ) (s : S) → lo ≤ hi → (fdp.int_in_range lo hi s).0 ≤ hi
  pub used_up : (lo hi : ℕ) (s : S) → lo ≤ hi → remaining s ≡ 0 → (fdp.int_in_range lo hi s).0 ≡ lo
  pub uses :
      (lo hi : ℕ) (s : S)
      → lo < hi
      → 0 < remaining s
      → remaining (fdp.int_in_range lo hi s).1 < remaining s
  pub int_spends : (lo hi : ℕ) (s : S) → remaining (fdp.int_in_range lo hi s).1 ≤ remaining s
  pub signed_spends : (lo hi : ℕ) (s : S) → remaining (fdp.signed_in_range lo hi s).1 ≤ remaining s
  pub any_int_spends : (n : ℕ) (s : S) → remaining (fdp.consume_int n s).1 ≤ remaining s
  pub float_spends : (s : S) → remaining (fdp.consume_float s).1 ≤ remaining s
  pub bool_spends : (s : S) → remaining (fdp.consume_bool s).1 ≤ remaining s
  pub unicode_spends : (n : ℕ) (s : S) → remaining (fdp.consume_unicode n s).1 ≤ remaining s
  pub bytes_spend : (n : ℕ) (s : S) → remaining (fdp.consume_bytes n s).1 ≤ remaining s

-- A generator; none stands for a recursion that the fuel was not enough for.
abbrev pub Gen : Type 0 → Type 0 → Type 0
Gen S A = S → Option (A × S)

module _ {S : Type 0} where
  abbrev pub pure : {A : Type 0} → A → Gen S A
  pure a s = some (a, s)

  abbrev pub draw : {A : Type 0} → (S → A × S) → Gen S A
  draw f s = some (f s)

  abbrev pub and_then : {A B : Type 0} → Option (A × S) → (A → Gen S B) → Option (B × S)
  and_then none f = none
  and_then (some (a, s)) f = f a s

  infixl 5 ◌>>=◌
  abbrev pub ◌>>=◌ : {A B : Type 0} → Gen S A → (A → Gen S B) → Gen S B
  ◌>>=◌ m f s = and_then (m s) f

-- `[… for _ in range(n)]`
unfoldable pub many : {S A : Type 0} → ℕ → Gen S A → Gen S (List A)
many zero m = pure []
many (suc n) m = m >>= λ a. many n m >>= λ rest. pure (a ∷ rest)
