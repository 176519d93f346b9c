-- ===== src/Provider/Scripted.antt =====
-- A provider that reads its draws from a list of numbers, one for each draw of an integer.
use mapfuzz.Base.{ℕ, ◌+◌, ◌-◌, ◌%◌, ◌≤◌, ◌<◌, ◌≡◌, refl, List, [], ◌∷◌, length, arith, pos, ◌==◌}
use mapfuzz.Provider.{Provider, Documented}

unfoldable pub scripted_int : ℕ → ℕ → List ℕ → ℕ × List ℕ
scripted_int lo hi [] = (lo, [])
scripted_int lo hi (x ∷ xs) = (lo + x % (hi - lo + 1), xs)

abbrev pub scripted : Provider (List ℕ)
scripted = record {
  int_in_range = scripted_int;
  signed_in_range = λ lo hi s. (pos (scripted_int 0 hi s).0, (scripted_int 0 hi s).1);
  consume_int = λ n s. (pos (scripted_int 0 255 s).0, (scripted_int 0 255 s).1);
  consume_float = λ s. ([], s);
  consume_bool = λ s. ((scripted_int 0 1 s).0 == 1, (scripted_int 0 1 s).1);
  consume_unicode = λ n s. ([], s);
  consume_bytes = λ n s. ([], s);
}

above : (lo hi : ℕ) (s : List ℕ) → lo ≤ hi → lo ≤ (scripted_int lo hi s).0
unfolding scripted_int
above lo hi [] h = omega arith
above lo hi (x ∷ xs) h = omega arith

below : (lo hi : ℕ) (s : List ℕ) → lo ≤ hi → (scripted_int lo hi s).0 ≤ hi
unfolding scripted_int
below lo hi [] h = omega arith
below lo hi (x ∷ xs) h = let small : x % (hi - lo + 1) < hi - lo + 1 = grind arith in omega arith

spends : (lo hi : ℕ) (s : List ℕ) → length (scripted_int lo hi s).1 ≤ length s
unfolding scripted_int
spends lo hi [] = omega arith
spends lo hi (x ∷ xs) = omega arith

uses : (lo hi : ℕ) (s : List ℕ) → 0 < length s → length (scripted_int lo hi s).1 < length s
unfolding scripted_int
uses lo hi [] h = absurd (omega arith)
uses lo hi (x ∷ xs) h = omega arith

used_up : (lo hi : ℕ) (s : List ℕ) → length s ≡ 0 → (scripted_int lo hi s).0 ≡ lo
unfolding scripted_int
used_up lo hi [] h = refl
used_up lo hi (x ∷ xs) h = absurd (omega arith)

pub scripted-Documented : Documented scripted length
scripted-Documented = record {
  above = above;
  below = below;
  used_up = λ lo hi s _ e. used_up lo hi s e;
  uses = λ lo hi s _ more. uses lo hi s more;
  int_spends = spends;
  signed_spends = λ lo hi s. spends 0 hi s;
  any_int_spends = λ n s. spends 0 255 s;
  float_spends = λ s. omega arith;
  bool_spends = λ s. spends 0 1 s;
  unicode_spends = λ n s. omega arith;
  bytes_spend = λ n s. omega arith;
}
