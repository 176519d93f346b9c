-- ===== src/Triage/Parsers/Kinds.antt =====
-- The kinds of faults that a report names, read off it without a pattern.
use mapfuzz.Base.{
  ℕ, Text, codes, Bool, true, false, ◌≡◌, refl, subst, some, List, [], ◌∷◌, ◌++◌, arith, all, lower,
  lstrip, is_space, drop, starts_with, if◌then◌else◌, Elem, inl, inr,
}
use mapfuzz.Regex.{is_empty}
use mapfuzz.Regex.Greedy.{Ends}
use mapfuzz.Triage.Signature.{Signature}
use mapfuzz.Triage.Parsers.{is_kind_char, parse_asan}
use mapfuzz.Triage.Parsers.Recognised.{asan_mark}
use mapfuzz.Triage.Parsers.Asan.{Names, parse_asan-Names, kind_no_space}

-- the characters of a class at the front of a text
unfoldable pub leading : (ℕ → Bool) → Text → Text
leading f [] = []
leading f (c ∷ s) = let rest = leading f s in if f c then c ∷ rest else []

unfoldable pub kind_behind : Text → Text
unfolding leading
kind_behind s = leading is_kind_char (lstrip (drop 17 s))

unfoldable pub noted : Text → List Text → List Text
noted [] ks = ks
noted (c ∷ k) ks = (c ∷ k) ∷ ks

-- The kinds behind the marks of a text, in order.
unfoldable pub named_kinds : Text → List Text
unfolding kind_behind noted
named_kinds [] = []
named_kinds (c ∷ s) =
    let rest = named_kinds s in
    if starts_with (c ∷ s) asan_mark then noted (kind_behind (c ∷ s)) rest else rest

leading-maximal : (f : ℕ → Bool) (u b : Text) → all f u ≡ true → Ends f b → leading f (u ++ b) ≡ u
unfolding leading all
leading-maximal f [] [] h e = refl
leading-maximal f [] (c ∷ b) h e = rw e refl
leading-maximal f (c ∷ u) b h e = ground (arith, leading-maximal f u b (ground arith) e)

lstrip-gap :
    (gap : Text) (c : ℕ) (t : Text)
    → all is_space gap ≡ true
    → is_space c ≡ false
    → lstrip (gap ++ c ∷ t) ≡ c ∷ t
unfolding lstrip all
lstrip-gap [] c t h n = rw n refl
lstrip-gap (d ∷ gap) c t h n = ground (arith, lstrip-gap gap c t (ground arith) n)

noted-Elem : (j k : Text) (ks : List Text) → Elem k ks → Elem k (noted j ks)
unfolding noted
noted-Elem [] k ks m = m
noted-Elem (c ∷ j) k ks m = inr m

named_kinds-later : (c : ℕ) (s k : Text) → Elem k (named_kinds s) → Elem k (named_kinds (c ∷ s))
unfolding named_kinds
named_kinds-later c s k m = later (starts_with (c ∷ s) asan_mark)
  where
    later :
        (b : Bool)
        → Elem k (if b then noted (kind_behind (c ∷ s)) (named_kinds s) else named_kinds s)
    later true = noted-Elem (kind_behind (c ∷ s)) k (named_kinds s) m
    later false = m

named_kinds-here :
    (gap : Text) (c : ℕ) (k after : Text)
    → all is_space gap ≡ true
    → all is_kind_char (c ∷ k) ≡ true
    → Ends is_kind_char after
    → Elem (c ∷ k) (named_kinds (asan_mark ++ (gap ++ ((c ∷ k) ++ after))))
unfolding named_kinds starts_with kind_behind
named_kinds-here gap c k after h a e =
    let solid : is_space c ≡ false = kind_no_space c (unfold all in ground arith) in
    rw (lstrip-gap gap c (k ++ after) h solid, leading-maximal is_kind_char (c ∷ k) after a e)
      (unfold noted in inl refl)

named_kinds-behind :
    (before s k : Text) → Elem k (named_kinds s) → Elem k (named_kinds (before ++ s))
named_kinds-behind [] s k m = m
named_kinds-behind (c ∷ before) s k m =
    named_kinds-later c (before ++ s) k (named_kinds-behind before s k m)

Names-named_kinds : (text k : Text) → Names text k → Elem k (named_kinds text)
Names-named_kinds text [] n = absurd (clash n.not_empty)
  where
    clash : is_empty {A = ℕ} [] ≡ false → ⊥
    clash h = unfold is_empty in cc
Names-named_kinds text (c ∷ k) n =
    subst (λ t. Elem (c ∷ k) (named_kinds t)) n.splits
      (named_kinds-behind n.before _ (c ∷ k)
        (named_kinds-here n.gap c k n.after n.blank n.kind n.maximal))

-- The fault class that is parsed of a report of AddressSanitizer is `asan-` and, in small letters, one
-- of the kinds that the report names.
pub parse_asan-named_kinds :
    (text : Text) (sig : Signature)
    → parse_asan text ≡ some sig
    → (k : Text) × Elem k (named_kinds text) × (sig.fault_class ≡ codes "asan-" ++ lower k)
parse_asan-named_kinds text sig h =
    let (k, n, e) = parse_asan-Names text sig h in (k, Names-named_kinds text k n, e)
