-- ===== src/Targets/Differential/Selftest.antt =====
-- `_selftest` of the differential harness: both tokenizers on fifteen texts.
use mapfuzz.Base.{
  ℕ, suc, ◌≡◌, refl, Text, codes, false, List, [], ◌∷◌, ◌++◌, replicate, ◌⊎◌, inl, inr, ◌↔◌,
  if◌then◌else◌, All, not, text_eq, text_eq_refl, text_eq→eq, arith,
}
use mapfuzz.Exceptions.{ExcClass}
use mapfuzz.Targets.Differential.{Encoding, ids, exc, differ, encoded, both, encode_both}
use mapfuzz.Targets.Differential.Divergence.{Caught, Agree}

abbrev pub probes : List Text
probes =
    codes "hello world"
    ∷ codes "playing"
    ∷ codes "unable"
    ∷ codes "co##operate"
    ∷ codes "un-re-pre"
    ∷ codes "hello  world"
    ∷ (0x200b ∷ [])
    ∷ codes "  "
    ∷ codes "test."
    ∷ codes "foo!bar?"
    ∷ codes "###"
    ∷ (codes "hello" ++ 0 ∷ codes "world")
    ∷ (0xff21 ∷ 0xff22 ∷ [])
    ∷ (codes "re" ++ 0xfb01 ∷ codes "ne")
    ∷ replicate 200 b'a'
    ∷ []

-- one round of the loop, on the count of what follows
unfoldable pub counted : ExcClass ⊎ (Encoding × Encoding) → ExcClass ⊎ ℕ → ExcClass ⊎ ℕ
counted (inl e) rest = inl e
counted (inr (s, f)) (inl e) = inl e
counted (inr (s, f)) (inr n) = inr (if differ s f then suc n else n)

encoded-differ :
    (s f : ExcClass ⊎ List ℕ)
    → Caught s
    → Caught f
    → (x : Encoding × Encoding) × (both (encoded s) (encoded f) ≡ inr x)
      × ((differ x.0 x.1 ≡ false) ↔ Agree s f)
unfolding both encoded differ
encoded-differ (inl e) (inl f) c d = rw (c, d) ((exc, exc), refl, (λ _. tt, λ _. refl))
encoded-differ (inl e) (inr b) c d = rw c ((exc, ids b), refl, (λ h. cc, λ h. absurd h))
encoded-differ (inr a) (inl f) c d = rw d ((ids a, exc), refl, (λ h. cc, λ h. absurd h))
encoded-differ (inr a) (inr b) c d =
    ((ids a, ids b), refl, (same a b, λ e. rw (e, text_eq_refl b) refl))
  where
    same : (a b : List ℕ) → not (text_eq a b) ≡ false → a ≡ b
    same a b h = text_eq→eq a b (ground arith)

module _ (slow fast : Text → ExcClass ⊎ List ℕ) where
  unfoldable pub divergences : List Text → ExcClass ⊎ ℕ
  unfolding counted
  divergences [] = inr 0
  divergences (p ∷ ps) = counted (encode_both slow fast p) (divergences ps)

  -- `_selftest`: the count that is printed, with the status, which is 0 whatever the count
  unfoldable pub differential_selftest : ExcClass ⊎ (ℕ × ℕ)
  unfolding divergences
  differential_selftest = counted_status (divergences probes)
    where
      counted_status : ExcClass ⊎ ℕ → ExcClass ⊎ (ℕ × ℕ)
      counted_status (inl e) = inl e
      counted_status (inr n) = inr (n, 0)

  -- the tokenizers raise nothing outside `Exception` on the text, and agree on it
  abbrev pub BothCaught : Text → Type 0
  BothCaught p = Caught (slow p) × Caught (fast p)

  abbrev pub AgreeOn : Text → Type 0
  AgreeOn p = Agree (slow p) (fast p)

  -- No divergence is counted exactly when the tokenizers agree on every text.
  pub divergences_iff :
      (ps : List Text)
      → All BothCaught ps
      → (n : ℕ) × (divergences ps ≡ inr n) × ((n ≡ 0) ↔ All AgreeOn ps)
  unfolding divergences counted
  divergences_iff [] h = (0, refl, (λ _. tt, λ _. refl))
  divergences_iff (p ∷ ps) ((s, f), h) =
      let (x, e, same) = encoded-differ (slow p) (fast p) s f in
      let (n, e', rest) = divergences_iff ps h in
      let made : encode_both slow fast p ≡ inr x = unfold encode_both in e in
      (
        if differ x.0 x.1 then suc n else n,
        rw (made, e') refl,
        (to x n same.0 rest.0, from x n same.1 rest.1),
      )
    where
      to :
          (x : Encoding × Encoding) (n : ℕ)
          → (differ x.0 x.1 ≡ false → AgreeOn p)
          → (n ≡ 0 → All AgreeOn ps)
          → ◌≡◌ {A = ℕ} (if differ x.0 x.1 then suc n else n) 0
          → All AgreeOn (p ∷ ps)
      to x n a b z = (a (ground arith), b (ground arith))

      from :
          (x : Encoding × Encoding) (n : ℕ)
          → (AgreeOn p → differ x.0 x.1 ≡ false)
          → (All AgreeOn ps → n ≡ 0)
          → All AgreeOn (p ∷ ps)
          → ◌≡◌ {A = ℕ} (if differ x.0 x.1 then suc n else n) 0
      from x n a b (q, qs) = rw (a q, b qs) refl
