-- ===== src/Evidence/Render/Order.antt =====
-- `render` does not depend on the order of the claims.
use mathlib.Core.List.{Permᴰ}
use mathlib.Core.List.Permᴰ
use mapfuzz.Base.{
  ℕ, ◌≡◌, refl, sym, ap, ◌∙◌, Text, codes, text_eq, Option, some, List, [], ◌∷◌, map, inl, inr,
  Elem, All, All-weaken, join, ◌++◌, All-Elem, Elem-All, Bool-cases, length,
}
use mapfuzz.Evidence.{Value, text, Claim, get}
use mapfuzz.Evidence.Valid.{ValidClaim, ValidBase}
use mapfuzz.Evidence.Render.{
  ◌>>=◌, Attempt, item, found, hash_key, grouped, of_kind, section_lines, sections, render, order,
  preamble,
}
use mapfuzz.Evidence.Render.Groups.{Named, Kinded, of_kind_iff}
use mapfuzz.Evidence.Render.Complete.{Listed-Kinded, HasIds-Named}
use mapfuzz.Evidence.Render.Sorted.{Unlike, HasIds-Unlike, sorted_by_id-perm}

abbrev kind_text : Option Value → Text
kind_text (some (text t)) = t
kind_text _ = []

abbrev tag : Claim → Text × Claim
tag c = (kind_text (get (codes "kind") c), c)

-- the claims of a kind
abbrev pick : Text → List Claim → List Claim
pick k cs = of_kind k (map tag cs)

grouped-tag : (cs : List Claim) → All Kinded cs → grouped cs ≡ inr (map tag cs)
unfolding grouped item found hash_key ◌>>=◌
grouped-tag [] h = refl
grouped-tag (c ∷ cs) ((t, e), h) = rw (e, grouped-tag cs h) refl

pick-perm : (k : Text) {cs ds : List Claim} → Permᴰ cs ds → Permᴰ (pick k cs) (pick k ds)
unfolding of_kind
pick-perm k Permᴰ.nil = Permᴰ.nil
pick-perm k (Permᴰ.cons {a} {b} e p) = rw (← e) (elim (Bool-cases (text_eq (tag a).0 k)) [
  | inl t ↦ rw t (Permᴰ.cons refl (pick-perm k p))
  | inr f ↦ rw f (pick-perm k p)
])
pick-perm k (Permᴰ.swap {a} {b} {a'} {b'} {l} e f) =
    rw (← e, ← f)
      (elim (Bool-cases (text_eq (tag a).0 k)) [
        | inl t ↦ elim (Bool-cases (text_eq (tag b).0 k)) [
          | inl u ↦ rw (t, u) (Permᴰ.swap refl refl)
          | inr g ↦ rw (t, g) (Permᴰ.refl _)
        ]
        | inr h ↦ elim (Bool-cases (text_eq (tag b).0 k)) [
          | inl u ↦ rw (h, u) (Permᴰ.refl _)
          | inr g ↦ rw (h, g) (Permᴰ.refl _)
        ]
      ])
pick-perm k (Permᴰ.trans p q) = Permᴰ.trans (pick-perm k p) (pick-perm k q)

Elem-perm : (x : Claim) {cs ds : List Claim} → Permᴰ cs ds → Elem x ds → Elem x cs
Elem-perm x Permᴰ.nil m = m
Elem-perm x (Permᴰ.cons e p) (inl q) = inl (q ∙ sym e)
Elem-perm x (Permᴰ.cons e p) (inr m) = inr (Elem-perm x p m)
Elem-perm x (Permᴰ.swap e f) (inl q) = inr (inl (q ∙ sym f))
Elem-perm x (Permᴰ.swap e f) (inr (inl q)) = inl (q ∙ sym e)
Elem-perm x (Permᴰ.swap e f) (inr (inr m)) = inr (inr m)
Elem-perm x (Permᴰ.trans p q) m = Elem-perm x p (Elem-perm x q m)

perm_length : {cs ds : List Claim} → Permᴰ cs ds → length cs ≡ length ds
perm_length Permᴰ.nil = refl
perm_length (Permᴰ.cons e p) = rw (perm_length p) refl
perm_length (Permᴰ.swap e f) = refl
perm_length (Permᴰ.trans p q) = perm_length p ∙ perm_length q

All-perm : (P : Claim → Type 0) {cs ds : List Claim} → Permᴰ cs ds → All P cs → All P ds
All-perm P {cs} {ds} p h = Elem-All P ds (λ c m. All-Elem P c cs h (Elem-perm c p m))

pick-Elem : (k : Text) (c : Claim) (cs : List Claim) → Elem c (pick k cs) → Elem c cs
pick-Elem k c cs m = untag cs ((of_kind_iff k c (map tag cs)).0 m)
  where
    untag : (cs : List Claim) → Elem (k, c) (map tag cs) → Elem c cs
    untag [] n = n
    untag (d ∷ ds) (inl e) = inl (ap (λ (x : Text × Claim). x.1) e)
    untag (d ∷ ds) (inr n) = inr (untag ds n)

All-pick : (P : Claim → Type 0) (k : Text) (cs : List Claim) → All P cs → All P (pick k cs)
All-pick P k cs h = Elem-All P (pick k cs) (λ c m. All-Elem P c cs h (pick-Elem k c cs m))

pick-Unlike : (k : Text) (cs : List Claim) → Unlike cs → Unlike (pick k cs)
unfolding of_kind
pick-Unlike k [] u = tt
pick-Unlike k (c ∷ cs) (h, u) = elim (Bool-cases (text_eq (tag c).0 k)) [
  | inl t ↦ rw t ((λ d m. h d (pick-Elem k d cs m)), pick-Unlike k cs u)
  | inr f ↦ rw f (pick-Unlike k cs u)
]

module _ (shown : List Text → Text) where
  section_lines-perm :
      (title : Text) (cs ds : List Claim)
      → Permᴰ cs ds
      → All Named cs
      → Unlike cs
      → section_lines shown title cs ≡ section_lines shown title ds
  unfolding section_lines
  section_lines-perm title [] [] p n u = refl
  section_lines-perm title [] (d ∷ ds) p n u = absurd (Elem-perm d p (inl refl))
  section_lines-perm title (c ∷ cs) [] p n u = absurd (Elem-perm c (Permᴰ.symm p) (inl refl))
  section_lines-perm title (c ∷ cs) (d ∷ ds) p n u =
      rw (sorted_by_id-perm p n (All-perm Named p n) u) refl

  sections-perm :
      (ks : List (Text × Text)) {cs ds : List Claim}
      → Permᴰ cs ds
      → All Named cs
      → Unlike cs
      → sections shown (map tag cs) ks ≡ sections shown (map tag ds) ks
  unfolding sections
  sections-perm [] p n u = refl
  sections-perm ((kind, title) ∷ ks) {cs} {ds} p n u =
      rw
        (
          section_lines-perm title (pick kind cs) (pick kind ds) (pick-perm kind p)
              (All-pick Named kind cs n) (pick-Unlike kind cs u),
          sections-perm ks p n u,
        )
        refl

  -- what follows the grouping
  abbrev written_from : List Claim → Attempt (Text × ℕ)
  written_from cs = sections shown (map tag cs) order >>= λ ls.
      inr (join (codes "\n") (preamble (length cs) ++ ls), length cs)

  render-tag : (cs : List Claim) → All Kinded cs → render shown cs ≡ written_from cs
  unfolding render ◌>>=◌
  render-tag cs h = rw (grouped-tag cs h) refl

  ValidBase-Kinded : (cs : List Claim) → ValidBase shown cs → All Kinded cs
  ValidBase-Kinded cs b =
      All-weaken (ValidClaim shown b.ids) Kinded cs (λ c v. Listed-Kinded c v.kind) b.valid

  -- What is rendered of a valid base does not depend on the order of its claims.
  pub render-perm :
      (cs ds : List Claim) → Permᴰ cs ds → ValidBase shown cs → render shown cs ≡ render shown ds
  render-perm cs ds p b =
      let kinded = ValidBase-Kinded cs b in
      let same =
        sections-perm order p (HasIds-Named cs b.ids b.named)
          (HasIds-Unlike cs b.ids b.named b.unique) in
      let middle : written_from cs ≡ written_from ds = rw (same, perm_length p) refl in
      render-tag cs kinded ∙ middle ∙ sym (render-tag ds (All-perm Kinded p kinded))
