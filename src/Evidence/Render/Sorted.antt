-- ===== src/Evidence/Render/Sorted.antt =====
-- The order by id does not depend on the order in the file.
use mathlib.Core.List.{Permᴰ, Pairwise, Mem, mem-cons, not-mem-nil}
use mathlib.Core.Logic.Or
use mapfuzz.Base.{
  suc, ◌≤◌, ◌≡◌, ◌≢◌, refl, sym, ap, ◌∙◌, subst, Text, codes, text_eq_refl, true, Option, none,
  some, List, [], ◌∷◌, map, inl, inr, Elem, All, arith,
}
use mapfuzz.Base.Sorting.{sort_by-permute, Apart, text_lt_total}
use mapfuzz.Evidence.{Value, text, Claim, get, occurrences}
use mapfuzz.Evidence.Valid.{HasIds}
use mapfuzz.Evidence.Render.{
  ◌>>=◌, item, found, value_lt, id_lt, all_text, keyed, ordered, sorted_by_id,
}
use mapfuzz.Evidence.Render.Groups.{Named}
use mapfuzz.Evidence.Render.Ids.{id_lt-Strict}

pub value_or : Option Value → Value
value_or (some v) = v
value_or none = text []

abbrev pub key_of : Claim → Value × Claim
key_of c = (value_or (get (codes "id") c), c)

keyed-key_of :
    (cs : List Claim)
    → All Named cs
    → (keyed cs ≡ inr (map key_of cs)) × (all_text (map key_of cs) ≡ true)
unfolding keyed item found ◌>>=◌ all_text value_or
keyed-key_of [] h = (refl, refl)
keyed-key_of (c ∷ cs) ((t, e), h) = let (k, a) = keyed-key_of cs h in rw (e, k) (refl, a)

map-perm :
    {A B : Type 0} (f : A → B) {as_ bs : List A} → Permᴰ as_ bs → Permᴰ (map f as_) (map f bs)
map-perm f Permᴰ.nil = Permᴰ.nil
map-perm f (Permᴰ.cons e p) = Permᴰ.cons (ap f e) (map-perm f p)
map-perm f (Permᴰ.swap e g) = Permᴰ.swap (ap f e) (ap f g)
map-perm f (Permᴰ.trans p q) = Permᴰ.trans (map-perm f p) (map-perm f q)

-- no two claims have one id
abbrev pub Unlike : List Claim → Type 0
Unlike [] = Unit
Unlike (c ∷ cs) =
    ((d : Claim) → Elem d cs → Apart id_lt id_lt-Strict (key_of c) (key_of d)) × Unlike cs

All-Mem :
    {A : Type 0} (P : A → Type 0)
    → ((a : A) → IsProp (P a))
    → (a : A) (xs : List A) → All P xs
    → Mem a xs
    → P a
All-Mem P prop a [] h m = absurd (not-mem-nil m)
All-Mem P prop a (x ∷ xs) (p, h) m =
    Or.elim (prop a) (mem-cons.0 m) (λ e. subst P (sym e) p) (All-Mem P prop a xs h)

All-key_of :
    (P : Value × Claim → Type 0) (cs : List Claim)
    → ((d : Claim) → Elem d cs → P (key_of d))
    → All P (map key_of cs)
All-key_of P [] h = tt
All-key_of P (c ∷ cs) h = (h c (inl refl), All-key_of P cs (λ d m. h d (inr m)))

Unlike-Pairwise :
    (cs : List Claim) → Unlike cs → Pairwise (Apart id_lt id_lt-Strict) (map key_of cs)
Unlike-Pairwise [] h = Pairwise.nil
Unlike-Pairwise (c ∷ cs) (h, u) =
    Pairwise.cons
      (λ x m.
        All-Mem (Apart id_lt id_lt-Strict (key_of c)) (λ a. hlevel) x (map key_of cs)
          (All-key_of _ cs h) m)
      (Unlike-Pairwise cs u)

pub sorted_by_id-perm :
    {cs ds : List Claim}
    → Permᴰ cs ds
    → All Named cs
    → All Named ds
    → Unlike cs
    → sorted_by_id cs ≡ sorted_by_id ds
unfolding sorted_by_id ordered ◌>>=◌
sorted_by_id-perm {cs} {ds} p n m u =
    let (k, t) = keyed-key_of cs n in
    let (k', t') = keyed-key_of ds m in
    rw (k, t, k', t', sort_by-permute id_lt id_lt-Strict (map-perm key_of p) (Unlike-Pairwise cs u))
      refl

-- claims with ids of their own
id_in :
    (cs : List Claim) (is : List Text)
    → HasIds cs is
    → (d : Claim) → Elem d cs
    → (j : Text) × (get (codes "id") d ≡ some (text j)) × (1 ≤ occurrences j is)
unfolding occurrences
id_in [] is h d m = absurd m
id_in (c ∷ cs) [] h d m = absurd h
id_in (c ∷ cs) (i ∷ is) (e, h) d (inl q) =
    (i, ap (get (codes "id")) q ∙ e, rw (text_eq_refl i) (omega arith))
id_in (c ∷ cs) (i ∷ is) (e, h) d (inr m) =
    let (j, f, n) = id_in cs is h d m in (j, f, ground (arith, n))

pub HasIds-Unlike :
    (cs : List Claim) (is : List Text)
    → HasIds cs is
    → ((i : Text) → occurrences i is ≤ 1)
    → Unlike cs
unfolding occurrences value_or value_lt
HasIds-Unlike [] is h u = tt
HasIds-Unlike (c ∷ cs) [] h u = absurd h
HasIds-Unlike (c ∷ cs) (i ∷ is) (e, h) u = (
  (λ d m. let (j, f, n) = id_in cs is h d m in rw (e, f) (text_lt_total i j (other j n))),
  HasIds-Unlike cs is h (λ k. ground (arith, u k)),
)
  where
    other : (j : Text) → 1 ≤ occurrences j is → i ≢ j
    other j n q =
        let twice : suc (occurrences i is) ≤ 1 = rw (text_eq_refl i) at (u i) in
        let once : 1 ≤ occurrences i is = subst (λ k. 1 ≤ occurrences k is) (sym q) n in
        omega (arith, twice, once)
