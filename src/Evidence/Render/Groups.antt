-- ===== src/Evidence/Render/Groups.antt =====
-- The claims of one kind, and their order by id.
use mapfuzz.Base.{
  ◌≡◌, refl, sym, ap, ◌∙◌, subst, Text, codes, text_eq, text_eq_iff, true, false, false≢true,
  Option, some, List, [], ◌∷◌, map, ◌↔◌, ◌⊎◌, inl, inr, Elem, All, Elem-map, map-Elem, Bool-cases,
}
use mapfuzz.Base.Sorting.{sort_by, sort_by-Elem}
use mapfuzz.Evidence.{Value, text, Claim, get}
use mapfuzz.Evidence.Render.{
  ◌>>=◌, item, found, hash_key, id_lt, all_text, keyed, ordered, sorted_by_id, grouped, of_kind,
}
use mapfuzz.Evidence.Render.Blocks.{IsText}

abbrev pub Named : Claim → Type 0
Named c = IsText (get (codes "id") c)

keyed-Named :
    (cs : List Claim)
    → All Named cs
    → (ks : List (Value × Claim)) × (keyed cs ≡ inr ks)
      × (all_text ks ≡ true)
      × (map (λ a. a.1) ks ≡ cs)
unfolding keyed item found ◌>>=◌ all_text
keyed-Named [] h = ([], refl, refl, refl)
keyed-Named (c ∷ cs) ((t, e), h) =
    let (ks, f, plain, back) = keyed-Named cs h in
    ((text t, c) ∷ ks, rw (e, f) refl, plain, ap (λ l. c ∷ l) back)

-- Claims with texts as their ids are sorted: what comes are the claims.
pub sorted_by_id-Named :
    (cs : List Claim)
    → All Named cs
    → (ss : List Claim) × (sorted_by_id cs ≡ inr ss) × ((c : Claim) → Elem c ss ↔ Elem c cs)
unfolding sorted_by_id ordered ◌>>=◌
sorted_by_id-Named cs h =
    let (ks, e, t, back) = keyed-Named cs h in
    (map (λ a. a.1) (sort_by id_lt ks), rw (e, t) refl, λ c. (to ks back c, from ks back c))
  where
    to :
        (ks : List (Value × Claim))
        → map (λ a. a.1) ks ≡ cs
        → (c : Claim) → Elem c (map (λ a. a.1) (sort_by id_lt ks))
        → Elem c cs
    to ks back c m =
        let (a, k, e) = map-Elem (λ (a : Value × Claim). a.1) c (sort_by id_lt ks) m in
        subst (λ d. Elem d cs) (sym e)
          (subst (Elem a.1) back
            (Elem-map (λ (a : Value × Claim). a.1) a ks ((sort_by-Elem id_lt a ks).0 k)))

    from :
        (ks : List (Value × Claim))
        → map (λ a. a.1) ks ≡ cs
        → (c : Claim) → Elem c cs
        → Elem c (map (λ a. a.1) (sort_by id_lt ks))
    from ks back c m =
        let (a, k, e) = map-Elem (λ (a : Value × Claim). a.1) c ks (subst (Elem c) (sym back) m) in
        subst (λ d. Elem d (map (λ a. a.1) (sort_by id_lt ks))) (sym e)
          (Elem-map (λ (a : Value × Claim). a.1) a (sort_by id_lt ks)
            ((sort_by-Elem id_lt a ks).1 k))

abbrev pub Kinded : Claim → Type 0
Kinded c = IsText (get (codes "kind") c)

abbrev pub HasKind : Text → Claim → Type 0
HasKind k c = get (codes "kind") c ≡ some (text k)

-- the claims stand in `by_kind` under their kinds
pub grouped-Kinded :
    (cs : List Claim)
    → All Kinded cs
    → (gs : List (Text × Claim)) × (grouped cs ≡ inr gs)
      × ((k : Text) (c : Claim) → Elem (k, c) gs → Elem c cs)
      × ((k : Text) (c : Claim) → Elem c cs → HasKind k c → Elem (k, c) gs)
unfolding grouped item found hash_key ◌>>=◌
grouped-Kinded [] h = ([], refl, λ k c m. m, λ k c m e. m)
grouped-Kinded (c ∷ cs) ((t, e), h) =
    let (gs, f, to, from) = grouped-Kinded cs h in
    ((t, c) ∷ gs, rw (e, f) refl, older gs to, newer gs from)
  where
    older :
        (gs : List (Text × Claim))
        → ((k : Text) (d : Claim) → Elem (k, d) gs → Elem d cs)
        → (k : Text) (d : Claim) → Elem (k, d) ((t, c) ∷ gs)
        → Elem d (c ∷ cs)
    older gs to k d (inl q) = inl (ap (λ (x : Text × Claim). x.1) q)
    older gs to k d (inr m) = inr (to k d m)

    same_kind : (k : Text) (d : Claim) → d ≡ c → HasKind k d → k ≡ t
    same_kind k d q e' = inj (sym e' ∙ ap (get (codes "kind")) q ∙ e)
      where
        inj : ◌≡◌ {A = Option Value} (some (text k)) (some (text t)) → k ≡ t
        inj x = cc

    newer :
        (gs : List (Text × Claim))
        → ((k : Text) (d : Claim) → Elem d cs → HasKind k d → Elem (k, d) gs)
        → (k : Text) (d : Claim) → Elem d (c ∷ cs)
        → HasKind k d
        → Elem (k, d) ((t, c) ∷ gs)
    newer gs from k d (inl q) e' = inl (λ i. (same_kind k d q e' i, q i))
    newer gs from k d (inr m) e' = inr (from k d m e')

pub of_kind_iff :
    (k : Text) (c : Claim) (gs : List (Text × Claim)) → Elem c (of_kind k gs) ↔ Elem (k, c) gs
unfolding of_kind
of_kind_iff k c [] = (λ m. m, λ m. m)
of_kind_iff k c ((l, d) ∷ gs) = elim (Bool-cases (text_eq l k)) [
  | inl t ↦ rw t (keep_to t (of_kind_iff k c gs).0, keep_from (of_kind_iff k c gs).1)
  | inr f ↦ rw f (λ m. inr ((of_kind_iff k c gs).0 m), drop_from f (of_kind_iff k c gs).1)
]
  where
    keep_to :
        text_eq l k ≡ true
        → (Elem c (of_kind k gs) → Elem (k, c) gs)
        → (c ≡ d) ⊎ Elem c (of_kind k gs)
        → Elem (k, c) ((l, d) ∷ gs)
    keep_to t ih (inl e) = inl (λ i. (sym ((text_eq_iff l k).0 t) i, e i))
    keep_to t ih (inr m) = inr (ih m)

    keep_from :
        (Elem (k, c) gs → Elem c (of_kind k gs))
        → Elem (k, c) ((l, d) ∷ gs)
        → (c ≡ d) ⊎ Elem c (of_kind k gs)
    keep_from ih (inl e) = inl (ap (λ (x : Text × Claim). x.1) e)
    keep_from ih (inr m) = inr (ih m)

    drop_from :
        text_eq l k ≡ false
        → (Elem (k, c) gs → Elem c (of_kind k gs))
        → Elem (k, c) ((l, d) ∷ gs)
        → Elem c (of_kind k gs)
    drop_from f ih (inl e) =
        let same : l ≡ k = sym (ap (λ (x : Text × Claim). x.0) e) in
        absurd (false≢true (sym f ∙ (text_eq_iff l k).1 same))
    drop_from f ih (inr m) = ih m
