-- ===== src/Evidence/Check.antt =====
-- `check` finds nothing exactly when the evidence base is valid.
use mapfuzz.Base.{
  ◌≡◌, refl, ap, ◌∙◌, subst, Text, codes, Option, none, some, List, [], ◌∷◌, map, ◌↔◌, ◌⊎◌, inl,
  inr,
}
use mapfuzz.Exceptions.{ExcClass}
use mapfuzz.Evidence.{
  Value, text, texts, Claim, get, with_id, ids_of, hashed, hashable, with_ids, with_values, check,
}
use mapfuzz.Evidence.Valid.{HasIds, ValidBase, with_ids_iff}

named-ids_of : (cs : List Claim) (is : List Text) → HasIds cs is → ids_of cs ≡ inr (map text is)
unfolding ids_of with_id
named-ids_of [] [] h = refl
named-ids_of [] (i ∷ is) h = absurd h
named-ids_of (c ∷ cs) [] h = absurd h
named-ids_of (c ∷ cs) (i ∷ is) (e, h) = rw (e, named-ids_of cs is h) refl

hashable-texts : (is : List Text) → hashable (map text is) ≡ inr is
unfolding hashable hashed
hashable-texts [] = refl
hashable-texts (i ∷ is) = rw (hashable-texts is) refl

abbrev HasValues : List Claim → List Value → Type 0
HasValues [] [] = Unit
HasValues [] (_ ∷ _) = ⊥
HasValues (_ ∷ _) [] = ⊥
HasValues (c ∷ cs) (v ∷ vs) = (get (codes "id") c ≡ some v) × HasValues cs vs

values_inj : (vs ws : List Value) → ◌≡◌ {A = ExcClass ⊎ List Value} (inr vs) (inr ws) → vs ≡ ws
values_inj vs ws h = cc

texts_inj : (is js : List Text) → ◌≡◌ {A = ExcClass ⊎ List Text} (inr is) (inr js) → is ≡ js
texts_inj is js h = cc

ids_of-HasValues : (cs : List Claim) (vs : List Value) → ids_of cs ≡ inr vs → HasValues cs vs
unfolding ids_of
ids_of-HasValues [] vs h = subst (HasValues []) (values_inj [] vs h) tt
ids_of-HasValues (c ∷ cs) vs h = go (get (codes "id") c) (ids_of cs) refl (ids_of-HasValues cs) h
  where
    go :
        (o : Option Value) (r : ExcClass ⊎ List Value)
        → get (codes "id") c ≡ o
        → ((ws : List Value) → r ≡ inr ws → HasValues cs ws)
        → with_id o r ≡ inr vs
        → HasValues (c ∷ cs) vs
    go none r e ih p = unfold with_id in cc
    go (some v) (inl x) e ih p = unfold with_id in cc
    go (some v) (inr ws) e ih p =
        unfold with_id in subst (HasValues (c ∷ cs)) (values_inj (v ∷ ws) vs p) (e, ih ws refl)

hashable_inv : (vs : List Value) (is : List Text) → hashable vs ≡ inr is → vs ≡ map text is
unfolding hashable
hashable_inv [] is h = ap (map text) (texts_inj [] is h)
hashable_inv (v ∷ vs) is h = go v (hashable vs) (hashable_inv vs) h
  where
    go :
        (v : Value) (r : ExcClass ⊎ List Text)
        → ((js : List Text) → r ≡ inr js → vs ≡ map text js)
        → hashed v r ≡ inr is
        → v ∷ vs ≡ map text is
    go (texts ts) r ih p = unfold hashed in cc
    go (text t) (inl x) ih p = unfold hashed in cc
    go (text t) (inr js) ih p =
        unfold hashed in
        (ap (λ l. text t ∷ l) (ih js refl) ∙ ap (map text) (texts_inj (t ∷ js) is p))

HasValues-HasIds : (cs : List Claim) (is : List Text) → HasValues cs (map text is) → HasIds cs is
HasValues-HasIds [] [] h = tt
HasValues-HasIds [] (i ∷ is) h = h
HasValues-HasIds (c ∷ cs) [] h = h
HasValues-HasIds (c ∷ cs) (i ∷ is) (e, h) = (e, HasValues-HasIds cs is h)

read-HasIds :
    (cs : List Claim) (is : List Text) (vs : List Value)
    → ids_of cs ≡ inr vs
    → hashable vs ≡ inr is
    → HasIds cs is
read-HasIds cs is vs a b =
    HasValues-HasIds cs is (subst (HasValues cs) (hashable_inv vs is b) (ids_of-HasValues cs vs a))

passing-HasIds :
    (shown : List Text → Text) (cs : List Claim)
    → check shown cs ≡ inr []
    → (is : List Text) × HasIds cs is × (with_ids shown cs (inr is) ≡ inr [])
unfolding check with_values
passing-HasIds shown cs h = go (ids_of cs) refl h
  where
    hashed_too :
        (vs : List Value) (s : ExcClass ⊎ List Text)
        → ids_of cs ≡ inr vs
        → hashable vs ≡ s
        → with_ids shown cs s ≡ inr []
        → (is : List Text) × HasIds cs is × (with_ids shown cs (inr is) ≡ inr [])
    hashed_too vs (inl e) a b p = unfold with_ids in cc
    hashed_too vs (inr is) a b p = (is, read-HasIds cs is vs a b, p)

    go :
        (r : ExcClass ⊎ List Value)
        → ids_of cs ≡ r
        → with_values shown cs r ≡ inr []
        → (is : List Text) × HasIds cs is × (with_ids shown cs (inr is) ≡ inr [])
    go (inl e) a p = cc
    go (inr vs) a p = hashed_too vs (hashable vs) a refl p

-- `check` raises nothing and finds nothing exactly when every claim has an id of its own, all required
-- fields, a known kind and confidence, a limit, a stated effort if it is a negative, a reason if it is
-- a non-finding, and no reference to an unknown claim.
pub check_iff :
    (shown : List Text → Text) (claims : List Claim)
    → (check shown claims ≡ inr []) ↔ ValidBase shown claims
unfolding check with_values
check_iff shown claims = (to, from)
  where
    to : check shown claims ≡ inr [] → ValidBase shown claims
    to h =
        let (is, named, p) = passing-HasIds shown claims h in
        let (u, v) = (with_ids_iff shown claims is).0 p in
        record { ids = is; named = named; unique = u; valid = v }

    from : ValidBase shown claims → check shown claims ≡ inr []
    from b =
        rw (named-ids_of claims b.ids b.named, hashable-texts b.ids)
          ((with_ids_iff shown claims b.ids).1 (b.unique, b.valid))
