-- ===== src/Evidence/Valid.antt =====
-- `check` finds nothing exactly when the evidence base is valid.
use mapfuzz.Base.{
  ◌≤◌, ◌≡◌, ◌≢◌, refl, ap, Text, codes, text_eq, Bool, true, false, none, some, List, [], ◌∷◌, any,
  strip, lower, contains, ◌↔◌, ◌⊎◌, inl, inr, All, append-nil_iff,
}
use mapfuzz.Exceptions.{ExcClass}
use mapfuzz.Evidence.{
  required, kinds, confidences, text, Claim, get, Problem, duplicate_ids, occurrences, dupes, when,
  missing, some_of, entries, unresolved, effort_words, str_of, boundary_problems, effort_problems,
  exclusion_problems, joined, problems_of, append_problems, all_problems, with_ids,
}
use mapfuzz.Evidence.Duplicates.{dupes_iff}
use mapfuzz.Evidence.Rules.{
  Listed, Resolves, when_iff, when-some_of_iff, missing_iff, unlisted_iff, guarded_iff,
  unresolved_iff,
}

-- the claims have the texts `ids` as their ids, in this order
abbrev pub HasIds : List Claim → List Text → Type 0
HasIds [] [] = Unit
HasIds [] (_ ∷ _) = ⊥
HasIds (_ ∷ _) [] = ⊥
HasIds (c ∷ cs) (i ∷ is) = (get (codes "id") c ≡ some (text i)) × HasIds cs is

module _ (shown : List Text → Text) where
  -- the text of a field, empty where it is missing
  abbrev pub said : Text → Claim → Text
  said k c = str_of shown [] (get k c)

  -- a claim of an evidence base whose claims have the ids `ids`
  pub record ValidClaim (ids : List Text) (c : Claim) : Type 0 where
    pub complete : All (λ k. get k c ≢ none) required
    pub kind : Listed kinds (get (codes "kind") c)
    pub confidence : Listed confidences (get (codes "confidence") c)
    pub limit : strip (said (codes "boundary") c) ≢ []
    pub effort :
        (get (codes "kind") c ≢ some (text (codes "negative")))
        ⊎ (any (contains (lower (said (codes "observation") c))) effort_words ≡ true)
    pub exclusion :
        (get (codes "kind") c ≢ some (text (codes "non-finding")))
        ⊎ (contains (lower (said (codes "boundary") c)) (codes "not") ≡ true)
    pub provenance : All (Resolves ids) (entries (get (codes "provenance") c))

  -- Every claim has an id of its own, and is valid.
  pub record ValidBase (claims : List Claim) : Type 0 where
    pub ids : List Text
    pub named : HasIds claims ids
    pub unique : (i : Text) → occurrences i ids ≤ 1
    pub valid : All (ValidClaim ids) claims

  blank_iff : (t : Text) → (text_eq t [] ≡ false) ↔ (t ≢ [])
  unfolding text_eq
  blank_iff [] = (λ h. cc, λ h. absurd (h refl))
  blank_iff (c ∷ t) = (λ _ h. cc, λ _. refl)

  abbrev Result : Type 0
  Result = ExcClass ⊎ List Problem

  inr_inj : (ps qs : List Problem) → ◌≡◌ {A = Result} (inr ps) (inr qs) → ps ≡ qs
  inr_inj ps qs h = cc

  joined-passes :
      (ids : List Text) (cid : Text) (c : Claim) (k f : ExcClass ⊎ Bool)
      → joined shown ids cid c k f ≡ inr []
      → (k ≡ inr false)
        × (f ≡ inr false)
        × (missing c required ≡ [])
        × (boundary_problems shown cid c ≡ [])
        × (effort_problems shown cid c ≡ [])
        × (exclusion_problems shown cid c ≡ [])
        × (unresolved ids cid (entries (get (codes "provenance") c)) ≡ [])
  unfolding joined
  joined-passes ids cid c (inl e) f h = cc
  joined-passes ids cid c (inr k) (inl e) h = cc
  joined-passes ids cid c (inr k) (inr f) h =
      let (m, h1) = (append-nil_iff _ _).0 (inr_inj _ _ h) in
      let (bk, h2) = (append-nil_iff _ _).0 h1 in
      let (bc, h3) = (append-nil_iff _ _).0 h2 in
      let (b, h4) = (append-nil_iff _ _).0 h3 in
      let (e, h5) = (append-nil_iff _ _).0 h4 in
      let (x, u) = (append-nil_iff _ _).0 h5 in
      (
        ap inr ((when_iff k _).0 bk),
        ap inr ((when_iff f _).0 bc),
        (when-some_of_iff _ _).0 m,
        b,
        e,
        x,
        u,
      )

  problems_of-ValidClaim :
      (ids : List Text) (c : Claim) → problems_of shown ids c ≡ inr [] → ValidClaim ids c
  unfolding problems_of boundary_problems effort_problems exclusion_problems
  problems_of-ValidClaim ids c h =
      let (k, f, m, b, e, x, u) = joined-passes ids _ c _ _ h in
      record {
        complete = (missing_iff c required).0 m;
        kind = (unlisted_iff kinds _).0 k;
        confidence = (unlisted_iff confidences _).0 f;
        limit = (blank_iff _).0 ((when_iff _ _).0 b);
        effort = (guarded_iff _ _ _ _).0 e;
        exclusion = (guarded_iff _ _ _ _).0 x;
        provenance = (unresolved_iff ids _ _).0 u;
      }

  ValidClaim-problems_of :
      (ids : List Text) (c : Claim) → ValidClaim ids c → problems_of shown ids c ≡ inr []
  unfolding problems_of joined boundary_problems effort_problems exclusion_problems
  ValidClaim-problems_of ids c v =
      rw
        (
          (unlisted_iff kinds _).1 v.kind,
          (unlisted_iff confidences _).1 v.confidence,
          (when-some_of_iff (missing c required) _).1 ((missing_iff c required).1 v.complete),
          (when_iff _ _).1 ((blank_iff _).1 v.limit),
          (guarded_iff _ _ _ _).1 v.effort,
          (guarded_iff _ _ _ _).1 v.exclusion,
          (unresolved_iff ids _ _).1 v.provenance,
        )
        refl

  append_problems_iff :
      (r s : Result) → (append_problems shown r s ≡ inr []) ↔ ((r ≡ inr []) × (s ≡ inr []))
  unfolding append_problems
  append_problems_iff (inl e) s = (λ h. cc, λ (h, _). cc)
  append_problems_iff (inr ps) (inl e) = (λ h. cc, λ (_, h). cc)
  append_problems_iff (inr ps) (inr qs) = (
    λ h. let (p, q) = (append-nil_iff ps qs).0 (inr_inj _ _ h) in (ap inr p, ap inr q),
    λ (p, q). ap inr ((append-nil_iff ps qs).1 (inr_inj _ _ p, inr_inj _ _ q)),
  )

  all_problems_iff :
      (ids : List Text) (cs : List Claim)
      → (all_problems shown ids cs ≡ inr []) ↔ All (ValidClaim ids) cs
  unfolding all_problems
  all_problems_iff ids [] = (λ _. tt, λ _. refl)
  all_problems_iff ids (c ∷ cs) =
      let both = append_problems_iff (problems_of shown ids c) (all_problems shown ids cs) in
      let rest = all_problems_iff ids cs in
      (
        λ h. (problems_of-ValidClaim ids c (both.0 h).0, rest.0 (both.0 h).1),
        λ (v, vs). both.1 (ValidClaim-problems_of ids c v, rest.1 vs),
      )

  pub with_ids_iff :
      (cs : List Claim) (ids : List Text)
      → (with_ids shown cs (inr ids) ≡ inr [])
        ↔ (((i : Text) → occurrences i ids ≤ 1) × All (ValidClaim ids) cs)
  unfolding with_ids
  with_ids_iff cs ids =
      let both =
        append_problems_iff (inr (when (some_of (dupes ids)) (duplicate_ids (dupes ids))))
          (all_problems shown ids cs) in
      let flag = when-some_of_iff (dupes ids) (duplicate_ids (dupes ids)) in
      (
        λ h. (
          (dupes_iff ids).0 (flag.0 (inr_inj _ _ (both.0 h).0)),
          (all_problems_iff ids cs).0 (both.0 h).1,
        ),
        λ (u, v). both.1 (ap inr (flag.1 ((dupes_iff ids).1 u)), (all_problems_iff ids cs).1 v),
      )
