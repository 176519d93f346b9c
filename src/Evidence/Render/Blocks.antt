-- ===== src/Evidence/Render/Blocks.antt =====
-- What `render` makes of one claim, and of the claims of one kind.
use mapfuzz.Base.{
  ◌≡◌, ◌≢◌, refl, Text, codes, Option, none, some, List, [], ◌∷◌, ◌++◌, append_assoc, inl, inr,
  Elem, All, strip, ap, ◌∙◌,
}
use mapfuzz.Evidence.{Value, text, Claim, get}
use mapfuzz.Evidence.Valid.{ValidClaim}
use mapfuzz.Evidence.Render.{◌>>=◌, Attempt, item, found, stripped, block, claim_lines, lines_of}

-- the field is a text
abbrev pub IsText : Option Value → Type 0
IsText o = (t : Text) × (o ≡ some (text t))

-- the fields that `render` strips are texts
pub record Printable (c : Claim) : Type 0 where
  pub statement : IsText (get (codes "statement") c)
  pub observation : IsText (get (codes "observation") c)
  pub boundary : IsText (get (codes "boundary") c)

-- the run returns
abbrev pub Returns : {A : Type 0} → Attempt A → Type 0
Returns {A} r = (a : A) × (r ≡ inr a)

present : (o : Option Value) → o ≢ none → (v : Value) × (o ≡ some v)
present none n = absurd (n refl)
present (some v) n = (v, refl)

module _ (shown : List Text → Text) where
  pub claim_lines-Returns :
      (ids : List Text) (c : Claim)
      → ValidClaim shown ids c
      → Printable c
      → Returns (claim_lines shown c)
  unfolding claim_lines item found stripped ◌>>=◌
  claim_lines-Returns ids c v p =
      let (id, (date, (target, (_, (_, (confidence, (provenance, _))))))) = v.complete in
      let (i, e1) = present _ id in
      let (d, e2) = present _ date in
      let (t, e3) = present _ target in
      let (f, e4) = present _ confidence in
      let (q, e5) = present _ provenance in
      let (s, e6) = p.statement in
      let (o, e7) = p.observation in
      let (b, e8) = p.boundary in
      (
        block shown c i f (strip s) t d q (strip o) (strip b),
        rw (e1, e2, e3, e4, e5, e6, e7, e8) refl,
      )

  -- the lines stand in the others, in one piece
  abbrev pub PartOf : List Text → List Text → Type 0
  PartOf b ls = (before : List Text) × (after : List Text) × (ls ≡ before ++ (b ++ after))

  PartOf-left : (b ls ms : List Text) → PartOf b ls → PartOf b (ls ++ ms)
  PartOf-left b ls ms (xs, ys, e) =
      (xs, ys ++ ms, rw (e, append_assoc xs (b ++ ys) ms, append_assoc b ys ms) refl)

  PartOf-right : (b ls ms : List Text) → PartOf b ms → PartOf b (ls ++ ms)
  PartOf-right b ls ms (xs, ys, e) = (ls ++ xs, ys, rw (e, append_assoc ls xs (b ++ ys)) refl)

  -- the lines that are made of the claim stand in those
  abbrev pub Shows : List Text → Claim → Type 0
  Shows ls c = (b : List Text) × (claim_lines shown c ≡ inr b) × PartOf b ls

  pub Shows-left : (ls ms : List Text) (c : Claim) → Shows ls c → Shows (ls ++ ms) c
  Shows-left ls ms c (b, e, p) = (b, e, PartOf-left b ls ms p)

  pub Shows-right : (ls ms : List Text) (c : Claim) → Shows ms c → Shows (ls ++ ms) c
  Shows-right ls ms c (b, e, p) = (b, e, PartOf-right b ls ms p)

  pub lines_of-Shows :
      (cs : List Claim)
      → All (λ c. Returns (claim_lines shown c)) cs
      → (ls : List Text) × (lines_of shown cs ≡ inr ls) × ((c : Claim) → Elem c cs → Shows ls c)
  unfolding lines_of ◌>>=◌
  lines_of-Shows [] h = ([], refl, λ c m. absurd m)
  lines_of-Shows (c ∷ cs) ((b, e), h) =
      let (ls, f, shows) = lines_of-Shows cs h in
      (
        b ++ ls,
        rw (e, f) refl,
        λ d m. elim m [ inl q ↦ here ls d q | inr k ↦ Shows-right b ls d (shows d k) ],
      )
    where
      here : (ls : List Text) (d : Claim) → d ≡ c → Shows (b ++ ls) d
      here ls d q = (b, ap (claim_lines shown) q ∙ e, ([], ls, refl))
