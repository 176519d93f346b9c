-- ===== src/Evidence/Render/Complete.antt =====
-- `render` on an evidence base in which `check` finds nothing.
use mapfuzz.Base.{
  ◌≡◌, refl, sym, ap, ◌∙◌, subst, Text, codes, text_eq, text_in, true, List, [], ◌∷◌, ◌++◌, length,
  join, inl, inr, Elem, All, All-Elem, All-weaken, Elem-All, any-Elem, arith, any, text_eq_iff, map,
  map-Elem,
}
use mapfuzz.Evidence.{Claim, get, kinds}
use mapfuzz.Evidence.Rules.{Listed}
use mapfuzz.Evidence.Valid.{ValidClaim, ValidBase, HasIds}
use mapfuzz.Evidence.Render.{
  ◌>>=◌, of_kind, order, preamble, claim_lines, section_lines, sections, render,
}
use mapfuzz.Evidence.Render.Blocks.{
  Printable, Returns, claim_lines-Returns, Shows, Shows-left, Shows-right, lines_of-Shows,
}
use mapfuzz.Evidence.Render.Groups.{
  Named, Kinded, HasKind, sorted_by_id-Named, grouped-Kinded, of_kind_iff,
}

module _ (shown : List Text → Text) where
  abbrev Ready : Claim → Type 0
  Ready c = Named c × Returns (claim_lines shown c)

  section_lines-Shows :
      (title : Text) (cs : List Claim)
      → All Ready cs
      → (ls : List Text) × (section_lines shown title cs ≡ inr ls)
        × ((c : Claim) → Elem c cs → Shows shown ls c)
  unfolding section_lines ◌>>=◌
  section_lines-Shows title [] h = ([], refl, λ c m. absurd m)
  section_lines-Shows title (d ∷ ds) h =
      let (ss, e, same) =
        sorted_by_id-Named (d ∷ ds) (All-weaken Ready Named (d ∷ ds) (λ c r. r.0) h) in
      let (ls, f, shows) = lines_of-Shows shown ss (
        Elem-All (λ c. Returns (claim_lines shown c)) ss
          (λ c m. (All-Elem Ready c (d ∷ ds) h ((same c).0 m)).1)) in
      let header = (codes "## " ++ title) ∷ [] ∷ [] in
      (header ++ ls, rw (e, f) refl, λ c m. Shows-right shown header ls c (shows c ((same c).1 m)))

  sections-Shows :
      (gs : List (Text × Claim)) (ks : List (Text × Text))
      → ((k : Text) (c : Claim) → Elem (k, c) gs → Ready c)
      → (ls : List Text) × (sections shown gs ks ≡ inr ls)
        × ((k title : Text) (c : Claim) → Elem (k, title) ks → Elem (k, c) gs → Shows shown ls c)
  unfolding sections ◌>>=◌
  sections-Shows gs [] h = ([], refl, λ k title c m. absurd m)
  sections-Shows gs ((kind, title) ∷ ks) h =
      let (ls, e, here) =
        section_lines-Shows title (of_kind kind gs)
          (Elem-All Ready (of_kind kind gs) (λ c m. h kind c ((of_kind_iff kind c gs).0 m))) in
      let (ms, f, later) = sections-Shows gs ks h in
      (
        ls ++ ms,
        rw (e, f) refl,
        λ k t c m g. elim m [
          | inl q ↦ Shows-left shown ls ms c (
              here c (
                (of_kind_iff kind c gs).1
                  (subst (λ (l : Text). Elem (l, c) gs) (ap (λ (x : Text × Text). x.0) q) g)))
          | inr n ↦ Shows-right shown ls ms c (later k t c n g)
        ],
      )

-- the kinds of `order` are those that `check` knows
titled : (k : Text) → text_in k kinds ≡ true → text_in k (map (λ a. a.0) order) ≡ true
unfolding any
titled k h = ground arith

kind-Elem : (k : Text) → text_in k kinds ≡ true → (title : Text) × Elem (k, title) order
kind-Elem k h =
    let (x, m, e) = any-Elem (text_eq k) (map (λ (a : Text × Text). a.0) order) (titled k h) in
    let (a, n, f) = map-Elem (λ (a : Text × Text). a.0) x order m in
    (a.1, subst (λ l. Elem (l, a.1) order) (sym ((text_eq_iff k x).0 e ∙ f)) n)

pub HasIds-Named : (cs : List Claim) (is : List Text) → HasIds cs is → All Named cs
HasIds-Named [] is h = tt
HasIds-Named (c ∷ cs) [] h = absurd h
HasIds-Named (c ∷ cs) (i ∷ is) (e, h) = ((i, e), HasIds-Named cs is h)

pub Listed-Kinded : (c : Claim) → Listed kinds (get (codes "kind") c) → Kinded c
Listed-Kinded c (t, e, m) = (t, e)

module _ (shown : List Text → Text) where
  -- the text is made of the first lines, and of others in which each claim is shown
  pub record Rendered (claims : List Claim) : Type 0 where
    pub lines : List Text
    pub written :
        render shown claims
        ≡ inr (join (codes "\n") (preamble (length claims) ++ lines), length claims)
    pub shows : (c : Claim) → Elem c claims → Shows shown lines c

  -- A base in which `check` finds nothing, and whose statements, observations and boundaries are texts,
  -- is rendered: every claim is shown, and the number of claims is returned.
  pub ValidBase-Rendered :
      (claims : List Claim) → ValidBase shown claims → All Printable claims → Rendered claims
  unfolding render ◌>>=◌
  ValidBase-Rendered claims b p =
      let (gs, e, to, from) = grouped-Kinded claims (
        All-weaken (ValidClaim shown b.ids) Kinded claims (λ c v. Listed-Kinded c v.kind)
          b.valid) in
      let (ls, f, shows) = sections-Shows shown gs order (λ k c m. ready c (to k c m)) in
      record { lines = ls; written = rw (e, f) refl; shows = λ c m. shown_in gs from ls shows c m }
    where
      ready : (c : Claim) → Elem c claims → Ready shown c
      ready c m = (
        All-Elem Named c claims (HasIds-Named claims b.ids b.named) m,
        claim_lines-Returns shown b.ids c (All-Elem (ValidClaim shown b.ids) c claims b.valid m)
            (All-Elem Printable c claims p m),
      )

      shown_in :
          (gs : List (Text × Claim))
          → ((k : Text) (c : Claim) → Elem c claims → HasKind k c → Elem (k, c) gs)
          → (ls : List Text)
          → ((k title : Text) (c : Claim)
              → Elem (k, title) order
              → Elem (k, c) gs
              → Shows shown ls c)
          → (c : Claim) → Elem c claims
          → Shows shown ls c
      shown_in gs from ls shows c m =
          let (k, e, l) = (All-Elem (ValidClaim shown b.ids) c claims b.valid m).kind in
          let (title, n) = kind-Elem k l in shows k title c n (from k c m e)
