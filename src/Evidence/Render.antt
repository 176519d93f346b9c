-- ===== src/Evidence/Render.antt =====
-- evidence/tool.py: `render`, on claims as `check` takes them. What it returns is the text that it
-- writes to claims.md, with the number of claims.
pub mod Blocks
pub mod Groups
pub mod Complete
pub mod Ids
pub mod Sorted
pub mod Order
use mapfuzz.Base.{
  ℕ, Text, codes, text_eq, Bool, true, false, Option, none, some, List, [], ◌∷◌, ◌++◌, length, map,
  strip, join, show_nat, ◌⊎◌, inl, inr, if◌then◌else◌, ◌||◌, ◌&&◌,
}
use mapfuzz.Base.Sorting.{sort_by, text_lt}
use mapfuzz.Exceptions.{ExcClass, builtin, key_error, type_error, attribute_error}
use mapfuzz.Evidence.{Value, text, texts, Claim, get, entries, str_of}

-- code that returns a value, or raises
abbrev pub Attempt : Type 0 → Type 0
Attempt A = ExcClass ⊎ A

infixl 5 ◌>>=◌
unfoldable pub ◌>>=◌ : {A B : Type 0} → Attempt A → (A → Attempt B) → Attempt B
◌>>=◌ (inl e) f = inl e
◌>>=◌ (inr a) f = f a

unfoldable pub found : Option Value → Attempt Value
found none = inl (builtin key_error)
found (some v) = inr v

-- `c[k]`
unfoldable pub item : Text → Claim → Attempt Value
unfolding found
item k c = found (get k c)

-- `v.strip()`: a list has no such method
unfoldable pub stripped : Value → Attempt Text
stripped (text t) = inr (strip t)
stripped (texts ts) = inl (builtin attribute_error)

-- a key of a dictionary: a list cannot be hashed
unfoldable pub hash_key : Value → Attempt Text
hash_key (text t) = inr t
hash_key (texts ts) = inl (builtin type_error)

-- `if c.get(k)`
unfoldable pub truthy : Option Value → Bool
truthy none = false
truthy (some (text [])) = false
truthy (some (text (a ∷ t))) = true
truthy (some (texts [])) = false
truthy (some (texts (t ∷ ts))) = true

-- `<` on ids
unfoldable pub texts_lt : List Text → List Text → Bool
texts_lt ss [] = false
texts_lt [] (t ∷ ts) = true
texts_lt (s ∷ ss) (t ∷ ts) = text_lt s t || (text_eq s t && texts_lt ss ts)

unfoldable pub value_lt : Value → Value → Bool
unfolding texts_lt
value_lt (text s) (text t) = text_lt s t
value_lt (texts s) (texts t) = texts_lt s t
value_lt _ _ = false

abbrev pub id_lt : Value × Claim → Value × Claim → Bool
id_lt a b = value_lt a.0 b.0

unfoldable pub all_text : List (Value × Claim) → Bool
all_text [] = true
all_text ((text t, c) ∷ rest) = all_text rest
all_text ((texts ts, c) ∷ rest) = false

unfoldable pub all_texts : List (Value × Claim) → Bool
all_texts [] = true
all_texts ((text t, c) ∷ rest) = false
all_texts ((texts ts, c) ∷ rest) = all_texts rest

-- `[x["id"] for x in cs]`, each with its claim
unfoldable pub keyed : List Claim → Attempt (List (Value × Claim))
keyed [] = inr []
keyed (c ∷ cs) = item (codes "id") c >>= λ i. keyed cs >>= λ rest. inr ((i, c) ∷ rest)

-- a text and a list cannot be compared
unfoldable pub ordered : List (Value × Claim) → Attempt (List Claim)
ordered keys =
    if all_text keys || all_texts keys
    then inr (map (λ a. a.1) (sort_by id_lt keys))
    else inl (builtin type_error)

-- `sorted(cs, key=lambda x: x["id"])`
unfoldable pub sorted_by_id : List Claim → Attempt (List Claim)
unfolding keyed ordered
sorted_by_id cs = keyed cs >>= ordered

-- `by_kind`: the claims with their kinds, and those of one kind
unfoldable pub grouped : List Claim → Attempt (List (Text × Claim))
grouped [] = inr []
grouped (c ∷ cs) =
    (item (codes "kind") c >>= hash_key) >>= λ k. grouped cs >>= λ rest. inr ((k, c) ∷ rest)

unfoldable pub of_kind : Text → List (Text × Claim) → List Claim
of_kind k [] = []
of_kind k ((l, c) ∷ rest) = let cs = of_kind k rest in if text_eq l k then c ∷ cs else cs

-- `order` with `titles`
abbrev pub order : List (Text × Text)
order =
    (codes "finding", codes "Findings (real defects)")
    ∷ (codes "correction", codes "Corrections")
    ∷ (codes "non-finding", codes "Non-findings (deliberately not counted)")
    ∷ (codes "negative", codes "Negatives (robust surfaces)")
    ∷ (codes "audit", codes "Audits (scope / M0)")
    ∷ (codes "method", codes "Methods (lessons)")
    ∷ []

abbrev pub preamble : ℕ → List Text
preamble n =
    codes "# mapfuzz Research Evidence Base (rendered)"
    ∷ []
    ∷ codes "> Generated from claims.yaml by evidence/tool.py. Do not edit by hand."
    ∷ (codes "> " ++ (show_nat n ++ codes " claims."))
    ∷ []
    ∷ []

module _ (shown : List Text → Text) where
  -- `f"{c[k]}"` behind a label, where `c.get(k)` is true
  unfoldable pub labelled : Text → Text → Claim → Text
  unfolding truthy
  labelled label k c = if truthy (get k c) then label ++ str_of shown [] (get k c) else []

  unfoldable pub refs_line : Claim → List Text
  unfolding truthy
  refs_line c =
      if truthy (get (codes "refs") c)
      then (codes "- refs: " ++ join (codes ", ") (entries (get (codes "refs") c))) ∷ []
      else []

  abbrev pub shown_value : Value → Text
  shown_value v = str_of shown [] (some v)

  -- the lines of a claim, from what is read of it
  unfoldable pub block :
      Claim → Value → Value → Text → Value → Value → Value → Text → Text → List Text
  unfolding labelled refs_line
  block c i confidence statement target date provenance observation boundary =
      (codes "### "
        ++ (shown_value i
            ++ (codes "  ("
                ++ (shown_value confidence
                    ++ (labelled (codes " | severity: ") (codes "severity") c
                        ++ (labelled (codes " | status: ") (codes "status") c ++ codes ")"))))))
      ∷ (codes "**" ++ (statement ++ codes "**"))
      ∷ []
      ∷ (codes "- target: "
          ++ (shown_value target ++ labelled (codes " / ") (codes "entry_point") c))
      ∷ (codes "- date: " ++ shown_value date)
      ∷ codes "- provenance:"
      ∷ (map (λ p. codes "  - " ++ p) (entries (some provenance))
          ++ ((codes "- observation: " ++ observation)
              ∷ (codes "- boundary: " ++ boundary)
              ∷ (refs_line c ++ ([] ∷ []))))

  unfoldable pub claim_lines : Claim → Attempt (List Text)
  unfolding block
  claim_lines c = item (codes "id") c >>= λ i. item (codes "confidence") c >>= λ confidence.
      (item (codes "statement") c >>= stripped) >>= λ statement.
      item (codes "target") c >>= λ target. item (codes "date") c >>= λ date.
      item (codes "provenance") c >>= λ provenance.
      (item (codes "observation") c >>= stripped) >>= λ observation.
      (item (codes "boundary") c >>= stripped) >>= λ boundary.
      inr (block c i confidence statement target date provenance observation boundary)

  unfoldable pub lines_of : List Claim → Attempt (List Text)
  unfolding claim_lines
  lines_of [] = inr []
  lines_of (c ∷ cs) = claim_lines c >>= λ b. lines_of cs >>= λ rest. inr (b ++ rest)

  -- one round of the loop over `order`
  unfoldable pub section_lines : Text → List Claim → Attempt (List Text)
  unfolding lines_of sorted_by_id
  section_lines title [] = inr []
  section_lines title (c ∷ cs) = sorted_by_id (c ∷ cs) >>= λ sorted.
      lines_of sorted >>= λ ls. inr ((codes "## " ++ title) ∷ [] ∷ ls)

  unfoldable pub sections : List (Text × Claim) → List (Text × Text) → Attempt (List Text)
  unfolding section_lines of_kind
  sections by_kind [] = inr []
  sections by_kind ((kind, title) ∷ kinds) = section_lines title (of_kind kind by_kind) >>= λ ls.
      sections by_kind kinds >>= λ rest. inr (ls ++ rest)

  -- `render`
  unfoldable pub render : List Claim → Attempt (Text × ℕ)
  unfolding grouped sections
  render claims = grouped claims >>= λ by_kind. sections by_kind order >>= λ ls.
      inr (join (codes "\n") (preamble (length claims) ++ ls), length claims)
