-- ===== src/Tests/EvidenceCases.antt =====
-- The evidence base on two claims.
use mapfuzz.Base.{
  ◌≡◌, refl, Text, codes, text_eq, any, strip, lower, contains, starts_with, List, [], ◌∷◌, ◌↔◌,
  inl, inr, All, ℕ, join, show_nat, true, false, some,
}
use mapfuzz.Exceptions.{builtin, key_error, attribute_error}
use mapfuzz.Evidence.{text, texts, Claim, unknown_claim, get, occurrences, check, str_of, entries}
use mapfuzz.Evidence.Valid.{ValidBase}
use mapfuzz.Evidence.Check.{check_iff}
use mapfuzz.Evidence.Render.{render, ◌>>=◌, item, hash_key, all_text, stripped, labelled}
use mapfuzz.Base.Sorting.{sort_by}
use mapfuzz.Evidence.Render.Blocks.{Printable}
use mapfuzz.Evidence.Render.Complete.{Rendered, ValidBase-Rendered}
use mapfuzz.Evidence.Render.Order.{render-perm}
use mathlib.Core.List.{Permᴰ}
use mapfuzz.Evidence.Main.{tool_main}
use mapfuzz.Evidence.Main.Gate.{tool_main-written}

abbrev no_list : List Text → Text
no_list _ = []

abbrev claim : Text → Text → Text → Claim
claim i k p =
    (codes "id", text i)
    ∷ (codes "date", text (codes "2024-05-01"))
    ∷ (codes "target", text (codes "gguf"))
    ∷ (codes "statement", text (codes "holds"))
    ∷ (codes "kind", text k)
    ∷ (codes "confidence", text (codes "verified"))
    ∷ (codes "provenance", texts (p ∷ []))
    ∷ (codes "observation", text (codes "2 runs"))
    ∷ (codes "boundary", text (codes "one host"))
    ∷ []

abbrev claims : List Claim
claims =
    claim (codes "C-1") (codes "finding") (codes "log.txt")
    ∷ claim (codes "C-2") (codes "negative") (codes "claim:C-1")
    ∷ []

check_iff_example : (check no_list claims ≡ inr []) ↔ ValidBase no_list claims
check_iff_example = check_iff no_list claims

two_claims : check no_list claims ≡ inr []
unfolding check text_eq strip lower contains starts_with any get occurrences
two_claims = refl

unknown_reference :
    check no_list (claim (codes "C-1") (codes "finding") (codes "claim:C-9") ∷ [])
    ≡ inr (unknown_claim (codes "C-1") (codes "C-9") ∷ [])
unfolding check text_eq strip lower contains starts_with any get occurrences
unknown_reference = refl

no_id : check no_list ([] ∷ []) ≡ inl (builtin key_error)
unfolding check get
no_id = refl

valid_claims : ValidBase no_list claims
valid_claims = (check_iff no_list claims).0 two_claims

printable : All Printable claims
unfolding get text_eq
printable = (
  record { statement = (_, refl); observation = (_, refl); boundary = (_, refl) },
  (record { statement = (_, refl); observation = (_, refl); boundary = (_, refl) }, tt),
)

ValidBase-Rendered_example : Rendered no_list claims
ValidBase-Rendered_example = ValidBase-Rendered no_list claims valid_claims printable

abbrev claims_reversed : List Claim
claims_reversed =
    claim (codes "C-2") (codes "negative") (codes "claim:C-1")
    ∷ claim (codes "C-1") (codes "finding") (codes "log.txt")
    ∷ []

render-perm_example : render no_list claims ≡ render no_list claims_reversed
render-perm_example = render-perm no_list claims claims_reversed (Permᴰ.swap refl refl) valid_claims

abbrev rendering : Text
rendering = join (b'\n' ∷ []) (
    codes "# mapfuzz Research Evidence Base (rendered)"
    ∷ codes ""
    ∷ codes "> Generated from claims.yaml by evidence/tool.py. Do not edit by hand."
    ∷ codes "> 1 claims."
    ∷ codes ""
    ∷ codes "## Audits (scope / M0)"
    ∷ codes ""
    ∷ codes "### C-1  (verified)"
    ∷ codes "**holds**"
    ∷ codes ""
    ∷ codes "- target: gguf"
    ∷ codes "- date: 2024-05-01"
    ∷ codes "- provenance:"
    ∷ codes "  - log.txt"
    ∷ codes "- observation: 2 runs"
    ∷ codes "- boundary: one host"
    ∷ codes ""
    ∷ [])

one_claim :
    render no_list (claim (codes "C-1") (codes "audit") (codes "log.txt") ∷ []) ≡ inr (rendering, 1)
unfolding render get text_eq strip ◌>>=◌ item hash_key all_text sort_by stripped join labelled
    show_nat str_of entries
one_claim = refl

-- `check` takes a boundary that is a list, and `render` does not
abbrev listed : Claim
listed =
    (codes "boundary", texts (codes "one host" ∷ []))
    ∷ claim (codes "C-1") (codes "audit") (codes "log.txt")

check-listed : check (λ _. codes "['one host']") (listed ∷ []) ≡ inr []
unfolding check text_eq strip lower contains starts_with any get occurrences
check-listed = refl

render-listed : render no_list (listed ∷ []) ≡ inl (builtin attribute_error)
unfolding render get text_eq strip ◌>>=◌ item hash_key all_text sort_by stripped
render-listed = refl

abbrev one : List Claim
one = claim (codes "C-1") (codes "audit") (codes "log.txt") ∷ []

tool_main-written_example : ((tool_main no_list false false one).written ≡ some rendering) ↔ (
    ValidBase no_list one × (true ≡ true) × ((n : ℕ) × (render no_list one ≡ inr (rendering, n))))
tool_main-written_example = tool_main-written no_list false false one rendering refl

-- `--render` alone writes a base that is not valid
unchecked :
    (tool_main no_list false true
      (claim (codes "C-1") (codes "whim") (codes "log.txt") ∷ [])).status
    ≡ inr 0
unfolding tool_main render get text_eq ◌>>=◌ item hash_key
unchecked = refl
