-- ===== src/Evidence.antt =====
-- evidence/tool.py: `check`, the validation of the evidence base. A claim is a dictionary as YAML
-- gives it; a field is a text or a list of texts, as in the schema, and a date stands as the text
-- that `str` makes of it. `shown` is what Python's `str` makes of a list.
pub mod Duplicates
pub mod Rules
pub mod Valid
pub mod Check
pub mod Render
pub mod Main
use mapfuzz.Base.{
  ℕ, zero, suc, ◌+◌, Text, codes, text_eq, text_in, Bool, true, false, not, Option, none, some,
  List, [], ◌∷◌, ◌++◌, any, ltb, drop, map, strip, lower, contains, starts_with, ◌⊎◌, inl, inr,
  if◌then◌else◌,
}
use mapfuzz.Exceptions.{ExcClass, builtin, key_error, type_error}

-- `REQUIRED`, `KINDS` and `CONF`
abbrev pub required : List Text
required =
    codes "id"
    ∷ codes "date"
    ∷ codes "target"
    ∷ codes "statement"
    ∷ codes "kind"
    ∷ codes "confidence"
    ∷ codes "provenance"
    ∷ codes "observation"
    ∷ codes "boundary"
    ∷ []

abbrev pub kinds : List Text
kinds =
    codes "finding"
    ∷ codes "negative"
    ∷ codes "non-finding"
    ∷ codes "method"
    ∷ codes "audit"
    ∷ codes "correction"
    ∷ []

abbrev pub confidences : List Text
confidences = codes "verified" ∷ codes "observed" ∷ codes "inferred" ∷ []

pub data Value : Type 0 where
  text : Text → Value
  texts : List Text → Value

abbrev pub Claim : Type 0
Claim = List (Text × Value)

-- `c.get(k)`
unfoldable pub get : Text → Claim → Option Value
get k [] = none
get k ((l, v) ∷ c) = if text_eq l k then some v else get k c

pub data Problem : Type 0 where
  duplicate_ids : List Text → Problem
  missing_fields : Text → List Text → Problem
  bad_kind bad_confidence empty_boundary no_effort unjustified : Text → Problem
  unknown_claim : Text → Text → Problem

-- `[c["id"] for c in claims]`
with_id : Option Value → ExcClass ⊎ List Value → ExcClass ⊎ List Value
with_id none vs = inl (builtin key_error)
with_id (some v) (inl e) = inl e
with_id (some v) (inr vs) = inr (v ∷ vs)

unfoldable pub ids_of : List Claim → ExcClass ⊎ List Value
unfolding with_id
ids_of [] = inr []
ids_of (c ∷ cs) = with_id (get (codes "id") c) (ids_of cs)

-- `Counter(ids)` hashes the ids: a list is not hashable
hashed : Value → ExcClass ⊎ List Text → ExcClass ⊎ List Text
hashed (texts ts) is = inl (builtin type_error)
hashed (text t) (inl e) = inl e
hashed (text t) (inr is) = inr (t ∷ is)

unfoldable pub hashable : List Value → ExcClass ⊎ List Text
unfolding hashed
hashable [] = inr []
hashable (v ∷ vs) = hashed v (hashable vs)

-- the count of an id, the ids without repetition in the order of their first occurrence, and those
-- that occur more than once
unfoldable pub occurrences : Text → List Text → ℕ
occurrences i [] = 0
occurrences i (j ∷ js) = let n = occurrences i js in if text_eq j i then suc n else n

unfoldable pub without : Text → List Text → List Text
without i [] = []
without i (j ∷ js) = let rest = without i js in if text_eq j i then rest else j ∷ rest

unfoldable pub distinct : List Text → List Text
unfolding without
distinct [] = []
distinct (i ∷ is) = i ∷ without i (distinct is)

unfoldable pub repeated : List Text → List Text → List Text
repeated ids [] = []
repeated ids (i ∷ is) =
    let rest = repeated ids is in if ltb 1 (occurrences i ids) then i ∷ rest else rest

unfoldable pub dupes : List Text → List Text
unfolding repeated distinct
dupes ids = repeated ids (distinct ids)

-- `if …: errs.append(…)`
unfoldable pub when : Bool → Problem → List Problem
when true p = p ∷ []
when false p = []

unfoldable pub is_missing : Option Value → Bool
is_missing none = true
is_missing (some v) = false

-- `REQUIRED - set(c)`
unfoldable pub missing : Claim → List Text → List Text
unfolding is_missing
missing c [] = []
missing c (k ∷ ks) = let rest = missing c ks in if is_missing (get k c) then k ∷ rest else rest

unfoldable pub some_of : List Text → Bool
some_of [] = false
some_of (_ ∷ _) = true

-- `v not in …`, for a set
unfoldable pub unlisted : List Text → Option Value → ExcClass ⊎ Bool
unlisted ks none = inr true
unlisted ks (some (text t)) = inr (not (text_in t ks))
unlisted ks (some (texts ts)) = inl (builtin type_error)

-- `c.get("kind") == k`
unfoldable pub equals : Text → Option Value → Bool
equals k (some (text t)) = text_eq t k
equals k _ = false

-- the texts that the provenance is iterated over: a text yields its characters
unfoldable pub entries : Option Value → List Text
entries none = []
entries (some (text t)) = map (λ c. c ∷ []) t
entries (some (texts ts)) = ts

abbrev pub claim_prefix : Text
claim_prefix = codes "claim:"

-- the loop over the provenance; behind the prefix stands what `split(":", 1)[1]` is
unfoldable pub unresolved : List Text → Text → List Text → List Problem
unfolding when
unresolved ids cid [] = []
unresolved ids cid (p ∷ ps) =
    (if starts_with p claim_prefix
      then when (not (text_in (drop 6 p) ids)) (unknown_claim cid (drop 6 p))
      else [])
    ++ unresolved ids cid ps

abbrev pub effort_words : List Text
effort_words = codes "run" ∷ codes "clean" ∷ codes "probe" ∷ codes "check" ∷ []

module _ (shown : List Text → Text) where
  -- `str(c.get(k, default))`
  unfoldable pub str_of : Text → Option Value → Text
  str_of default none = default
  str_of default (some (text t)) = t
  str_of default (some (texts ts)) = shown ts

  -- the tests that raise nothing, behind those on kind and confidence
  unfoldable pub boundary_problems : Text → Claim → List Problem
  unfolding str_of when
  boundary_problems cid c =
      when (text_eq (strip (str_of [] (get (codes "boundary") c))) []) (empty_boundary cid)

  unfoldable pub effort_problems : Text → Claim → List Problem
  unfolding str_of when equals
  effort_problems cid c =
      if equals (codes "negative") (get (codes "kind") c)
      then when
          (not (any (contains (lower (str_of [] (get (codes "observation") c)))) effort_words))
          (no_effort cid)
      else []

  unfoldable pub exclusion_problems : Text → Claim → List Problem
  unfolding str_of when equals
  exclusion_problems cid c =
      if equals (codes "non-finding") (get (codes "kind") c)
      then when (not (contains (lower (str_of [] (get (codes "boundary") c))) (codes "not")))
          (unjustified cid)
      else []

  -- one round of the loop, with what the tests on kind and confidence give
  unfoldable pub joined :
      List Text → Text → Claim → ExcClass ⊎ Bool → ExcClass ⊎ Bool → ExcClass ⊎ List Problem
  unfolding missing some_of boundary_problems effort_problems exclusion_problems unresolved entries
      when
  joined ids cid c (inl e) conf = inl e
  joined ids cid c (inr k) (inl e) = inl e
  joined ids cid c (inr k) (inr f) = inr (
      when (some_of (missing c required)) (missing_fields cid (missing c required))
      ++ (when k (bad_kind cid)
          ++ (when f (bad_confidence cid)
              ++ (boundary_problems cid c
                  ++ (effort_problems cid c
                      ++ (exclusion_problems cid c
                          ++ unresolved ids cid (entries (get (codes "provenance") c))))))))

  unfoldable pub problems_of : List Text → Claim → ExcClass ⊎ List Problem
  unfolding joined unlisted
  problems_of ids c =
      joined ids (str_of (codes "<no id>") (get (codes "id") c)) c
        (unlisted kinds (get (codes "kind") c)) (unlisted confidences (get (codes "confidence") c))

  -- a result behind another: the first exception ends the loop
  unfoldable pub append_problems :
      ExcClass ⊎ List Problem → ExcClass ⊎ List Problem → ExcClass ⊎ List Problem
  append_problems (inl e) r = inl e
  append_problems (inr ps) (inl e) = inl e
  append_problems (inr ps) (inr qs) = inr (ps ++ qs)

  unfoldable pub all_problems : List Text → List Claim → ExcClass ⊎ List Problem
  unfolding problems_of append_problems
  all_problems ids [] = inr []
  all_problems ids (c ∷ cs) = append_problems (problems_of ids c) (all_problems ids cs)

  unfoldable pub with_ids : List Claim → ExcClass ⊎ List Text → ExcClass ⊎ List Problem
  unfolding all_problems dupes when some_of
  with_ids claims (inl e) = inl e
  with_ids claims (inr ids) =
      append_problems (inr (when (some_of (dupes ids)) (duplicate_ids (dupes ids))))
        (all_problems ids claims)

  unfoldable pub with_values : List Claim → ExcClass ⊎ List Value → ExcClass ⊎ List Problem
  unfolding with_ids hashable
  with_values claims (inl e) = inl e
  with_values claims (inr vs) = with_ids claims (hashable vs)

  -- `check`
  unfoldable pub check : List Claim → ExcClass ⊎ List Problem
  unfolding with_values ids_of
  check claims = with_values claims (ids_of claims)
