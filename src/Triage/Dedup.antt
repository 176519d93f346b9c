-- ===== src/Triage/Dedup.antt =====
-- chassis/triage.py: `Bucket` and `dedup`. The dictionary keeps its keys in insertion order, as
-- Python's does, and `b` in the loop is the bucket in the dictionary, changed in place.
pub mod Spec
pub mod Order
pub mod Keys
pub mod Opened
use mapfuzz.Base.{
  ℕ, suc, ◌+◌, Text, Bool, true, false, Option, none, some, List, [], ◌∷◌, ◌++◌, leb, ltb, text_eq,
  length, if◌then◌else◌, map,
}
use mapfuzz.Triage.Signature.{Signature, key}
use mapfuzz.Triage.Parsers.{parse_report}

pub record Bucket : Type 0 where
  pub signature : Signature
  pub count : ℕ
  pub sources : List Text

-- `Bucket(sig)`
abbrev pub new_bucket : Signature → Bucket
new_bucket sig = record { signature = sig; count = 0; sources = [] }

abbrev pub Buckets : Type 0
Buckets = List (Text × Bucket)

unfoldable pub find_bucket : Text → Buckets → Option Bucket
find_bucket k [] = none
find_bucket k ((j, b) ∷ bs) = if text_eq j k then some b else find_bucket k bs

-- `buckets.setdefault(k, b)`
unfoldable pub set_default : Text → Bucket → Buckets → Buckets
set_default k b [] = (k, b) ∷ []
set_default k b ((j, c) ∷ bs) = if text_eq j k then (j, c) ∷ bs else (j, c) ∷ set_default k b bs

-- a change of the bucket under the key `k`
unfoldable pub change : Text → (Bucket → Bucket) → Buckets → Buckets
change k f [] = []
change k f ((j, c) ∷ bs) = if text_eq j k then (j, f c) ∷ bs else (j, c) ∷ change k f bs

-- `b.count += 1`, and the source is noted while there are fewer than three
unfoldable pub note : Text → Bucket → Bucket
note source b = record b {
  count = b.count + 1;
  sources = if ltb (length b.sources) 3 then b.sources ++ source ∷ [] else b.sources;
}

pub record Seen : Type 0 where
  pub buckets : Buckets
  pub unparsed : List Text

-- one round of the loop
unfoldable pub add_parsed : Text → Option Signature → Seen → Seen
add_parsed source none s = record s { unparsed = s.unparsed ++ source ∷ [] }
add_parsed source (some sig) s = record s {
  buckets = change (key sig) (note source) (set_default (key sig) (new_bucket sig) s.buckets);
}

-- A report is a source id and a text.
abbrev pub Report : Type 0
Report = Text × Text

unfoldable pub collect : List Report → Seen → Seen
unfolding add_parsed
collect [] s = s
collect ((source, text) ∷ reports) s = collect reports (add_parsed source (parse_report text) s)

-- `sorted(…, key=lambda b: b.count, reverse=True)`: Python's sort is stable, also in reverse
unfoldable pub insert_bucket : Bucket → List Bucket → List Bucket
insert_bucket b [] = b ∷ []
insert_bucket b (c ∷ cs) = if leb c.count b.count then b ∷ c ∷ cs else c ∷ insert_bucket b cs

unfoldable pub sort_buckets : List Bucket → List Bucket
unfolding insert_bucket
sort_buckets [] = []
sort_buckets (b ∷ bs) = insert_bucket b (sort_buckets bs)

-- `buckets.values()`
unfoldable pub values : Buckets → List Bucket
values [] = []
values ((k, b) ∷ bs) = b ∷ values bs

abbrev pub empty_seen : Seen
empty_seen = record { buckets = []; unparsed = [] }

-- `dedup`: the ordered buckets and the unparsed sources
unfoldable pub dedup : List Report → List Bucket × List Text
unfolding collect sort_buckets values
dedup reports = let s = collect reports empty_seen in (sort_buckets (values s.buckets), s.unparsed)
