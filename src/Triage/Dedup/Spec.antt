-- ===== src/Triage/Dedup/Spec.antt =====
-- What `dedup` collects, told without a loop: the bucket of a key holds the first signature with
-- that key, the number of reports with it, and the first three of their sources.
use mapfuzz.Base.{
  ℕ, zero, suc, ◌+◌, ◌-◌, Text, ◌≡◌, refl, sym, ap, ◌∙◌, Option, none, some, List, [], ◌∷◌, ◌++◌,
  arith, text_eq, text_eq_iff, length, length-append, take, if◌then◌else◌, Bool-cases, inl, inr,
  append-nil, append_assoc, ltb,
}
use native.Mathlib.Nat.{add-zero}
use mapfuzz.Triage.Signature.{Signature, key}
use mapfuzz.Triage.Parsers.{parse_report}
use mapfuzz.Triage.Dedup.{
  Bucket, new_bucket, Buckets, find_bucket, set_default, change, note, Seen, add_parsed, Report,
  collect, empty_seen,
}

abbrev pub keep_keyed :
    Text → Text → Option Signature → List (Text × Signature) → List (Text × Signature)
keep_keyed k source none rest = rest
keep_keyed k source (some sig) rest = if text_eq (key sig) k then (source, sig) ∷ rest else rest

-- the parsed reports with the key `k`, in order
unfoldable pub with_key : Text → List Report → List (Text × Signature)
with_key k [] = []
with_key k ((source, text) ∷ reports) = keep_keyed k source (parse_report text) (with_key k reports)

sources_of : List (Text × Signature) → List Text
sources_of [] = []
sources_of ((source, sig) ∷ l) = source ∷ sources_of l

-- the bucket that the reports of one key make
unfoldable pub bucket_of : List (Text × Signature) → Option Bucket
unfolding sources_of
bucket_of [] = none
bucket_of ((source, sig) ∷ l) = some (record {
  signature = sig;
  count = length ((source, sig) ∷ l);
  sources = take 3 (source ∷ sources_of l);
})

-- the sources of the reports that no parser recognises, in order
unfoldable pub unrecognised : List Report → List Text
unrecognised [] = []
unrecognised ((source, text) ∷ reports) =
    let rest = unrecognised reports in
    elim (parse_report text) [ none ↦ source ∷ rest | some sig ↦ rest ]

pub find-set_default :
    (k j : Text) (b : Bucket) (bs : Buckets)
    → find_bucket j (set_default k b bs) ≡ (
        if text_eq k j
        then (elim (find_bucket j bs) [ none ↦ some b | some c ↦ some c ])
        else find_bucket j bs)
unfolding find_bucket set_default
find-set_default k j b [] = ground arith
find-set_default k j b ((i, c) ∷ bs) =
    ground (arith, find-set_default k j b bs, text_eq_iff i k, text_eq_iff i j, text_eq_iff k j)

unfoldable pub map_option : (Bucket → Bucket) → Option Bucket → Option Bucket
map_option f none = none
map_option f (some b) = some (f b)

pub find-change :
    (k j : Text) (f : Bucket → Bucket) (bs : Buckets)
    → find_bucket j (change k f bs)
      ≡ (if text_eq k j then map_option f (find_bucket j bs) else find_bucket j bs)
unfolding find_bucket change map_option
find-change k j f [] = ground arith
find-change k j f ((i, c) ∷ bs) =
    ground (arith, find-change k j f bs, text_eq_iff i k, text_eq_iff i j, text_eq_iff k j)

-- one more report with the key
extend : Option Bucket → List (Text × Signature) → Option Bucket
extend o [] = o
extend none ((source, sig) ∷ l) = extend (some (note source (new_bucket sig))) l
extend (some b) ((source, sig) ∷ l) = extend (some (note source b)) l

bucket_or : Option Bucket → Bucket → Bucket
bucket_or none b = b
bucket_or (some c) b = c

find-add_parsed :
    (k source : Text) (sig : Signature) (s : Seen)
    → find_bucket k (add_parsed source (some sig) s).buckets ≡ (
        if text_eq (key sig) k
        then some (note source (bucket_or (find_bucket k s.buckets) (new_bucket sig)))
        else find_bucket k s.buckets)
unfolding add_parsed bucket_or map_option
find-add_parsed k source sig s = rw (find-change, find-set_default) (ground arith)

extend-step :
    (o : Option Bucket) (source : Text) (sig : Signature) (l : List (Text × Signature))
    → extend (some (note source (bucket_or o (new_bucket sig)))) l ≡ extend o ((source, sig) ∷ l)
unfolding extend bucket_or
extend-step none source sig l = refl
extend-step (some b) source sig l = refl

find-collect :
    (k : Text) (reports : List Report) (s : Seen)
    → find_bucket k (collect reports s).buckets
      ≡ extend (find_bucket k s.buckets) (with_key k reports)
unfolding collect with_key extend
find-collect k [] s = refl
find-collect k ((source, text) ∷ reports) s = go (parse_report text) (find-collect k reports)
  where
    go :
        (o : Option Signature)
        → ((s : Seen)
            → find_bucket k (collect reports s).buckets
              ≡ extend (find_bucket k s.buckets) (with_key k reports))
        → find_bucket k (collect reports (add_parsed source o s)).buckets
          ≡ extend (find_bucket k s.buckets) (keep_keyed k source o (with_key k reports))
    go none ih = unfold add_parsed in ih (add_parsed source none s)
    go (some sig) ih = elim (Bool-cases (text_eq (key sig) k)) [
      | inl e ↦
          rw (ih, find-add_parsed, e)
            (extend-step (find_bucket k s.buckets) source sig (with_key k reports))
      | inr e ↦ rw (ih, find-add_parsed, e) refl
    ]

take-nil : (n : ℕ) → take {A = Text} n [] ≡ []
take-nil zero = refl
take-nil (suc n) = refl

-- noting a source and then the others is noting them all
note-take :
    (b : List Text) (x : Text) (xs : List Text)
    → (if ltb (length b) 3 then b ++ x ∷ [] else b)
        ++ take (3 - length (if ltb (length b) 3 then b ++ x ∷ [] else b)) xs
      ≡ b ++ take (3 - length b) (x ∷ xs)
note-take b x xs = elim (Bool-cases (ltb (length b) 3)) [
  | inl e ↦
      let full : 3 - length b ≡ suc (3 - (length b + 1)) = ground arith in
      rw (e, length-append b (x ∷ []), full, append_assoc b (x ∷ []) _) refl
  | inr e ↦ let full : 3 - length b ≡ 0 = ground arith in rw (e, full) refl
]

-- a bucket after further reports of its key
extend-some :
    (b : Bucket) (l : List (Text × Signature))
    → extend (some b) l
      ≡ some (record {
        signature = b.signature;
        count = b.count + length l;
        sources = b.sources ++ take (3 - length b.sources) (sources_of l);
      })
unfolding extend note sources_of
extend-some b [] = ap some (λ i. record {
  signature = b.signature;
  count = sym (add-zero b.count) i;
  sources =
      (sym (append-nil b.sources)
          ∙ ap (λ t. b.sources ++ t) (sym (take-nil (3 - length b.sources))))
        i;
})
extend-some b ((source, sig) ∷ l) =
    extend-some (note source b) l
    ∙ ap some (λ i. record {
      signature = b.signature;
      count = counted i;
      sources = note-take b.sources source (sources_of l) i;
    })
  where
    counted : b.count + 1 + length l ≡ b.count + suc (length l)
    counted = omega arith

extend-none : (l : List (Text × Signature)) → extend none l ≡ bucket_of l
unfolding extend bucket_of sources_of note
extend-none [] = refl
extend-none ((source, sig) ∷ l) =
    extend-some (note source (new_bucket sig)) l
    ∙ ap some (λ i. record {
      signature = sig;
      count = counted i;
      sources = source ∷ take 2 (sources_of l);
    })
  where
    counted : 0 + 1 + length l ≡ suc (length l)
    counted = omega arith

-- Under each key `dedup` holds the bucket that the reports of that key make: none if there are
-- none, and otherwise their first signature, their number, and the first three of their sources.
pub collect-bucket_of :
    (k : Text) (reports : List Report)
    → find_bucket k (collect reports empty_seen).buckets ≡ bucket_of (with_key k reports)
unfolding find_bucket
collect-bucket_of k reports = find-collect k reports empty_seen ∙ extend-none (with_key k reports)

unparsed-collect :
    (reports : List Report) (s : Seen)
    → (collect reports s).unparsed ≡ s.unparsed ++ unrecognised reports
unfolding collect unrecognised
unparsed-collect [] s = sym (append-nil s.unparsed)
unparsed-collect ((source, text) ∷ reports) s = go (parse_report text) (unparsed-collect reports)
  where
    go :
        (o : Option Signature)
        → ((s : Seen) → (collect reports s).unparsed ≡ s.unparsed ++ unrecognised reports)
        → (collect reports (add_parsed source o s)).unparsed
          ≡ s.unparsed
            ++ elim o [ none ↦ source ∷ unrecognised reports | some sig ↦ unrecognised reports ]
    go none ih =
        unfold add_parsed in
        (ih (add_parsed source none s)
          ∙ append_assoc s.unparsed (source ∷ []) (unrecognised reports))
    go (some sig) ih = unfold add_parsed in ih (add_parsed source (some sig) s)

-- The unparsed sources are those of the reports that no parser recognises, in their order.
pub collect-unrecognised :
    (reports : List Report) → (collect reports empty_seen).unparsed ≡ unrecognised reports
collect-unrecognised reports = unparsed-collect reports empty_seen
