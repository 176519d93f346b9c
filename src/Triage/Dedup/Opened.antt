-- ===== src/Triage/Dedup/Opened.antt =====
-- The order in which `dedup` opens its buckets, told by the keys of the reports alone.
use mapfuzz.Base.{
  Text, ◌≡◌, refl, sym, ap, ◌∙◌, true, false, Option, none, some, List, [], ◌∷◌, ◌++◌, arith,
  text_eq, text_in, text_eq_refl, All-weaken, text_eq_iff, Bool-cases, inl, inr, All, append-nil,
  append_assoc, any, if◌then◌else◌,
}
use mapfuzz.Triage.Signature.{Signature, key}
use mapfuzz.Triage.Parsers.{parse_report}
use mapfuzz.Triage.Dedup.{
  Bucket, new_bucket, Buckets, find_bucket, set_default, change, note, add_parsed, Seen, Report,
  collect, empty_seen, values,
}
use mapfuzz.Triage.Dedup.Spec.{bucket_of, with_key, collect-bucket_of}
use mapfuzz.Triage.Dedup.Keys.{Keyed, collect-Keyed}

abbrev cons_key : Option Signature → List Text → List Text
cons_key none ks = ks
cons_key (some sig) ks = key sig ∷ ks

-- the keys of the parsed reports, in order and with their repetitions
parsed_keys : List Report → List Text
parsed_keys [] = []
parsed_keys ((source, text) ∷ reports) = cons_key (parse_report text) (parsed_keys reports)

-- the keys that are not among `seen`, each where it comes first
first_keys : List Text → List Text → List Text
first_keys seen [] = []
first_keys seen (k ∷ ks) = elim (text_in k seen) [
  | true ↦ first_keys seen ks
  | false ↦ k ∷ first_keys (seen ++ k ∷ []) ks
]

put_found : Option Bucket → List Bucket → List Bucket
put_found none bs = bs
put_found (some b) bs = b ∷ bs

-- what is found under some keys
gather : (Text → Option Bucket) → List Text → List Bucket
unfolding put_found
gather find [] = []
gather find (k ∷ ks) = put_found (find k) (gather find ks)

-- for each key, where it comes first, the bucket that the reports with it make
pub opened : List Report → List Bucket
unfolding gather first_keys parsed_keys bucket_of with_key
opened reports = gather (λ k. bucket_of (with_key k reports)) (first_keys [] (parsed_keys reports))

keys_of : Buckets → List Text
keys_of [] = []
keys_of ((k, b) ∷ bs) = k ∷ keys_of bs

keys_of-change :
    (k : Text) (f : Bucket → Bucket) (bs : Buckets) → keys_of (change k f bs) ≡ keys_of bs
unfolding keys_of change
keys_of-change k f [] = refl
keys_of-change k f ((j, c) ∷ bs) = ground (arith, keys_of-change k f bs)

keys_of-set_default :
    (k : Text) (b : Bucket) (bs : Buckets)
    → keys_of (set_default k b bs)
      ≡ (if text_in k (keys_of bs) then keys_of bs else keys_of bs ++ k ∷ [])
unfolding keys_of set_default any
keys_of-set_default k b [] = refl
keys_of-set_default k b ((j, c) ∷ bs) =
    ground (arith, keys_of-set_default k b bs, text_eq_iff j k, text_eq_iff k j)

keys_of-add_parsed :
    (source : Text) (sig : Signature) (s : Seen)
    → keys_of (add_parsed source (some sig) s).buckets ≡ (
        if text_in (key sig) (keys_of s.buckets)
        then keys_of s.buckets
        else keys_of s.buckets ++ key sig ∷ [])
unfolding add_parsed
keys_of-add_parsed source sig s =
    keys_of-change (key sig) (note source) _
    ∙ keys_of-set_default (key sig) (new_bucket sig) s.buckets

first_keys_known :
    (k : Text) (seen ks : List Text)
    → text_in k seen ≡ true
    → first_keys seen (k ∷ ks) ≡ first_keys seen ks
unfolding first_keys
first_keys_known k seen ks h = rw (h, first_keys) refl

first_keys_new :
    (k : Text) (seen ks : List Text)
    → text_in k seen ≡ false
    → first_keys seen (k ∷ ks) ≡ k ∷ first_keys (seen ++ k ∷ []) ks
unfolding first_keys
first_keys_new k seen ks h = rw (h, first_keys) refl

-- The dictionary has the keys it had, and behind them the new ones, each where it comes first.
keys_of-collect :
    (reports : List Report) (s : Seen)
    → keys_of (collect reports s).buckets
      ≡ keys_of s.buckets ++ first_keys (keys_of s.buckets) (parsed_keys reports)
unfolding collect parsed_keys first_keys
keys_of-collect [] s = sym (append-nil (keys_of s.buckets))
keys_of-collect ((source, text) ∷ reports) s = go (parse_report text) (keys_of-collect reports)
  where
    go :
        (o : Option Signature)
        → ((t : Seen)
            → keys_of (collect reports t).buckets
              ≡ keys_of t.buckets ++ first_keys (keys_of t.buckets) (parsed_keys reports))
        → keys_of (collect reports (add_parsed source o s)).buckets
          ≡ keys_of s.buckets ++ first_keys (keys_of s.buckets) (cons_key o (parsed_keys reports))
    go none ih = unfold add_parsed in ih (add_parsed source none s)
    go (some sig) ih = elim (Bool-cases (text_in (key sig) (keys_of s.buckets))) [
      | inl t ↦
          rw (ih, keys_of-add_parsed, t)
            (ap (λ ks. keys_of s.buckets ++ ks) (sym (first_keys_known _ (keys_of s.buckets) _ t)))
      | inr f ↦
          rw (ih, keys_of-add_parsed, f)
            (append_assoc (keys_of s.buckets) (key sig ∷ []) _
              ∙ ap (λ ks. keys_of s.buckets ++ ks) (sym (first_keys_new _ (keys_of s.buckets) _ f)))
    ]

gather-same :
    (f g : Text → Option Bucket) (ks : List Text)
    → All (λ k. f k ≡ g k) ks
    → gather f ks ≡ gather g ks
unfolding gather put_found
gather-same f g [] h = refl
gather-same f g (k ∷ ks) (e, h) = λ i. put_found (e i) (gather-same f g ks h i)

-- a key that is not found is none of the keys
other_keys :
    (j : Text) (bs : Buckets)
    → find_bucket j bs ≡ none
    → All (λ k. text_eq j k ≡ false) (keys_of bs)
unfolding find_bucket keys_of
other_keys j [] h = tt
other_keys j ((i, c) ∷ bs) h = elim (Bool-cases (text_eq i j)) [
  | inl t ↦ cc
  | inr f ↦ (ground (arith, text_eq_iff i j, text_eq_iff j i), other_keys j bs (ground arith))
]

values-gather : (bs : Buckets) → Keyed bs → values bs ≡ gather (λ k. find_bucket k bs) (keys_of bs)
unfolding values gather keys_of find_bucket put_found
values-gather [] h = refl
values-gather ((j, c) ∷ bs) (e, f, h) =
    let rest : values bs ≡ gather (λ k. find_bucket k ((j, c) ∷ bs)) (keys_of bs) =
      values-gather bs h
      ∙ gather-same _ _ (keys_of bs)
          (All-weaken _ _ (keys_of bs) (λ k q. skip k q) (other_keys j bs f)) in
    λ i. put_found (sym head i) (rest i)
  where
    skip :
        (k : Text)
        → text_eq j k ≡ false
        → find_bucket k bs ≡ (if text_eq j k then some c else find_bucket k bs)
    skip k q = rw q refl

    head : (if text_eq j j then some c else find_bucket j bs) ≡ some c
    head = rw (text_eq_refl j) refl

-- The dictionary holds the buckets of the reports in the order in which their keys come first.
pub values-collect :
    (reports : List Report) → values (collect reports empty_seen).buckets ≡ opened reports
unfolding opened keys_of
values-collect reports =
    values-gather _ (collect-Keyed reports empty_seen tt)
    ∙ (λ i. gather (λ k. collect-bucket_of k reports i) (keys_of-collect reports empty_seen i))
