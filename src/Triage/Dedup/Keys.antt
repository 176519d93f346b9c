-- ===== src/Triage/Dedup/Keys.antt =====
-- The keys of the dictionary that `dedup` builds, and the exact contents of its result.
use mapfuzz.Base.{
  Text, ◌≡◌, refl, sym, ap, ◌∙◌, true, false, Option, none, some, List, [], ◌∷◌, arith, leb,
  text_eq, text_eq_iff, Bool-cases, inl, inr, ◌↔◌, Elem,
}
use mapfuzz.Triage.Signature.{Signature, key}
use mapfuzz.Triage.Parsers.{parse_report}
use mapfuzz.Triage.Dedup.{
  Bucket, new_bucket, Buckets, find_bucket, set_default, change, note, Seen, add_parsed, Report,
  collect, empty_seen, insert_bucket, sort_buckets, values, dedup,
}
use mapfuzz.Triage.Dedup.Spec.{
  find-set_default, find-change, map_option, bucket_of, with_key, collect-bucket_of,
}

-- Each bucket stands under the key of its signature, and no key stands twice.
abbrev pub Keyed : Buckets → Type 0
Keyed [] = Unit
Keyed ((k, b) ∷ bs) = (key b.signature ≡ k) × (find_bucket k bs ≡ none) × Keyed bs

set_default-Keyed :
    (sig : Signature) (bs : Buckets) → Keyed bs → Keyed (set_default (key sig) (new_bucket sig) bs)
unfolding set_default find_bucket
set_default-Keyed sig [] h = (refl, refl, tt)
set_default-Keyed sig ((j, c) ∷ bs) (e, f, h) = elim (Bool-cases (text_eq j (key sig))) [
  | inl q ↦ rw q (e, f, h)
  | inr q ↦
      let other : text_eq (key sig) j ≡ false =
        ground (arith, text_eq_iff j (key sig), text_eq_iff (key sig) j) in
      rw q (e, (rw (find-set_default, other) f), set_default-Keyed sig bs h)
]

change-none :
    (k j : Text) (f : Bucket → Bucket) (bs : Buckets)
    → find_bucket j bs ≡ none
    → find_bucket j (change k f bs) ≡ none
unfolding map_option
change-none k j f bs h = rw (find-change, h) (ground arith)

change-Keyed : (k source : Text) (bs : Buckets) → Keyed bs → Keyed (change k (note source) bs)
unfolding change find_bucket note map_option
change-Keyed k source [] h = tt
change-Keyed k source ((j, c) ∷ bs) (e, f, h) = elim (Bool-cases (text_eq j k)) [
  | inl q ↦ rw q (e, f, h)
  | inr q ↦ rw q (e, change-none k j (note source) bs f, change-Keyed k source bs h)
]

pub collect-Keyed :
    (reports : List Report) (s : Seen) → Keyed s.buckets → Keyed (collect reports s).buckets
unfolding collect
collect-Keyed [] s h = h
collect-Keyed ((source, text) ∷ reports) s h =
    collect-Keyed reports (add_parsed source (parse_report text) s) (added (parse_report text))
  where
    added : (o : Option Signature) → Keyed (add_parsed source o s).buckets
    added none = unfold add_parsed in h
    added (some sig) =
        unfold add_parsed in
        change-Keyed (key sig) source (set_default (key sig) (new_bucket sig) s.buckets)
          (set_default-Keyed sig s.buckets h)

find-values :
    (k : Text) (b : Bucket) (bs : Buckets) → find_bucket k bs ≡ some b → Elem b (values bs)
unfolding find_bucket values
find-values k b [] h = cc
find-values k b ((j, c) ∷ bs) h = elim (Bool-cases (text_eq j k)) [
  | inl q ↦ inl (ground arith)
  | inr q ↦ inr (find-values k b bs (ground arith))
]

values-find :
    (b : Bucket) (bs : Buckets)
    → Keyed bs
    → Elem b (values bs)
    → find_bucket (key b.signature) bs ≡ some b
unfolding find_bucket values
values-find b [] h m = absurd m
values-find b ((j, c) ∷ bs) (e, f, h) (inl m) =
    let same : text_eq j (key b.signature) ≡ true =
      (text_eq_iff j (key b.signature)).1 (sym e ∙ ap (λ x. key x.signature) (sym m)) in
    rw same (ap some (sym m))
values-find b ((j, c) ∷ bs) (e, f, h) (inr m) =
    ground (arith, values-find b bs h m, text_eq_iff j (key b.signature))

insert_bucket-Elem :
    (x b : Bucket) (bs : List Bucket) → Elem x (insert_bucket b bs) ↔ Elem x (b ∷ bs)
unfolding insert_bucket
insert_bucket-Elem x b [] = (λ h. h, λ h. h)
insert_bucket-Elem x b (c ∷ cs) = elim (Bool-cases (leb c.count b.count)) [
  | inl q ↦ rw q (λ h. h, λ h. h)
  | inr q ↦ rw q (to (insert_bucket-Elem x b cs), from (insert_bucket-Elem x b cs))
]
  where
    to :
        Elem x (insert_bucket b cs) ↔ Elem x (b ∷ cs)
        → Elem x (c ∷ insert_bucket b cs)
        → Elem x (b ∷ c ∷ cs)
    to ih (inl e) = inr (inl e)
    to ih (inr m) = go (ih.0 m)
      where
        go : Elem x (b ∷ cs) → Elem x (b ∷ c ∷ cs)
        go (inl e) = inl e
        go (inr n) = inr (inr n)

    from :
        Elem x (insert_bucket b cs) ↔ Elem x (b ∷ cs)
        → Elem x (b ∷ c ∷ cs)
        → Elem x (c ∷ insert_bucket b cs)
    from ih (inl e) = inr (ih.1 (inl e))
    from ih (inr (inl e)) = inl e
    from ih (inr (inr m)) = inr (ih.1 (inr m))

Elem-cons_iff :
    (x b : Bucket) (cs bs : List Bucket) → Elem x cs ↔ Elem x bs → Elem x (b ∷ cs) ↔ Elem x (b ∷ bs)
Elem-cons_iff x b cs bs e = (λ h. to h, λ h. from h)
  where
    to : Elem x (b ∷ cs) → Elem x (b ∷ bs)
    to (inl q) = inl q
    to (inr m) = inr (e.0 m)

    from : Elem x (b ∷ bs) → Elem x (b ∷ cs)
    from (inl q) = inl q
    from (inr m) = inr (e.1 m)

sort_buckets-Elem : (x : Bucket) (bs : List Bucket) → Elem x (sort_buckets bs) ↔ Elem x bs
unfolding sort_buckets
sort_buckets-Elem x [] = (λ h. h, λ h. h)
sort_buckets-Elem x (b ∷ bs) =
    let inserted = insert_bucket-Elem x b (sort_buckets bs) in
    let rest = Elem-cons_iff x b (sort_buckets bs) bs (sort_buckets-Elem x bs) in
    (λ h. rest.0 (inserted.0 h), λ h. inserted.1 (rest.1 h))

-- A bucket is in the result exactly when it is the one that the reports with its key make: their
-- first signature, their number, and the first three of their sources.
pub dedup_iff :
    (reports : List Report) (b : Bucket)
    → Elem b (dedup reports).0 ↔ (bucket_of (with_key (key b.signature) reports) ≡ some b)
unfolding dedup
dedup_iff reports b = (to, from)
  where
    seen : Buckets
    seen = (collect reports empty_seen).buckets

    to :
        Elem b (sort_buckets (values seen))
        → bucket_of (with_key (key b.signature) reports) ≡ some b
    to h =
        sym (collect-bucket_of (key b.signature) reports)
        ∙ values-find b seen (collect-Keyed reports empty_seen tt)
            ((sort_buckets-Elem b (values seen)).0 h)

    from :
        bucket_of (with_key (key b.signature) reports) ≡ some b
        → Elem b (sort_buckets (values seen))
    from h =
        (sort_buckets-Elem b (values seen)).1
          (find-values (key b.signature) b seen (collect-bucket_of (key b.signature) reports ∙ h))
