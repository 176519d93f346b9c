-- ===== src/Triage/Dedup/Order.antt =====
-- The order of the buckets that `dedup` returns, and that sorting and collecting lose no report.
use mathlib.Core.List.{Perm}
use mathlib.Core.List.Perm
use mapfuzz.Base.{
  ℕ, suc, ◌+◌, ◌≤◌, Text, ◌≡◌, refl, ap, subst, ◌∙◌, Option, none, some, List, [], ◌∷◌, arith, leb,
  ◌==◌, text_eq_refl, length, length-append, if◌then◌else◌, Bool-cases, inl, inr, All, All-weaken,
}
use mapfuzz.Triage.Signature.{Signature, key}
use mapfuzz.Triage.Parsers.{parse_report}
use mapfuzz.Triage.Dedup.Opened.{opened, values-collect}
use mapfuzz.Triage.Dedup.{
  Bucket, new_bucket, Buckets, set_default, change, note, Seen, add_parsed, Report, collect,
  empty_seen, insert_bucket, sort_buckets, values, dedup,
}

-- no bucket counts more than one before it
abbrev pub Descending : List Bucket → Type 0
Descending [] = Unit
Descending (b ∷ bs) = All (λ c. c.count ≤ b.count) bs × Descending bs

insert_bucket-perm : (b : Bucket) (bs : List Bucket) → Perm (insert_bucket b bs) (b ∷ bs)
unfolding insert_bucket
insert_bucket-perm b [] = Perm.rfl
insert_bucket-perm b (c ∷ cs) = elim (Bool-cases (leb c.count b.count)) [
  | inl e ↦ rw e Perm.rfl
  | inr e ↦ rw e (Perm.trans (Perm.cons c (insert_bucket-perm b cs)) (Perm.swap b c cs))
]

-- Sorting the buckets rearranges them.
pub sort_buckets-perm : (bs : List Bucket) → Perm (sort_buckets bs) bs
unfolding sort_buckets
sort_buckets-perm [] = Perm.rfl
sort_buckets-perm (b ∷ bs) =
    Perm.trans (insert_bucket-perm b (sort_buckets bs)) (Perm.cons b (sort_buckets-perm bs))

insert_bucket-All :
    (P : Bucket → Type 0) (b : Bucket) (bs : List Bucket)
    → P b
    → All P bs
    → All P (insert_bucket b bs)
unfolding insert_bucket
insert_bucket-All P b [] p h = (p, tt)
insert_bucket-All P b (c ∷ cs) p (q, h) = elim (Bool-cases (leb c.count b.count)) [
  | inl e ↦ rw e (p, (q, h))
  | inr e ↦ rw e (q, insert_bucket-All P b cs p h)
]

insert_bucket-Descending :
    (b : Bucket) (bs : List Bucket) → Descending bs → Descending (insert_bucket b bs)
unfolding insert_bucket
insert_bucket-Descending b [] d = (tt, tt)
insert_bucket-Descending b (c ∷ cs) (h, d) = elim (Bool-cases (leb c.count b.count)) [
  | inl e ↦
      let below : c.count ≤ b.count = ground arith in
      rw e ((below, All-weaken _ _ cs (λ x le. omega arith) h), (h, d))
  | inr e ↦
      let above : b.count ≤ c.count = ground arith in
      rw e
        (insert_bucket-All (λ x. x.count ≤ c.count) b cs above h, insert_bucket-Descending b cs d)
]

pub sort_buckets-Descending : (bs : List Bucket) → Descending (sort_buckets bs)
unfolding sort_buckets
sort_buckets-Descending [] = tt
sort_buckets-Descending (b ∷ bs) =
    insert_bucket-Descending b (sort_buckets bs) (sort_buckets-Descending bs)

-- the buckets that count `n` reports, in order
unfoldable pub with_count : ℕ → List Bucket → List Bucket
with_count n [] = []
with_count n (b ∷ bs) = if b.count == n then b ∷ with_count n bs else with_count n bs

insert_bucket-with_count :
    (n : ℕ) (b : Bucket) (bs : List Bucket)
    → with_count n (insert_bucket b bs) ≡ with_count n (b ∷ bs)
unfolding insert_bucket with_count
insert_bucket-with_count n b [] = refl
insert_bucket-with_count n b (c ∷ cs) = ground (arith, insert_bucket-with_count n b cs)

-- Sorting is stable: buckets with the same count stay in the order in which they were opened.
pub sort_buckets-with_count :
    (n : ℕ) (bs : List Bucket) → with_count n (sort_buckets bs) ≡ with_count n bs
unfolding sort_buckets with_count
sort_buckets-with_count n [] = refl
sort_buckets-with_count n (b ∷ bs) =
    insert_bucket-with_count n b (sort_buckets bs) ∙ ground (arith, sort_buckets-with_count n bs)

unfoldable pub total_count : List Bucket → ℕ
total_count [] = 0
total_count (b ∷ bs) = b.count + total_count bs

insert_bucket-total :
    (b : Bucket) (bs : List Bucket) → total_count (insert_bucket b bs) ≡ b.count + total_count bs
unfolding insert_bucket total_count
insert_bucket-total b [] = refl
insert_bucket-total b (c ∷ cs) = ground (arith, insert_bucket-total b cs)

sort_buckets-total : (bs : List Bucket) → total_count (sort_buckets bs) ≡ total_count bs
unfolding sort_buckets total_count
sort_buckets-total [] = refl
sort_buckets-total (b ∷ bs) =
    omega (arith, insert_bucket-total b (sort_buckets bs), sort_buckets-total bs)

-- noting a source under a key that has a bucket, or gets an empty one, counts one report more
change-total :
    (k source : Text) (sig : Signature) (bs : Buckets)
    → total_count (values (change k (note source) (set_default k (new_bucket sig) bs)))
      ≡ suc (total_count (values bs))
unfolding change set_default values note total_count
change-total k source sig [] = rw (text_eq_refl k) refl
change-total k source sig ((j, c) ∷ bs) = ground (arith, change-total k source sig bs)

collect-total :
    (reports : List Report) (s : Seen)
    → total_count (values (collect reports s).buckets) + length (collect reports s).unparsed
      ≡ total_count (values s.buckets) + length s.unparsed + length reports
unfolding collect
collect-total [] s = omega arith
collect-total ((source, text) ∷ reports) s = go (parse_report text) (collect-total reports)
  where
    go :
        (o : Option Signature)
        → ((t : Seen)
            → total_count (values (collect reports t).buckets) + length (collect reports t).unparsed
              ≡ total_count (values t.buckets) + length t.unparsed + length reports)
        → total_count (values (collect reports (add_parsed source o s)).buckets)
            + length (collect reports (add_parsed source o s)).unparsed
          ≡ total_count (values s.buckets) + length s.unparsed + suc (length reports)
    go none ih =
        unfold add_parsed in
        omega (arith, ih (add_parsed source none s), length-append s.unparsed (source ∷ []))
    go (some sig) ih =
        unfold add_parsed in
        omega
          (arith, ih (add_parsed source (some sig) s), change-total (key sig) source sig s.buckets)

-- Every report is counted once: the counts of the buckets and the number of unparsed sources add
-- up to the number of reports.
pub dedup-total :
    (reports : List Report)
    → total_count (dedup reports).0 + length (dedup reports).1 ≡ length reports
unfolding dedup values total_count
dedup-total reports = omega (
  arith,
  collect-total reports empty_seen,
  sort_buckets-total (values (collect reports empty_seen).buckets),
)

-- The buckets come with the largest count first; those with equal counts stand in the order in which
-- their keys come first among the parsed reports; and the result is, rearranged, one bucket for each
-- of those keys, the one that the reports with the key make.
pub dedup-order :
    (reports : List Report)
    → Descending (dedup reports).0
      × ((n : ℕ) → with_count n (dedup reports).0 ≡ with_count n (opened reports))
      × Perm (dedup reports).0 (opened reports)
unfolding dedup
dedup-order reports =
    let bs = values (collect reports empty_seen).buckets in
    let same = values-collect reports in
    (
      sort_buckets-Descending bs,
      λ n. sort_buckets-with_count n bs ∙ ap (with_count n) same,
      subst (Perm (sort_buckets bs)) same (sort_buckets-perm bs),
    )
