-- ===== src/Triage/Main/Gate.antt =====
-- The gate fires exactly when one of the reports is a real finding: collapsing reports into buckets
-- hides none.
use mapfuzz.Base.{
  ℕ, Text, ◌≡◌, refl, sym, ap, ◌∙◌, Bool, true, Option, none, some, List, [], ◌∷◌, ◌++◌, arith, all,
  any, any-Elem, Elem-any, text_eq, text_eq_iff, text_eq_refl, if◌then◌else◌, Bool-cases, inl, inr,
  ◌↔◌, Elem,
}
use mapfuzz.Triage.Signature.{Signature, key, at_sign}
use mapfuzz.Triage.Parsers.{parse_report}
use mapfuzz.Triage.Parsers.Classes.{IsClassName, parse_report-IsClassName}
use mapfuzz.Triage.Classify.{is_real, classify}
use mapfuzz.Triage.Dedup.{Bucket, Report, dedup}
use mapfuzz.Triage.Dedup.Spec.{with_key, keep_keyed, bucket_of}
use mapfuzz.Triage.Dedup.Keys.{dedup_iff}
use mapfuzz.Triage.Main.{exit_status}

-- a report that is parsed into a signature which is judged real
pub record RealFinding (reports : List Report) : Type 0 where
  pub report : Report
  pub given : Elem report reports
  pub signature : Signature
  pub parsed : parse_report report.1 ≡ some signature
  pub judged : is_real signature ≡ true

-- A key names its class: the class ends before the first `@`.
class_of_key :
    (c d l m : Text) → IsClassName c → IsClassName d → c ++ at_sign ∷ l ≡ d ++ at_sign ∷ m → c ≡ d
unfolding all
class_of_key [] [] l m h k e = refl
class_of_key [] (b ∷ d) l m h k e = ground arith
class_of_key (a ∷ c) [] l m h k e = ground arith
class_of_key (a ∷ c) (b ∷ d) l m h k e = ground (arith, class_of_key c d l m)

-- Signatures with one key are judged alike.
same_key :
    (s t : Signature)
    → IsClassName s.fault_class
    → IsClassName t.fault_class
    → key s ≡ key t
    → is_real s ≡ is_real t
unfolding key is_real classify
same_key s t h k e = rw (class_of_key s.fault_class t.fault_class s.location t.location h k e) refl

record KeyedReport (k : Text) (source : Text) (sig : Signature) (reports : List Report)
    : Type 0 where
  text : Text
  given : Elem (source, text) reports
  parsed : parse_report text ≡ some sig
  keyed : key sig ≡ k

with_key-KeyedReport :
    (k source : Text) (sig : Signature) (reports : List Report)
    → Elem (source, sig) (with_key k reports)
    → KeyedReport k source sig reports
unfolding with_key
with_key-KeyedReport k source sig [] m = absurd m
with_key-KeyedReport k source sig ((s, t) ∷ reports) m =
    go (parse_report t) refl m (with_key-KeyedReport k source sig reports)
  where
    older : KeyedReport k source sig reports → KeyedReport k source sig ((s, t) ∷ reports)
    older r = record { text = r.text; given = inr r.given; parsed = r.parsed; keyed = r.keyed }

    newest :
        (sig' : Signature)
        → parse_report t ≡ some sig'
        → text_eq (key sig') k ≡ true
        → Elem (source, sig) ((s, sig') ∷ with_key k reports)
        → (Elem (source, sig) (with_key k reports) → KeyedReport k source sig reports)
        → KeyedReport k source sig ((s, t) ∷ reports)
    newest sig' e q (inl p) ih =
        let same : sig ≡ sig' = ap (λ (x : Text × Signature). x.1) p in
        record {
          text = t;
          given = inl (λ i. ((p i).0, t));
          parsed = e ∙ ap some (sym same);
          keyed = ap key same ∙ (text_eq_iff (key sig') k).0 q;
        }
    newest sig' e q (inr n) ih = older (ih n)

    go :
        (o : Option Signature)
        → parse_report t ≡ o
        → Elem (source, sig) (keep_keyed k s o (with_key k reports))
        → (Elem (source, sig) (with_key k reports) → KeyedReport k source sig reports)
        → KeyedReport k source sig ((s, t) ∷ reports)
    go none e m ih = older (ih m)
    go (some sig') e m ih = elim (Bool-cases (text_eq (key sig') k)) [
      | inl q ↦ newest sig' e q (rw q at m) ih
      | inr q ↦ older (ih (rw q at m))
    ]

KeyedReport-with_key :
    (source text : Text) (sig : Signature) (reports : List Report)
    → Elem (source, text) reports
    → parse_report text ≡ some sig
    → Elem (source, sig) (with_key (key sig) reports)
unfolding with_key
KeyedReport-with_key source text sig [] m p = absurd m
KeyedReport-with_key source text sig ((s, t) ∷ reports) (inl e) p =
    let parsed : parse_report t ≡ some sig = ap (λ (r : Report). parse_report r.1) (sym e) ∙ p in
    rw (parsed, text_eq_refl (key sig)) (inl (ap (λ (r : Report). (r.0, sig)) e))
KeyedReport-with_key source text sig ((s, t) ∷ reports) (inr m) p =
    later (parse_report t) (KeyedReport-with_key source text sig reports m p)
  where
    later :
        (o : Option Signature)
        → Elem (source, sig) (with_key (key sig) reports)
        → Elem (source, sig) (keep_keyed (key sig) s o (with_key (key sig) reports))
    later none h = h
    later (some sig') h = elim (Bool-cases (text_eq (key sig') (key sig))) [
      | inl q ↦ rw q (inr h)
      | inr q ↦ rw q h
    ]

-- the reports of a bucket, and the bucket of some reports
bucket_of-head :
    (l : List (Text × Signature)) (b : Bucket)
    → bucket_of l ≡ some b
    → (source : Text) × Elem (source, b.signature) l
unfolding bucket_of
bucket_of-head [] b h = cc
bucket_of-head ((source, sig) ∷ l) b h = (source, inl (λ i. (source, same (sym h) i)))
  where
    same : some b ≡ bucket_of ((source, sig) ∷ l) → b.signature ≡ sig
    same e = cc

bucket_of-some :
    (l : List (Text × Signature)) (x : Text × Signature)
    → Elem x l
    → (b : Bucket) × (bucket_of l ≡ some b)
unfolding bucket_of
bucket_of-some [] x m = absurd m
bucket_of-some (y ∷ l) x m = (_, refl)

bucket-RealFinding :
    (reports : List Report) (b : Bucket)
    → Elem b (dedup reports).0
    → is_real b.signature ≡ true
    → RealFinding reports
bucket-RealFinding reports b m h =
    let k = key b.signature in
    let (source, n) = bucket_of-head (with_key k reports) b ((dedup_iff reports b).0 m) in
    let r = with_key-KeyedReport k source b.signature reports n in
    record {
      report = (source, r.text);
      given = r.given;
      signature = b.signature;
      parsed = r.parsed;
      judged = h;
    }

RealFinding-bucket :
    (reports : List Report)
    → RealFinding reports
    → (b : Bucket) × Elem b (dedup reports).0 × (is_real b.signature ≡ true)
RealFinding-bucket reports f =
    let k = key f.signature in
    let hit = KeyedReport-with_key f.report.0 f.report.1 f.signature reports f.given f.parsed in
    let (b, made) = bucket_of-some (with_key k reports) (f.report.0, f.signature) hit in
    let (source, n) = bucket_of-head (with_key k reports) b made in
    let r = with_key-KeyedReport k source b.signature reports n in
    let alike =
      same_key b.signature f.signature (parse_report-IsClassName r.text b.signature r.parsed)
        (parse_report-IsClassName f.report.1 f.signature f.parsed) r.keyed in
    (b, (dedup_iff reports b).1 (rw r.keyed made), alike ∙ f.judged)

-- `main` exits with 1 exactly when one of the reports is parsed and judged real.
pub exit_status_iff : (reports : List Report) → (exit_status reports ≡ 1) ↔ RealFinding reports
unfolding exit_status
exit_status_iff reports = (to, from)
  where
    fires : Bool
    fires = any (λ b. is_real b.signature) (dedup reports).0

    found : fires ≡ true → RealFinding reports
    found h =
        let (b, m, t) = any-Elem (λ b. is_real b.signature) (dedup reports).0 h in
        bucket-RealFinding reports b m t

    to : ◌≡◌ {A = ℕ} (if fires then 1 else 0) 1 → RealFinding reports
    to e = found (ground arith)

    from : RealFinding reports → ◌≡◌ {A = ℕ} (if fires then 1 else 0) 1
    from f =
        let (b, m, t) = RealFinding-bucket reports f in
        rw (Elem-any (λ b. is_real b.signature) b (dedup reports).0 m t) refl
