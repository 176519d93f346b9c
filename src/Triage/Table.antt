-- ===== src/Triage/Table.antt =====
-- chassis/triage.py: `format_table`. What Python prints for a list of texts is the parameter `shown`.
use mapfuzz.Base.{
  ℕ, ◌-◌, Text, codes, List, [], ◌∷◌, ◌++◌, replicate, length, take, get_or, join, show_nat,
}
use mapfuzz.Triage.Classify.{Verdict, real, shallow, review, classify}
use mapfuzz.Triage.Dedup.{Bucket}

-- `{s:<n}` and `{s:>n}`
unfoldable pub left_aligned : ℕ → Text → Text
left_aligned n s = s ++ replicate (n - length s) b' '

unfoldable pub right_aligned : ℕ → Text → Text
right_aligned n s = replicate (n - length s) b' ' ++ s

abbrev pub verdict_text : Verdict → Text
verdict_text real = codes "real"
verdict_text shallow = codes "shallow"
verdict_text review = codes "review"

-- a line from its columns
unfoldable pub columns : Text → Text → Text → Text → Text → Text
unfolding left_aligned right_aligned
columns count verdict cls location example =
    right_aligned 6 count
    ++ (codes "  "
        ++ (left_aligned 8 verdict
            ++ (codes " "
                ++ (left_aligned 22 cls
                    ++ (codes " " ++ (left_aligned 24 location ++ (codes " " ++ example)))))))

unfoldable pub row : Bucket → Text
unfolding columns
row b =
    columns (show_nat b.count) (verdict_text (classify b.signature).0) b.signature.fault_class
      b.signature.location (get_or b.sources 0 [])

unfoldable pub rows : List Bucket → List Text
unfolding row
rows [] = []
rows (b ∷ bs) = row b ∷ rows bs

module _ (shown : List Text → Text) where
  unfoldable pub unparsed_lines : List Text → List Text
  unparsed_lines [] = []
  unparsed_lines (u ∷ us) =
      []
      ∷ (codes "unparsed reports: "
          ++ (show_nat (length (u ∷ us))
              ++ (codes " (e.g. " ++ (shown (take 2 (u ∷ us)) ++ codes ")"))))
      ∷ []

  unfoldable pub table_lines : List Bucket → List Text → List Text
  unfolding columns rows unparsed_lines
  table_lines buckets unparsed =
      columns (codes "count") (codes "verdict") (codes "class") (codes "location") (codes "example")
      ∷ replicate 90 b'-'
      ∷ (rows buckets ++ unparsed_lines unparsed)

  -- `format_table`
  unfoldable pub format_table : List Bucket → List Text → Text
  unfolding table_lines
  format_table buckets unparsed = join (b'\n' ∷ []) (table_lines buckets unparsed)
