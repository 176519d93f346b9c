-- ===== src/Triage/Main.antt =====
-- chassis/triage.py: `main`, with the exit status by which continuous integration is gated.
pub mod Gate
pub mod Status
pub mod Corruption
use mapfuzz.Base.{ℕ, Text, List, any, if◌then◌else◌}
use mapfuzz.Triage.Classify.{is_real}
use mapfuzz.Triage.Dedup.{Bucket, Report, dedup}
use mapfuzz.Triage.Inputs.{Node, iter_inputs}
use mapfuzz.Triage.Table.{format_table}

-- the status for the reports that `_iter_inputs` yields
unfoldable pub exit_status : List Report → ℕ
unfolding dedup any
exit_status reports = if any (λ b. is_real b.signature) (dedup reports).0 then 1 else 0

-- what `main` prints, and the status that it returns
unfoldable pub run_main : (List Text → Text) → (Text → Node) → Text → List Text → Text × ℕ
unfolding exit_status format_table iter_inputs
run_main shown node stdin argv =
    let reports = iter_inputs node stdin argv in
    let (buckets, unparsed) = dedup reports in
    (format_table shown buckets unparsed, exit_status reports)
