-- ===== src/Triage/Main/Status.antt =====
-- The exit status of `main` over the file system and the command line.
use mapfuzz.Base.{Text, ◌≡◌, refl, some, List, true, ◌↔◌}
use mapfuzz.Triage.Signature.{Signature}
use mapfuzz.Triage.Parsers.{parse_report}
use mapfuzz.Triage.Classify.{is_real}
use mapfuzz.Triage.Dedup.{Report}
use mapfuzz.Triage.Inputs.{Node, iter_inputs}
use mapfuzz.Triage.Inputs.Listing.{IsInput, iter_inputs_iff}
use mapfuzz.Triage.Inputs.Order.{SameNode, iter_inputs-same}
use mapfuzz.Triage.Main.{run_main, exit_status}
use mapfuzz.Triage.Main.Gate.{exit_status_iff}

-- some input is parsed into a signature that is judged real
abbrev pub SomeReal : (Text → Node) → Text → List Text → Type 0
SomeReal node stdin argv =
    (r : Report) × IsInput node stdin argv r
    × ((s : Signature) × (parse_report r.1 ≡ some s) × (is_real s ≡ true))

-- The status is 1 exactly when a regular file under the given paths, or the standard input where no
-- path is given, holds a report that is parsed and judged real.
pub run_main_iff :
    (shown : List Text → Text) (node : Text → Node) (stdin : Text) (argv : List Text)
    → ((run_main shown node stdin argv).1 ≡ 1) ↔ SomeReal node stdin argv
unfolding run_main
run_main_iff shown node stdin argv = (to, from)
  where
    inputs : List Report
    inputs = iter_inputs node stdin argv

    to : exit_status inputs ≡ 1 → SomeReal node stdin argv
    to e =
        let f = (exit_status_iff inputs).0 e in
        (
          f.report,
          (iter_inputs_iff node stdin argv f.report).0 f.given,
          (f.signature, f.parsed, f.judged),
        )

    from : SomeReal node stdin argv → exit_status inputs ≡ 1
    from (r, i, (s, p, j)) = (exit_status_iff inputs).1 (record {
      report = r;
      given = (iter_inputs_iff node stdin argv r).1 i;
      signature = s;
      parsed = p;
      judged = j;
    })

-- What `main` prints and returns does not depend on the order in which the file system lists the
-- names of a directory, where no name is listed twice.
pub run_main-same :
    (shown : List Text → Text) (node node' : Text → Node)
    → ((p : Text) → SameNode (node p) (node' p))
    → (stdin : Text) (argv : List Text)
    → run_main shown node stdin argv ≡ run_main shown node' stdin argv
unfolding run_main
run_main-same shown node node' same stdin argv =
    rw (iter_inputs-same node node' same stdin argv) refl
