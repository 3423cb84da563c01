-- ===== src/Tests/Scans.antt =====
-- backend/src/domain/scans: one scan of one target.
use sentinel_gpt.Common.{
  ℕ, ◌≡◌, ◌||◌, refl, Bool, true, false, some, [], ◌∷◌, nat_eq, contains, ◌==◌,
}
use sentinel_gpt.Common.Table.{get}
use sentinel_gpt.Common.Text.{Text, codes, text_eq}
use sentinel_gpt.Errors.{Error, ok}
use sentinel_gpt.Action.Outcome.{Yields}
use sentinel_gpt.Scans.Lifecycle.{
  ScanStatus, queued, running, ai_analysis, rejected, status_eq, is_terminal,
}
use sentinel_gpt.Scans.Lifecycle.Laws.{stays}
use sentinel_gpt.Scans.Store.{attestation_active}
use sentinel_gpt.Scans.Requests.{
  create_scan, cancel_scan, visible_scan, seen_by, latest_active_confirmed,
}
use sentinel_gpt.Scans.Requests.Created.{IsAuthorizedIn, create_scan-IsAuthorizedIn}
use sentinel_gpt.Scans.Requests.Moves.{CancelOutcome, cancel_scan_lem}
use sentinel_gpt.Scans.Findings.{record_lifecycle, previous_scan_id, fingerprints_of, latest_status}
use sentinel_gpt.Scans.Findings.History.{Verdict, record_lifecycle-Verdict}
use sentinel_gpt.Scans.Job.{execute_scan_job, still_active}
use sentinel_gpt.Scans.Job.Moves.{Tracks, MovesOnly}
use sentinel_gpt.Scans.Job.Gate.{execute_scan_job-gate}
use sentinel_gpt.Scans.Worker.{execute_scan_job_task}
use sentinel_gpt.Scans.Worker.Recovery.{execute_scan_job_task-Tracks}
use sentinel_gpt.Tests.Rows.{scan_in, attestation_as, database, session, worker}

idle-MovesOnly : MovesOnly (λ db. db)
idle-MovesOnly db id c stored = (c, stored, stays)

found :
    (status : ScanStatus) (valid : Bool)
    → get 9 (database status valid).scans ≡ some (scan_in status)
unfolding get nat_eq
found status valid = refl

create_scan-IsAuthorizedIn_example :
    Yields
      (session queued true)
      (λ d _. (user : ℕ) × (some 1 ≡ some user) × IsAuthorizedIn (session queued true) user 5 d)
      (create_scan (some 1) 5 (codes "standard"))
create_scan-IsAuthorizedIn_example =
    create_scan-IsAuthorizedIn (some 1) 5 (codes "standard") (session queued true) (tt, tt)

newest :
    latest_active_confirmed 100 5 (database queued true).attestations
    ≡ some (6, attestation_as true)
unfolding latest_active_confirmed attestation_active nat_eq
newest = refl

seen : visible_scan (some 1) 9 (session ai_analysis true) ≡ ok (scan_in ai_analysis)
unfolding visible_scan get seen_by nat_eq
seen = refl

cancel_scan_lem_example :
    CancelOutcome
      (is_terminal ai_analysis || ai_analysis == running)
      9
      (scan_in ai_analysis)
      (session ai_analysis true)
      (cancel_scan (some 1) 9 (session ai_analysis true))
cancel_scan_lem_example =
    cancel_scan_lem (some 1) 9 (session ai_analysis true) (scan_in ai_analysis) (tt, tt) seen

no_authority : still_active 100 (get 6 (database queued false).attestations) ≡ false
unfolding get attestation_active nat_eq
no_authority = refl

execute_scan_job-gate_example : (execute_scan_job worker 9 (session queued false)).1.scanned ≡ []
execute_scan_job-gate_example =
    execute_scan_job-gate worker 9 (scan_in queued) (session queued false) (tt, tt)
      (found queued false) (λ _. no_authority)

abbrev class_name : Error → Text
class_name e = codes "Exception"

execute_scan_job_task-Tracks_example :
    Tracks queued 9 (execute_scan_job_task worker class_name 9 (session queued true)).1
execute_scan_job_task-Tracks_example =
    execute_scan_job_task-Tracks worker class_name 9 9 queued (session queued true) idle-MovesOnly
      idle-MovesOnly
      ((scan_in queued, found queued true, stays), (scan_in queued, found queued true, stays))

is_terminal_rejected : is_terminal rejected ≡ true
unfolding is_terminal
is_terminal_rejected = refl

record_lifecycle-Verdict_example :
    Verdict
      (contains (codes "f" ∷ []) (codes "f"))
      (contains
        (fingerprints_of
          (previous_scan_id 5 9 (database queued true).scans)
          (database queued true).findings)
        (codes "f"))
      (latest_status 5 (codes "f") [])
      (latest_status 5
        (codes "f")
        (record_lifecycle 5 9 (codes "f" ∷ []) (database queued true)).history)
record_lifecycle-Verdict_example =
    record_lifecycle-Verdict 5 9 (codes "f" ∷ []) (database queued true) (codes "f")
