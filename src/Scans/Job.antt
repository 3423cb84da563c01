-- ===== src/Scans/Job.antt =====
-- backend/src/domain/scans/scan_service.py: `execute_scan_job`, in its transactions. The pipeline and
-- the analyzer are given; `during_scan` and `during_analysis` are what other sessions commit while
-- this one runs them and holds no transaction.
pub mod Moves
pub mod Runs
pub mod Gate
pub mod Rejects
pub mod Rows
pub mod Completes
use sentinel_gpt.Common.{
  ℕ, suc, Bool, true, false, not, ◌==◌, nat_eq, Option, none, some, List, [], ◌∷◌, ◌++◌, map,
  if◌then◌else◌, ◌&&◌, ◌||◌, contains, take,
}
use sentinel_gpt.Common.Table.{Table, get, add, update}
use sentinel_gpt.Common.Text.{Text, codes, text_eq, Unicode, rstrip}
use sentinel_gpt.Errors.{
  Error, Result, ok, err, not_found, key_error, lookup_error, attestation_not_confirmed,
  scanner_execution_blocked, target_unresolved, other_exception,
}
use sentinel_gpt.Action.{Action, pure, raise, lift, asks, reads, refuse_if, ◌>>=◌, ◌>>◌}
use sentinel_gpt.Scans.Lifecycle.{
  ScanStatus, queued, running, rejected, scan_complete, ai_analysis, report_ready,
  report_ready_degraded,
}
use sentinel_gpt.Scans.Store.{
  Scan, Target, Attestation, Execution, StoredFinding, Assessment, Database, Value, text, key,
  attestation_active, execution_running, execution_failed, execution_succeeded,
}
use sentinel_gpt.Scans.Store.Session.{
  Session, commit, elsewhere, rolled_back, write, uuid4, try_transition, record_audit,
  create_execution, mark_execution,
}
use sentinel_gpt.Scans.Findings.{
  Finding, map_category, canonical_category_code, record_lifecycle, cons_new,
}
use sentinel_gpt.Scans.Inputs.{
  Origin, PipelineResult, analysed, failed, AiOutcome, not_configured, unavailable, available,
  Worker, origin_of, FindingIdentity, finding_identity, finding_rows, finding_fingerprint,
  engine_of,
}

abbrev queued_code : Text
queued_code = codes "QUEUED"

abbrev running_code : Text
running_code = codes "RUNNING"

abbrev rejected_code : Text
rejected_code = codes "REJECTED"

-- `audit.record` of a move of the scan
audit_move : ℕ → Text → Text → Option Text → ℕ → Action Session (Unit {0})
audit_move id from to reason owner =
    record_audit none (codes "SCAN_STATE_TRANSITION") (codes "scan") id (
      (codes "from", text from)
        ∷ (codes "to", text to)
        ∷ (elim reason [ none ↦ [] | some r ↦ (codes "reason", text r) ∷ [] ])
      ++ ((codes "ownerUserId", key owner) ∷ []))

abbrev pub still_active : ℕ → Option Attestation → Bool
still_active now none = false
still_active now (some a) = attestation_active now a

abbrev or_not_found : Option Target → Result Target
or_not_found none = err not_found
or_not_found (some t) = ok t

-- A move whose result the job does not read
move : ℕ → ScanStatus → ScanStatus → Option ℕ → Action Session (Unit {0})
move id from to completed = do moved ← try_transition id from to none completed; pure tt

reject_unattested : Worker → ℕ → Scan → Action Session (Unit {0})
unfolding audit_move move
reject_unattested w id scan = do
  now ← asks (λ s. s.clock)
  audit_move id queued_code rejected_code (some (codes "authorization attestation no longer valid"))
      scan.initiated_by_user_id
  refuse_if (not w.headers_seeded) lookup_error
  execution ← create_execution id (codes "headers-analyzer") (codes "unknown") execution_failed none
  mark_execution execution execution_failed
      (some (codes "authorization attestation no longer valid"))
  move id running rejected (some now)
  commit

reject_failed : ℕ → Scan → ℕ → Text → Action Session (Unit {0})
unfolding audit_move move
reject_failed id scan execution reason = do
  now ← asks (λ s. s.clock)
  mark_execution execution execution_failed (some reason)
  audit_move id running_code rejected_code (some reason) scan.initiated_by_user_id
  move id running rejected (some now)
  commit

-- `add_findings`
add_findings : List StoredFinding → Action Session (Unit {0})
add_findings [] = pure tt
add_findings (row ∷ rows) = do
  id ← uuid4
  write (λ db. record db { findings = add id row db.findings })
  add_findings rows

-- The history is written only for a scan and a target that were found.
abbrev lifecycle_step : Option ℕ → Option ℕ → List Text → Database → Database
lifecycle_step none scan_id current db = db
lifecycle_step (some target_id) none current db = db
lifecycle_step (some target_id) (some scan_id) current db =
    record_lifecycle target_id scan_id current db

abbrev distinct : List (Option Text) → List Text
distinct [] = []
distinct (fp ∷ fps) = cons_new fp (distinct fps)

persist_findings : Worker → ℕ → List Finding → Action Session (Unit {0})
unfolding add_findings text_eq
persist_findings w execution findings = do
  db ← asks (λ s. s.working)
  let identity = finding_identity db execution
  rows ← lift (finding_rows w execution identity (engine_of (get execution db.executions)) findings)
  add_findings rows
  write (
      lifecycle_step identity.target_id identity.scan_id
        (distinct (map (λ row. row.fingerprint) rows)))

abbrev assessment_of : ℕ → AiOutcome → Assessment
assessment_of execution not_configured = record {
  execution_id = execution;
  provider = codes "none";
  model = codes "unavailable";
  is_available = false;
  failure_kind = some (codes "provider_unavailable");
}
assessment_of execution (unavailable kind) = record {
  execution_id = execution;
  provider = codes "none";
  model = codes "unavailable";
  is_available = false;
  failure_kind = some kind;
}
assessment_of execution (available provider model) = record {
  execution_id = execution;
  provider = provider;
  model = model;
  is_available = true;
  failure_kind = none;
}

-- `upsert_ai_assessment`: one row for each execution, kept under the execution's key.
upsert : ℕ → Assessment → Database → Database
upsert execution row db = record db {
  assessments = elim (get execution db.assessments) [
    | none ↦ add execution row db.assessments
    | some old ↦ update execution (λ _. row) db.assessments
  ];
}

abbrev pub final_status : AiOutcome → ScanStatus
final_status (available _ _) = report_ready
final_status _ = report_ready_degraded

module _ (w : Worker) where
  -- The third transaction
  analysis_stage : ℕ → ℕ → List Finding → Action Session (Unit {0})
  unfolding move upsert
  analysis_stage id execution findings = do
    outcome ← lift (w.analyze findings)
    now ← asks (λ s. s.clock)
    write (upsert execution (assessment_of execution outcome))
    move id ai_analysis (final_status outcome) (some now)
    commit

  -- The second transaction, after the pipeline's result
  result_stage : ℕ → Scan → ℕ → PipelineResult → Action Session (Unit {0})
  unfolding reject_failed audit_move move persist_findings
  result_stage id scan execution (failed reason) = reject_failed id scan execution reason
  result_stage id scan execution (analysed findings) = do
    audit_move id running_code (codes "EXECUTION_SUCCEEDED") none scan.initiated_by_user_id
    mark_execution execution execution_succeeded none
    persist_findings w execution findings
    move id running scan_complete none
    move id scan_complete ai_analysis none
    commit
    elsewhere w.during_analysis
    analysis_stage id execution findings

  -- `run_in_executor(pipeline.run)`, which the session records
  run_pipeline : ℕ → Origin → Action Session PipelineResult
  run_pipeline id origin s = (ok (w.run origin), record s { scanned = id ∷ s.scanned })

  -- The end of the first transaction, and what follows
  chain_stage : ℕ → Scan → Action Session (Unit {0})
  unfolding run_pipeline result_stage
  chain_stage id scan = do
    target ← reads (λ s. or_not_found (get scan.target_id s.working.targets))
    origin ← lift (origin_of w target)
    now ← asks (λ s. s.clock)
    refuse_if (not w.engine_seeded) lookup_error
    execution ←
        create_execution id w.engine_code (take 50 w.engine_version) execution_running (some now)
    commit
    result ← run_pipeline id origin
    elsewhere w.during_scan
    result_stage id scan execution result

  claimed_stage : ℕ → Scan → Action Session (Unit {0})
  unfolding chain_stage reject_unattested
  claimed_stage id scan = do
    active ←
        asks
          (λ s. still_active s.clock (get scan.authorization_attestation_id s.working.attestations))
    if active then chain_stage id scan else reject_unattested w id scan

  found_stage : ℕ → Option Scan → Action Session (Unit {0})
  unfolding claimed_stage
  found_stage id none = pure tt
  found_stage id (some scan) = do
    now ← asks (λ s. s.clock)
    claimed ← try_transition id queued running (some now) none
    if claimed then claimed_stage id scan else pure tt

  pub execute_scan_job : ℕ → Action Session (Unit {0})
  unfolding found_stage
  execute_scan_job id = do scan ← asks (λ s. get id s.working.scans); found_stage id scan
