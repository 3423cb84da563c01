-- ===== src/Scans/Job/Runs.antt =====
-- A job moves its scan by the state machine only.
use sentinel_gpt.Common.{ℕ, ◌≡◌, refl, true, Option, none, some, List, [], ◌∷◌}
use sentinel_gpt.Common.Text.{Text}
use sentinel_gpt.Errors.{Returns-any}
use sentinel_gpt.Action.Keeps.{
  Keeps, Keeps-bind, Keeps-lift_self, Keeps-pure, Keeps-if, Keeps-refuse_if, Keeps-asks,
  Keeps-reads,
}
use sentinel_gpt.Scans.Lifecycle.{
  ScanStatus, can_transition, queued, running, rejected, scan_complete, ai_analysis,
}
use sentinel_gpt.Scans.Store.{Scan, Database, StoredFinding}
use sentinel_gpt.Scans.Store.Session.{Session, uuid4}
use sentinel_gpt.Scans.Inputs.{
  PipelineResult, analysed, failed, AiOutcome, not_configured, unavailable, available, Worker,
}
use sentinel_gpt.Scans.Findings.{Finding, record_lifecycle}
use sentinel_gpt.Scans.Job.{
  move, reject_unattested, reject_failed, add_findings, persist_findings, lifecycle_step, upsert,
  final_status, analysis_stage, result_stage, run_pipeline, chain_stage, claimed_stage, found_stage,
  execute_scan_job,
}
use sentinel_gpt.Scans.Job.Moves.{
  Tracks, MovesOnly, Keeps-try_transition, Keeps-commit, Keeps-elsewhere, Keeps-other,
  Keeps-record_audit, Keeps-create_execution, Keeps-mark_execution, Keeps-write,
}

scans-record_lifecycle :
    (target_id scan_id : ℕ) (current : List Text) (db : Database)
    → (record_lifecycle target_id scan_id current db).scans ≡ db.scans
unfolding record_lifecycle
scans-record_lifecycle target_id scan_id current db = refl

module _ (start : ScanStatus) (id : ℕ) where
  Keeps-move :
      (j : ℕ) (from to : ScanStatus) (completed : Option ℕ)
      → can_transition from to ≡ true
      → Keeps (Tracks start id) (λ _. Unit) (move j from to completed)
  unfolding move
  Keeps-move j from to completed e =
      Keeps-bind _ _ (Keeps-try_transition start id j from to none completed e)
        λ moved _. Keeps-pure tt tt

  Keeps-reject_unattested :
      (w : Worker) (j : ℕ) (scan : Scan)
      → Keeps (Tracks start id) (λ _. Unit) (reject_unattested w j scan)
  unfolding reject_unattested can_transition
  Keeps-reject_unattested w j scan = Keeps-bind _ _ (Keeps-asks _) λ now _.
      Keeps-bind _ _ (Keeps-record_audit start id _ _ _ _ _) λ _ _.
        Keeps-bind _ _ (Keeps-refuse_if _ _) λ _ _.
          Keeps-bind _ _ (Keeps-create_execution start id _ _ _ _ _) λ execution _.
            Keeps-bind _ _ (Keeps-mark_execution start id _ _ _) λ _ _.
              Keeps-bind _ _ (Keeps-move j running rejected _ refl) λ _ _. Keeps-commit start id

  Keeps-reject_failed :
      (j : ℕ) (scan : Scan) (execution : ℕ) (reason : Text)
      → Keeps (Tracks start id) (λ _. Unit) (reject_failed j scan execution reason)
  unfolding reject_failed can_transition
  Keeps-reject_failed j scan execution reason = Keeps-bind _ _ (Keeps-asks _) λ now _.
      Keeps-bind _ _ (Keeps-mark_execution start id _ _ _) λ _ _.
        Keeps-bind _ _ (Keeps-record_audit start id _ _ _ _ _)
          λ _ _. Keeps-bind _ _ (Keeps-move j running rejected _ refl) λ _ _. Keeps-commit start id

  Keeps-add_findings :
      (rows : List StoredFinding) → Keeps (Tracks start id) (λ _. Unit) (add_findings rows)
  unfolding add_findings uuid4
  Keeps-add_findings [] = Keeps-pure tt tt
  Keeps-add_findings (row ∷ rows) =
      Keeps-bind _ _ (Keeps-other start id _ λ s. (refl, refl))
        λ key _. Keeps-bind _ _ (Keeps-write start id _ λ db. refl) λ _ _. Keeps-add_findings rows

  scans-lifecycle_step :
      (target_id scan_id : Option ℕ) (current : List Text) (db : Database)
      → (lifecycle_step target_id scan_id current db).scans ≡ db.scans
  scans-lifecycle_step none scan_id current db = refl
  scans-lifecycle_step (some t) none current db = refl
  scans-lifecycle_step (some t) (some i) current db = scans-record_lifecycle t i current db

  Keeps-persist_findings :
      (w : Worker) (execution : ℕ) (findings : List Finding)
      → Keeps (Tracks start id) (λ _. Unit) (persist_findings w execution findings)
  unfolding persist_findings
  Keeps-persist_findings w execution findings = Keeps-bind _ _ (Keeps-asks _) λ db _.
      Keeps-bind _ _ (Keeps-lift_self _) λ rows _.
        Keeps-bind _ _ (Keeps-add_findings rows)
          λ _ _. Keeps-write start id _ (scans-lifecycle_step _ _ _)

  final-can_transition :
      (outcome : AiOutcome) → can_transition ai_analysis (final_status outcome) ≡ true
  unfolding can_transition
  final-can_transition not_configured = refl
  final-can_transition (unavailable _) = refl
  final-can_transition (available _ _) = refl

  module _ (w : Worker) (between : MovesOnly w.during_scan)
      (after : MovesOnly w.during_analysis) where
    Keeps-analysis_stage :
        (j execution : ℕ) (findings : List Finding)
        → Keeps (Tracks start id) (λ _. Unit) (analysis_stage w j execution findings)
    unfolding analysis_stage upsert
    Keeps-analysis_stage j execution findings = Keeps-bind _ _ (Keeps-lift_self _) λ outcome _.
        Keeps-bind _ _ (Keeps-asks _) λ now _.
          Keeps-bind _ _ (Keeps-write start id _ λ db. refl) λ _ _.
            Keeps-bind _ _
              (Keeps-move j ai_analysis (final_status outcome) _ (final-can_transition outcome))
              λ _ _. Keeps-commit start id

    Keeps-result_stage :
        (j : ℕ) (scan : Scan) (execution : ℕ) (result : PipelineResult)
        → Keeps (Tracks start id) (λ _. Unit) (result_stage w j scan execution result)
    unfolding result_stage can_transition
    Keeps-result_stage j scan execution (failed reason) =
        Keeps-reject_failed j scan execution reason
    Keeps-result_stage j scan execution (analysed findings) =
        Keeps-bind _ _ (Keeps-record_audit start id _ _ _ _ _) λ _ _.
          Keeps-bind _ _ (Keeps-mark_execution start id _ _ _) λ _ _.
            Keeps-bind _ _ (Keeps-persist_findings w execution findings) λ _ _.
              Keeps-bind _ _ (Keeps-move j running scan_complete none refl) λ _ _.
                Keeps-bind _ _ (Keeps-move j scan_complete ai_analysis none refl) λ _ _.
                  Keeps-bind _ _ (Keeps-commit start id) λ _ _.
                    Keeps-bind _ _ (Keeps-elsewhere start id _ after)
                      λ _ _. Keeps-analysis_stage j execution findings

    Keeps-chain_stage :
        (j : ℕ) (scan : Scan) → Keeps (Tracks start id) (λ _. Unit) (chain_stage w j scan)
    unfolding chain_stage run_pipeline
    Keeps-chain_stage j scan =
        Keeps-bind {Q = λ _. Unit} _ _ (Keeps-reads _ λ s h. Returns-any _) λ target _.
          Keeps-bind _ _ (Keeps-lift_self _) λ origin _. Keeps-bind _ _ (Keeps-asks _) λ now _.
            Keeps-bind _ _ (Keeps-refuse_if _ _) λ _ _.
              Keeps-bind _ _ (Keeps-create_execution start id _ _ _ _ _) λ execution _.
                Keeps-bind _ _ (Keeps-commit start id) λ _ _.
                  Keeps-bind _ _ (Keeps-other start id _ λ s. (refl, refl)) λ result _.
                    Keeps-bind _ _ (Keeps-elsewhere start id _ between)
                      λ _ _. Keeps-result_stage j scan execution result

    Keeps-found_stage :
        (j : ℕ) (row : Option Scan) → Keeps (Tracks start id) (λ _. Unit) (found_stage w j row)
    unfolding found_stage claimed_stage can_transition
    Keeps-found_stage j none = Keeps-pure tt tt
    Keeps-found_stage j (some scan) = Keeps-bind _ _ (Keeps-asks _) λ now _.
        Keeps-bind _ _ (Keeps-try_transition start id j queued running _ _ refl) λ claimed _.
          Keeps-if claimed _ _
            (λ _. Keeps-bind _ _ (Keeps-asks _) λ active _.
              Keeps-if active _ _ (λ _. Keeps-chain_stage j scan)
                (λ _. Keeps-reject_unattested w j scan))
            (λ _. Keeps-pure tt tt)

    pub Keeps-execute_scan_job :
        (j : ℕ) → Keeps (Tracks start id) (λ _. Unit) (execute_scan_job w j)
    unfolding execute_scan_job
    Keeps-execute_scan_job j = Keeps-bind _ _ (Keeps-asks _) λ row _. Keeps-found_stage j row

-- A job moves scans by the state machine only. Whatever the pipeline, the analyzer and the findings
-- are, and wherever it raises, every scan is afterwards in a status that a run of the state machine
-- reaches from the status before: in what is committed, and in what the session sees. (Other
-- sessions move scans by the state machine while the job waits.)
pub execute_scan_job-Tracks :
    (w : Worker) (job id : ℕ) (start : ScanStatus) (s : Session)
    → MovesOnly w.during_scan
    → MovesOnly w.during_analysis
    → Tracks start id s
    → Tracks start id (execute_scan_job w job s).1
execute_scan_job-Tracks w job id start s between after h =
    (Keeps-execute_scan_job start id w between after job).state s h
