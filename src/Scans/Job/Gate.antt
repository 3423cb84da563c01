-- ===== src/Scans/Job/Gate.antt =====
-- What must hold before a job runs the pipeline.
use sentinel_gpt.Common.{ℕ, ◌≡◌, ◌≢◌, refl, ◌∙◌, false, nat_eq, Option, some, List, arith}
use sentinel_gpt.Common.Table.{Table, get, matching}
use sentinel_gpt.Common.Table.Keys.{IsKeyed, matching-get}
use sentinel_gpt.Common.Text.{Text}
use sentinel_gpt.Errors.{Returns-any}
use sentinel_gpt.Action.{Action, ◌>>=◌}
use sentinel_gpt.Action.Keeps.{Keeps, Keeps-bind, Keeps-refuse_if, Keeps-asks}
use sentinel_gpt.Scans.Lifecycle.{ScanStatus, status_eq, queued, running, rejected}
use sentinel_gpt.Scans.Store.{Scan, Value, ExecutionStatus}
use sentinel_gpt.Scans.Store.Session.{
  Session, commit, try_transition, record_audit, create_execution, mark_execution, has_status,
}
use sentinel_gpt.Scans.Inputs.{Worker}
use sentinel_gpt.Scans.Job.{
  move, reject_unattested, still_active, claimed_stage, found_stage, execute_scan_job,
}

pub matched :
    (id : ℕ) (status : ScanStatus) (t : Table Scan) (scan : Scan)
    → IsKeyed t
    → get id t ≡ some scan
    → scan.status ≡ status
    → matching id (has_status status) t ≡ 1
matched id status t scan keyed stored e =
    ground (arith, matching-get id (has_status status) t scan keyed stored)

pub unmatched :
    (id : ℕ) (status : ScanStatus) (t : Table Scan) (scan : Scan)
    → IsKeyed t
    → get id t ≡ some scan
    → scan.status ≢ status
    → matching id (has_status status) t ≡ 0
unmatched id status t scan keyed stored n =
    ground (arith, matching-get id (has_status status) t scan keyed stored)

-- The pipeline was run for the scans of `runs` and no others.
abbrev Scanned : List ℕ → Session → Type 0
Scanned runs s = s.scanned ≡ runs

module _ (runs : List ℕ) where
  keep_runs :
      {A : Type 0} (m : Action Session A)
      → ((s : Session) → (m s).1.scanned ≡ s.scanned)
      → Keeps (Scanned runs) (λ _. Unit {0}) m
  keep_runs m same = record { state = λ s h. same s ∙ h; value = λ s h. Returns-any _ }

  runs-audit :
      (actor : Option ℕ) (action entity : Text) (e : ℕ) (metadata : List (Text × Value))
      → Keeps (Scanned runs) (λ _. Unit {0}) (record_audit actor action entity e metadata)
  unfolding record_audit
  runs-audit actor action entity e metadata = keep_runs _ λ s. refl

  runs-create :
      (scan : ℕ) (engine version : Text) (status : ExecutionStatus) (started : Option ℕ)
      → Keeps (Scanned runs) (λ _. Unit {0}) (create_execution scan engine version status started)
  unfolding create_execution
  runs-create scan engine version status started = keep_runs _ λ s. refl

  runs-mark :
      (execution : ℕ) (status : ExecutionStatus) (error : Option Text)
      → Keeps (Scanned runs) (λ _. Unit {0}) (mark_execution execution status error)
  unfolding mark_execution
  runs-mark execution status error = keep_runs _ λ s. refl

  runs-move :
      (id : ℕ) (from to : ScanStatus) (completed : Option ℕ)
      → Keeps (Scanned runs) (λ _. Unit {0}) (move id from to completed)
  unfolding move try_transition ◌>>=◌
  runs-move id from to completed = keep_runs _ λ s. refl

  runs-commit : Keeps (Scanned runs) (λ _. Unit {0}) commit
  unfolding commit
  runs-commit = keep_runs _ λ s. refl

  Keeps-unattested :
      (w : Worker) (id : ℕ) (scan : Scan)
      → Keeps (Scanned runs) (λ _. Unit {0}) (reject_unattested w id scan)
  unfolding reject_unattested
  Keeps-unattested w id scan = Keeps-bind _ _ (Keeps-asks _) λ now _.
      Keeps-bind _ _ (runs-audit _ _ _ _ _) λ _ _. Keeps-bind _ _ (Keeps-refuse_if _ _) λ _ _.
        Keeps-bind _ _ (runs-create _ _ _ _ _) λ execution _.
          Keeps-bind _ _ (runs-mark _ _ _)
            λ _ _. Keeps-bind _ _ (runs-move id running rejected _) λ _ _. runs-commit

not_claimed :
    (w : Worker) (id : ℕ) (scan : Scan) (s : Session)
    → matching id (has_status queued) s.working.scans ≡ 0
    → (found_stage w id (some scan) s).1.scanned ≡ s.scanned
unfolding found_stage try_transition ◌>>=◌ nat_eq
not_claimed w id scan s e = simp e refl

unattested :
    (w : Worker) (id : ℕ) (scan : Scan) (s : Session)
    → still_active s.clock (get scan.authorization_attestation_id s.working.attestations) ≡ false
    → (claimed_stage w id scan s).1.scanned ≡ s.scanned
unfolding claimed_stage ◌>>=◌
unattested w id scan s e = simp e ((Keeps-unattested s.scanned w id scan).state s refl)

claimed_unattested :
    (w : Worker) (id : ℕ) (scan : Scan) (s : Session)
    → matching id (has_status queued) s.working.scans ≡ 1
    → still_active s.clock (get scan.authorization_attestation_id s.working.attestations) ≡ false
    → (found_stage w id (some scan) s).1.scanned ≡ s.scanned
unfolding found_stage try_transition ◌>>=◌ nat_eq
claimed_unattested w id scan s e inactive = simp e (unattested w id scan _ inactive)

-- The pipeline is never run for a scan that is not QUEUED, nor for one whose attestation is missing,
-- revoked or expired when the job claims it: the job leaves the runs of the pipeline as they are.
pub execute_scan_job-gate :
    (w : Worker) (id : ℕ) (scan : Scan) (s : Session)
    → IsKeyed s.working.scans
    → get id s.working.scans ≡ some scan
    → (scan.status ≡ queued
        → still_active s.clock (get scan.authorization_attestation_id s.working.attestations)
          ≡ false)
    → (execute_scan_job w id s).1.scanned ≡ s.scanned
unfolding execute_scan_job ◌>>=◌
execute_scan_job-gate w id scan s keyed stored closed = elim (status_eq.dec scan.status queued) [
  | yes q ↦ simp stored (
      claimed_unattested w id scan s (matched id queued s.working.scans scan keyed stored q)
        (closed q))
  | no n ↦
      simp stored
        (not_claimed w id scan s (unmatched id queued s.working.scans scan keyed stored n))
]
