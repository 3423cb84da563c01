-- ===== src/Scans/Worker.antt =====
-- backend/src/workers/scan_tasks.py: the task that runs a job, and what it does when the job raises.
pub mod Recovery
pub mod Crashes
use sentinel_gpt.Common.{
  ℕ, Bool, true, false, not, Option, none, some, List, [], ◌∷◌, ◌++◌, if◌then◌else◌, take,
}
use sentinel_gpt.Common.Table.{get}
use sentinel_gpt.Common.Text.{Text, codes}
use sentinel_gpt.Errors.{
  Error, Result, ok, err, attestation_not_confirmed, scanner_execution_blocked, target_unresolved,
}
use sentinel_gpt.Action.{Action, pure, asks, ◌>>=◌, ◌>>◌}
use sentinel_gpt.Scans.Lifecycle.{ScanStatus, queued, running, rejected}
use sentinel_gpt.Scans.Store.{Scan, Value, text, key, execution_failed}
use sentinel_gpt.Scans.Store.Session.{
  Session, commit, rolled_back, try_transition, record_audit, create_execution, mark_execution,
}
use sentinel_gpt.Scans.Inputs.{Worker}
use sentinel_gpt.Scans.Job.{execute_scan_job}

-- The failed execution that stands for the crash, if its engine is seeded
crash_row : Bool → ℕ → Text → Action Session (Unit {0})
crash_row false id reason = pure tt
crash_row true id reason = do
  execution ←
      create_execution id (codes "headers-analyzer") (codes "worker-unknown") execution_failed none
  mark_execution execution execution_failed (some (take 500 reason))

crashed_from : Bool → ℕ → Scan → Text → Text → Action Session (Unit {0})
unfolding crash_row
crashed_from headers_seeded id scan reason from = do
  crash_row headers_seeded id reason
  record_audit none (codes "SCAN_STATE_TRANSITION") (codes "scan") id (
      (codes "from", text from)
      ∷ (codes "to", text (codes "REJECTED"))
      ∷ (codes "reason", text (codes "worker_crashed:" ++ reason))
      ∷ (codes "ownerUserId", key scan.initiated_by_user_id)
      ∷ [])
  commit

second_attempt : Bool → ℕ → Scan → Text → Action Session (Unit {0})
unfolding crashed_from
second_attempt headers_seeded id scan reason = do
  now ← asks (λ s. s.clock)
  moved ← try_transition id queued rejected none (some now)
  if moved then crashed_from headers_seeded id scan reason (codes "QUEUED") else commit

marked : Bool → ℕ → Text → Option Scan → Action Session (Unit {0})
unfolding second_attempt crashed_from
marked headers_seeded id reason none = pure tt
marked headers_seeded id reason (some scan) = do
  now ← asks (λ s. s.clock)
  moved ← try_transition id running rejected none (some now)
  if moved
      then crashed_from headers_seeded id scan reason (codes "RUNNING")
      else second_attempt headers_seeded id scan reason

-- `_mark_scan_rejected`
unfoldable pub mark_scan_rejected : Bool → ℕ → Text → Action Session (Unit {0})
unfolding marked
mark_scan_rejected headers_seeded id reason = do
  scan ← asks (λ s. get id s.working.scans)
  marked headers_seeded id reason scan

-- The exceptions that the task takes for handled
unfoldable pub is_expected : Error → Bool
is_expected attestation_not_confirmed = true
is_expected scanner_execution_blocked = true
is_expected target_unresolved = true
is_expected _ = false

module _ (w : Worker) (class_name : Error → Text) where
  after_job : ℕ → Result (Unit {0}) × Session → Result (Unit {0}) × Session
  unfolding is_expected
  after_job id (ok _, s) = (ok tt, rolled_back s)
  after_job id (err e, s) =
      if is_expected e
      then (ok tt, rolled_back s)
      else mark_scan_rejected w.headers_seeded id (class_name e) (rolled_back s)

  -- `execute_scan_job_task`
  unfoldable pub execute_scan_job_task : ℕ → Action Session (Unit {0})
  unfolding after_job
  execute_scan_job_task id s = after_job id (execute_scan_job w id s)
