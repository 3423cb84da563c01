-- ===== src/Scans/Worker/Recovery.antt =====
-- What the worker does to the scan of a job that raised.
use sentinel_gpt.Common.{
  ℕ, ◌≡◌, refl, sym, Bool-cases, Bool, true, false, Option, none, some, inl, inr,
}
use sentinel_gpt.Common.Table.{get}
use sentinel_gpt.Common.Text.{Text}
use sentinel_gpt.Errors.{Error, Result, ok, err}
use sentinel_gpt.Action.Keeps.{Keeps, Keeps-bind, Keeps-asks, Keeps-pure, Keeps-if}
use sentinel_gpt.Scans.Lifecycle.{
  ScanStatus, can_transition, is_terminal, queued, running, rejected,
}
use sentinel_gpt.Scans.Lifecycle.Laws.{stays, terminal-Reaches}
use sentinel_gpt.Scans.Store.{Scan}
use sentinel_gpt.Scans.Store.Session.{Session, rolled_back}
use sentinel_gpt.Scans.Inputs.{Worker}
use sentinel_gpt.Scans.Job.{execute_scan_job}
use sentinel_gpt.Scans.Job.Moves.{
  Tracks, MovesOnly, Keeps-try_transition, Keeps-commit, Keeps-record_audit, Keeps-create_execution,
  Keeps-mark_execution,
}
use sentinel_gpt.Scans.Job.Runs.{execute_scan_job-Tracks}
use sentinel_gpt.Scans.Worker.{
  crash_row, crashed_from, second_attempt, marked, mark_scan_rejected, is_expected, after_job,
  execute_scan_job_task,
}

module _ (start : ScanStatus) (id : ℕ) where
  Keeps-crash_row :
      (seeded : Bool) (j : ℕ) (reason : Text)
      → Keeps (Tracks start id) (λ _. Unit) (crash_row seeded j reason)
  unfolding crash_row
  Keeps-crash_row false j reason = Keeps-pure tt tt
  Keeps-crash_row true j reason =
      Keeps-bind _ _ (Keeps-create_execution start id _ _ _ _ _)
        λ execution _. Keeps-mark_execution start id _ _ _

  Keeps-crashed_from :
      (seeded : Bool) (j : ℕ) (scan : Scan) (reason from : Text)
      → Keeps (Tracks start id) (λ _. Unit) (crashed_from seeded j scan reason from)
  unfolding crashed_from
  Keeps-crashed_from seeded j scan reason from =
      Keeps-bind _ _ (Keeps-crash_row seeded j reason)
        λ _ _. Keeps-bind _ _ (Keeps-record_audit start id _ _ _ _ _) λ _ _. Keeps-commit start id

  Keeps-second_attempt :
      (seeded : Bool) (j : ℕ) (scan : Scan) (reason : Text)
      → Keeps (Tracks start id) (λ _. Unit) (second_attempt seeded j scan reason)
  unfolding second_attempt can_transition
  Keeps-second_attempt seeded j scan reason = Keeps-bind _ _ (Keeps-asks _) λ now _.
      Keeps-bind _ _ (Keeps-try_transition start id j queued rejected _ _ refl) λ moved _.
        Keeps-if moved _ _ (λ _. Keeps-crashed_from seeded j scan reason _)
          (λ _. Keeps-commit start id)

  Keeps-marked :
      (seeded : Bool) (j : ℕ) (reason : Text) (row : Option Scan)
      → Keeps (Tracks start id) (λ _. Unit) (marked seeded j reason row)
  unfolding marked can_transition
  Keeps-marked seeded j reason none = Keeps-pure tt tt
  Keeps-marked seeded j reason (some scan) = Keeps-bind _ _ (Keeps-asks _) λ now _.
      Keeps-bind _ _ (Keeps-try_transition start id j running rejected _ _ refl) λ moved _.
        Keeps-if moved _ _ (λ _. Keeps-crashed_from seeded j scan reason _)
          (λ _. Keeps-second_attempt seeded j scan reason)

  Keeps-mark_scan_rejected :
      (seeded : Bool) (j : ℕ) (reason : Text)
      → Keeps (Tracks start id) (λ _. Unit) (mark_scan_rejected seeded j reason)
  unfolding mark_scan_rejected
  Keeps-mark_scan_rejected seeded j reason =
      Keeps-bind _ _ (Keeps-asks _) λ row _. Keeps-marked seeded j reason row

  Tracks-rolled_back : (s : Session) → Tracks start id s → Tracks start id (rolled_back s)
  unfolding rolled_back
  Tracks-rolled_back s h = (h.0, h.0)

  Tracks-after_job :
      (w : Worker) (class_name : Error → Text) (j : ℕ) (r : Result (Unit {0})) (s : Session)
      → Tracks start id s
      → Tracks start id (after_job w class_name j (r, s)).1
  unfolding after_job
  Tracks-after_job w class_name j (ok _) s h = Tracks-rolled_back s h
  Tracks-after_job w class_name j (err e) s h =
      let back = Tracks-rolled_back s h in
      let crashed =
        (Keeps-mark_scan_rejected w.headers_seeded j (class_name e)).state (rolled_back s) back in
      elim (Bool-cases (is_expected e)) [ inl x ↦ simp x back | inr x ↦ simp x crashed ]

-- The task as a whole, the job and what follows when it raises, moves scans by the state machine
-- only: afterwards every scan is committed in a status that a run of the state machine reaches from
-- the one before. The other sessions that commit while the pipeline or the analyzer runs are assumed
-- to move scans by the state machine as well, which `cancel_scan` does not do for a scan in
-- AI_ANALYSIS.
pub execute_scan_job_task-Tracks :
    (w : Worker) (class_name : Error → Text) (job id : ℕ) (start : ScanStatus) (s : Session)
    → MovesOnly w.during_scan
    → MovesOnly w.during_analysis
    → Tracks start id s
    → Tracks start id (execute_scan_job_task w class_name job s).1
unfolding execute_scan_job_task
execute_scan_job_task-Tracks w class_name job id start s between after h =
    Tracks-after_job start id w class_name job (execute_scan_job w job s).0
      (execute_scan_job w job s).1 (execute_scan_job-Tracks w job id start s between after h)

-- A scan that is terminal stays as it is over every task, its own retried one included.
execute_scan_job_task-terminal :
    (w : Worker) (class_name : Error → Text) (job id : ℕ) (scan : Scan) (s : Session)
    → MovesOnly w.during_scan
    → MovesOnly w.during_analysis
    → get id s.committed.scans ≡ some scan
    → get id s.working.scans ≡ some scan
    → is_terminal scan.status ≡ true
    → (after : Scan) × (get id (execute_scan_job_task w class_name job s).1.committed.scans
        ≡ some after)
      × (after.status ≡ scan.status)
execute_scan_job_task-terminal w class_name job id scan s between after c d h =
    let (row, stored, run) =
      (execute_scan_job_task-Tracks w class_name job id scan.status s between after
        ((scan, c, stays), (scan, d, stays))).0 in
    (row, stored, sym (terminal-Reaches run h))
