-- ===== src/Scans/Job/Rejects.antt =====
-- How the job ends for a scan whose authorization is gone.
use sentinel_gpt.Common.{ℕ, ◌≡◌, refl, true, false, nat_eq, none, some, arith}
use sentinel_gpt.Common.Table.{Table, get, update_if, get-update_if, matching}
use sentinel_gpt.Common.Table.Keys.{IsKeyed}
use sentinel_gpt.Errors.{ok}
use sentinel_gpt.Action.{◌>>=◌}
use sentinel_gpt.Scans.Lifecycle.{ScanStatus, status_eq, queued, running, rejected}
use sentinel_gpt.Scans.Store.{Scan}
use sentinel_gpt.Scans.Store.Session.{
  Session, commit, try_transition, record_audit, create_execution, mark_execution, has_status,
  moved_to, set_column,
}
use sentinel_gpt.Scans.Inputs.{Worker}
use sentinel_gpt.Scans.Job.{
  move, audit_move, reject_unattested, still_active, claimed_stage, found_stage, execute_scan_job,
}
use sentinel_gpt.Scans.Job.Gate.{matched}

abbrev pub claimed_at : ℕ → Scan → Scan
claimed_at now scan = record scan { status = running; started_at = some now }

-- The scan is REJECTED for good: committed, with the time of completion.
abbrev pub IsRejectedAt : ℕ → ℕ → Session → Type 0
IsRejectedAt now id s =
    (scan : Scan) × (get id s.committed.scans ≡ some scan)
    × (scan.status ≡ rejected)
    × (scan.completed_at ≡ some now)

pub claimed_row :
    (id now : ℕ) (scan : Scan) (t : Table Scan)
    → get id t ≡ some scan
    → scan.status ≡ queued
    → get id (update_if id (has_status queued) (moved_to running (some now) none) t)
      ≡ some (claimed_at now scan)
unfolding moved_to set_column
claimed_row id now scan t stored q =
    let step = get-update_if id id (has_status queued) (moved_to running (some now) none) t in
    ground arith

pub rejected_from :
    (from : ScanStatus) (id now : ℕ) (scan : Scan) (t : Table Scan)
    → get id t ≡ some scan
    → scan.status ≡ from
    → get id (update_if id (has_status from) (moved_to rejected none (some now)) t)
      ≡ some (record scan { status = rejected; completed_at = some now })
unfolding moved_to set_column
rejected_from from id now scan t stored st =
    let step = get-update_if id id (has_status from) (moved_to rejected none (some now)) t in
    ground arith

unattested-IsRejectedAt :
    (w : Worker) (id : ℕ) (scan running_scan : Scan) (s : Session)
    → w.headers_seeded ≡ true
    → get id s.working.scans ≡ some running_scan
    → running_scan.status ≡ running
    → ((reject_unattested w id scan s).0 ≡ ok tt)
      × IsRejectedAt s.clock id (reject_unattested w id scan s).1
unfolding reject_unattested audit_move move ◌>>=◌ commit try_transition record_audit
    create_execution mark_execution
unattested-IsRejectedAt w id scan running_scan s seeded stored r =
    simp seeded (
      refl,
      (_, rejected_from running id s.clock running_scan s.working.scans stored r, refl, refl),
    )

claimed-IsRejectedAt :
    (w : Worker) (id : ℕ) (scan running_scan : Scan) (s : Session)
    → w.headers_seeded ≡ true
    → still_active s.clock (get scan.authorization_attestation_id s.working.attestations) ≡ false
    → get id s.working.scans ≡ some running_scan
    → running_scan.status ≡ running
    → ((claimed_stage w id scan s).0 ≡ ok tt)
      × IsRejectedAt s.clock id (claimed_stage w id scan s).1
unfolding claimed_stage ◌>>=◌
claimed-IsRejectedAt w id scan running_scan s seeded inactive stored r =
    simp inactive (unattested-IsRejectedAt w id scan running_scan s seeded stored r)

found-IsRejectedAt :
    (w : Worker) (id : ℕ) (scan : Scan) (s : Session)
    → w.headers_seeded ≡ true
    → matching id (has_status queued) s.working.scans ≡ 1
    → get id s.working.scans ≡ some scan
    → scan.status ≡ queued
    → still_active s.clock (get scan.authorization_attestation_id s.working.attestations) ≡ false
    → ((found_stage w id (some scan) s).0 ≡ ok tt)
      × IsRejectedAt s.clock id (found_stage w id (some scan) s).1
unfolding found_stage try_transition ◌>>=◌ nat_eq
found-IsRejectedAt w id scan s seeded one stored q inactive = simp one (
    claimed-IsRejectedAt w id scan (claimed_at s.clock scan) _ seeded inactive
      (claimed_row id s.clock scan s.working.scans stored q) refl)

-- The job of a QUEUED scan whose attestation is missing, revoked or expired returns, and the scan is
-- committed as REJECTED, completed now. (Primary keys of scans are unique, and the engine that the
-- failed execution names is seeded.)
pub execute_scan_job-IsRejectedAt :
    (w : Worker) (id : ℕ) (scan : Scan) (s : Session)
    → w.headers_seeded ≡ true
    → IsKeyed s.working.scans
    → get id s.working.scans ≡ some scan
    → scan.status ≡ queued
    → still_active s.clock (get scan.authorization_attestation_id s.working.attestations) ≡ false
    → ((execute_scan_job w id s).0 ≡ ok tt) × IsRejectedAt s.clock id (execute_scan_job w id s).1
unfolding execute_scan_job ◌>>=◌
execute_scan_job-IsRejectedAt w id scan s seeded keyed stored q inactive = simp stored (
    found-IsRejectedAt w id scan s seeded (matched id queued s.working.scans scan keyed stored q)
      stored q inactive)
