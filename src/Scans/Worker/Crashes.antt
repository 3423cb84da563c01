-- ===== src/Scans/Worker/Crashes.antt =====
-- What the worker leaves of a scan whose job crashed.
use sentinel_gpt.Common.{ℕ, ◌≡◌, refl, Bool, true, false, nat_eq, none, some, arith, ◌⊎◌, inl, inr}
use sentinel_gpt.Common.Table.{Table, get, update_if, get-update_if}
use sentinel_gpt.Common.Table.Keys.{IsKeyed, IsKeyed-update_if}
use sentinel_gpt.Common.Text.{Text}
use sentinel_gpt.Errors.{ok}
use sentinel_gpt.Action.{◌>>=◌}
use sentinel_gpt.Scans.Lifecycle.{status_eq, queued, running, rejected}
use sentinel_gpt.Scans.Store.{Scan}
use sentinel_gpt.Scans.Store.Session.{
  Session, commit, try_transition, record_audit, create_execution, mark_execution, has_status,
  moved_to,
}
use sentinel_gpt.Scans.Job.Gate.{matched, unmatched}
use sentinel_gpt.Scans.Job.Rejects.{IsRejectedAt, rejected_from}
use sentinel_gpt.Scans.Worker.{mark_scan_rejected, marked, second_attempt, crashed_from, crash_row}

crashed_from-committed :
    (headers_seeded : Bool) (id : ℕ) (scan stored : Scan) (reason from : Text) (s : Session)
    → get id s.working.scans ≡ some stored
    → ((crashed_from headers_seeded id scan reason from s).0 ≡ ok tt)
      × (get id (crashed_from headers_seeded id scan reason from s).1.committed.scans ≡ some stored)
unfolding crashed_from crash_row record_audit create_execution mark_execution commit ◌>>=◌
crashed_from-committed true id scan stored reason from s row = (refl, row)
crashed_from-committed false id scan stored reason from s row = (refl, row)

running-IsRejectedAt :
    (headers_seeded : Bool) (id : ℕ) (reason : Text) (scan : Scan) (s : Session)
    → IsKeyed s.working.scans
    → get id s.working.scans ≡ some scan
    → scan.status ≡ running
    → ((marked headers_seeded id reason (some scan) s).0 ≡ ok tt)
      × IsRejectedAt s.clock id (marked headers_seeded id reason (some scan) s).1
unfolding marked try_transition ◌>>=◌ nat_eq
running-IsRejectedAt headers_seeded id reason scan s keyed row st =
    let one = matched id running s.working.scans scan keyed row st in
    let after = rejected_from running id s.clock scan s.working.scans row st in
    let (returns, kept) =
      crashed_from-committed headers_seeded id scan
        (record scan { status = rejected; completed_at = some s.clock }) reason _ _ after in
    simp one (returns, (_, kept, refl, refl))

untouched :
    (id now : ℕ) (scan : Scan) (t : Table Scan)
    → get id t ≡ some scan
    → scan.status ≡ queued
    → get id (update_if id (has_status running) (moved_to rejected none (some now)) t) ≡ some scan
untouched id now scan t row st =
    let step = get-update_if id id (has_status running) (moved_to rejected none (some now)) t in
    ground arith

second-IsRejectedAt :
    (headers_seeded : Bool) (id : ℕ) (reason : Text) (scan : Scan) (s : Session)
    → IsKeyed s.working.scans
    → get id s.working.scans ≡ some scan
    → scan.status ≡ queued
    → ((second_attempt headers_seeded id scan reason s).0 ≡ ok tt)
      × IsRejectedAt s.clock id (second_attempt headers_seeded id scan reason s).1
unfolding second_attempt try_transition ◌>>=◌ nat_eq
second-IsRejectedAt headers_seeded id reason scan s keyed row st =
    let one = matched id queued s.working.scans scan keyed row st in
    let after = rejected_from queued id s.clock scan s.working.scans row st in
    let (returns, kept) =
      crashed_from-committed headers_seeded id scan
        (record scan { status = rejected; completed_at = some s.clock }) reason _ _ after in
    simp one (returns, (_, kept, refl, refl))

queued-IsRejectedAt :
    (headers_seeded : Bool) (id : ℕ) (reason : Text) (scan : Scan) (s : Session)
    → IsKeyed s.working.scans
    → get id s.working.scans ≡ some scan
    → scan.status ≡ queued
    → ((marked headers_seeded id reason (some scan) s).0 ≡ ok tt)
      × IsRejectedAt s.clock id (marked headers_seeded id reason (some scan) s).1
unfolding marked try_transition ◌>>=◌ nat_eq
queued-IsRejectedAt headers_seeded id reason scan s keyed row st =
    let zero_matched = unmatched id running s.working.scans scan keyed row (ground arith) in
    simp zero_matched (
      second-IsRejectedAt headers_seeded id reason scan _
        (IsKeyed-update_if id (has_status running) (moved_to rejected none (some s.clock))
          s.working.scans keyed)
        (untouched id s.clock scan s.working.scans row st) st)

-- A scan whose job crashed while it was RUNNING, or before it was claimed, does not stay there: the
-- recovery returns, and the scan is committed as REJECTED, completed now, whether the engine of the
-- failed execution is seeded or not. (Primary keys of scans are unique.)
mark_scan_rejected-IsRejectedAt :
    (headers_seeded : Bool) (id : ℕ) (reason : Text) (scan : Scan) (s : Session)
    → IsKeyed s.working.scans
    → get id s.working.scans ≡ some scan
    → (scan.status ≡ running) ⊎ (scan.status ≡ queued)
    → ((mark_scan_rejected headers_seeded id reason s).0 ≡ ok tt)
      × IsRejectedAt s.clock id (mark_scan_rejected headers_seeded id reason s).1
unfolding mark_scan_rejected ◌>>=◌
mark_scan_rejected-IsRejectedAt headers_seeded id reason scan s keyed row (inl r) =
    simp row (running-IsRejectedAt headers_seeded id reason scan s keyed row r)
mark_scan_rejected-IsRejectedAt headers_seeded id reason scan s keyed row (inr q) =
    simp row (queued-IsRejectedAt headers_seeded id reason scan s keyed row q)
