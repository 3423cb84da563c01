-- ===== src/Scans/Requests/Moves.antt =====
-- What cancelling does to a scan.
use sentinel_gpt.Common.{
  ℕ, ◌≡◌, refl, Bool, true, false, ◌==◌, nat_eq, Option, none, some, ◌||◌, arith,
}
use sentinel_gpt.Common.Table.{Table, get, update_if, matching, get-update_if}
use sentinel_gpt.Common.Table.Keys.{IsKeyed}
use sentinel_gpt.Errors.{Result, ok, err, invalid_scan_state}
use sentinel_gpt.Action.{◌>>=◌}
use sentinel_gpt.Scans.Lifecycle.{status_eq, running, cancelled, is_terminal}
use sentinel_gpt.Scans.Store.{Scan}
use sentinel_gpt.Scans.Store.Session.{Session, try_transition, has_status, moved_to, set_column}
use sentinel_gpt.Scans.Requests.{ScanDetails, visible_scan, refuses_cancel, cancel_scan}
use sentinel_gpt.Scans.Job.Gate.{matched}

-- A scan as cancelled at a time
abbrev pub cancelled_at : ℕ → Scan → Scan
cancelled_at now scan = record scan { status = cancelled; completed_at = some now }

refused_cancel :
    (principal : Option ℕ) (id : ℕ) (s : Session) (scan : Scan)
    → visible_scan principal id s ≡ ok scan
    → refuses_cancel scan.status ≡ true
    → cancel_scan principal id s ≡ (err invalid_scan_state, s)
unfolding cancel_scan ◌>>=◌
refused_cancel principal id s scan seen r = simp (seen, r) refl

moved_row :
    (id : ℕ) (now : ℕ) (scan : Scan) (t : Table Scan)
    → get id t ≡ some scan
    → get id (update_if id (has_status scan.status) (moved_to cancelled none (some now)) t)
      ≡ some (cancelled_at now scan)
unfolding moved_to set_column
moved_row id now scan t stored =
    let step =
      get-update_if id id (has_status scan.status) (moved_to cancelled none (some now)) t in
    ground arith

granted_cancel :
    (principal : Option ℕ) (id : ℕ) (s : Session) (scan : Scan)
    → visible_scan principal id s ≡ ok scan
    → refuses_cancel scan.status ≡ false
    → matching id (has_status scan.status) s.working.scans ≡ 1
    → get id (
        update_if id
          (has_status scan.status)
          (moved_to cancelled none (some s.clock))
          s.working.scans)
      ≡ some (cancelled_at s.clock scan)
    → ((cancel_scan principal id s).0 ≡ ok (record { id = id; scan = cancelled_at s.clock scan }))
      × (get id (cancel_scan principal id s).1.working.scans ≡ some (cancelled_at s.clock scan))
unfolding cancel_scan try_transition ◌>>=◌ nat_eq
granted_cancel principal id s scan seen r one row = simp (seen, r, one, row) (refl, refl)

visible_stored :
    (principal : Option ℕ) (id : ℕ) (s : Session) (scan : Scan)
    → visible_scan principal id s ≡ ok scan
    → get id s.working.scans ≡ some scan
unfolding visible_scan
visible_stored principal id s scan h = ground arith

-- What a cancellation of a scan comes to, when it is refused and when it is not
abbrev pub CancelOutcome : Bool → ℕ → Scan → Session → Result ScanDetails × Session → Type 0
CancelOutcome true id scan s after = after ≡ (err invalid_scan_state, s)
CancelOutcome false id scan s (result, s') =
    (result ≡ ok (record { id = id; scan = cancelled_at s.clock scan }))
    × (get id s'.working.scans ≡ some (cancelled_at s.clock scan))

cancel_outcome :
    (principal : Option ℕ) (id : ℕ) (s : Session) (scan : Scan) (refused : Bool)
    → refuses_cancel scan.status ≡ refused
    → IsKeyed s.working.scans
    → visible_scan principal id s ≡ ok scan
    → CancelOutcome refused id scan s (cancel_scan principal id s)
cancel_outcome principal id s scan true e keyed seen = refused_cancel principal id s scan seen e
cancel_outcome principal id s scan false e keyed seen =
    let stored = visible_stored principal id s scan seen in
    granted_cancel principal id s scan seen e
      (matched id scan.status s.working.scans scan keyed stored refl)
      (moved_row id s.clock scan s.working.scans stored)

-- Cancelling a visible scan is refused, and writes nothing, exactly if the scan is terminal or
-- RUNNING; in every other status, SCAN_COMPLETE, PARTIALLY_COMPLETE and AI_ANALYSIS included, the
-- scan becomes CANCELLED, completed now. (Primary keys of scans are unique.)
pub cancel_scan_lem :
    (principal : Option ℕ) (id : ℕ) (s : Session) (scan : Scan)
    → IsKeyed s.working.scans
    → visible_scan principal id s ≡ ok scan
    → CancelOutcome
        (is_terminal scan.status || scan.status == running)
        id
        scan
        s
        (cancel_scan principal id s)
unfolding refuses_cancel
cancel_scan_lem principal id s scan keyed seen =
    cancel_outcome principal id s scan (refuses_cancel scan.status) refl keyed seen
