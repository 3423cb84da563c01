-- ===== src/Scans/Lifecycle.antt =====
-- backend/src/domain/scans/lifecycle.py and lifecycle_finding.py.
pub mod Laws
use sentinel_gpt.Common.{Eq, Bool, true, false, not, List, [], ◌∷◌, Option, none, some, ◌&&◌, ◌||◌}
use sentinel_gpt.Errors.{Result, raise_if, invalid_scan_state}

pub data ScanStatus : Type 0 where
  pending_attestation queued running ai_analysis scan_complete partially_complete : ScanStatus
  report_ready report_ready_degraded rejected cancelled : ScanStatus

instance unfoldable pub status_eq : Eq ScanStatus
status_eq = record { dec = hlevel }

-- `_ALLOWED_TRANSITIONS`, by current status and target
unfoldable pub can_transition : ScanStatus → ScanStatus → Bool
can_transition pending_attestation queued = true
can_transition pending_attestation rejected = true
can_transition pending_attestation cancelled = true
can_transition queued running = true
can_transition queued rejected = true
can_transition queued cancelled = true
can_transition running scan_complete = true
can_transition running partially_complete = true
can_transition running rejected = true
can_transition ai_analysis report_ready = true
can_transition ai_analysis report_ready_degraded = true
can_transition scan_complete ai_analysis = true
can_transition partially_complete ai_analysis = true
can_transition _ _ = false

unfoldable pub assert_transition : ScanStatus → ScanStatus → Result (Unit {0})
assert_transition current target = raise_if (not (can_transition current target)) invalid_scan_state

-- `_TERMINAL_STATES`
unfoldable pub is_terminal : ScanStatus → Bool
is_terminal report_ready = true
is_terminal report_ready_degraded = true
is_terminal rejected = true
is_terminal cancelled = true
is_terminal _ = false

pub data LifecycleStatus : Type 0 where
  new persistent resolved regressed : LifecycleStatus

-- `last_known_status == "RESOLVED"`
unfoldable pub is_resolved : Option LifecycleStatus → Bool
is_resolved (some resolved) = true
is_resolved _ = false

unfoldable pub derive_lifecycle_status :
    Bool → Bool → Option LifecycleStatus → Option LifecycleStatus
derive_lifecycle_status true false last = elim (is_resolved last) [
  | true ↦ some regressed
  | false ↦ some new
]
derive_lifecycle_status true true last = some persistent
derive_lifecycle_status false true last = some resolved
derive_lifecycle_status false false last = none
