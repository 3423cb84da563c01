-- ===== src/Scans/Job/Completes.antt =====
-- How the job ends for a scan that is authorized, when each part of the chain answers.
use sentinel_gpt.Common.{ℕ, ◌≡◌, some}
use sentinel_gpt.Common.Table.{Table, get}
use sentinel_gpt.Common.Text.{Text, text_eq}
use sentinel_gpt.Action.{Action}
use sentinel_gpt.Action.Ends.{Ends}
use sentinel_gpt.Scans.Lifecycle.{ScanStatus, status_eq}
use sentinel_gpt.Scans.Store.{Scan}
use sentinel_gpt.Scans.Store.Session.{Session}

module _ (id : ℕ) where
  -- The scan has this status in the session.
  abbrev At : ScanStatus → Session → Type 0
  At status s = (scan : Scan) × (get id s.working.scans ≡ some scan) × (scan.status ≡ status)

  -- The same in the database, for good
  abbrev pub CommittedAt : ScanStatus → Session → Type 0
  CommittedAt status s =
      (scan : Scan) × (get id s.committed.scans ≡ some scan) × (scan.status ≡ status)
