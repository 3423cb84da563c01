-- ===== src/Tests/Rows.antt =====
-- One scan of one target: the rows and the worker that the runs of the scans share.
use sentinel_gpt.Common.{Bool, true, false, none, some, [], ◌∷◌}
use sentinel_gpt.Common.Text.{codes}
use sentinel_gpt.Errors.{ok}
use sentinel_gpt.Scans.Lifecycle.{ScanStatus}
use sentinel_gpt.Scans.Store.{Scan, Attestation, Database, confirmed, attestation_revoked}
use sentinel_gpt.Scans.Store.Session.{Session}
use sentinel_gpt.Scans.Inputs.{Worker, failed, not_configured}
use sentinel_gpt.Tests.Samples.{ascii, example_parts, example_host}

abbrev pub scan_in : ScanStatus → Scan
scan_in status = record {
  target_id = 5;
  scan_profile = codes "standard";
  initiated_by_user_id = 1;
  authorization_attestation_id = 6;
  status = status;
  parent_scan_id = none;
  queued_at = some 10;
  started_at = none;
  completed_at = none;
  created_at = 10;
}

abbrev pub attestation_as : Bool → Attestation
attestation_as valid = record {
  target_id = 5;
  status = elim valid [ true ↦ confirmed | false ↦ attestation_revoked ];
  evidence_file_ref = none;
  expires_at = none;
  created_by_user_id = 1;
  revoked_at = none;
  revoked_reason = none;
  created_at = 5;
}

abbrev pub database : ScanStatus → Bool → Database
database status valid = record {
  profiles = codes "standard" ∷ [];
  scans = (9, scan_in status) ∷ [];
  targets =
      (
        5,
        record {
          owner_user_id = some 1;
          owner_organization_id = none;
          hostname = example_host;
          normalized_url = codes "https://example.com/";
          is_archived = false;
          created_at = 1;
        },
      )
      ∷ [];
  organizations = [];
  memberships = [];
  attestations = (6, attestation_as valid) ∷ [];
  executions = [];
  findings = [];
  history = [];
  assessments = [];
  audit = [];
}

abbrev pub session : ScanStatus → Bool → Session
session status valid = record {
  committed = database status valid;
  working = database status valid;
  supply = 20;
  clock = 100;
  scanned = [];
}

abbrev pub worker : Worker
worker = record {
  unicode = ascii;
  urlsplit = λ s. ok example_parts;
  engine_code = codes "headers-analyzer";
  engine_version = codes "1";
  engine_seeded = true;
  headers_seeded = true;
  categories = codes "MISSING_SECURITY_HEADER" ∷ [];
  severities = codes "LOW" ∷ [];
  fingerprint = λ host finding category. none;
  run = λ origin. failed (codes "TargetUnresolvedError");
  analyze = λ findings. ok not_configured;
  during_scan = λ db. db;
  during_analysis = λ db. db;
}
