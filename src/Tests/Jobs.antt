-- ===== src/Tests/Jobs.antt =====
-- backend/src/domain/scans/scan_service.py: a request that is granted
-- and two jobs that end.
use sentinel_gpt.Common.{
  ◌≡◌, refl, Bool, true, false, none, some, [], ◌∷◌, nat_eq, contains, arith, inl,
}
use sentinel_gpt.Common.Table.{get}
use sentinel_gpt.Common.Table.Keys.{IsAbsent}
use sentinel_gpt.Common.Text.{codes, text_eq}
use sentinel_gpt.Errors.{ok}
use sentinel_gpt.Scans.Lifecycle.{queued}
use sentinel_gpt.Scans.Store.{Target, attestation_active}
use sentinel_gpt.Scans.Requests.{ScanDetails, create_scan}
use sentinel_gpt.Scans.Requests.Granted.{Owns, as_user, IsCurrent, create_scan_returns}
use sentinel_gpt.Scans.Findings.{Finding}
use sentinel_gpt.Scans.Inputs.{Worker, Origin, analysed, available}
use sentinel_gpt.Scans.Job.{execute_scan_job, still_active}
use sentinel_gpt.Scans.Job.Rejects.{IsRejectedAt, execute_scan_job-IsRejectedAt}
use sentinel_gpt.Tests.Samples.{example_host}
use sentinel_gpt.Tests.Rows.{attestation_as, scan_in, database, session, worker}

stored : (valid : Bool) → get 9 (database queued valid).scans ≡ some (scan_in queued)
unfolding get nat_eq
stored valid = refl

withdrawn : still_active 100 (get 6 (database queued false).attestations) ≡ false
unfolding get attestation_active nat_eq
withdrawn = refl

execute_scan_job-IsRejectedAt_example :
    ((execute_scan_job worker 9 (session queued false)).0 ≡ ok tt)
    × IsRejectedAt 100 9 (execute_scan_job worker 9 (session queued false)).1
execute_scan_job-IsRejectedAt_example =
    execute_scan_job-IsRejectedAt worker 9 (scan_in queued) (session queued false) refl (tt, tt)
      (stored false) refl withdrawn

abbrev cookie : Finding
cookie = record {
  id = codes "f1";
  category = codes "http.cookies";
  severity = codes "low";
  title = codes "Cookie without Secure";
  description = [];
  evidence = [];
  location = codes "/";
  recommendation = [];
}

-- The pipeline finds one cookie, and a model answers.
abbrev finder : Worker
finder = record worker {
  run = λ origin. analysed (cookie ∷ []);
  analyze = λ findings. ok (available (codes "gemini") (codes "flash"));
}

abbrev example_target : Target
example_target = record {
  owner_user_id = some 1;
  owner_organization_id = none;
  hostname = example_host;
  normalized_url = codes "https://example.com/";
  is_archived = false;
  created_at = 1;
}

abbrev example_origin : Origin
example_origin = record {
  hostname = example_host;
  scheme = codes "https";
  port = 443;
  path = codes "/";
}

valid : still_active 100 (get 6 (database queued true).attestations) ≡ true
unfolding get attestation_active nat_eq
valid = refl

target_stored : get 5 (database queued true).targets ≡ some example_target
unfolding get nat_eq
target_stored = refl

seen : Owns (database queued true) 1 example_target
seen = as_user refl

covered : IsCurrent 100 5 (attestation_as true)
covered = record { of_target = refl; is_confirmed = refl; unexpired = inl refl }

held : get 6 (database queued true).attestations ≡ some (attestation_as true)
unfolding get nat_eq
held = refl

profile_known : contains (database queued true).profiles (codes "standard") ≡ true
unfolding text_eq
profile_known = refl

key_free : IsAbsent 20 (database queued true).scans
key_free = ground arith

create_scan_returns_example :
    (d : ScanDetails) × ((create_scan (some 1) 5 (codes "standard") (session queued true)).0 ≡ ok d)
    × (get d.id (create_scan (some 1) 5 (codes "standard") (session queued true)).1.working.scans
        ≡ some d.scan)
    × (d.scan.status ≡ queued)
create_scan_returns_example =
    create_scan_returns 1 5 6 (codes "standard") example_target (attestation_as true)
      (session queued true) target_stored seen refl held covered profile_known key_free
