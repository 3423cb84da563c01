-- ===== src/Tests/Services.antt =====
-- Organizations, targets, attestations, comparisons and the audit trail over small tables.
use sentinel_gpt.Common.{
  ℕ, ◌≡◌, refl, true, nat_eq, option_eq, none, some, List, [], ◌∷◌, All, arith,
}
use sentinel_gpt.Common.Table.{get, exists, remove}
use sentinel_gpt.Common.Text.{Text, codes, text_eq}
use sentinel_gpt.Errors.{Result, ok, err, Returns}
use sentinel_gpt.Action.{◌>>=◌}
use sentinel_gpt.Action.Ends.{Ends}
use sentinel_gpt.Scans.Lifecycle.{queued, resolved}
use sentinel_gpt.Scans.Store.{admin, member, StoredFinding}
use sentinel_gpt.Scans.Store.Session.{Session}
use sentinel_gpt.Scans.Requests.{visible_scan, seen_by, covers}
use sentinel_gpt.Scans.Attestations.{has_active_confirmed, revoke}
use sentinel_gpt.Scans.Attestations.Authority.{revoke-active}
use sentinel_gpt.Scans.Comparison.{Comparison, fingerprint_index, resolved_before, compare_scans}
use sentinel_gpt.Scans.Comparison.History.{was_resolved}
use sentinel_gpt.Scans.Comparison.Partition.{IsPartition, names, compare_scans-IsPartition}
use sentinel_gpt.Scans.Audit.{AuditFilters, query_entries, visible_to}
use sentinel_gpt.Scans.Audit.Visible.{IsLogged, query_entries-visible}
use sentinel_gpt.Organizations.{adds, perform}
use sentinel_gpt.Organizations.Rows.{IsRostered}
use sentinel_gpt.Organizations.Roster.{perform-IsRostered}
use sentinel_gpt.Targets.Registry.{register_target, set_archived, archive_target}
use sentinel_gpt.Targets.Registry.Unique.{AreUnique, register_target-AreUnique}
use sentinel_gpt.Tests.Samples.{ascii, no_ip, one_url}
use sentinel_gpt.Tests.Rows.{scan_in, database, session}

-- User 1 is the administrator of organization 3.
abbrev team : Session
team = record (session queued true) {
  working = record (database queued true) {
    memberships =
        (4, record { organization_id = 3; user_id = 1; role = admin; created_at = 1 }) ∷ [];
  };
}

team-IsRostered : IsRostered team
unfolding exists
team-IsRostered = record { single = (refl, tt); issued = (omega arith, tt) }

perform-IsRostered_example : IsRostered (perform 1 (adds 3 2 member) team)
perform-IsRostered_example = perform-IsRostered 1 (adds 3 2 member) team team-IsRostered

team-AreUnique : AreUnique team
unfolding exists
team-AreUnique = record { distinct = (refl, tt) }

register_target-AreUnique_example :
    AreUnique
      (register_target 1 ascii no_ip one_url
        (codes "example.com")
        (codes "https://example.com/")
        (some 3)
        team).1
    × AreUnique (set_archived 1 5 true team).1
    × AreUnique (archive_target 1 5 team).1
register_target-AreUnique_example =
    register_target-AreUnique 1 ascii no_ip one_url (codes "example.com")
      (codes "https://example.com/") (some 3) 5 true team team-AreUnique

revoke-active_example :
    Returns
      (λ _.
        has_active_confirmed 5 (revoke 1 6 (codes "left") team).1
        ≡ exists (covers 100 5) (remove 6 team.working.attestations))
      (revoke 1 6 (codes "left") team).0
revoke-active_example = revoke-active 1 6 (codes "left") 5 team

abbrev finding_of : ℕ → Text → StoredFinding
finding_of scan fingerprint = record {
  execution_id = 1;
  category = codes "COOKIE";
  severity = codes "LOW";
  title = codes "t";
  description = [];
  evidence = [];
  location = [];
  recommendation = [];
  fingerprint = some fingerprint;
  target_id = some 5;
  scan_id = some scan;
  source_engine_code = [];
  affected_asset = [];
}

-- Scan 9 found a and b, and scan 10 found b, c and d; c was resolved before.
abbrev two_scans : Session
two_scans = record (session queued true) {
  working = record (database queued true) {
    scans = (9, scan_in queued) ∷ (10, scan_in queued) ∷ [];
    findings =
        (1, finding_of 9 (codes "a"))
        ∷ (2, finding_of 9 (codes "b"))
        ∷ (3, finding_of 10 (codes "b"))
        ∷ (4, finding_of 10 (codes "d"))
        ∷ (5, finding_of 10 (codes "c"))
        ∷ [];
    history =
        record {
          fingerprint = codes "c";
          target_id = 5;
          status = resolved;
          observed_in_scan_id = 8;
        }
        ∷ [];
  };
}

abbrev four_lists : Result Comparison → List (List Text)
four_lists (ok c) =
    names c.new_entries
    ∷ names c.persistent_entries
    ∷ names c.resolved_entries
    ∷ names c.regressed_entries
    ∷ []
four_lists (err e) = []

compared_test :
    four_lists (compare_scans (some 1) 9 10 two_scans).0
    ≡ (codes "d" ∷ []) ∷ (codes "b" ∷ []) ∷ (codes "a" ∷ []) ∷ (codes "c" ∷ []) ∷ []
unfolding compare_scans ◌>>=◌ visible_scan get seen_by fingerprint_index resolved_before nat_eq
compared_test = refl

seen_9 : visible_scan (some 1) 9 two_scans ≡ ok (scan_in queued)
unfolding visible_scan get seen_by nat_eq
seen_9 = refl

seen_10 : visible_scan (some 1) 10 two_scans ≡ ok (scan_in queued)
unfolding visible_scan get seen_by nat_eq
seen_10 = refl

compare_scans-IsPartition_example :
    Ends two_scans
      (λ c s'.
        IsPartition
          (fingerprint_index 9 two_scans.working.findings)
          (fingerprint_index 10 two_scans.working.findings)
          (was_resolved 5 two_scans.working.history)
          c
        × (s' ≡ two_scans))
      (compare_scans (some 1) 9 10)
compare_scans-IsPartition_example =
    compare_scans-IsPartition (some 1) 9 10 (scan_in queued) (scan_in queued) two_scans seen_9
      seen_10 refl

abbrev everything : AuditFilters
everything = record {
  entity_type = none;
  entity_id = none;
  action_code = none;
  date_from = none;
  date_to = none;
}

query_entries-visible_example :
    Ends team
      (λ entries s'. All (λ e. visible_to (λ n. n ∷ []) 1 e ≡ true) entries × IsLogged 1 team s')
      (query_entries (λ n. n ∷ []) 1 everything 100)
query_entries-visible_example = query_entries-visible (λ n. n ∷ []) 1 everything 100 team
