-- ===== src/Scans/Inputs.antt =====
-- backend/src/domain/scans/scan_service.py: what a background job is given, and what it derives from
-- the target and from the findings.
use sentinel_gpt.Common.{
  ℕ, zero, suc, Bool, not, ◌==◌, nat_eq, Option, none, some, List, [], ◌∷◌, if◌then◌else◌, contains,
  take,
}
use sentinel_gpt.Common.Table.{get}
use sentinel_gpt.Common.Text.{Text, codes, text_eq, Unicode, rstrip}
use sentinel_gpt.Errors.{Result, ok, key_error, raise_if, ◌>>=◌, ◌>>◌}
use sentinel_gpt.Scans.Store.{Scan, Target, Execution, StoredFinding, Database}
use sentinel_gpt.Scans.Findings.{Finding, map_category, canonical_category_code}
use sentinel_gpt.Targets.Urls.{SplitResult, or_text}

-- `_origin_for_target`
pub record Origin : Type 0 where
  pub hostname : Text
  pub scheme : Text
  pub port : ℕ
  pub path : Text

-- The pipeline's findings, or the class of the exception that it raised
pub data PipelineResult : Type 0 where
  analysed : List Finding → PipelineResult
  failed : Text → PipelineResult

-- What the analyzer comes to: `None` is no analyzer
pub data AiOutcome : Type 0 where
  not_configured : AiOutcome
  unavailable : Text → AiOutcome
  available : Text → Text → AiOutcome

-- What a job is given. The lists of codes and the two flags, for the
-- pipeline's engine and for headers-analyzer, are the seeded lookup tables.
pub record Worker : Type 0 where
  pub unicode : Unicode
  pub urlsplit : Text → Result SplitResult
  pub engine_code : Text
  pub engine_version : Text
  pub engine_seeded : Bool
  pub headers_seeded : Bool
  pub categories : List Text
  pub severities : List Text
  pub fingerprint : Text → Finding → Text → Option Text
  pub run : Origin → PipelineResult
  pub analyze : List Finding → Result AiOutcome
  pub during_scan : Database → Database
  pub during_analysis : Database → Database

abbrev port_of : Option ℕ → Text → ℕ
port_of none scheme = if scheme == codes "https" then 443 else 80
port_of (some zero) scheme = if scheme == codes "https" then 443 else 80
port_of (some (suc n)) scheme = suc n

abbrev or_else_text : Option Text → Text → Text
or_else_text none t = t
or_else_text (some []) t = t
or_else_text (some (c ∷ s)) t = c ∷ s

module _ (w : Worker) where
  unfoldable pub origin_of : Target → Result Origin
  unfolding text_eq
  origin_of target = do
    parts ← w.urlsplit target.normalized_url
    let scheme = or_text (w.unicode.lower parts.scheme) (codes "https")
    port ← parts.port
    ok (record {
      hostname = or_else_text parts.hostname target.hostname;
      scheme = scheme;
      port = port_of port scheme;
      path = or_text parts.path (codes "/");
    })

-- `_FindingIdentity`
pub record FindingIdentity : Type 0 where
  pub scan_id : Option ℕ
  pub target_id : Option ℕ
  pub hostname : Text
  pub affected_asset_default : Text

abbrev no_identity : FindingIdentity
no_identity = record {
  scan_id = none;
  target_id = none;
  hostname = [];
  affected_asset_default = codes "/";
}

target_identity : ℕ → ℕ → Option Target → FindingIdentity
target_identity scan_id target_id none = record no_identity {
  scan_id = some scan_id;
  target_id = some target_id;
}
target_identity scan_id target_id (some target) = record {
  scan_id = some scan_id;
  target_id = some target_id;
  hostname = target.hostname;
  affected_asset_default = or_text (rstrip (λ c. c == b'/') target.normalized_url) (codes "/");
}

scan_identity : Database → ℕ → Option Scan → FindingIdentity
unfolding target_identity
scan_identity db scan_id none = no_identity
scan_identity db scan_id (some scan) =
    target_identity scan_id scan.target_id (get scan.target_id db.targets)

execution_identity : Database → Option Execution → FindingIdentity
unfolding scan_identity
execution_identity db none = no_identity
execution_identity db (some execution) =
    scan_identity db execution.scan_id (get execution.scan_id db.scans)

-- `_resolve_finding_identity`
unfoldable pub finding_identity : Database → ℕ → FindingIdentity
unfolding execution_identity
finding_identity db execution_id = execution_identity db (get execution_id db.executions)

abbrev pub engine_of : Option Execution → Text
engine_of none = codes "unknown"
engine_of (some execution) = take 50 execution.engine_code

-- One row of `_persist_findings`
module _ (w : Worker) where
  unfoldable pub finding_fingerprint : FindingIdentity → Finding → Option Text
  finding_fingerprint identity finding =
      w.fingerprint identity.hostname finding (canonical_category_code w.unicode finding.category)

  unfoldable pub finding_row : ℕ → FindingIdentity → Text → Finding → Result StoredFinding
  unfolding text_eq finding_fingerprint
  finding_row execution_id identity engine finding = do
    category ← map_category w.unicode w.categories finding.category
    let severity = w.unicode.upper finding.severity
    raise_if (not (contains w.severities severity)) key_error
    ok (record {
      execution_id = execution_id;
      category = category;
      severity = severity;
      title = take 200 finding.title;
      description = finding.description;
      evidence = finding.evidence;
      location = take 500 finding.location;
      recommendation = finding.recommendation;
      fingerprint = finding_fingerprint identity finding;
      target_id = identity.target_id;
      scan_id = identity.scan_id;
      source_engine_code = engine;
      affected_asset = take 500 (or_text finding.location identity.affected_asset_default);
    })

  unfoldable pub finding_rows :
      ℕ → FindingIdentity → Text → List Finding → Result (List StoredFinding)
  unfolding finding_row
  finding_rows execution_id identity engine [] = ok []
  finding_rows execution_id identity engine (f ∷ findings) = do
    row ← finding_row execution_id identity engine f
    rows ← finding_rows execution_id identity engine findings
    ok (row ∷ rows)
