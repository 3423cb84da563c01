-- ===== src/Scans/Findings.antt =====
-- backend/src/domain/scans/scan_service.py: the findings of a scan and their history. A fingerprint
-- is computed by a function that is given.
pub mod History
use sentinel_gpt.Common.{
  ℕ, suc, Bool, true, false, not, ◌==◌, nat_eq, Option, none, some, List, [], ◌∷◌, ◌++◌, map,
  if◌then◌else◌, ◌&&◌, ◌||◌, ltb, contains, take,
}
use sentinel_gpt.Common.Table.{Table, get, add}
use sentinel_gpt.Common.Text.{Text, codes, text_eq, Unicode, rstrip}
use sentinel_gpt.Errors.{Result, ok, err, key_error, ◌>>=◌}
use sentinel_gpt.Scans.Lifecycle.{LifecycleStatus, derive_lifecycle_status}
use sentinel_gpt.Scans.Store.{Scan, Target, Execution, StoredFinding, StatusRow, Database}

-- A finding of the engine
pub record Finding : Type 0 where
  pub id : Text
  pub category : Text
  pub severity : Text
  pub title : Text
  pub description : Text
  pub evidence : Text
  pub location : Text
  pub recommendation : Text

abbrev pub category_fallback : Text
category_fallback = codes "MISSING_SECURITY_HEADER"

-- `_canonical_category_code`
unfoldable pub canonical_category_code : Unicode → Text → Text
unfolding text_eq
canonical_category_code u category =
    if contains
      (codes "http.security-headers" ∷ codes "http.cookies" ∷ codes "http.server-info" ∷ [])
      category
    then codes "MISSING_SECURITY_HEADER"
    else if category == codes "http.transport"
    then codes "WEAK_CIPHER"
    else u.upper category

-- `_map_category`, as the code of the category: the default of `get` is read whatever the code.
unfoldable pub map_category : Unicode → List Text → Text → Result Text
unfolding text_eq
map_category u seeded category =
    let canonical = canonical_category_code u category in
    if not (contains seeded category_fallback)
    then err key_error
    else ok (if contains seeded canonical then canonical else category_fallback)

-- `_previous_scan_id`: the parent, or else the scan of the target that completed last.
later : ℕ × ℕ → Option (ℕ × ℕ) → ℕ × ℕ
later row none = row
later (i, t) (some (j, r)) = if ltb t r then (j, r) else (i, t)

last_completed : ℕ → ℕ → Table Scan → Option (ℕ × ℕ)
unfolding later nat_eq
last_completed target_id current [] = none
last_completed target_id current ((i, scan) ∷ rows) =
    let rest = last_completed target_id current rows in
    if scan.target_id == target_id && not (i == current)
    then elim scan.completed_at [ none ↦ rest | some t ↦ some (later (i, t) rest) ]
    else rest

abbrev key_of : Option (ℕ × ℕ) → Option ℕ
key_of none = none
key_of (some (i, t)) = some i

abbrev parent_of : Option Scan → Option ℕ
parent_of none = none
parent_of (some scan) = scan.parent_scan_id

unfoldable pub previous_scan_id : ℕ → ℕ → Table Scan → Option ℕ
unfolding last_completed
previous_scan_id target_id current scans = elim (parent_of (get current scans)) [
  | some parent ↦ some parent
  | none ↦ key_of (last_completed target_id current scans)
]

abbrev of_scan : ℕ → StoredFinding → Bool
of_scan id f = elim f.scan_id [ none ↦ false | some i ↦ i == id ]

abbrev pub cons_new : Option Text → List Text → List Text
cons_new none fps = fps
cons_new (some []) fps = fps
cons_new (some (c ∷ fp)) fps = if contains fps (c ∷ fp) then fps else (c ∷ fp) ∷ fps

-- `_fingerprints_for_scan`
unfoldable pub fingerprints_for_scan : ℕ → Table StoredFinding → List Text
unfolding text_eq nat_eq
fingerprints_for_scan id [] = []
fingerprints_for_scan id ((_, f) ∷ rows) =
    let rest = fingerprints_for_scan id rows in
    if of_scan id f then cons_new f.fingerprint rest else rest

-- `_latest_status_map`: rows are appended, so the last one of a fingerprint is the newest.
unfoldable pub latest_status : ℕ → Text → List StatusRow → Option LifecycleStatus
unfolding text_eq nat_eq
latest_status target_id fp [] = none
latest_status target_id fp (row ∷ rows) =
    let rest = latest_status target_id fp rows in
    elim rest [
      | some status ↦ some status
      | none ↦ if row.target_id == target_id && row.fingerprint == fp then some row.status else none
    ]

-- `current | previous`
unfoldable pub union : List Text → List Text → List Text
unfolding text_eq
union [] ys = ys
union (x ∷ xs) ys = let rest = union xs ys in if contains rest x then rest else x ∷ rest

abbrev status_row : ℕ → ℕ → Text → Option LifecycleStatus → List StatusRow
status_row target_id scan_id fp none = []
status_row target_id scan_id fp (some status) =
    record {
      fingerprint = fp;
      target_id = target_id;
      status = status;
      observed_in_scan_id = scan_id;
    }
    ∷ []

-- The rows of `_record_lifecycle`, one for each fingerprint considered
unfoldable pub lifecycle_rows :
    ℕ → ℕ → List Text → List Text → List StatusRow → List Text → List StatusRow
unfolding text_eq
lifecycle_rows target_id scan_id current previous history [] = []
lifecycle_rows target_id scan_id current previous history (fp ∷ fps) =
    status_row target_id scan_id fp (
      derive_lifecycle_status (contains current fp) (contains previous fp)
        (latest_status target_id fp history))
    ++ lifecycle_rows target_id scan_id current previous history fps

abbrev pub fingerprints_of : Option ℕ → Table StoredFinding → List Text
fingerprints_of none rows = []
fingerprints_of (some id) rows = fingerprints_for_scan id rows

unfoldable pub record_lifecycle : ℕ → ℕ → List Text → Database → Database
unfolding previous_scan_id
record_lifecycle target_id scan_id current db =
    let previous = fingerprints_of (previous_scan_id target_id scan_id db.scans) db.findings in
    record db {
      history =
          db.history
          ++ lifecycle_rows target_id scan_id current previous db.history (union current previous);
    }
