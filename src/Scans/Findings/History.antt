-- ===== src/Scans/Findings/History.antt =====
-- What the history says of a fingerprint after a scan.
use mathlib.Core.Option.{or_else}
use sentinel_gpt.Common.{
  ℕ, ◌≡◌, refl, Bool, true, false, ◌==◌, nat_eq, Option, none, some, List, [], ◌∷◌, ◌++◌,
  if◌then◌else◌, ◌||◌, contains, arith,
}
use sentinel_gpt.Common.Text.{Text, text_eq}
use sentinel_gpt.Scans.Lifecycle.{
  LifecycleStatus, derive_lifecycle_status, new, persistent, resolved, regressed, is_resolved,
}
use sentinel_gpt.Scans.Store.{StatusRow, Database}
use sentinel_gpt.Scans.Findings.{
  latest_status, union, status_row, lifecycle_rows, record_lifecycle, previous_scan_id,
  fingerprints_of,
}

latest_status-append :
    (target_id : ℕ) (fp : Text) (xs ys : List StatusRow)
    → latest_status target_id fp (xs ++ ys)
      ≡ or_else (latest_status target_id fp ys) (latest_status target_id fp xs)
unfolding latest_status or_else
latest_status-append target_id fp [] ys = ground arith
latest_status-append target_id fp (x ∷ xs) ys =
    ground (arith, latest_status-append target_id fp xs ys)

latest_status_nil : (target_id : ℕ) (fp : Text) → latest_status target_id fp [] ≡ none
unfolding latest_status
latest_status_nil target_id fp = refl

latest_status_row :
    (target_id scan_id : ℕ) (fp f : Text) (o : Option LifecycleStatus)
    → latest_status target_id fp (status_row target_id scan_id f o) ≡ (if f == fp then o else none)
unfolding latest_status
latest_status_row target_id scan_id fp f none = ground arith
latest_status_row target_id scan_id fp f (some s) = ground arith

module _ (target_id scan_id : ℕ) (current previous : List Text) (history : List StatusRow)
    (fp : Text) where
  abbrev derived : Option LifecycleStatus
  derived =
      derive_lifecycle_status (contains current fp) (contains previous fp)
        (latest_status target_id fp history)

  latest_status-rows :
      (fps : List Text)
      → latest_status target_id fp (lifecycle_rows target_id scan_id current previous history fps)
        ≡ (if contains fps fp then derived else none)
  unfolding lifecycle_rows or_else
  latest_status-rows [] = latest_status_nil target_id fp
  latest_status-rows (f ∷ fps) = ground (
    arith,
    latest_status-append target_id fp
        (status_row target_id scan_id f (
          derive_lifecycle_status (contains current f) (contains previous f)
            (latest_status target_id f history)))
        (lifecycle_rows target_id scan_id current previous history fps),
    latest_status_row target_id scan_id fp f (
        derive_lifecycle_status (contains current f) (contains previous f)
          (latest_status target_id f history)),
    latest_status-rows fps,
  )

contains-union :
    (xs ys : List Text) (fp : Text) → contains (union xs ys) fp ≡ (contains xs fp || contains ys fp)
unfolding union
contains-union [] ys fp = refl
contains-union (x ∷ xs) ys fp = ground (arith, contains-union xs ys fp)

-- What a scan with the fingerprints `current` says of a fingerprint, given those of the scan before
-- and what was said last
abbrev pub Verdict : Bool → Bool → Option LifecycleStatus → Option LifecycleStatus → Type 0
Verdict true true last now = now ≡ some persistent
Verdict true false last now = now ≡ (if is_resolved last then some regressed else some new)
Verdict false true last now = now ≡ some resolved
Verdict false false last now = now ≡ last

derive-Verdict :
    (in_current in_previous : Bool) (last : Option LifecycleStatus)
    → Verdict in_current in_previous last (
        or_else
          (if in_current || in_previous
            then derive_lifecycle_status in_current in_previous last
            else none)
          last)
unfolding derive_lifecycle_status or_else is_resolved
derive-Verdict true true last = refl
derive-Verdict true false none = refl
derive-Verdict true false (some new) = refl
derive-Verdict true false (some persistent) = refl
derive-Verdict true false (some resolved) = refl
derive-Verdict true false (some regressed) = refl
derive-Verdict false true last = refl
derive-Verdict false false last = refl

-- After the history of a scan is recorded, the last status of every fingerprint of the target is:
-- PERSISTENT if it is found in this scan and in the previous one, NEW if only in this one, or
-- REGRESSED if it was RESOLVED before, RESOLVED if only in the previous one, and what it was before
-- if it is in neither. The previous scan is the one that `previous_scan_id` picks.
pub record_lifecycle-Verdict :
    (target_id scan_id : ℕ) (current : List Text) (db : Database) (fp : Text)
    → Verdict
        (contains current fp)
        (contains (fingerprints_of (previous_scan_id target_id scan_id db.scans) db.findings) fp)
        (latest_status target_id fp db.history)
        (latest_status target_id fp (record_lifecycle target_id scan_id current db).history)
unfolding record_lifecycle
record_lifecycle-Verdict target_id scan_id current db fp =
    let previous = fingerprints_of (previous_scan_id target_id scan_id db.scans) db.findings in
    rw
      (
        latest_status-append target_id fp db.history
            (lifecycle_rows target_id scan_id current previous db.history (union current previous)),
        latest_status-rows target_id scan_id current previous db.history fp
            (union current previous),
        contains-union current previous fp,
      )
      (derive-Verdict (contains current fp) (contains previous fp)
        (latest_status target_id fp db.history))
