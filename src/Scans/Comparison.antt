-- ===== src/Scans/Comparison.antt =====
-- backend/src/domain/scans/scan_service.py: `compare_scans`, the findings of two scans of a target
-- by their fingerprints.
pub mod History
pub mod Partition
use sentinel_gpt.Common.{
  ℕ, Bool, true, false, not, ◌==◌, nat_eq, option_eq, Option, none, some, List, [], ◌∷◌, map,
  keep_if, contains, if◌then◌else◌, ◌&&◌, ◌||◌, ltb,
}
use sentinel_gpt.Common.Table.{Table}
use sentinel_gpt.Common.Text.{Text, text_eq}
use sentinel_gpt.Errors.{Result, ok, err, invalid_scan_state, key_error}
use sentinel_gpt.Action.{Action, pure, lift, asks, reads, refuse_if, ◌>>=◌, ◌>>◌}
use sentinel_gpt.Scans.Lifecycle.{is_resolved}
use sentinel_gpt.Scans.Store.{Scan, StoredFinding, StatusRow, Database}
use sentinel_gpt.Scans.Store.Session.{Session}
use sentinel_gpt.Scans.Requests.{visible_scan}

-- A dictionary from fingerprints to the key and the title of a finding
abbrev pub Index : Type 0
Index = List (Text × (ℕ × Text))

abbrev pub fingerprints : Index → List Text
fingerprints index = map (λ (f, _). f) index

-- The row enters the dictionary: its fingerprint is there and is not empty.
abbrev tracked : Option Text → Option Text
tracked none = none
tracked (some []) = none
tracked (some (c ∷ f)) = some (c ∷ f)

-- `_fingerprint_index`: of two rows with the same fingerprint the later one stays.
unfoldable pub fingerprint_index : ℕ → Table StoredFinding → Index
unfolding nat_eq option_eq text_eq
fingerprint_index scan_id [] = []
fingerprint_index scan_id ((id, f) ∷ rows) =
    let rest = fingerprint_index scan_id rows in
    if f.scan_id == some scan_id
    then elim (tracked f.fingerprint) [
      | none ↦ rest
      | some fp ↦ if contains (fingerprints rest) fp then rest else (fp, (id, f.title)) ∷ rest
    ]
    else rest

-- `_fingerprints_with_status`, for RESOLVED
unfoldable pub resolved_before : ℕ → List Text → List StatusRow → List Text
unfolding nat_eq text_eq is_resolved
resolved_before target_id candidates [] = []
resolved_before target_id candidates (row ∷ rows) =
    let rest = resolved_before target_id candidates rows in
    if row.target_id == target_id
      && is_resolved (some row.status)
      && contains candidates row.fingerprint
    then row.fingerprint ∷ rest
    else rest

-- `sorted` on texts
abbrev comes_first : Text → Text → Bool
comes_first [] s = true
comes_first (c ∷ s) [] = false
comes_first (c ∷ s) (d ∷ t) = ltb c d || (c == d && comes_first s t)

unfoldable pub insert_text : Text → List Text → List Text
insert_text a [] = a ∷ []
insert_text a (x ∷ xs) =
    let rest = insert_text a xs in if comes_first a x then a ∷ x ∷ xs else x ∷ rest

unfoldable pub sorted : List Text → List Text
unfolding insert_text
sorted [] = []
sorted (x ∷ xs) = insert_text x (sorted xs)

pub record CompareEntry : Type 0 where
  pub id : ℕ
  pub fingerprint : Text
  pub title : Text

pub record Comparison : Type 0 where
  pub new_entries : List CompareEntry
  pub persistent_entries : List CompareEntry
  pub resolved_entries : List CompareEntry
  pub regressed_entries : List CompareEntry

-- `source_map[fp]`
pub entry_at : Text → Index → Result CompareEntry
unfolding text_eq
entry_at fp [] = err key_error
entry_at fp ((f, (id, title)) ∷ index) =
    if f == fp then ok (record { id = id; fingerprint = fp; title = title }) else entry_at fp index

pub cons_entry : Result CompareEntry → Result (List CompareEntry) → Result (List CompareEntry)
cons_entry (err e) rest = err e
cons_entry (ok entry) (err e) = err e
cons_entry (ok entry) (ok rest) = ok (entry ∷ rest)

pub entries_of : Index → List Text → Result (List CompareEntry)
unfolding entry_at cons_entry
entries_of index [] = ok []
entries_of index (fp ∷ fps) = cons_entry (entry_at fp index) (entries_of index fps)

-- `_to_compare_dtos`
pub to_compare_dtos : Index → List Text → Result (List CompareEntry)
unfolding sorted entries_of
to_compare_dtos index fps = entries_of index (sorted fps)

-- The answer, if every list could be made
gather :
    Result (List CompareEntry)
    → Result (List CompareEntry)
    → Result (List CompareEntry)
    → Result (List CompareEntry)
    → Result Comparison
gather (ok n) (ok p) (ok r) (ok g) = ok (record {
  new_entries = n;
  persistent_entries = p;
  resolved_entries = r;
  regressed_entries = g;
})
gather (err e) p r g = err e
gather (ok n) (err e) r g = err e
gather (ok n) (ok p) (err e) g = err e
gather (ok n) (ok p) (ok r) (err e) = err e

-- `xs - ys` and `xs & ys`
abbrev pub minus : List Text → List Text → List Text
minus xs ys = keep_if (λ f. not (contains ys f)) xs

abbrev pub meet : List Text → List Text → List Text
meet xs ys = keep_if (contains ys) xs

-- The four lists, by the two dictionaries and what the target's history says is resolved
pub compared : Index → Index → List Text → Result Comparison
unfolding to_compare_dtos sorted gather
compared a_map b_map history_resolved =
    let a_fps = fingerprints a_map in
    let b_fps = fingerprints b_map in
    let regressed_candidates = minus b_fps a_fps in
    let new_fps = sorted (minus regressed_candidates history_resolved) in
    let regressed_fps = sorted (meet regressed_candidates history_resolved) in
    let persistent_fps = sorted (meet a_fps b_fps) in
    let resolved_fps = sorted (minus a_fps b_fps) in
    gather (to_compare_dtos b_map new_fps) (to_compare_dtos b_map persistent_fps)
      (to_compare_dtos a_map resolved_fps) (to_compare_dtos b_map regressed_fps)

unfoldable pub compare_scans : Option ℕ → ℕ → ℕ → Action Session Comparison
unfolding nat_eq compared
compare_scans principal scan_a_id scan_b_id = do
  scan_a ← reads (visible_scan principal scan_a_id)
  scan_b ← reads (visible_scan principal scan_b_id)
  refuse_if (not (scan_a.target_id == scan_b.target_id)) invalid_scan_state
  findings ← asks (λ s. s.working.findings)
  history ← asks (λ s. s.working.history)
  let a_map = fingerprint_index scan_a_id findings
  let b_map = fingerprint_index scan_b_id findings
  lift (
      compared a_map b_map (
        resolved_before scan_a.target_id (minus (fingerprints b_map) (fingerprints a_map)) history))
