-- ===== src/Scans/Job/Rows.antt =====
-- The rows of the findings can be made.
use sentinel_gpt.Common.{ℕ, ◌≡◌, refl, true, List, [], ◌∷◌, All, contains}
use sentinel_gpt.Common.Text.{Text, codes, text_eq}
use sentinel_gpt.Errors.{Result, ok, ◌>>=◌, raise_if}
use sentinel_gpt.Scans.Store.{StoredFinding}
use sentinel_gpt.Scans.Findings.{Finding, map_category}
use sentinel_gpt.Scans.Inputs.{Worker, FindingIdentity, finding_row, finding_rows}

-- The category that others fall back to is seeded, and so is each severity of the findings.
pub record IsSeeded (w : Worker) (findings : List Finding) : Type 0 where
  pub fallback : contains w.categories (codes "MISSING_SECURITY_HEADER") ≡ true
  pub graded : All (λ f. contains w.severities (w.unicode.upper f.severity) ≡ true) findings

module _ (w : Worker) (execution : ℕ) (identity : FindingIdentity) (engine : Text) where
  finding_row_returns :
      (f : Finding)
      → contains w.categories (codes "MISSING_SECURITY_HEADER") ≡ true
      → contains w.severities (w.unicode.upper f.severity) ≡ true
      → (row : StoredFinding) × (finding_row w execution identity engine f ≡ ok row)
  unfolding finding_row map_category ◌>>=◌ raise_if
  finding_row_returns f h g = rw h (rw g (_, refl))

  rows_cons :
      (r : Result StoredFinding) (rs : Result (List StoredFinding)) (row : StoredFinding)
      (rows : List StoredFinding)
      → r ≡ ok row
      → rs ≡ ok rows
      → (r >>= λ x. rs >>= λ xs. ok (x ∷ xs)) ≡ ok (row ∷ rows)
  unfolding ◌>>=◌
  rows_cons r rs row rows h g = rw h (rw g refl)

  pub finding_rows_returns :
      (findings : List Finding)
      → IsSeeded w findings
      → (rows : List StoredFinding) × (finding_rows w execution identity engine findings ≡ ok rows)
  unfolding finding_rows
  finding_rows_returns [] h = ([], refl)
  finding_rows_returns (f ∷ findings) h =
      let row = finding_row_returns f h.fallback h.graded.0 in
      let rest =
        finding_rows_returns findings (record { fallback = h.fallback; graded = h.graded.1 }) in
      (row.0 ∷ rest.0, rows_cons _ _ row.0 rest.0 row.1 rest.1)
