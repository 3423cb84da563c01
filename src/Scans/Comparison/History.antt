-- ===== src/Scans/Comparison/History.antt =====
-- What the history says of a fingerprint, against `_fingerprints_with_status`.
use sentinel_gpt.Common.{
  ℕ, ◌≡◌, refl, ap, Bool, true, false, ◌==◌, nat_eq, some, List, [], ◌∷◌, contains, any_of, arith,
  ◌&&◌,
}
use sentinel_gpt.Common.Text.{Text, text_eq}
use sentinel_gpt.Scans.Lifecycle.{
  LifecycleStatus, new, persistent, resolved, regressed, is_resolved,
}
use sentinel_gpt.Scans.Store.{StatusRow}
use sentinel_gpt.Scans.Comparison.{resolved_before}

abbrev says_resolved : LifecycleStatus → Bool
says_resolved resolved = true
says_resolved _ = false

abbrev is_row : ℕ → Text → StatusRow → Bool
is_row target f row = row.target_id == target && (says_resolved row.status && row.fingerprint == f)

-- The history has a row of the target that says that the finding of this fingerprint is resolved.
abbrev pub was_resolved : ℕ → List StatusRow → Text → Bool
was_resolved target history f = any_of (is_row target f) history

says-is_resolved : (l : LifecycleStatus) → is_resolved (some l) ≡ says_resolved l
unfolding is_resolved
says-is_resolved new = refl
says-is_resolved persistent = refl
says-is_resolved resolved = refl
says-is_resolved regressed = refl

pub contains-resolved_before :
    (target : ℕ) (candidates : List Text) (history : List StatusRow) (f : Text)
    → contains (resolved_before target candidates history) f
      ≡ (contains candidates f && was_resolved target history f)
unfolding resolved_before
contains-resolved_before target candidates [] f = ground arith
contains-resolved_before target candidates (row ∷ history) f =
    let rest = contains-resolved_before target candidates history f in
    let says = says-is_resolved row.status in
    elim (text_eq.dec row.fingerprint f) [
      | yes e ↦ let same = ap (contains candidates) e in ground arith
      | no n ↦ ground arith
    ]
