-- ===== src/Scans/Audit.antt =====
-- backend/src/domain/audit/audit_service.py: the queries on the audit trail. An entry's key is its
-- place in the trail, which only grows.
pub mod Visible
use sentinel_gpt.Common.{
  ℕ, zero, suc, Bool, true, false, ◌==◌, nat_eq, option_eq, Option, none, some, List, [], ◌∷◌, ◌++◌,
  keep_if, take, leb, if◌then◌else◌, ◌&&◌, ◌||◌,
}
use sentinel_gpt.Common.Text.{Text, codes, text_eq}
use sentinel_gpt.Common.Ordered.{order_desc}
use sentinel_gpt.Action.{Action, pure, asks, ◌>>=◌, ◌>>◌}
use sentinel_gpt.Scans.Store.{AuditEntry, Value, null_value, text, key}
use sentinel_gpt.Scans.Store.Session.{Session, record_audit}

-- The filters of a query
pub record AuditFilters : Type 0 where
  pub entity_type : Option Text
  pub entity_id : Option ℕ
  pub action_code : Option Text
  pub date_from : Option ℕ
  pub date_to : Option ℕ

abbrev given {ℓ} : {A : Type ℓ} → (A → Bool) → Option A → Bool
given test none = true
given test (some a) = test a

unfoldable pub passes : AuditFilters → AuditEntry → Bool
unfolding nat_eq text_eq
passes filters e =
    given (λ t. e.entity_type == t) filters.entity_type
    && given (λ i. e.entity_id == i) filters.entity_id
    && given (λ a. e.action_code == a) filters.action_code
    && given (λ d. leb d e.occurred_at) filters.date_from
    && given (λ d. leb e.occurred_at d) filters.date_to

-- `metadata_json.get(name)`
abbrev lookup : Text → List (Text × Value) → Option Value
lookup name [] = none
lookup name ((n, v) ∷ rest) = if n == name then some v else lookup name rest

-- `str` on the key of a user gives what `show_id` says.
module _ (show_id : ℕ → Text) where
  abbrev says : ℕ → Option Value → Bool
  says user none = false
  says user (some null_value) = false
  says user (some (text t)) = t == show_id user
  says user (some (key i)) = show_id i == show_id user

  -- `_visible_to`
  unfoldable pub visible_to : ℕ → AuditEntry → Bool
  unfolding nat_eq option_eq text_eq
  visible_to user e =
      e.actor_user_id == some user || says user (lookup (codes "ownerUserId") e.metadata)

  -- The filters are an object within the entry; here their names carry its name.
  abbrev shown : Option ℕ → List (Text × Value)
  shown none = (codes "filters.entityId", null_value) ∷ []
  shown (some i) = (codes "filters.entityId", key i) ∷ []

  abbrev shown_text : Text → Option Text → List (Text × Value)
  shown_text name none = (name, null_value) ∷ []
  shown_text name (some t) = (name, text t) ∷ []

  -- Every access is itself an entry.
  unfoldable pub record_access : ℕ → List (Text × Value) → Action Session (Unit {0})
  record_access user filters =
      record_audit (some user) (codes "AUDIT_LOG_ACCESSED") (codes "audit_log") user filters

  unfoldable pub query_entries : ℕ → AuditFilters → ℕ → Action Session (List AuditEntry)
  unfolding passes visible_to record_access
  query_entries user filters limit = do
    trail ← asks (λ s. s.working.audit)
    let rows = take limit (order_desc (λ e. e.occurred_at) (keep_if (passes filters) trail))
    record_access user (
        shown_text (codes "filters.entityType") filters.entity_type
        ++ (shown filters.entity_id ++ shown_text (codes "filters.actionCode") filters.action_code))
    pure (keep_if (visible_to user) rows)

  pub entry_at : ℕ → List AuditEntry → Option AuditEntry
  entry_at id [] = none
  entry_at zero (e ∷ trail) = some e
  entry_at (suc id) (e ∷ trail) = entry_at id trail

  -- The entry, if the user may see it
  abbrev pub if_visible : ℕ → Option AuditEntry → Option AuditEntry
  if_visible user none = none
  if_visible user (some e) = if visible_to user e then some e else none

  pub log_found : ℕ → ℕ → Option AuditEntry → Action Session (Option AuditEntry)
  unfolding record_access
  log_found user id none = pure none
  log_found user id (some e) = do record_access user ((codes "entryId", key id) ∷ []); pure (some e)

  unfoldable pub get_entry : ℕ → ℕ → Action Session (Option AuditEntry)
  unfolding visible_to entry_at log_found
  get_entry id user = do
    found ← asks (λ s. if_visible user (entry_at id s.working.audit))
    log_found user id found
