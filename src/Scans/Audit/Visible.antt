-- ===== src/Scans/Audit/Visible.antt =====
-- What a query shows, and what it leaves in the trail.
use sentinel_gpt.Common.{
  ℕ, ◌≡◌, refl, Bool, true, Option, none, some, List, [], ◌∷◌, ◌++◌, keep_if, take, All, arith,
  Bool-cases, inl, inr,
}
use sentinel_gpt.Common.Text.{Text, codes}
use sentinel_gpt.Common.Ordered.{order_desc}
use sentinel_gpt.Errors.{ok}
use sentinel_gpt.Action.Ends.{Ends, Ends-step}
use sentinel_gpt.Scans.Store.{AuditEntry, Value}
use sentinel_gpt.Scans.Store.Session.{Session, record_audit}
use sentinel_gpt.Scans.Audit.{
  AuditFilters, passes, visible_to, record_access, query_entries, entry_at, if_visible, log_found,
  get_entry,
}

-- One entry more, which says that the user read the trail
pub record IsLogged (user : ℕ) (s s' : Session) : Type 0 where
  pub entry : AuditEntry
  pub trail : s'.working.audit ≡ s.working.audit ++ (entry ∷ [])
  pub actor : entry.actor_user_id ≡ some user
  pub action : entry.action_code ≡ codes "AUDIT_LOG_ACCESSED"

All-keep_if : (p : AuditEntry → Bool) (xs : List AuditEntry) → All (λ e. p e ≡ true) (keep_if p xs)
All-keep_if p [] = tt
All-keep_if p (x ∷ xs) = ground (arith, All-keep_if p xs)

record_access-IsLogged :
    (show_id : ℕ → Text) (user : ℕ) (filters : List (Text × Value)) (s : Session)
    → IsLogged user s (record_access show_id user filters s).1
unfolding record_access record_audit
record_access-IsLogged show_id user filters s = record {
  entry = record {
    actor_user_id = some user;
    action_code = codes "AUDIT_LOG_ACCESSED";
    entity_type = codes "audit_log";
    entity_id = user;
    metadata = filters;
    occurred_at = s.clock;
  };
  trail = refl;
  actor = refl;
  action = refl;
}

module _ (show_id : ℕ → Text) where
  access_returns :
      (user : ℕ) (metadata : List (Text × Value)) (s : Session)
      → (record_access show_id user metadata s).0 ≡ ok tt
  unfolding record_access record_audit
  access_returns user metadata s = refl

  -- A query returns, shows only entries that the user may see, and adds to the trail one entry that
  -- says who read it; nothing of the trail is changed.
  pub query_entries-visible :
      (user : ℕ) (filters : AuditFilters) (limit : ℕ) (s : Session)
      → Ends s
          (λ entries s'. All (λ e. visible_to show_id user e ≡ true) entries × IsLogged user s s')
          (query_entries show_id user filters limit)
  unfolding query_entries
  query_entries-visible user filters limit s = Ends-step s _ _ s.working.audit refl (
      Ends-step s _ _ tt (access_returns user _ s) (record {
        value = _;
        returns = refl;
        state = (
          All-keep_if (visible_to show_id user) (
              take limit
                (order_desc (λ e. e.occurred_at) (keep_if (passes filters) s.working.audit))),
          record_access-IsLogged show_id user _ s,
        );
      }))

  -- What is shown of one entry
  abbrev Shows : ℕ → Session → Option AuditEntry → Session → Type 0
  Shows user s none s' = s' ≡ s
  Shows user s (some e) s' = (visible_to show_id user e ≡ true) × IsLogged user s s'

  visible_found :
      (user : ℕ) (o : Option AuditEntry) (e : AuditEntry)
      → if_visible show_id user o ≡ some e
      → visible_to show_id user e ≡ true
  visible_found user none e h = ground arith
  visible_found user (some f) e h = elim (Bool-cases (visible_to show_id user f)) [
    | inl seen ↦ let same = shown_same f e seen h in rw same at seen
    | inr hidden ↦ ground arith
  ]
    where
      shown_same :
          (f e : AuditEntry)
          → visible_to show_id user f ≡ true
          → if_visible show_id user (some f) ≡ some e
          → f ≡ e
      shown_same f e seen h = ground arith

  found-Shows :
      (user id : ℕ) (o : Option AuditEntry) (s : Session)
      → ((e : AuditEntry) → o ≡ some e → visible_to show_id user e ≡ true)
      → Ends s (λ shown s'. Shows user s shown s') (log_found show_id user id o)
  unfolding log_found
  found-Shows user id none s h = record { value = none; returns = refl; state = refl }
  found-Shows user id (some e) s h = Ends-step s _ _ tt (access_returns user _ s) (record {
    value = some e;
    returns = refl;
    state = (h e refl, record_access-IsLogged show_id user _ s);
  })

  -- An entry that is shown is one that the user may see, and the access is logged; where nothing is
  -- shown, be it missing or hidden, the session stays as it was.
  pub get_entry-Shows :
      (id user : ℕ) (s : Session)
      → Ends s (λ shown s'. Shows user s shown s') (get_entry show_id id user)
  unfolding get_entry
  get_entry-Shows id user s =
      Ends-step s _ _ (if_visible show_id user (entry_at show_id id s.working.audit)) refl
        (found-Shows user id _ s (visible_found user (entry_at show_id id s.working.audit)))
