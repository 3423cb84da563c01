-- ===== src/Scans/Attestations/Authority.antt =====
-- What an attestation authorizes, until it is revoked.
use sentinel_gpt.Common.{
  ℕ, ◌≡◌, ◌↔◌, refl, true, false, nat_eq, Option, none, some, [], ◌∷◌, arith, ltb,
}
use sentinel_gpt.Common.Table.{Table, update, remove, exists}
use sentinel_gpt.Common.Table.Distinct.{exists-add}
use sentinel_gpt.Common.Text.{Text}
use sentinel_gpt.Errors.{err, attestation_not_confirmed, Returns}
use sentinel_gpt.Action.Outcome.{Yields-bind, Yields-pure}
use sentinel_gpt.Scans.Store.{confirmed, Attestation, attestation_active}
use sentinel_gpt.Scans.Store.Session.{Session, uuid4, write, record_audit}
use sentinel_gpt.Scans.Requests.{
  or_not_confirmed, covers, latest_active_confirmed, require_attestation,
}
use sentinel_gpt.Scans.Attestations.{
  has_active_confirmed, revoked_now, create_self_attestation, revoke,
}

revoked_inactive :
    (now now' target : ℕ) (reason : Text) (a : Attestation)
    → covers now target (revoked_now now' reason a) ≡ false
unfolding attestation_active
revoked_inactive now now' target reason a = ground arith

exists-revoked :
    (now now' target id : ℕ) (reason : Text) (rows : Table Attestation)
    → exists (covers now target) (update id (revoked_now now' reason) rows)
      ≡ exists (covers now target) (remove id rows)
unfolding exists update remove
exists-revoked now now' target id reason [] = refl
exists-revoked now now' target id reason ((j, a) ∷ rows) =
    let gone = revoked_inactive now now' target reason a in
    ground (arith, exists-revoked now now' target id reason rows)

module _ (principal : ℕ) where
  -- When `revoke` returns, a target holds an active attestation exactly if a row other than the one
  -- revoked is one, whichever target it is.
  pub revoke-active :
      (id : ℕ) (reason : Text) (target : ℕ) (s : Session)
      → Returns
          (λ _.
            has_active_confirmed target (revoke principal id reason s).1
            ≡ exists (covers s.clock target) (remove id s.working.attestations))
          (revoke principal id reason s).0
  unfolding revoke has_active_confirmed write record_audit
  revoke-active id reason target s =
      (Yields-bind
        {Q = λ _ s'.
          exists (covers s'.clock target) s'.working.attestations
          ≡ exists (covers s.clock target) (remove id s.working.attestations)}
        s _ _
        λ a _. Yields-bind s _ _ λ _ _. Yields-bind s _ _ λ now _. Yields-bind s _ _ λ _ _.
          Yields-bind _ _ _ λ _ _.
            Yields-pure _ _
              (exists-revoked s.clock now target id reason s.working.attestations)).outcome

  -- The row that is written
  abbrev confirmed_at : ℕ → Option ℕ → Option Text → ℕ → Attestation
  confirmed_at target expires_at evidence now = record {
    target_id = target;
    status = confirmed;
    evidence_file_ref = evidence;
    expires_at = expires_at;
    created_by_user_id = principal;
    revoked_at = none;
    revoked_reason = none;
    created_at = now;
  }

  -- A confirmed attestation that has not expired authorizes at once: when `create_self_attestation`
  -- returns, the target holds an active attestation.
  pub create_self_attestation-active :
      (target : ℕ) (expires_at : Option ℕ) (evidence : Option Text) (s : Session)
      → elim expires_at [ none ↦ true | some t ↦ ltb s.clock t ] ≡ true
      → Returns
          (λ _.
            has_active_confirmed target
              (create_self_attestation principal target expires_at evidence s).1
            ≡ true)
          (create_self_attestation principal target expires_at evidence s).0
  unfolding create_self_attestation has_active_confirmed write record_audit uuid4 attestation_active
  create_self_attestation-active target expires_at evidence s live =
      (Yields-bind {Q = λ _ s'. exists (covers s'.clock target) s'.working.attestations ≡ true} s _
        _
        λ t _. Yields-bind s _ _ λ id _. Yields-bind _ _ _ λ now _. Yields-bind _ _ _ λ _ _.
          Yields-bind _ _ _ λ _ _. Yields-pure _ _ (
            let grown =
              exists-add (covers s.clock target) id (confirmed_at target expires_at evidence now)
                s.working.attestations in
            ground arith)).outcome

pub latest_active_confirmed-none :
    (now target : ℕ) (rows : Table Attestation)
    → (latest_active_confirmed now target rows ≡ none) ↔ (exists (covers now target) rows ≡ false)
unfolding latest_active_confirmed exists
latest_active_confirmed-none now target [] = (λ h. refl, λ h. refl)
latest_active_confirmed-none now target ((i, a) ∷ rows) =
    let (to, from) = latest_active_confirmed-none now target rows in
    (λ h. ground arith, λ h. ground arith)

or_not_confirmed_iff :
    (o : Option (ℕ × Attestation))
    → (or_not_confirmed o ≡ err attestation_not_confirmed) ↔ (o ≡ none)
or_not_confirmed_iff none = (λ h. refl, λ h. refl)
or_not_confirmed_iff (some (i, a)) = (λ h. ground arith, λ h. ground arith)

-- The two queries agree: a scan of the target is refused for want of an attestation exactly if the
-- target has no active one.
require_attestation_iff :
    (target : ℕ) (s : Session)
    → (require_attestation target s ≡ err attestation_not_confirmed)
      ↔ (has_active_confirmed target s ≡ false)
unfolding require_attestation has_active_confirmed
require_attestation_iff target s =
    let (to, from) = latest_active_confirmed-none s.clock target s.working.attestations in
    let (to', from') =
      or_not_confirmed_iff (latest_active_confirmed s.clock target s.working.attestations) in
    (λ h. to (to' h), λ h. from' (from h))
