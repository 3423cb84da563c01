-- ===== src/Scans/Attestations.antt =====
-- backend/src/domain/scans/attestation_service.py and
-- backend/src/infrastructure/database/repositories/attestation_repository.py, on behalf of a user.
-- There is one seeded method, SELF_ATTESTATION, so a row has no method.
pub mod Authority
use sentinel_gpt.Common.{
  ℕ, Bool, true, false, ◌==◌, nat_eq, Option, none, some, List, [], ◌∷◌, map, take, if◌then◌else◌,
}
use sentinel_gpt.Common.Table.{Table, get, add, update, select, exists}
use sentinel_gpt.Common.Text.{Text, codes}
use sentinel_gpt.Common.Ordered.{order_desc}
use sentinel_gpt.Errors.{Result, ok, err, not_found}
use sentinel_gpt.Action.{Action, pure, lift, asks, reads, ◌>>=◌, ◌>>◌}
use sentinel_gpt.Scans.Store.{
  Attestation, confirmed, attestation_revoked, Database, Value, null_value, text, key,
}
use sentinel_gpt.Scans.Store.Session.{Session, uuid4, write, record_audit}
use sentinel_gpt.Scans.Requests.{visible_target, covers, latest_active_confirmed}

pub record AttestationDetails : Type 0 where
  pub id : ℕ
  pub attestation : Attestation

abbrev details : ℕ × Attestation → AttestationDetails
details (id, a) = record { id = id; attestation = a }

abbrev key_or_empty : Option ℕ → Value
key_or_empty none = text []
key_or_empty (some id) = key id

-- `expires_at.isoformat() if expires_at else None`; the instant stands for its text.
abbrev instant : Option ℕ → List (Text × Value)
instant none = (codes "expiresAt", null_value) ∷ []
instant (some t) = (codes "expiresAt", key t) ∷ []

-- `AttestationRepository.has_active_confirmed`
unfoldable pub has_active_confirmed : ℕ → Session → Bool
has_active_confirmed target_id s = exists (covers s.clock target_id) s.working.attestations

-- A row that is revoked
abbrev pub revoked_now : ℕ → Text → Attestation → Attestation
revoked_now now reason a = record a {
  status = attestation_revoked;
  revoked_at = some now;
  revoked_reason = some (take 1000 reason);
}

abbrev or_not_found {ℓ} : {A : Type ℓ} → Option A → Result A
or_not_found none = err not_found
or_not_found (some a) = ok a

-- The caller is `principal`.
module _ (principal : ℕ) where
  unfoldable pub create_self_attestation :
      ℕ → Option ℕ → Option Text → Action Session AttestationDetails
  create_self_attestation target_id expires_at evidence_file_ref = do
    target ← reads (λ s. visible_target s.working principal target_id)
    id ← uuid4
    now ← asks (λ s. s.clock)
    let attestation : Attestation = record {
      target_id = target_id;
      status = confirmed;
      evidence_file_ref = evidence_file_ref;
      expires_at = expires_at;
      created_by_user_id = principal;
      revoked_at = none;
      revoked_reason = none;
      created_at = now;
    }
    write (λ db. record db { attestations = add id attestation db.attestations })
    record_audit (some principal) (codes "ATTESTATION_CONFIRMED")
        (codes "authorization_attestation") id
        ((codes "method", text (codes "SELF_ATTESTATION"))
          ∷ (codes "targetId", key target_id)
          ∷ (codes "targetOwnerUserId", key_or_empty target.owner_user_id)
          ∷ (codes "targetOwnerOrganizationId", key_or_empty target.owner_organization_id)
          ∷ instant expires_at)
    pure (record { id = id; attestation = attestation })

  unfoldable pub list_for_target : ℕ → Action Session (List AttestationDetails)
  unfolding nat_eq
  list_for_target target_id = do
    reads (λ s. visible_target s.working principal target_id)
    rows ← asks (λ s. select (λ a. a.target_id == target_id) s.working.attestations)
    pure (map details (order_desc (λ (id, a). a.created_at) rows))

  unfoldable pub revoke : ℕ → Text → Action Session AttestationDetails
  revoke id reason = do
    attestation ← reads (λ s. or_not_found (get id s.working.attestations))
    reads (λ s. visible_target s.working principal attestation.target_id)
    now ← asks (λ s. s.clock)
    write (λ db. record db { attestations = update id (revoked_now now reason) db.attestations })
    record_audit (some principal) (codes "ATTESTATION_REVOKED") (codes "authorization_attestation")
        id ((codes "reason", text (take 1000 reason)) ∷ [])
    pure (record { id = id; attestation = revoked_now now reason attestation })

-- The service's view of the row that authorizes a scan
unfoldable pub latest_details : ℕ → Session → Option AttestationDetails
latest_details target_id s =
    elim (latest_active_confirmed s.clock target_id s.working.attestations) [
      | none ↦ none
      | some (id, a) ↦ some (record { id = id; attestation = a })
    ]
