-- ===== src/Scans/Store.antt =====
-- The rows that scanning reads and writes, and the repositories over them:
-- backend/src/infrastructure/database/repositories/scan_repository.py, attestation_repository.py,
-- membership_repository.py, target_repository.py and backend/src/domain/audit/audit_service.py.
-- A status is stored as such, not as the key of its row in the seeded lookup table.
pub mod Session
use sentinel_gpt.Common.{
  ℕ, suc, Bool, true, false, ◌==◌, nat_eq, Option, none, some, List, [], ◌∷◌, ◌++◌, if◌then◌else◌,
  ◌&&◌, ◌||◌, contains, ltb,
}
use sentinel_gpt.Common.Table.{Table, exists}
use sentinel_gpt.Common.Text.{Text}
use sentinel_gpt.Scans.Lifecycle.{ScanStatus, LifecycleStatus}

pub record Scan : Type 0 where
  pub target_id : ℕ
  pub scan_profile : Text
  pub initiated_by_user_id : ℕ
  pub authorization_attestation_id : ℕ
  pub status : ScanStatus
  pub parent_scan_id : Option ℕ
  pub queued_at : Option ℕ
  pub started_at : Option ℕ
  pub completed_at : Option ℕ
  pub created_at : ℕ

pub record Target : Type 0 where
  pub owner_user_id : Option ℕ
  pub owner_organization_id : Option ℕ
  pub hostname : Text
  pub normalized_url : Text
  pub is_archived : Bool
  pub created_at : ℕ

pub data Role : Type 0 where
  admin member : Role

pub record Organization : Type 0 where
  pub name : Text
  pub created_at : ℕ

pub record Membership : Type 0 where
  pub organization_id : ℕ
  pub user_id : ℕ
  pub role : Role
  pub created_at : ℕ

pub data AttestationStatus : Type 0 where
  confirmed attestation_revoked other_status : AttestationStatus

pub record Attestation : Type 0 where
  pub target_id : ℕ
  pub status : AttestationStatus
  pub evidence_file_ref : Option Text
  pub expires_at : Option ℕ
  pub created_by_user_id : ℕ
  pub revoked_at : Option ℕ
  pub revoked_reason : Option Text
  pub created_at : ℕ

pub data ExecutionStatus : Type 0 where
  execution_running execution_failed execution_succeeded : ExecutionStatus

pub record Execution : Type 0 where
  pub scan_id : ℕ
  pub engine_code : Text
  pub tool_version_snapshot : Text
  pub status : ExecutionStatus
  pub started_at : Option ℕ
  pub completed_at : Option ℕ
  pub error_message : Option Text

pub record StoredFinding : Type 0 where
  pub execution_id : ℕ
  pub category : Text
  pub severity : Text
  pub title : Text
  pub description : Text
  pub evidence : Text
  pub location : Text
  pub recommendation : Text
  pub fingerprint : Option Text
  pub target_id : Option ℕ
  pub scan_id : Option ℕ
  pub source_engine_code : Text
  pub affected_asset : Text

pub record StatusRow : Type 0 where
  pub fingerprint : Text
  pub target_id : ℕ
  pub status : LifecycleStatus
  pub observed_in_scan_id : ℕ

pub record Assessment : Type 0 where
  pub execution_id : ℕ
  pub provider : Text
  pub model : Text
  pub is_available : Bool
  pub failure_kind : Option Text

-- A value of an entry's metadata: none, a text, or the text of a key
pub data Value : Type 0 where
  null_value : Value
  text : Text → Value
  key : ℕ → Value

pub record AuditEntry : Type 0 where
  pub actor_user_id : Option ℕ
  pub action_code : Text
  pub entity_type : Text
  pub entity_id : ℕ
  pub metadata : List (Text × Value)
  pub occurred_at : ℕ

pub record Database : Type 0 where
  pub profiles : List Text
  pub scans : Table Scan
  pub targets : Table Target
  pub organizations : Table Organization
  pub memberships : Table Membership
  pub attestations : Table Attestation
  pub executions : Table Execution
  pub findings : Table StoredFinding
  pub history : List StatusRow
  pub assessments : Table Assessment
  pub audit : List AuditEntry

-- The attestation carries authority at a time: `AttestationDetails.is_active`, and
-- `_attestation_active` of scan_service.py.
unfoldable pub attestation_active : ℕ → Attestation → Bool
attestation_active now a = elim a.status [
  | confirmed ↦ elim a.expires_at [ none ↦ true | some t ↦ ltb now t ]
  | _ ↦ false
]

-- `MembershipRepository.is_member`
abbrev pub belongs : ℕ → ℕ → Membership → Bool
belongs user organization m = m.user_id == user && m.organization_id == organization

unfoldable pub is_member : ℕ → ℕ → Table Membership → Bool
unfolding nat_eq exists
is_member user organization rows = exists (belongs user organization) rows

-- `TargetService.get_target` and `AttestationService._require_visible_target`: the owner, or a
-- member of the owning organization.
unfoldable pub owned_by : Database → ℕ → Target → Bool
unfolding nat_eq is_member
owned_by db user target =
    elim target.owner_user_id [ none ↦ false | some u ↦ u == user ]
    || elim target.owner_organization_id [
      | none ↦ false
      | some organization ↦ is_member user organization db.memberships
    ]
