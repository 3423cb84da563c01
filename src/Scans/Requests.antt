-- ===== src/Scans/Requests.antt =====
-- backend/src/domain/scans/scan_service.py up to `cancel_scan`, on behalf of a user.
pub mod Created
pub mod Moves
pub mod Granted
use sentinel_gpt.Common.{
  ℕ, suc, Bool, true, false, not, ◌==◌, nat_eq, Option, none, some, List, [], ◌∷◌, ◌++◌, map,
  if◌then◌else◌, ◌&&◌, ◌||◌, leb, take, contains,
}
use sentinel_gpt.Common.Table.{Table, get, add, select}
use sentinel_gpt.Common.Text.{Text, codes, text_eq}
use sentinel_gpt.Common.Ordered.{order_desc}
use sentinel_gpt.Errors.{
  Result, ok, err, not_found, not_authenticated, attestation_not_confirmed, invalid_scan_state,
  lookup_error, assertion_error,
}
use sentinel_gpt.Action.{Action, pure, lift, asks, reads, refuse_if, ◌>>=◌, ◌>>◌}
use sentinel_gpt.Scans.Lifecycle.{ScanStatus, queued, running, cancelled, is_terminal, status_eq}
use sentinel_gpt.Scans.Store.{
  Scan, Target, Attestation, Database, Value, text, key, attestation_active, owned_by,
}
use sentinel_gpt.Scans.Store.Session.{Session, uuid4, write, try_transition, record_audit}

-- `ScanDetails`
pub record ScanDetails : Type 0 where
  pub id : ℕ
  pub scan : Scan

-- `_assert_principal`
unfoldable pub assert_principal : Option ℕ → Result ℕ
assert_principal none = err not_authenticated
assert_principal (some user) = ok user

-- `assert a is not None`
abbrev or_asserted {ℓ} : {A : Type ℓ} → Option A → Result A
or_asserted none = err assertion_error
or_asserted (some a) = ok a

-- `TargetService.get_target`
unfoldable pub visible_target : Database → ℕ → ℕ → Result Target
visible_target db user id = elim (get id db.targets) [
  | none ↦ err not_found
  | some target ↦ if owned_by db user target then ok target else err not_found
]

-- `latest_active_confirmed`: the newest row by `created_at`, the first one of equally new ones.
abbrev pub covers : ℕ → ℕ → Attestation → Bool
covers now target_id a = a.target_id == target_id && attestation_active now a

newer : ℕ × Attestation → Option (ℕ × Attestation) → ℕ × Attestation
newer row none = row
newer (i, a) (some (j, b)) = if leb b.created_at a.created_at then (i, a) else (j, b)

unfoldable pub latest_active_confirmed : ℕ → ℕ → Table Attestation → Option (ℕ × Attestation)
unfolding newer
latest_active_confirmed now target_id [] = none
latest_active_confirmed now target_id ((i, a) ∷ rows) =
    let rest = latest_active_confirmed now target_id rows in
    if covers now target_id a then some (newer (i, a) rest) else rest

abbrev pub or_not_confirmed : Option (ℕ × Attestation) → Result ℕ
or_not_confirmed none = err attestation_not_confirmed
or_not_confirmed (some (id, a)) = ok id

-- The attestation that authorizes a scan of the target now
unfoldable pub require_attestation : ℕ → Session → Result ℕ
unfolding latest_active_confirmed
require_attestation target_id s =
    or_not_confirmed (latest_active_confirmed s.clock target_id s.working.attestations)

-- A new row in QUEUED, and its audit entry
insert_scan : ℕ → ℕ → Text → ℕ → Option ℕ → List (Text × Value) → Action Session ScanDetails
insert_scan user target_id profile attestation parent metadata = do
  id ← uuid4
  now ← asks (λ s. s.clock)
  let scan : Scan = record {
    target_id = target_id;
    scan_profile = profile;
    initiated_by_user_id = user;
    authorization_attestation_id = attestation;
    status = queued;
    parent_scan_id = parent;
    queued_at = some now;
    started_at = none;
    completed_at = none;
    created_at = now;
  }
  write (λ db. record db { scans = add id scan db.scans })
  record_audit (some user) (codes "SCAN_REQUESTED") (codes "scan") id metadata
  pure (record { id = id; scan = scan })

unfoldable pub create_scan : Option ℕ → ℕ → Text → Action Session ScanDetails
unfolding insert_scan text_eq
create_scan principal target_id scan_profile_code = do
  user ← lift (assert_principal principal)
  target ← reads (λ s. visible_target s.working user target_id)
  refuse_if target.is_archived not_found
  attestation ← reads (require_attestation target_id)
  profiles ← asks (λ s. s.working.profiles)
  refuse_if (not (contains profiles scan_profile_code)) lookup_error
  insert_scan user target_id scan_profile_code attestation none (
      (codes "targetId", key target_id)
      ∷ (codes "scanProfile", text scan_profile_code)
      ∷ (codes "authorizationAttestationId", key attestation)
      ∷ [])

-- `_get_visible_scan`
unfoldable pub seen_by : Option ℕ → Scan → Bool
unfolding nat_eq
seen_by none scan = true
seen_by (some user) scan = scan.initiated_by_user_id == user

unfoldable pub visible_scan : Option ℕ → ℕ → Session → Result Scan
visible_scan principal id s = elim (get id s.working.scans) [
  | none ↦ err not_found
  | some scan ↦ if seen_by principal scan then ok scan else err not_found
]

unfoldable pub get_scan : Option ℕ → ℕ → Action Session ScanDetails
get_scan principal id = do
  scan ← reads (visible_scan principal id)
  pure (record { id = id; scan = scan })

unfoldable pub rescan_scan : Option ℕ → ℕ → Action Session ScanDetails
unfolding insert_scan
rescan_scan principal id = do
  original ← reads (visible_scan principal id)
  user ← lift (assert_principal principal)
  latest ← reads (require_attestation original.target_id)
  insert_scan user original.target_id original.scan_profile latest (some id) (
      (codes "targetId", key original.target_id)
      ∷ (codes "parentScanId", key id)
      ∷ (codes "scanProfile", text original.scan_profile)
      ∷ (codes "authorizationAttestationId", key latest)
      ∷ [])

-- Cancelling: the guard, and the optimistic move.
unfoldable pub refuses_cancel : ScanStatus → Bool
unfolding status_eq
refuses_cancel current = is_terminal current || current == running

unfoldable pub cancel_scan : Option ℕ → ℕ → Action Session ScanDetails
cancel_scan principal id = do
  scan ← reads (visible_scan principal id)
  refuse_if (refuses_cancel scan.status) invalid_scan_state
  now ← asks (λ s. s.clock)
  moved ← try_transition id scan.status cancelled none (some now)
  refuse_if (not moved) invalid_scan_state
  refreshed ← reads (λ s. or_asserted (get id s.working.scans))
  pure (record { id = id; scan = refreshed })

-- `list_scans`
wanted : ℕ → Option ℕ → Option ScanStatus → Scan → Bool
unfolding nat_eq status_eq
wanted user target_id status scan =
    scan.initiated_by_user_id == user
    && elim target_id [ none ↦ true | some t ↦ scan.target_id == t ]
    && elim status [ none ↦ true | some c ↦ scan.status == c ]

abbrev details : ℕ × Scan → ScanDetails
details (id, scan) = record { id = id; scan = scan }

unfoldable pub list_scans :
    Option ℕ → Option ℕ → Option ScanStatus → ℕ → Action Session (List ScanDetails)
unfolding wanted
list_scans principal target_id status limit = do
  user ← lift (assert_principal principal)
  rows ← asks (λ s. select (wanted user target_id status) s.working.scans)
  pure (map details (take limit (order_desc (λ (id, scan). scan.created_at) rows)))
