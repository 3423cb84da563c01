-- ===== src/Scans/Requests/Created.antt =====
-- A scan starts authorized.
use sentinel_gpt.Common.{
  ℕ, ◌≡◌, ◌≢◌, refl, sym, ◌∙◌, true, false, nat_eq, Option, none, some, List, [], ◌∷◌, arith,
  Option-cases, inl, inr,
}
use sentinel_gpt.Common.Table.{Table, get}
use sentinel_gpt.Common.Table.Keys.{IsKeyed, IsAbsent}
use sentinel_gpt.Common.Text.{Text, text_eq}
use sentinel_gpt.Errors.{ok, ok_inj}
use sentinel_gpt.Action.Outcome.{Yields, Yields-bind, Yields-refuse_if, Yields-pure}
use sentinel_gpt.Scans.Lifecycle.{queued}
use sentinel_gpt.Scans.Store.{Scan, Target, Attestation, Database, owned_by, Value}
use sentinel_gpt.Scans.Store.Session.{Session}
use sentinel_gpt.Scans.Requests.{
  ScanDetails, assert_principal, visible_target, covers, newer, latest_active_confirmed,
  require_attestation, insert_scan, create_scan, rescan_scan, visible_scan, seen_by,
}

latest_present :
    (now target_id j : ℕ) (b : Attestation) (rows : Table Attestation)
    → IsAbsent j rows
    → latest_active_confirmed now target_id rows ≢ some (j, b)
unfolding latest_active_confirmed newer
latest_present now target_id j b [] a h = ground arith
latest_present now target_id j b ((i, x) ∷ rows) a h =
    ground (arith, latest_present now target_id j b rows a.1)

-- The attestation found is a row of the table, it is confirmed, not expired and of the target.
latest_active_confirmed_sound :
    (now target_id : ℕ) (rows : Table Attestation) (i : ℕ) (a : Attestation)
    → IsKeyed rows
    → latest_active_confirmed now target_id rows ≡ some (i, a)
    → (get i rows ≡ some a) × (covers now target_id a ≡ true)
unfolding latest_active_confirmed newer get
latest_active_confirmed_sound now target_id [] i a k h = ground arith
latest_active_confirmed_sound now target_id ((j, x) ∷ rows) i a k h = ground (
  arith,
  latest_active_confirmed_sound now target_id rows i a k.1,
  latest_present now target_id j a rows k.0,
)

-- What authorizes a scan `d` that a user starts in session `s`
pub record IsAuthorizedIn (s : Session) (user target_id : ℕ) (d : ScanDetails) : Type 0 where
  pub target : Target
  pub attestation : Attestation
  pub target_stored : get target_id s.working.targets ≡ some target
  pub attestation_stored :
      get d.scan.authorization_attestation_id s.working.attestations ≡ some attestation
  pub attestation_covers : covers s.clock target_id attestation ≡ true
  pub target_owned : owned_by s.working user target ≡ true
  pub target_live : target.is_archived ≡ false
  pub initiator : d.scan.initiated_by_user_id ≡ user
  pub aimed : d.scan.target_id ≡ target_id
  pub waiting : d.scan.status ≡ queued

visible_target_sound :
    (db : Database) (user id : ℕ) (t : Target)
    → visible_target db user id ≡ ok t
    → (get id db.targets ≡ some t) × (owned_by db user t ≡ true)
unfolding visible_target
visible_target_sound db user id t h = ground arith

require_attestation_sound :
    (target_id i : ℕ) (s : Session)
    → IsKeyed s.working.attestations
    → require_attestation target_id s ≡ ok i
    → (a : Attestation) × (get i s.working.attestations ≡ some a)
      × (covers s.clock target_id a ≡ true)
unfolding require_attestation
require_attestation_sound target_id i s k h =
    elim (Option-cases (latest_active_confirmed s.clock target_id s.working.attestations)) [
      | inl e ↦ ground arith
      | inr ((j, a), e) ↦
          let (stored, covered) =
            latest_active_confirmed_sound s.clock target_id s.working.attestations j a k e in
          let same : j ≡ i = ok_inj j i (simp e at h) in (a, rw same at stored, covered)
    ]

Yields-insert :
    {Q : ScanDetails → Session → Type 0} (s : Session) (user target_id : ℕ) (profile : Text)
    (attestation : ℕ) (parent : Option ℕ) (metadata : List (Text × Value))
    → ((d : ScanDetails) (s' : Session)
        → d.scan.status ≡ queued
        → d.scan.initiated_by_user_id ≡ user
        → d.scan.target_id ≡ target_id
        → d.scan.authorization_attestation_id ≡ attestation
        → d.scan.parent_scan_id ≡ parent
        → Q d s')
    → Yields s Q (insert_scan user target_id profile attestation parent metadata)
unfolding insert_scan
Yields-insert s user target_id profile attestation parent metadata k = Yields-bind s _ _ λ id _.
    Yields-bind _ _ _ λ now _.
      Yields-bind _ _ _
        λ _ _. Yields-bind _ _ _ λ _ _. Yields-pure _ _ (k _ _ refl refl refl refl refl)

assert_principal_sound :
    (principal : Option ℕ) (user : ℕ) → assert_principal principal ≡ ok user → principal ≡ some user
unfolding assert_principal
assert_principal_sound principal user h = ground arith

-- A scan that `create_scan` returns is authorized: it is QUEUED, its initiator is the caller, who
-- owns its target or is a member of the owning organization, the target is stored and not archived,
-- and it carries a stored attestation that is of the target, confirmed and not expired. (Primary
-- keys of attestations are unique.)
pub create_scan-IsAuthorizedIn :
    (principal : Option ℕ) (target_id : ℕ) (profile : Text) (s : Session)
    → IsKeyed s.working.attestations
    → Yields s
        (λ d _. (user : ℕ) × (principal ≡ some user) × IsAuthorizedIn s user target_id d)
        (create_scan principal target_id profile)
unfolding create_scan
create_scan-IsAuthorizedIn principal target_id profile s keyed = Yields-bind s _ _ λ user caller.
    Yields-bind s _ _ λ target visible. Yields-refuse_if s _ _ _ λ live.
      Yields-bind s _ _ λ attestation covered. Yields-bind s _ _ λ profiles _.
        Yields-refuse_if s _ _ _ λ _.
          Yields-insert s _ target_id profile attestation none _
            λ d _ waiting owner aimed carried _.
              let (stored, owned) = visible_target_sound s.working user target_id target visible in
              let (a, row, covers_it) =
                require_attestation_sound target_id attestation s keyed covered in
              (
                user,
                assert_principal_sound principal user caller,
                record {
                  target = target;
                  attestation = a;
                  target_stored = stored;
                  attestation_stored = rw carried row;
                  attestation_covers = covers_it;
                  target_owned = owned;
                  target_live = live;
                  initiator = owner;
                  aimed = aimed;
                  waiting = waiting;
                },
              )

visible_scan_sound :
    (principal : Option ℕ) (id : ℕ) (s : Session) (scan : Scan)
    → visible_scan principal id s ≡ ok scan
    → (get id s.working.scans ≡ some scan) × (seen_by principal scan ≡ true)
unfolding visible_scan
visible_scan_sound principal id s scan h = ground arith

initiated_of_seen :
    (user : ℕ) (scan : Scan) → seen_by (some user) scan ≡ true → scan.initiated_by_user_id ≡ user
unfolding seen_by
initiated_of_seen user scan h = ground arith

-- A scan that `rescan_scan` returns points back to a scan of the same caller as its parent, has the
-- parent's target and profile, is QUEUED, and carries an attestation that covers the target now.
rescan_scan-parent :
    (user id : ℕ) (s : Session)
    → IsKeyed s.working.attestations
    → Yields s
        (λ d _.
          (parent : Scan) × (attestation : Attestation) × (get id s.working.scans ≡ some parent)
          × (parent.initiated_by_user_id ≡ user)
          × (d.scan.initiated_by_user_id ≡ user)
          × (d.scan.parent_scan_id ≡ some id)
          × (d.scan.target_id ≡ parent.target_id)
          × (d.scan.status ≡ queued)
          × (get d.scan.authorization_attestation_id s.working.attestations ≡ some attestation)
          × (covers s.clock parent.target_id attestation ≡ true))
        (rescan_scan (some user) id)
unfolding rescan_scan assert_principal
rescan_scan-parent user id s keyed = Yields-bind s _ _ λ parent seen.
    Yields-bind s _ _ λ caller same. Yields-bind s _ _ λ attestation covered.
      Yields-insert s _ _ _ attestation (some id) _ λ d _ waiting owner aimed carried linked.
        let (stored, mine) = visible_scan_sound (some user) id s parent seen in
        let (a, row, covers_it) =
          require_attestation_sound parent.target_id attestation s keyed covered in
        let me : user ≡ caller = ok_inj user caller same in
        (
          parent,
          a,
          stored,
          initiated_of_seen user parent mine,
          owner ∙ sym me,
          linked,
          aimed,
          waiting,
          rw carried row,
          covers_it,
        )
