-- ===== src/Scans/Requests/Granted.antt =====
-- When a scan is created.
use mathlib.Core.Bool.{true≢false}
use mathlib.Core.Option.{or_else}
use sentinel_gpt.Common.{
  ℕ, ◌≡◌, ◌<◌, ◌⊎◌, inl, inr, refl, sym, ap, ◌∙◌, Option-cases, Bool, true, false, nat_eq, Option,
  none, some, [], ◌∷◌, contains, arith, if◌then◌else◌,
}
use sentinel_gpt.Common.Table.{Table, get, add, get-add, exists}
use sentinel_gpt.Common.Table.Keys.{IsAbsent, IsAbsent-get}
use sentinel_gpt.Common.Text.{Text, text_eq}
use sentinel_gpt.Errors.{Result, ok, err, not_found}
use sentinel_gpt.Action.{◌>>=◌}
use sentinel_gpt.Scans.Lifecycle.{queued}
use sentinel_gpt.Scans.Store.{
  Scan, Target, Attestation, confirmed, attestation_active, Membership, Database, belongs,
  is_member, owned_by,
}
use sentinel_gpt.Scans.Store.Session.{Session, uuid4, write, record_audit}
use sentinel_gpt.Scans.Attestations.Authority.{latest_active_confirmed-none}
use sentinel_gpt.Scans.Requests.{
  ScanDetails, assert_principal, visible_target, require_attestation, insert_scan, create_scan,
  covers, latest_active_confirmed, or_not_confirmed,
}

row_added : (i : ℕ) (scan : Scan) (t : Table Scan) → IsAbsent i t → get i (add i scan t) ≡ some scan
unfolding or_else
row_added i scan t absent =
    let step = get-add i i scan t in let gone = IsAbsent-get i t absent in ground arith

-- What makes the caller an owner: the target is the caller's, or it belongs to an organization of
-- which a stored row makes the caller a member.
pub data Owns (db : Database) (user : ℕ) (target : Target) : Type 0 where
  as_user : target.owner_user_id ≡ some user → Owns db user target
  as_member :
      (i organization : ℕ) (m : Membership)
      → target.owner_organization_id ≡ some organization
      → get i db.memberships ≡ some m
      → m.user_id ≡ user
      → m.organization_id ≡ organization
      → Owns db user target

-- The attestation is of the target, confirmed, and has no end or one that is still to come.
pub record IsCurrent (now target_id : ℕ) (a : Attestation) : Type 0 where
  pub of_target : a.target_id ≡ target_id
  pub is_confirmed : a.status ≡ confirmed
  pub unexpired : (a.expires_at ≡ none) ⊎ ((t : ℕ) × (a.expires_at ≡ some t) × (now < t))

exists_of_get :
    {V : Type 0} (p : V → Bool) (i : ℕ) (v : V) (t : Table V)
    → get i t ≡ some v
    → p v ≡ true
    → exists p t ≡ true
unfolding exists get
exists_of_get p i v [] h e = ground arith
exists_of_get p i v ((j, w) ∷ t) h e = elim (nat_eq.dec j i) [
  | yes same ↦ let here : w ≡ v = ground arith in let holds = ap p here ∙ e in ground arith
  | no other ↦ let rest = exists_of_get p i v t (ground arith) e in ground arith
]

owned_by_of :
    (db : Database) (user : ℕ) (target : Target)
    → Owns db user target
    → owned_by db user target ≡ true
unfolding owned_by nat_eq
owned_by_of db user target (as_user e) = ground arith
owned_by_of db user target (as_member i organization m e stored u o) =
    let member : is_member user organization db.memberships ≡ true =
      exists_of_get (belongs user organization) i m db.memberships stored (ground arith) in
    rw e (ground arith)

covers_of :
    (now target_id : ℕ) (a : Attestation)
    → IsCurrent now target_id a
    → covers now target_id a ≡ true
unfolding attestation_active nat_eq
covers_of now target_id a h = elim h.unexpired [
  | inl e ↦ let t = h.of_target in let c = h.is_confirmed in rw c (rw e (ground arith))
  | inr (end, e, l) ↦ let t = h.of_target in let c = h.is_confirmed in rw c (rw e (ground arith))
]

covered_latest :
    (now target_id i : ℕ) (a : Attestation) (rows : Table Attestation)
    → get i rows ≡ some a
    → covers now target_id a ≡ true
    → (row : ℕ × Attestation) × (latest_active_confirmed now target_id rows ≡ some row)
covered_latest now target_id i a rows stored e =
    elim (Option-cases (latest_active_confirmed now target_id rows)) [
      | inl gone ↦
          let absent = (latest_active_confirmed-none now target_id rows).0 gone in
          absurd
            (true≢false (sym (exists_of_get (covers now target_id) i a rows stored e) ∙ absent))
      | inr row ↦ row
    ]

visible_of :
    (db : Database) (user target_id : ℕ) (target : Target)
    → get target_id db.targets ≡ some target
    → Owns db user target
    → visible_target db user target_id ≡ ok target
unfolding visible_target
visible_of db user target_id target stored owns =
    ap read stored ∙ ap grant (owned_by_of db user target owns)
  where
    read : Option Target → Result Target
    read o = elim o [
      | none ↦ err not_found
      | some t ↦ if owned_by db user t then ok t else err not_found
    ]

    grant : Bool → Result Target
    grant b = if b then ok target else err not_found

covered_of :
    (target_id i : ℕ) (a : Attestation) (s : Session)
    → get i s.working.attestations ≡ some a
    → IsCurrent s.clock target_id a
    → (granted : ℕ) × (require_attestation target_id s ≡ ok granted)
unfolding require_attestation
covered_of target_id i a s held current =
    let (row, latest) =
      covered_latest s.clock target_id i a s.working.attestations held
        (covers_of s.clock target_id a current) in
    (row.0, ap or_not_confirmed latest)

-- A request is granted when the target is stored, not archived and the caller's or that of an
-- organization of which a stored row makes the caller a member, when a stored attestation of the
-- target is confirmed and has not expired, and when the profile is known: `create_scan` returns, and
-- the scan that it returns is QUEUED and stored under its key. (The key that is drawn is free.)
pub create_scan_returns :
    (user target_id attestation : ℕ) (profile : Text) (target : Target) (a : Attestation)
    (s : Session)
    → get target_id s.working.targets ≡ some target
    → Owns s.working user target
    → target.is_archived ≡ false
    → get attestation s.working.attestations ≡ some a
    → IsCurrent s.clock target_id a
    → contains s.working.profiles profile ≡ true
    → IsAbsent s.supply s.working.scans
    → (d : ScanDetails) × ((create_scan (some user) target_id profile s).0 ≡ ok d)
      × (get d.id (create_scan (some user) target_id profile s).1.working.scans ≡ some d.scan)
      × (d.scan.status ≡ queued)
unfolding create_scan insert_scan ◌>>=◌ assert_principal uuid4 write record_audit
create_scan_returns user target_id attestation profile target a s stored owns live held current
      known absent =
    let visible = visible_of s.working user target_id target stored owns in
    let covered = covered_of target_id attestation a s held current in
    simp (visible, live, covered.1, known)
      (_, refl, row_added s.supply _ s.working.scans absent, refl)
