-- ===== src/Organizations.antt =====
-- backend/src/domain/organizations/organization_service.py and
-- backend/src/infrastructure/database/repositories/membership_repository.py: the organizations of a
-- user and the roles in them.
pub mod Rows
pub mod Roster
use sentinel_gpt.Common.{
  ℕ, Bool, true, false, not, ◌==◌, nat_eq, Option, none, some, List, map, if◌then◌else◌, take, ◌&&◌,
  ◌∷◌, [], ltb,
}
use sentinel_gpt.Common.Table.{Table, get, add, update, remove, select, first}
use sentinel_gpt.Common.Text.{Text}
use sentinel_gpt.Errors.{Result, ok, err, not_found, forbidden}
use sentinel_gpt.Action.{Action, pure, lift, asks, reads, refuse_if, ◌>>=◌, ◌>>◌}
use sentinel_gpt.Scans.Store.{Role, admin, Organization, Membership, Database, belongs, is_member}
use sentinel_gpt.Scans.Store.Session.{Session, uuid4, write}

pub record OrganizationDetails : Type 0 where
  pub id : ℕ
  pub organization : Organization

pub record MembershipDetails : Type 0 where
  pub id : ℕ
  pub membership : Membership

-- `MembershipRepository.get_membership`
unfoldable pub get_membership : ℕ → ℕ → Table Membership → Option (ℕ × Membership)
unfolding first nat_eq
get_membership organization user rows = first (belongs user organization) rows

abbrev pub is_admin_role : Role → Bool
is_admin_role admin = true
is_admin_role _ = false

-- `MembershipRepository.is_admin`
unfoldable pub is_admin : ℕ → ℕ → Table Membership → Bool
unfolding get_membership
is_admin user organization rows = elim (get_membership organization user rows) [
  | none ↦ false
  | some (id, m) ↦ is_admin_role m.role
]

-- `ORDER BY created_at ASC`
module _ where
  insert_oldest : ℕ × Membership → Table Membership → Table Membership
  insert_oldest row [] = row ∷ []
  insert_oldest (i, m) ((j, n) ∷ rows) =
      let rest = insert_oldest (i, m) rows in
      if ltb n.created_at m.created_at then (j, n) ∷ rest else (i, m) ∷ (j, n) ∷ rows

  oldest_first : Table Membership → Table Membership
  unfolding insert_oldest
  oldest_first [] = []
  oldest_first (row ∷ rows) = insert_oldest row (oldest_first rows)

abbrev details : ℕ × Membership → MembershipDetails
details (id, m) = record { id = id; membership = m }

abbrev or_not_found {ℓ} : {A : Type ℓ} → Option A → Result A
or_not_found none = err not_found
or_not_found (some a) = ok a

-- The writes on a row that was found
abbrev pub set_role : Role → ℕ × Membership → Action Session MembershipDetails
set_role role (id, m) = do
  write
      (λ db. record db { memberships = update id (λ m'. record m' { role = role }) db.memberships })
  pure (record { id = id; membership = record m { role = role } })

abbrev pub delete_membership : ℕ × Membership → Action Session (Unit {0})
delete_membership (id, m) = write (λ db. record db { memberships = remove id db.memberships })

-- The caller is `principal`.
module _ (principal : ℕ) where
  unfoldable pub create_organization : Text → Action Session OrganizationDetails
  create_organization name = do
    organization_id ← uuid4
    now ← asks (λ s. s.clock)
    let organization : Organization = record { name = take 255 name; created_at = now }
    write (λ db. record db { organizations = add organization_id organization db.organizations })
    id ← uuid4
    let membership : Membership = record {
      organization_id = organization_id;
      user_id = principal;
      role = admin;
      created_at = now;
    }
    write (λ db. record db { memberships = add id membership db.memberships })
    pure (record { id = organization_id; organization = organization })

  -- `_require_member`
  pub require_member : ℕ → Action Session (Unit {0})
  unfolding is_member
  require_member organization s =
      refuse_if (not (is_member principal organization s.working.memberships)) not_found s

  unfoldable pub get_organization : ℕ → Action Session OrganizationDetails
  unfolding require_member
  get_organization id = do
    require_member id
    organization ← reads (λ s. or_not_found (get id s.working.organizations))
    pure (record { id = id; organization = organization })

  unfoldable pub list_members : ℕ → Action Session (List MembershipDetails)
  unfolding require_member oldest_first
  list_members organization = do
    require_member organization
    rows ← asks (λ s. select (λ m. m.organization_id == organization) s.working.memberships)
    pure (map details (oldest_first rows))

  pub require_admin : ℕ → Action Session (Unit {0})
  unfolding is_admin
  require_admin organization s =
      refuse_if (not (is_admin principal organization s.working.memberships)) forbidden s

  -- A new row, if there is none for the user
  pub join_organization : ℕ → ℕ → Role → Option (ℕ × Membership) → Action Session MembershipDetails
  join_organization organization user role (some existing) = pure (details existing)
  join_organization organization user role none = do
    id ← uuid4
    now ← asks (λ s. s.clock)
    let membership : Membership = record {
      organization_id = organization;
      user_id = user;
      role = role;
      created_at = now;
    }
    write (λ db. record db { memberships = add id membership db.memberships })
    pure (record { id = id; membership = membership })

  unfoldable pub add_member : ℕ → ℕ → Role → Action Session MembershipDetails
  unfolding require_admin join_organization
  add_member organization user role = do
    require_admin organization
    existing ← asks (λ s. get_membership organization user s.working.memberships)
    join_organization organization user role existing

  -- `_require_admin_and_get`
  pub require_admin_and_get : ℕ → ℕ → Action Session (ℕ × Membership)
  unfolding require_admin
  require_admin_and_get organization user = do
    require_admin organization
    reads (λ s. or_not_found (get_membership organization user s.working.memberships))

  unfoldable pub change_role : ℕ → ℕ → Role → Action Session MembershipDetails
  unfolding require_admin_and_get
  change_role organization user role = do
    row ← require_admin_and_get organization user
    set_role role row

  unfoldable pub remove_member : ℕ → ℕ → Action Session (Unit {0})
  unfolding require_admin_and_get
  remove_member organization user = do
    row ← require_admin_and_get organization user
    delete_membership row

-- The operations that write, by what they are asked for
pub data Operation : Type 0 where
  creates : Text → Operation
  adds changes : ℕ → ℕ → Role → Operation
  removes : ℕ → ℕ → Operation

-- A request of a user; what it answers is not kept.
unfoldable pub perform : ℕ → Operation → Session → Session
perform principal (creates name) s = (create_organization principal name s).1
perform principal (adds organization user role) s =
    (add_member principal organization user role s).1
perform principal (changes organization user role) s =
    (change_role principal organization user role s).1
perform principal (removes organization user) s = (remove_member principal organization user s).1
