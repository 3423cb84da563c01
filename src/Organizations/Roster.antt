-- ===== src/Organizations/Roster.antt =====
-- The operations keep the memberships in order, and only an administrator changes them.
use sentinel_gpt.Common.{
  ℕ, suc, ◌≡◌, ◌<◌, refl, Bool, true, false, not, nat_eq, Option, none, some, arith, ap,
}
use sentinel_gpt.Common.Table.{Table, first}
use sentinel_gpt.Common.Table.Distinct.{IsDistinct-remove, first-add}
use sentinel_gpt.Common.Text.{Text}
use sentinel_gpt.Errors.{forbidden, Returns, returned}
use sentinel_gpt.Action.{Action, reads, refuse_if, proceed, ◌>>=◌}
use sentinel_gpt.Scans.Store.{Role, admin, Membership, belongs}
use sentinel_gpt.Scans.Store.Session.{Session, uuid4, write}
use sentinel_gpt.Organizations.{
  set_role, delete_membership, is_admin_role, or_not_found, get_membership, is_admin,
  create_organization, require_admin, join_organization, add_member, require_admin_and_get,
  change_role, remove_member,
}
use sentinel_gpt.Organizations.{Operation, creates, adds, changes, removes, perform}
use sentinel_gpt.Organizations.Rows.{
  AreIssued, IsRostered, same_place, IsSingle-add, IsSingle-update, AreIssued-add, AreIssued-update,
  AreIssued-remove, AreIssued-mono, AreIssued-exists, AreIssued-first, joined-IsRostered,
}

is_admin-issued :
    (n user organization : ℕ) (rows : Table Membership)
    → AreIssued n rows
    → is_admin user organization rows ≡ true
    → organization < n
unfolding is_admin get_membership
is_admin-issued n user organization rows k h = found (first (belongs user organization) rows) refl h
  where
    found :
        (o : Option (ℕ × Membership))
        → first (belongs user organization) rows ≡ o
        → elim o [ none ↦ false | some (id, m) ↦ is_admin_role m.role ] ≡ true
        → organization < n
    found none e h' = ground arith
    found (some (i, m)) e h' = AreIssued-first n user organization rows i m k e

module _ (principal : ℕ) where
  create_organization-IsRostered :
      (name : Text) (s : Session)
      → IsRostered s
      → IsRostered (create_organization principal name s).1
  unfolding create_organization ◌>>=◌ uuid4 write
  create_organization-IsRostered name s h = record {
    single =
        IsSingle-add (suc s.supply) _ s.working.memberships
          (AreIssued-exists s.supply principal s.supply s.working.memberships h.issued
            (omega arith))
          h.single;
    issued =
        AreIssued-add (suc (suc s.supply)) (suc s.supply) _ s.working.memberships (omega arith) (
          AreIssued-mono s.supply (suc (suc s.supply)) s.working.memberships (omega arith)
            h.issued);
  }

  -- What an administrator does
  guarded-IsRostered :
      {B : Type 0} (allowed : Bool) (rest : Action Session B) (s : Session)
      → IsRostered s
      → (allowed ≡ true → IsRostered (rest s).1)
      → IsRostered ((refuse_if (not allowed) forbidden >>= λ _. rest) s).1
  unfolding ◌>>=◌
  guarded-IsRostered true rest s h k = k refl
  guarded-IsRostered false rest s h k = h

  guarded_read-IsRostered :
      {B : Type 0} (allowed : Bool) (organization user : ℕ)
      (rest : ℕ × Membership → Action Session B) (s : Session)
      → IsRostered s
      → IsRostered
          (proceed rest (or_not_found (get_membership organization user s.working.memberships)) s).1
      → IsRostered
          (((refuse_if (not allowed) forbidden >>= λ _.
                reads
                  (λ s'. or_not_found (get_membership organization user s'.working.memberships)))
              >>= rest)
            s).1
  unfolding ◌>>=◌
  guarded_read-IsRostered true organization user rest s h k = k
  guarded_read-IsRostered false organization user rest s h k = h

  join_organization-IsRostered :
      (organization user : ℕ) (role : Role) (o : Option (ℕ × Membership)) (s : Session)
      → first (belongs user organization) s.working.memberships ≡ o
      → organization < s.supply
      → IsRostered s
      → IsRostered (join_organization principal organization user role o s).1
  unfolding join_organization ◌>>=◌ uuid4 write
  join_organization-IsRostered organization user role (some row) s e below h = h
  join_organization-IsRostered organization user role none s e below h =
      let (single, issued) =
        joined-IsRostered s.supply user organization role s.clock s.working.memberships h.single
          h.issued below e in
      record { single = single; issued = issued }

  changed-IsRostered :
      (role : Role) (o : Option (ℕ × Membership)) (s : Session)
      → IsRostered s
      → IsRostered (proceed (set_role role) (or_not_found o) s).1
  unfolding ◌>>=◌ write
  changed-IsRostered role none s h = h
  changed-IsRostered role (some (id, m)) s h = record {
    single = IsSingle-update id role s.working.memberships h.single;
    issued = AreIssued-update s.supply id role s.working.memberships h.issued;
  }

  removed-IsRostered :
      (o : Option (ℕ × Membership)) (s : Session)
      → IsRostered s
      → IsRostered (proceed delete_membership (or_not_found o) s).1
  unfolding ◌>>=◌ write
  removed-IsRostered none s h = h
  removed-IsRostered (some (id, m)) s h = record {
    single = IsDistinct-remove same_place id s.working.memberships h.single;
    issued = AreIssued-remove s.supply id s.working.memberships h.issued;
  }

  -- Every operation, whatever it answers, keeps this: no user is twice in an organization, and the
  -- keys of organizations were issued.
  pub perform-IsRostered :
      (op : Operation) (s : Session) → IsRostered s → IsRostered (perform principal op s)
  unfolding perform ◌>>=◌ add_member change_role remove_member require_admin_and_get require_admin
      get_membership
  perform-IsRostered (creates name) s h = create_organization-IsRostered name s h
  perform-IsRostered (adds organization user role) s h = guarded-IsRostered _ _ s h λ allowed.
      join_organization-IsRostered organization user role _ s refl
        (is_admin-issued s.supply principal organization s.working.memberships h.issued allowed) h
  perform-IsRostered (changes organization user role) s h =
      guarded_read-IsRostered (is_admin principal organization s.working.memberships) organization
        user (set_role role) s h
        (changed-IsRostered role (first (belongs user organization) s.working.memberships) s h)
  perform-IsRostered (removes organization user) s h =
      guarded_read-IsRostered (is_admin principal organization s.working.memberships) organization
        user delete_membership s h
        (removed-IsRostered (first (belongs user organization) s.working.memberships) s h)

belongs_refl :
    (user organization now : ℕ)
    → belongs user organization
        (record { organization_id = organization; user_id = user; role = admin; created_at = now })
      ≡ true
belongs_refl user organization now = ground arith

-- Who creates an organization is an administrator of it.
pub create_organization-admin :
    (principal : ℕ) (name : Text) (s : Session)
    → IsRostered s
    → Returns
        (λ d.
          is_admin principal d.id (create_organization principal name s).1.working.memberships
          ≡ true)
        (create_organization principal name s).0
unfolding create_organization ◌>>=◌ uuid4 write is_admin get_membership
create_organization-admin principal name s h =
    let fresh =
      AreIssued-exists s.supply principal s.supply s.working.memberships h.issued (omega arith) in
    let creator : Membership = record {
      organization_id = s.supply;
      user_id = principal;
      role = admin;
      created_at = s.clock;
    } in
    let found =
      first-add (belongs principal s.supply) (suc s.supply) creator s.working.memberships fresh
        (belongs_refl principal s.supply s.clock) in
    returned (ap (λ o. elim o [ none ↦ false | some (id, m) ↦ is_admin_role m.role ]) found)
