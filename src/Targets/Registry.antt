-- ===== src/Targets/Registry.antt =====
-- backend/src/domain/targets/target_service.py and
-- backend/src/infrastructure/database/repositories/target_repository.py: the targets of a user and
-- of the organizations that the user is in.
pub mod Unique
use sentinel_gpt.Common.{
  ℕ, Bool, true, false, not, ◌==◌, nat_eq, option_eq, Option, none, some, List, map, if◌then◌else◌,
  take, ◌&&◌, ◌||◌, ◌∷◌, [], ltb, length, ◌+◌,
}
use sentinel_gpt.Common.Table.{Table, get, add, update, select}
use sentinel_gpt.Common.Text.{Text, Unicode, text_eq}
use sentinel_gpt.Errors.{Result, ok, err, forbidden, duplicate_target, other_exception}
use sentinel_gpt.Action.{Action, pure, lift, asks, reads, refuse_if, ◌>>=◌, ◌>>◌}
use sentinel_gpt.Targets.Urls.{UrlLib}
use sentinel_gpt.Network.IpAddress.{IpAddress}
use sentinel_gpt.Targets.Normalization.{NormalizedTarget, normalize_target}
use sentinel_gpt.Scans.Store.{Target, Database, is_member}
use sentinel_gpt.Scans.Store.Session.{Session, uuid4, write}
use sentinel_gpt.Scans.Requests.{visible_target}

pub record TargetDetails : Type 0 where
  pub id : ℕ
  pub target : Target

pub record TargetPage : Type 0 where
  pub items : List TargetDetails
  pub has_next_page : Bool

-- The owner of a row: an organization, or a user
pub record Owner : Type 0 where
  pub organization : Option ℕ
  pub user : Option ℕ

-- The two columns are those of the owner.
unfoldable pub is_owned : Owner → Target → Bool
unfolding nat_eq option_eq
is_owned owner t = t.owner_organization_id == owner.organization && t.owner_user_id == owner.user

abbrev pub is_same : Owner → Text → Target → Bool
is_same owner normalized_url t = t.normalized_url == normalized_url && is_owned owner t

-- `scalar_one_or_none`
unfoldable pub scalar_one_or_none {ℓ} : {V : Type ℓ} → Table V → Result (Option (ℕ × V))
scalar_one_or_none [] = ok none
scalar_one_or_none (row ∷ []) = ok (some row)
scalar_one_or_none (row ∷ _ ∷ _) = err other_exception

unfoldable pub find_by_owner_and_url : Owner → Text → Table Target → Result (Option (ℕ × Target))
unfolding is_owned text_eq
find_by_owner_and_url owner normalized_url rows =
    scalar_one_or_none (select (is_same owner normalized_url) rows)

-- `ORDER BY created_at DESC, id DESC`: whether a row comes before another, and the sort
abbrev pub comes_before : ℕ × ℕ → ℕ × ℕ → Bool
comes_before (t, i) (t', i') = ltb t' t || (t == t' && ltb i' i)

abbrev pub position : ℕ × Target → ℕ × ℕ
position (i, t) = (t.created_at, i)

insert_row : ℕ × Target → Table Target → Table Target
insert_row row [] = row ∷ []
insert_row row (r ∷ rows) =
    let rest = insert_row row rows in
    if comes_before (position r) (position row) then r ∷ rest else row ∷ r ∷ rows

newest_first : Table Target → Table Target
unfolding insert_row
newest_first [] = []
newest_first (row ∷ rows) = insert_row row (newest_first rows)

-- A cursor counts only with both of its parts.
abbrev pub after_cursor : Option ℕ → Option ℕ → ℕ × Target → Bool
after_cursor (some t) (some i) row = comes_before (t, i) (position row)
after_cursor _ _ row = true

after_rows : (ℕ × Target → Bool) → Table Target → Table Target
after_rows p [] = []
after_rows p (row ∷ rows) = let rest = after_rows p rows in if p row then row ∷ rest else rest

unfoldable pub list_for_owner : Owner → Bool → ℕ → Option ℕ → Option ℕ → Table Target → Table Target
unfolding is_owned newest_first after_rows
list_for_owner owner include_archived limit cursor_created_at cursor_id rows =
    let wanted = select (λ t. is_owned owner t && (include_archived || not t.is_archived)) rows in
    take limit (newest_first (after_rows (after_cursor cursor_created_at cursor_id) wanted))

abbrev details : ℕ × Target → TargetDetails
details (id, t) = record { id = id; target = t }

-- The caller is `principal`.
module _ (principal : ℕ) where
  -- The owner that is asked for, if the caller may act for it
  pub owner_of : Option ℕ → Session → Result Owner
  unfolding is_member
  owner_of none s = ok (record { organization = none; user = some principal })
  owner_of (some o) s =
      if is_member principal o s.working.memberships
      then ok (record { organization = some o; user = none })
      else err forbidden

  abbrev is_found : Option (ℕ × Target) → Bool
  is_found none = false
  is_found (some row) = true

  pub insert_target : Owner → NormalizedTarget → Action Session TargetDetails
  insert_target owner normalized = do
    now ← asks (λ s. s.clock)
    id ← uuid4
    let target : Target = record {
      owner_user_id = owner.user;
      owner_organization_id = owner.organization;
      hostname = normalized.hostname;
      normalized_url = normalized.normalized_url;
      is_archived = false;
      created_at = now;
    }
    write (λ db. record db { targets = add id target db.targets })
    pure (record { id = id; target = target })

  -- What follows the normalization
  pub register : NormalizedTarget → Option ℕ → Action Session TargetDetails
  unfolding owner_of find_by_owner_and_url insert_target
  register normalized owner_organization_id = do
    owner ← reads (owner_of owner_organization_id)
    existing ← reads (λ s. find_by_owner_and_url owner normalized.normalized_url s.working.targets)
    refuse_if (is_found existing) duplicate_target
    insert_target owner normalized

  module _ (u : Unicode) (ip_address : Text → Option IpAddress) (urls : UrlLib) where
    unfoldable pub register_target : Text → Text → Option ℕ → Action Session TargetDetails
    unfolding register
    register_target hostname url owner_organization_id = do
      normalized ← lift (normalize_target u ip_address urls hostname url)
      register normalized owner_organization_id

  unfoldable pub get_target : ℕ → Action Session TargetDetails
  get_target id = do
    target ← reads (λ s. visible_target s.working principal id)
    pure (record { id = id; target = target })

  unfoldable pub list_targets :
      Option ℕ → Bool → ℕ → Option ℕ → Option ℕ → Action Session TargetPage
  unfolding owner_of list_for_owner
  list_targets organization_id include_archived limit cursor_created_at cursor_id = do
    owner ← reads (owner_of organization_id)
    rows ← asks (λ s.
        list_for_owner owner include_archived (limit + 1) cursor_created_at cursor_id
          s.working.targets)
    pure (record { items = map details (take limit rows); has_next_page = ltb limit (length rows) })

  unfoldable pub set_archived : ℕ → Bool → Action Session TargetDetails
  set_archived id is_archived = do
    target ← reads (λ s. visible_target s.working principal id)
    write (λ db. record db {
      targets = update id (λ t. record t { is_archived = is_archived }) db.targets;
    })
    pure (record { id = id; target = record target { is_archived = is_archived } })

  unfoldable pub archive_target : ℕ → Action Session (Unit {0})
  archive_target id = do
    reads (λ s. visible_target s.working principal id)
    write
        (λ db. record db { targets = update id (λ t. record t { is_archived = true }) db.targets })
