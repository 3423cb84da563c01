-- ===== src/Targets/Registry/Unique.antt =====
-- An owner has a URL once.
use sentinel_gpt.Common.{
  ℕ, ◌≡◌, refl, Bool, true, false, nat_eq, option_eq, Option, none, some, [], ◌∷◌, arith,
}
use sentinel_gpt.Common.Table.{Table, update, exists-select}
use sentinel_gpt.Common.Table.Distinct.{IsDistinct, IsDistinct-add, IsDistinct-update}
use sentinel_gpt.Common.Text.{Text, Unicode, text_eq}
use sentinel_gpt.Errors.{Result, ok, err, duplicate_target}
use sentinel_gpt.Action.{Action, proceed, reads, refuse_if, ◌>>=◌}
use sentinel_gpt.Targets.Urls.{UrlLib}
use sentinel_gpt.Network.IpAddress.{IpAddress}
use sentinel_gpt.Targets.Normalization.{NormalizedTarget, normalize_target}
use sentinel_gpt.Scans.Store.{Target}
use sentinel_gpt.Scans.Store.Session.{Session, uuid4, write}
use sentinel_gpt.Scans.Requests.{visible_target}
use sentinel_gpt.Targets.Registry.{
  Owner, is_owned, is_same, is_found, scalar_one_or_none, find_by_owner_and_url, owner_of,
  insert_target, register, register_target, set_archived, archive_target,
}

abbrev owner_columns : Target → Owner
owner_columns t = record { organization = t.owner_organization_id; user = t.owner_user_id }

abbrev same_target : Target → Target → Bool
same_target t t' = is_same (owner_columns t) t.normalized_url t'

-- No two targets have the same owner and the same URL.
pub record AreUnique (s : Session) : Type 0 where
  pub distinct : IsDistinct same_target s.working.targets

same_target_sym : (t t' : Target) → same_target t t' ≡ same_target t' t
unfolding is_owned
same_target_sym t t' = ground arith

nothing_found : (rows : Table Target) → scalar_one_or_none rows ≡ ok none → rows ≡ []
unfolding scalar_one_or_none
nothing_found [] e = refl
nothing_found (row ∷ []) e = ground arith
nothing_found (row ∷ other ∷ rows) e = ground arith

module _ (principal : ℕ) where
  -- The row that is inserted
  abbrev new_target : Owner → NormalizedTarget → Session → Target
  new_target owner normalized s = record {
    owner_user_id = owner.user;
    owner_organization_id = owner.organization;
    hostname = normalized.hostname;
    normalized_url = normalized.normalized_url;
    is_archived = false;
    created_at = s.clock;
  }

  -- Where nothing was found, a new row is alone of its owner and URL.
  inserted-AreUnique :
      (owner : Owner) (normalized : NormalizedTarget) (found : Result (Option (ℕ × Target)))
      (s : Session)
      → find_by_owner_and_url owner normalized.normalized_url s.working.targets ≡ found
      → AreUnique s
      → AreUnique
          (proceed
            (λ existing. refuse_if (is_found principal existing) duplicate_target >>= λ _.
              insert_target principal owner normalized)
            found
            s).1
  unfolding find_by_owner_and_url insert_target ◌>>=◌ uuid4 write
  inserted-AreUnique owner normalized (err e') s e h = h
  inserted-AreUnique owner normalized (ok (some row)) s e h = h
  inserted-AreUnique owner normalized (ok none) s e h = record {
    distinct =
        IsDistinct-add same_target same_target_sym s.supply (new_target owner normalized s)
          s.working.targets (exists-select _ s.working.targets (nothing_found _ e)) h.distinct;
  }

  registered-AreUnique :
      (normalized : NormalizedTarget) (owner : Result Owner) (s : Session)
      → AreUnique s
      → AreUnique
          (proceed
            (λ o.
              reads (λ s'. find_by_owner_and_url o normalized.normalized_url s'.working.targets)
              >>= λ existing. refuse_if (is_found principal existing) duplicate_target >>= λ _.
                  insert_target principal o normalized)
            owner
            s).1
  unfolding ◌>>=◌
  registered-AreUnique normalized (err e) s h = h
  registered-AreUnique normalized (ok owner) s h = inserted-AreUnique owner normalized _ s refl h

  archived-AreUnique :
      (id : ℕ) (is_archived : Bool) (s : Session)
      → AreUnique s
      → AreUnique (record s {
        working = record s.working {
          targets = update id (λ t. record t { is_archived = is_archived }) s.working.targets;
        };
      })
  unfolding is_owned
  archived-AreUnique id is_archived s h = record {
    distinct =
        IsDistinct-update same_target id _ (λ t t'. refl) (λ t t'. refl) s.working.targets
          h.distinct;
  }

  -- After a read that may fail, the write of the archive mark
  marked-AreUnique :
      {B : Type 0} (r : Result Target) (rest : Target → Action Session B) (s : Session)
      → AreUnique s
      → ((t : Target) → AreUnique (rest t s).1)
      → AreUnique (proceed rest r s).1
  marked-AreUnique (ok t) rest s h k = k t
  marked-AreUnique (err e) rest s h k = h

  module _ (u : Unicode) (ip_address : Text → Option IpAddress) (urls : UrlLib) where
    normalized-AreUnique :
        (r : Result NormalizedTarget) (owner_organization_id : Option ℕ) (s : Session)
        → AreUnique s
        → AreUnique (proceed (λ n. register principal n owner_organization_id) r s).1
    unfolding register ◌>>=◌
    normalized-AreUnique (err e) o s h = h
    normalized-AreUnique (ok n) o s h = registered-AreUnique n (owner_of principal o s) s h

    -- Registering and archiving keep this: an owner, be it a user or an organization, has a URL once.
    pub register_target-AreUnique :
        (hostname url : Text) (owner_organization_id : Option ℕ) (id : ℕ) (is_archived : Bool)
        (s : Session)
        → AreUnique s
        → AreUnique
            (register_target principal u ip_address urls hostname url owner_organization_id s).1
          × AreUnique (set_archived principal id is_archived s).1
          × AreUnique (archive_target principal id s).1
    unfolding register_target set_archived archive_target ◌>>=◌ write
    register_target-AreUnique hostname url o id is_archived s h = (
      normalized-AreUnique (normalize_target u ip_address urls hostname url) o s h,
      marked-AreUnique (visible_target s.working principal id) _ s h
          (λ t. archived-AreUnique id is_archived s h),
      marked-AreUnique (visible_target s.working principal id) _ s h
          (λ t. archived-AreUnique id true s h),
    )
