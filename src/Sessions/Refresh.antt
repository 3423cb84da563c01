-- ===== src/Sessions/Refresh.antt =====
-- backend/src/domain/users/refresh_service.py. The hash is given; a new raw token and a new primary
-- key come as arguments, and so do the time and what other requests commit in the middle of a call.
pub mod Rotation
pub mod Reuse
pub mod Race
pub mod Grants
use sentinel_gpt.Common.{
  ℕ, ◌+◌, ◌*◌, Bool, true, false, not, ◌||◌, Option, none, some, List, [], ◌∷◌, if◌then◌else◌, leb,
}
use sentinel_gpt.Common.Table.{Table, get, add}
use sentinel_gpt.Common.Text.{Text}
use sentinel_gpt.Sessions.Store.{
  RefreshSession, Sessions, SessionStatus, active, rotated, revoked, get_by_token_hash,
  try_mark_rotated, revoke_family, revoke,
}

pub data RefreshRejection : Type 0 where
  unknown expired inactive_user reused : RefreshRejection

pub record RotatedSession : Type 0 where
  pub user_id : ℕ
  pub family_id : ℕ
  pub raw_token : Text
  pub expires_at : ℕ

-- `RefreshOutcome`: either rotated or rejected with a reason
pub data RefreshOutcome : Type 0 where
  rotation : RotatedSession → RefreshOutcome
  rejection : RefreshRejection → RefreshOutcome

-- What one call draws: a CSPRNG token, a primary key and a family, and the clock in seconds.
pub record Fresh : Type 0 where
  pub raw : Text
  pub session_id : ℕ
  pub family_id : ℕ
  pub now : ℕ

-- `_is_expired`
unfoldable pub is_expired : ℕ → ℕ → Bool
is_expired expires_at now = leb expires_at now

-- `user is None or not user.is_active`, on the `is_active` column
abbrev ineligible : Option Bool → Bool
ineligible none = true
ineligible (some is_active) = not is_active

-- `if not raw_token`
abbrev pub presented : Option Text → Option Text
presented none = none
presented (some []) = none
presented (some (c ∷ raw)) = some (c ∷ raw)

module _ (hash : Text → Text) (refresh_ttl_days : ℕ) where
  expiry : ℕ → ℕ
  expiry now = now + refresh_ttl_days * 86400

  child : Fresh → ℕ → ℕ → RefreshSession
  unfolding expiry
  child fresh user_id family_id = record {
    user_id = user_id;
    family_id = family_id;
    token_hash = hash fresh.raw;
    status = active;
    expires_at = expiry fresh.now;
  }

  unfoldable pub issue_family : ℕ → Fresh → Sessions → (Text × ℕ) × Sessions
  unfolding child expiry
  issue_family user_id fresh t =
      ((fresh.raw, expiry fresh.now), add fresh.session_id (child fresh user_id fresh.family_id) t)

  -- The end of `refresh`: the atomic step and what follows from its result
  rotate : Fresh → ℕ → RefreshSession → Sessions → RefreshOutcome × Sessions
  unfolding child expiry
  rotate fresh i stored t =
      let (won, t') = try_mark_rotated i t in
      if not won then (rejection reused, revoke_family stored.family_id t') else (
        rotation (record {
          user_id = stored.user_id;
          family_id = stored.family_id;
          raw_token = fresh.raw;
          expires_at = expiry fresh.now;
        }),
        add fresh.session_id (child fresh stored.user_id stored.family_id) t',
      )

  -- `refresh` on the row found. `meanwhile` is what other requests commit between the read and the
  -- atomic step.
  checked :
      (ℕ → Option Bool)
      → (Sessions → Sessions)
      → Fresh
      → ℕ
      → RefreshSession
      → SessionStatus
      → Sessions
      → RefreshOutcome × Sessions
  unfolding rotate
  checked users meanwhile fresh i stored revoked t = (rejection unknown, t)
  checked users meanwhile fresh i stored rotated t =
      (rejection reused, revoke_family stored.family_id t)
  checked users meanwhile fresh i stored active t =
      if is_expired stored.expires_at fresh.now
      then (rejection expired, revoke i t)
      else if ineligible (users stored.user_id)
      then (rejection inactive_user, revoke i t)
      else rotate fresh i stored (meanwhile t)

  found :
      (ℕ → Option Bool)
      → (Sessions → Sessions)
      → Fresh
      → Option (ℕ × RefreshSession)
      → Sessions
      → RefreshOutcome × Sessions
  unfolding checked
  found users meanwhile fresh none t = (rejection unknown, t)
  found users meanwhile fresh (some (i, stored)) t =
      checked users meanwhile fresh i stored stored.status t

  token_given :
      (ℕ → Option Bool)
      → (Sessions → Sessions)
      → Fresh
      → Option Text
      → Sessions
      → RefreshOutcome × Sessions
  unfolding found
  token_given users meanwhile fresh none t = (rejection unknown, t)
  token_given users meanwhile fresh (some raw) t =
      found users meanwhile fresh (get_by_token_hash (hash raw) t) t

  unfoldable pub refresh :
      (ℕ → Option Bool)
      → (Sessions → Sessions)
      → Fresh
      → Option Text
      → Sessions
      → RefreshOutcome × Sessions
  unfolding token_given
  refresh users meanwhile fresh raw_token t =
      token_given users meanwhile fresh (presented raw_token) t

  revoke_if_active : Option (ℕ × RefreshSession) → Sessions → Sessions
  revoke_if_active none t = t
  revoke_if_active (some (i, stored)) t = elim stored.status [ active ↦ revoke i t | _ ↦ t ]

  logout_token : Option Text → Sessions → Sessions
  unfolding revoke_if_active
  logout_token none t = t
  logout_token (some raw) t = revoke_if_active (get_by_token_hash (hash raw) t) t

  unfoldable pub logout : Option Text → Sessions → Sessions
  unfolding logout_token
  logout raw_token t = logout_token (presented raw_token) t
