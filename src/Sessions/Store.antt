-- ===== src/Sessions/Store.antt =====
-- backend/src/infrastructure/database/repositories/refresh_session_repository.py, on the table of
-- refresh sessions.
pub mod Counts
pub mod Steady
use sentinel_gpt.Common.{
  ℕ, suc, Bool, true, false, ◌==◌, nat_eq, Option, none, some, List, [], ◌∷◌, if◌then◌else◌, ◌&&◌,
}
use sentinel_gpt.Common.Table.{Table, get, first, add, update, update_where, update_if, matching}
use sentinel_gpt.Common.Text.{Text, text_eq}

pub data SessionStatus : Type 0 where
  active rotated revoked : SessionStatus

pub record RefreshSession : Type 0 where
  pub user_id : ℕ
  pub family_id : ℕ
  pub token_hash : Text
  pub status : SessionStatus
  pub expires_at : ℕ

abbrev pub Sessions : Type 0
Sessions = Table RefreshSession

abbrev pub is_active : RefreshSession → Bool
is_active s = elim s.status [ active ↦ true | _ ↦ false ]

abbrev pub has_hash : Text → RefreshSession → Bool
has_hash h s = s.token_hash == h

abbrev pub in_family : ℕ → RefreshSession → Bool
in_family f s = s.family_id == f

abbrev pub set_rotated : RefreshSession → RefreshSession
set_rotated s = record s { status = rotated }

abbrev pub set_revoked : RefreshSession → RefreshSession
set_revoked s = record s { status = revoked }

-- `get_by_token_hash`: the column is unique, so the first row is the only one.
unfoldable pub get_by_token_hash : Text → Sessions → Option (ℕ × RefreshSession)
unfolding text_eq
get_by_token_hash h t = first (has_hash h) t

-- `try_mark_rotated`: the table after the UPDATE, and whether it matched one row.
unfoldable pub try_mark_rotated : ℕ → Sessions → Bool × Sessions
unfolding nat_eq
try_mark_rotated i t = (matching i is_active t == 1, update_if i is_active set_rotated t)

unfoldable pub revoke_family : ℕ → Sessions → Sessions
unfolding nat_eq
revoke_family f t = update_where (in_family f) set_revoked t

unfoldable pub revoke : ℕ → Sessions → Sessions
revoke i t = update i set_revoked t
