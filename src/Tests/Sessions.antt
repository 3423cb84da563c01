-- ===== src/Tests/Sessions.antt =====
-- backend/src/domain/users/refresh_service.py: one family and its credentials. The stand-in hash
-- leaves a token as it is.
use sentinel_gpt.Common.{
  ℕ, ◌≡◌, ◌≢◌, ◌≤◌, refl, Bool, true, false, Option, none, some, [], ◌∷◌, nat_eq, arith,
}
use sentinel_gpt.Common.Table.{get, first, matching}
use sentinel_gpt.Common.Table.Keys.{IsAbsent}
use sentinel_gpt.Common.Text.{Text, codes, text_eq}
use sentinel_gpt.Sessions.Store.{
  RefreshSession, Sessions, active, rotated, get_by_token_hash, try_mark_rotated,
}
use sentinel_gpt.Sessions.Store.Counts.{live_in}
use sentinel_gpt.Sessions.Store.Steady.{IsSteady-refl}
use sentinel_gpt.Sessions.Refresh.{
  Fresh, RotatedSession, rotation, rejection, reused, refresh, is_expired, logout,
}
use sentinel_gpt.Sessions.Refresh.Rotation.{IsSound, refresh-IsSound}
use sentinel_gpt.Sessions.Refresh.Reuse.{refresh-replay}
use sentinel_gpt.Sessions.Refresh.Race.{refresh-race}
use sentinel_gpt.Sessions.Refresh.Grants.{Granted, refresh-Granted, logout-refresh}

abbrev hash : Text → Text
hash t = t

abbrev eligible : ℕ → Option Bool
eligible user = some true

abbrev alone : Sessions → Sessions
alone t = t

abbrev one_session : Sessions
one_session =
    (
      7,
      record {
        user_id = 1;
        family_id = 3;
        token_hash = codes "old";
        status = active;
        expires_at = 1000;
      },
    )
    ∷ []

abbrev second : Fresh
second = record { raw = codes "new"; session_id = 8; family_id = 0; now = 10 }

abbrev third : Fresh
third = record { raw = codes "newer"; session_id = 9; family_id = 4; now = 20 }

abbrev successor : RotatedSession
successor = record { user_id = 1; family_id = 3; raw_token = codes "new"; expires_at = 86410 }

one_live : (f : ℕ) → live_in f one_session ≤ 1
one_live f = ground arith

one_session-IsSound : IsSound one_session
one_session-IsSound = record { keyed = (tt, tt); single = one_live }

key_free : IsAbsent 8 one_session
key_free = ground arith

rotated_once :
    (refresh hash 1 eligible alone second (some (codes "old")) one_session).0 ≡ rotation successor
unfolding refresh get_by_token_hash first is_expired try_mark_rotated matching
rotated_once = refl

refresh-replay_example :
    ((refresh hash 1 eligible alone third
        (some (codes "old"))
        (refresh hash 1 eligible alone second (some (codes "old")) one_session).1).0
      ≡ rejection reused)
    × (live_in 3
          (refresh hash 1 eligible alone third
            (some (codes "old"))
            (refresh hash 1 eligible alone second (some (codes "old")) one_session).1).1
        ≡ 0)
refresh-replay_example =
    refresh-replay hash 1 eligible eligible alone alone second third b'o' (codes "ld") one_session
      successor (IsSteady-refl one_session) one_session-IsSound rotated_once

refresh-IsSound_example :
    IsSound (refresh hash 1 eligible alone second (some (codes "old")) one_session).1
refresh-IsSound_example =
    refresh-IsSound hash 1 eligible alone second one_session one_session-IsSound one_session-IsSound
      (IsSteady-refl one_session) key_free (some (codes "old"))

refresh-race_example :
    (refresh hash 1 eligible
      (λ u. (refresh hash 1 eligible alone second (some (codes "old")) u).1)
      third
      (some (codes "old"))
      one_session).0
    ≢ rotation successor
refresh-race_example =
    refresh-race hash 1 eligible third second b'o' (codes "ld") one_session successor successor
      one_session-IsSound key_free rotated_once

abbrev spent_session : Sessions
spent_session =
    (
      7,
      record {
        user_id = 1;
        family_id = 3;
        token_hash = codes "old";
        status = rotated;
        expires_at = 1000;
      },
    )
    ∷ []

spent :
    (refresh hash 1 eligible alone second (some (codes "old")) spent_session).0 ≡ rejection reused
unfolding refresh get_by_token_hash first
spent = refl

abbrev spent_row : RefreshSession
spent_row = record {
  user_id = 1;
  family_id = 3;
  token_hash = codes "old";
  status = rotated;
  expires_at = 1000;
}

spent_found : get_by_token_hash (codes "old") spent_session ≡ some (7, spent_row)
unfolding get_by_token_hash first
spent_found = refl

new_family : live_in 4 one_session ≡ 0
unfolding nat_eq
new_family = refl

abbrev live_row : RefreshSession
live_row = record {
  user_id = 1;
  family_id = 3;
  token_hash = codes "old";
  status = active;
  expires_at = 1000;
}

live_found : get_by_token_hash (codes "old") one_session ≡ some (7, live_row)
unfolding get_by_token_hash first
live_found = refl

live_stored : get 7 one_session ≡ some live_row
unfolding get nat_eq
live_stored = refl

unexpired : is_expired 1000 10 ≡ false
unfolding is_expired
unexpired = refl

unused : get_by_token_hash (codes "new") one_session ≡ none
unfolding get_by_token_hash first
unused = refl

refresh-Granted_example :
    Granted hash 1 second live_row
      (refresh hash 1 eligible alone second (some (codes "old")) one_session)
refresh-Granted_example =
    refresh-Granted hash 1 eligible alone second b'o' (codes "ld") 7 live_row live_row one_session
      live_found refl unexpired refl (tt, tt) live_stored refl unused

logout-refresh_example :
    (refresh hash 1 eligible alone second
      (some (codes "old"))
      (logout hash 1 (some (codes "old")) one_session)).0
    ≢ rotation successor
logout-refresh_example =
    logout-refresh hash 1 eligible alone second b'o' (codes "ld") one_session successor
