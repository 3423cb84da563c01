-- ===== src/Sessions/Refresh/Grants.antt =====
-- What a call answers when nothing is wrong, and what it answers after a logout.
use sentinel_gpt.Common.{
  ℕ, ◌+◌, ◌*◌, ◌≡◌, ◌≢◌, refl, Bool, true, false, nat_eq, Option, none, some, ◌∷◌, arith,
}
use sentinel_gpt.Common.Table.{get, matching}
use sentinel_gpt.Common.Table.Keys.{IsKeyed, matching-get}
use sentinel_gpt.Common.Table.Searches.{first-add-none, first-update_if-none, first-update}
use sentinel_gpt.Common.Text.{Text, text_eq}
use sentinel_gpt.Sessions.Store.{
  RefreshSession, Sessions, SessionStatus, active, rotated, revoked, is_active, has_hash,
  set_rotated, set_revoked, get_by_token_hash, try_mark_rotated, revoke,
}
use sentinel_gpt.Sessions.Refresh.{
  Fresh, RotatedSession, RefreshOutcome, rotation, refresh, rotate, checked, found, token_given,
  child, expiry, is_expired, logout, logout_token, revoke_if_active,
}

-- The session that a rotation hands out
abbrev successor_of : ℕ → Fresh → RefreshSession → RotatedSession
successor_of ttl fresh stored = record {
  user_id = stored.user_id;
  family_id = stored.family_id;
  raw_token = fresh.raw;
  expires_at = fresh.now + ttl * 86400;
}

abbrev pub Granted : (Text → Text) → ℕ → Fresh → RefreshSession → RefreshOutcome × Sessions → Type 0
Granted hash ttl fresh stored (outcome, t) =
    (outcome ≡ rotation (successor_of ttl fresh stored))
    × (s : RefreshSession) × (get_by_token_hash (hash fresh.raw) t ≡ some (fresh.session_id, s))
    × (s.status ≡ active)
    × (s.user_id ≡ stored.user_id)
    × (s.family_id ≡ stored.family_id)
    × (s.expires_at ≡ fresh.now + ttl * 86400)

module _ (hash : Text → Text) (ttl : ℕ) (users : ℕ → Option Bool) (meanwhile : Sessions → Sessions)
    (fresh : Fresh) where
  rotate-Granted :
      (i : ℕ) (stored s : RefreshSession) (u : Sessions)
      → IsKeyed u
      → get i u ≡ some s
      → s.status ≡ active
      → get_by_token_hash (hash fresh.raw) u ≡ none
      → Granted hash ttl fresh stored (rotate hash ttl fresh i stored u)
  unfolding rotate try_mark_rotated child expiry get_by_token_hash
  rotate-Granted i stored s u keyed g e unused =
      let one : matching i is_active u ≡ 1 =
        let matched = matching-get i is_active u s keyed g in ground arith in
      let still =
        first-update_if-none (has_hash (hash fresh.raw)) set_rotated (λ s. refl) i is_active u
          unused in
      simp one (
        refl,
        child hash ttl fresh stored.user_id stored.family_id,
        first-add-none (has_hash (hash fresh.raw)) fresh.session_id
            (child hash ttl fresh stored.user_id stored.family_id) _ (ground arith) still,
        refl,
        refl,
        refl,
        refl,
      )

  -- A credential that is live and not expired, of an active user, is exchanged for a new one when no
  -- other request has changed its row before the atomic step: the answer is the new credential, of
  -- the same user and family and with a new time limit, and the hash of the new token now finds an
  -- ACTIVE row with these. (Primary keys are unique and the random token is not in use.)
  pub refresh-Granted :
      (c : ℕ) (raw : Text) (i : ℕ) (stored s : RefreshSession) (t : Sessions)
      → get_by_token_hash (hash (c ∷ raw)) t ≡ some (i, stored)
      → stored.status ≡ active
      → is_expired stored.expires_at fresh.now ≡ false
      → users stored.user_id ≡ some true
      → IsKeyed (meanwhile t)
      → get i (meanwhile t) ≡ some s
      → s.status ≡ active
      → get_by_token_hash (hash fresh.raw) (meanwhile t) ≡ none
      → Granted hash ttl fresh stored (refresh hash ttl users meanwhile fresh (some (c ∷ raw)) t)
  unfolding refresh token_given found checked
  refresh-Granted c raw i stored s t e live valid user keyed row still unused =
      simp (e, live, valid, user) (rotate-Granted i stored s (meanwhile t) keyed row still unused)

module _ (hash : Text → Text) (ttl : ℕ) (users : ℕ → Option Bool) (meanwhile : Sessions → Sessions)
    (fresh : Fresh) where
  checked-refuses :
      (i : ℕ) (stored : RefreshSession) (status : SessionStatus) (t : Sessions) (r : RotatedSession)
      → status ≢ active
      → (checked hash ttl users meanwhile fresh i stored status t).0 ≢ rotation r
  unfolding checked
  checked-refuses i stored revoked t r dead h = ground arith
  checked-refuses i stored rotated t r dead h = ground arith
  checked-refuses i stored active t r dead h = absurd (dead refl)

  found-refuses :
      (i : ℕ) (stored : RefreshSession) (row : Option (ℕ × RefreshSession)) (t : Sessions)
      (r : RotatedSession)
      → row ≡ some (i, stored)
      → stored.status ≢ active
      → (found hash ttl users meanwhile fresh row t).0 ≢ rotation r
  unfolding found
  found-refuses i stored row t r e dead = rw e (checked-refuses i stored stored.status t r dead)

  -- The row that was found, in each status, after a logout
  row-refuses :
      (h : Text) (i : ℕ) (stored : RefreshSession) (status : SessionStatus) (t : Sessions)
      (r : RotatedSession)
      → stored.status ≡ status
      → get_by_token_hash h t ≡ some (i, stored)
      → (found hash ttl users meanwhile fresh
          (get_by_token_hash h (revoke_if_active hash ttl (some (i, stored)) t))
          (revoke_if_active hash ttl (some (i, stored)) t)).0
        ≢ rotation r
  unfolding revoke_if_active revoke get_by_token_hash
  row-refuses h i stored active t r e g = simp e (
      found-refuses i (set_revoked stored) _ (revoke i t) r
        (ground (arith, first-update (has_hash h) set_revoked (λ s. refl) i t i stored g))
        (λ live. ground arith))
  row-refuses h i stored rotated t r e g =
      simp e (found-refuses i stored _ t r g (λ live. ground arith))
  row-refuses h i stored revoked t r e g =
      simp e (found-refuses i stored _ t r g (λ live. ground arith))

  logged_out-refuses :
      (h : Text) (row : Option (ℕ × RefreshSession)) (t : Sessions) (r : RotatedSession)
      → get_by_token_hash h t ≡ row
      → (found hash ttl users meanwhile fresh
          (get_by_token_hash h (revoke_if_active hash ttl row t))
          (revoke_if_active hash ttl row t)).0
        ≢ rotation r
  unfolding revoke_if_active found
  logged_out-refuses h none t r e k = ground (arith, e)
  logged_out-refuses h (some (i, stored)) t r e k =
      row-refuses h i stored stored.status t r refl e k

  -- After a logout the credential that was presented is refused, whatever happened to it before.
  pub logout-refresh :
      (c : ℕ) (raw : Text) (t : Sessions) (r : RotatedSession)
      → (refresh hash ttl users meanwhile fresh
          (some (c ∷ raw))
          (logout hash ttl (some (c ∷ raw)) t)).0
        ≢ rotation r
  unfolding refresh token_given logout logout_token
  logout-refresh c raw t r = logged_out-refuses (hash (c ∷ raw)) _ t r refl
