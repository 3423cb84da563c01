-- ===== src/Sessions/Refresh/Race.antt =====
-- Two calls at once: one credential is rotated once.
use sentinel_gpt.Common.{
  ℕ, ◌≡◌, ◌≢◌, refl, Bool, ◌==◌, nat_eq, Option, none, some, ◌∷◌, arith, Bool-cases, inl, inr,
}
use sentinel_gpt.Common.Table.{get, matching}
use sentinel_gpt.Common.Table.Keys.{first-get, matching-get, IsAbsent}
use sentinel_gpt.Common.Text.{Text, text_eq}
use sentinel_gpt.Sessions.Store.{
  RefreshSession, Sessions, SessionStatus, active, rotated, revoked, is_active, has_hash,
  get_by_token_hash, try_mark_rotated,
}
use sentinel_gpt.Sessions.Store.Steady.{
  IsSteady, IsSteady-refl, IsSteady-trans, IsSteady-add, IsSteady-revoke, IsSteady-revoke_family,
  IsSteady-rotate,
}
use sentinel_gpt.Sessions.Refresh.{
  Fresh, RotatedSession, rotation, rejection, reused, refresh, rotate, checked, found, token_given,
  is_expired, presented, ineligible,
}
use sentinel_gpt.Sessions.Refresh.Rotation.{IsSound, refresh-IsSound}
use sentinel_gpt.Sessions.Refresh.Reuse.{IsMarked, refresh-marks}

module _ (hash : Text → Text) (ttl : ℕ) (users : ℕ → Option Bool) (meanwhile : Sessions → Sessions)
    (fresh : Fresh) where
  rotate-IsSteady :
      (i : ℕ) (stored : RefreshSession) (u : Sessions)
      → IsSteady u (rotate hash ttl fresh i stored u).1
  unfolding rotate try_mark_rotated
  rotate-IsSteady i stored u = elim (Bool-cases (matching i is_active u == 1)) [
    | inl won ↦ simp won (IsSteady-trans _ _ _ (IsSteady-rotate i u) (IsSteady-add _ _ _))
    | inr lost ↦ simp lost (IsSteady-trans _ _ _ (IsSteady-rotate i u) (IsSteady-revoke_family _ _))
  ]

  module _ (t : Sessions) (steady : IsSteady t (meanwhile t)) where
    checked-IsSteady :
        (i : ℕ) (stored : RefreshSession) (status : SessionStatus)
        → IsSteady t (checked hash ttl users meanwhile fresh i stored status t).1
    unfolding checked
    checked-IsSteady i stored revoked = IsSteady-refl t
    checked-IsSteady i stored rotated = IsSteady-revoke_family _ t
    checked-IsSteady i stored active = elim (Bool-cases (is_expired stored.expires_at fresh.now)) [
      | inl x ↦ simp x (IsSteady-revoke i t)
      | inr x ↦ elim (Bool-cases (ineligible (users stored.user_id))) [
        | inl y ↦ simp (x, y) (IsSteady-revoke i t)
        | inr y ↦ simp (x, y) (IsSteady-trans _ _ _ steady (rotate-IsSteady i stored (meanwhile t)))
      ]
    ]

    found-IsSteady :
        (row : Option (ℕ × RefreshSession))
        → IsSteady t (found hash ttl users meanwhile fresh row t).1
    unfolding found
    found-IsSteady none = IsSteady-refl t
    found-IsSteady (some (i, stored)) = checked-IsSteady i stored stored.status

    token_given-IsSteady :
        (raw : Option Text) → IsSteady t (token_given hash ttl users meanwhile fresh raw t).1
    unfolding token_given
    token_given-IsSteady none = IsSteady-refl t
    token_given-IsSteady (some raw) = found-IsSteady _

    -- After a call every hash still finds its row, of the same owner and family: the call is what
    -- the other calls may assume of it.
    pub refresh-IsSteady :
        (raw : Option Text) → IsSteady t (refresh hash ttl users meanwhile fresh raw t).1
    unfolding refresh
    refresh-IsSteady raw = token_given-IsSteady (presented raw)

rotate_lost :
    (hash : Text → Text) (ttl : ℕ) (fresh : Fresh) (i : ℕ) (stored s : RefreshSession)
    (u : Sessions)
    → IsSound u
    → get i u ≡ some s
    → s.status ≡ rotated
    → (rotate hash ttl fresh i stored u).0 ≡ rejection reused
unfolding rotate try_mark_rotated
rotate_lost hash ttl fresh i stored s u sound g e =
    let none_matched = matching-get i is_active u s sound.keyed g in ground arith

marked_lost :
    (hash : Text → Text) (ttl : ℕ) (users : ℕ → Option Bool) (meanwhile : Sessions → Sessions)
    (fresh : Fresh) (token : Text) (i : ℕ) (stored : RefreshSession) (status : SessionStatus)
    (t : Sessions) (r q : RotatedSession)
    → get_by_token_hash token t ≡ some (i, stored)
    → IsSteady t (meanwhile t)
    → IsSound (meanwhile t)
    → IsMarked token r (meanwhile t)
    → (checked hash ttl users meanwhile fresh i stored status t).0 ≢ rotation q
unfolding checked get_by_token_hash
marked_lost hash ttl users meanwhile fresh token i stored revoked t r q e steady sound marked h =
    ground arith
marked_lost hash ttl users meanwhile fresh token i stored rotated t r q e steady sound marked h =
    ground arith
marked_lost hash ttl users meanwhile fresh token i stored active t r q e steady sound
      (j, s, e', rot, _) h =
    let (s', e'', _) = steady token i stored e in
    let row = first-get (has_hash token) (meanwhile t) j s sound.keyed e' in
    let lost = rotate_lost hash ttl fresh j stored s (meanwhile t) sound row rot in ground arith

found_lost :
    (hash : Text → Text) (ttl : ℕ) (users : ℕ → Option Bool) (meanwhile : Sessions → Sessions)
    (fresh : Fresh) (token : Text) (row : Option (ℕ × RefreshSession)) (t : Sessions)
    (r q : RotatedSession)
    → get_by_token_hash token t ≡ row
    → IsSteady t (meanwhile t)
    → IsSound (meanwhile t)
    → IsMarked token r (meanwhile t)
    → (found hash ttl users meanwhile fresh row t).0 ≢ rotation q
unfolding found
found_lost hash ttl users meanwhile fresh token none t r q e steady sound marked h = ground arith
found_lost hash ttl users meanwhile fresh token (some (i, stored)) t r q e steady sound marked h =
    marked_lost hash ttl users meanwhile fresh token i stored stored.status t r q e steady sound
      marked h

-- Two requests present one credential at the same time, and the second one commits between the
-- first one's read and its atomic step. If the second one rotates the credential, the first one does
-- not: a credential has one successor at most.
pub refresh-race :
    (hash : Text → Text) (ttl : ℕ) (users : ℕ → Option Bool) (first_fresh second_fresh : Fresh)
    (c : ℕ) (raw : Text) (t : Sessions) (r q : RotatedSession)
    → IsSound t
    → IsAbsent second_fresh.session_id t
    → (refresh hash ttl users (λ u. u) second_fresh (some (c ∷ raw)) t).0 ≡ rotation r
    → (refresh hash ttl users
        (λ u. (refresh hash ttl users (λ v. v) second_fresh (some (c ∷ raw)) u).1)
        first_fresh
        (some (c ∷ raw))
        t).0
      ≢ rotation q
unfolding refresh token_given
refresh-race hash ttl users first_fresh second_fresh c raw t r q sound fresh_key h =
    found_lost hash ttl users
      (λ u. (refresh hash ttl users (λ v. v) second_fresh (some (c ∷ raw)) u).1) first_fresh
      (hash (c ∷ raw)) _ t r q refl
      (refresh-IsSteady hash ttl users (λ v. v) second_fresh t (IsSteady-refl t) (some (c ∷ raw)))
      (refresh-IsSound hash ttl users (λ v. v) second_fresh t sound sound (IsSteady-refl t)
        fresh_key (some (c ∷ raw)))
      (refresh-marks hash ttl users (λ v. v) second_fresh c raw t r (IsSteady-refl t) sound h)
